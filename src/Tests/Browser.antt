-- ===== src/Tests/Browser.antt =====
-- A browser whose identifiers are numbers that spell the string or the integer.
use nspluginwrapper.Prelude.{
  ℕ, ◌+◌, ◌*◌, ◌/◌, ◌%◌, ◌==◌, ==_iff, true, false, Bool-cases, if◌then◌else◌, if_true, if_false, ℤ,
  pos, negsuc, ◌≡◌, ◌≢◌, refl, sym, ap, ◌∙◌, inl, inr, arith,
}
use nspluginwrapper.Identifiers.{Text}
use nspluginwrapper.Identifiers.Browser.{Meaning, name, number, unknown, Browser}
use nspluginwrapper.Tests.Spelling.{
  text_bits, number_of_bits, number_of_bits_pos, string_code, text_of, text_of-string_code,
  int_code, int_of,
}

-- An even number spells a string, if the string is spelled so; an odd one stands for an integer.
unfoldable pub meaning_of : ℕ → Meaning
unfolding text_of string_code int_of
meaning_of k =
    if k % 2 == 0
    then (if string_code (text_of k) == k then name (text_of k) else unknown)
    else number (int_of k)

string_code_even : (s : Text) → (string_code s % 2 == 0) ≡ true
unfolding string_code
string_code_even s =
    let n = number_of_bits (text_bits s) in let even : 2 * n % 2 ≡ 0 = omega arith in ground arith

int_code_odd : (v : ℤ) → (int_code v % 2 == 0) ≡ false
unfolding int_code
int_code_odd (pos n) = let odd : (4 * n + 1) % 2 ≡ 1 = omega arith in ground arith
int_code_odd (negsuc n) = let odd : (4 * n + 3) % 2 ≡ 1 = omega arith in ground arith

int_of-int_code : (v : ℤ) → int_of (int_code v) ≡ v
unfolding int_of int_code
int_of-int_code (pos n) =
    let low : (4 * n + 1) % 4 ≡ 1 = omega arith in
    if_true ((4 * n + 1) % 4 == 1) (pos ((4 * n + 1) / 4)) (negsuc ((4 * n + 1) / 4)) (ground arith)
    ∙ ap pos (omega arith)
int_of-int_code (negsuc n) =
    let low : (4 * n + 3) % 4 ≡ 3 = omega arith in
    if_false ((4 * n + 3) % 4 == 1) (pos ((4 * n + 3) / 4)) (negsuc ((4 * n + 3) / 4))
      (ground arith)
    ∙ ap negsuc (omega arith)

int_code-int_of : (k : ℕ) → (k % 2 == 0) ≡ false → int_code (int_of k) ≡ k
unfolding int_of int_code
int_code-int_of k e = elim (Bool-cases (k % 4 == 1)) [
  | inl one ↦
      let low : k % 4 ≡ 1 = (==_iff (k % 4) 1).0 one in
      ap int_code (if_true (k % 4 == 1) (pos (k / 4)) (negsuc (k / 4)) one) ∙ omega arith
  | inr three ↦
      let low : k % 4 ≡ 3 = int_rest k e three in
      ap int_code (if_false (k % 4 == 1) (pos (k / 4)) (negsuc (k / 4)) three) ∙ omega arith
]
  where
    int_rest : (k : ℕ) → (k % 2 == 0) ≡ false → (k % 4 == 1) ≡ false → k % 4 ≡ 3
    int_rest k e three =
        let odd : k % 2 ≢ 0 = λ z. ground arith in
        let other : k % 4 ≢ 1 = λ z. ground arith in omega arith

pub string_code-meaning : (s : Text) → meaning_of (string_code s) ≡ name s
unfolding meaning_of
string_code-meaning s =
    let k = string_code s in
    let again : text_of k ≡ s = text_of-string_code s in
    if_true (k % 2 == 0) (if string_code (text_of k) == k then name (text_of k) else unknown)
      (number (int_of k)) (string_code_even s)
    ∙ if_true (string_code (text_of k) == k) (name (text_of k)) unknown
        ((==_iff (string_code (text_of k)) k).1 (ap string_code again))
    ∙ ap name again

pub int_code-meaning : (v : ℤ) → meaning_of (int_code v) ≡ number v
unfolding meaning_of
int_code-meaning v =
    let k = int_code v in
    if_false (k % 2 == 0) (if string_code (text_of k) == k then name (text_of k) else unknown)
      (number (int_of k)) (int_code_odd v)
    ∙ ap number (int_of-int_code v)

even_code :
    (k : ℕ) (s : Text) (m : Meaning)
    → (if string_code (text_of k) == k then name (text_of k) else unknown) ≡ m
    → m ≡ name s
    → k ≡ string_code s
even_code k s m e f = elim (Bool-cases (string_code (text_of k) == k)) [
  | inl spelled ↦
      let read_as : name (text_of k) ≡ name s =
        sym (if_true (string_code (text_of k) == k) (name (text_of k)) unknown spelled) ∙ e ∙ f in
      let same : text_of k ≡ s = cc in
      sym ((==_iff (string_code (text_of k)) k).0 spelled) ∙ ap string_code same
  | inr other ↦
      let bad : unknown ≡ name s =
        sym (if_false (string_code (text_of k) == k) (name (text_of k)) unknown other) ∙ e ∙ f in
      cc
]

even_unknown :
    (k : ℕ) (v : ℤ)
    → (if string_code (text_of k) == k then name (text_of k) else unknown) ≢ number v
even_unknown k v e = ground arith

pub name_code : (k : ℕ) (s : Text) → meaning_of k ≡ name s → k ≡ string_code s
unfolding meaning_of
name_code k s e =
    let even = if string_code (text_of k) == k then name (text_of k) else unknown in
    elim (Bool-cases (k % 2 == 0)) [
      | inl two ↦
          even_code k s (name s) (sym (if_true (k % 2 == 0) even (number (int_of k)) two) ∙ e) refl
      | inr one ↦
          let bad : number (int_of k) ≡ name s =
            sym (if_false (k % 2 == 0) even (number (int_of k)) one) ∙ e in
          cc
    ]

pub number_code : (k : ℕ) (v : ℤ) → meaning_of k ≡ number v → k ≡ int_code v
unfolding meaning_of
number_code k v e =
    let even = if string_code (text_of k) == k then name (text_of k) else unknown in
    elim (Bool-cases (k % 2 == 0)) [
      | inl two ↦
          absurd (even_unknown k v (sym (if_true (k % 2 == 0) even (number (int_of k)) two) ∙ e))
      | inr one ↦
          let value : number (int_of k) ≡ number v =
            sym (if_false (k % 2 == 0) even (number (int_of k)) one) ∙ e in
          let same : int_of k ≡ v = cc in sym (int_code-int_of k one) ∙ ap int_code same
    ]

pub string_code_pos : (s : Text) → string_code s ≢ 0
unfolding string_code
string_code_pos s e = let n = number_of_bits_pos (text_bits s) in absurd (omega arith)

pub int_code_pos : (v : ℤ) → int_code v ≢ 0
unfolding int_code
int_code_pos (pos n) e = absurd (omega arith)
int_code_pos (negsuc n) e = absurd (omega arith)

abbrev pub browser : Browser
browser = record {
  string_identifier = string_code;
  int_identifier = int_code;
  meaning = meaning_of;
  string_identifier-meaning = string_code-meaning;
  int_identifier-meaning = int_code-meaning;
  name_unique = name_code;
  number_unique = number_code;
  string_identifier_non_null = string_code_pos;
  int_identifier_non_null = int_code_pos;
}
