-- ===== src/Identifiers/Strings.antt =====
-- The comparisons of npidentifier_cache_find_info, src/npw-viewer.c, decide equality.
use nspluginwrapper.Prelude.{
  subst, ℕ, zero, suc, ◌+◌, ◌-◌, ◌<◌, ◌^◌, true, List, [], ◌∷◌, ◌++◌, length, length-append, take,
  take_all, take-append_le, ℤ, ==ℤ_iff, ◌≡◌, ◌≢◌, refl, sym, ap, ◌∙◌, arith,
}
use nspluginwrapper.Identifiers.{
  Text, string, NpIdentifierInfo, size_of, copy, int_info, string_info, memcmp_equal,
  cache_find_info,
}

-- Its size is a `guint`.
abbrev pub Fits : Text → Type 0
Fits str = length str + 1 < 2 ^ 32

memcmp_equal_same : (a : List ℕ) → memcmp_equal (length a) a a ≡ true
unfolding memcmp_equal
memcmp_equal_same [] = refl
memcmp_equal_same (x ∷ xs) = ground (arith, memcmp_equal_same xs)

memcmp_equal_path :
    (n : ℕ) (a b : List ℕ) → memcmp_equal n a b ≡ true → length a ≡ n → length b ≡ n → a ≡ b
unfolding memcmp_equal
memcmp_equal_path n [] [] e p q = refl
memcmp_equal_path n [] (y ∷ ys) e p q = absurd (omega arith)
memcmp_equal_path n (x ∷ xs) [] e p q = absurd (omega arith)
memcmp_equal_path zero (x ∷ xs) (y ∷ ys) e p q = absurd (omega arith)
memcmp_equal_path (suc n) (x ∷ xs) (y ∷ ys) e p q =
    let ih = λ (h : memcmp_equal n xs ys ≡ true).
      memcmp_equal_path n xs ys h (omega arith) (omega arith) in
    let head : x ≡ y = ground arith in
    let tail : memcmp_equal n xs ys ≡ true = ground arith in rw (head, ih tail)

-- The text before the last byte.
abbrev pub before_last : List ℕ → Text
before_last a = take (length a - 1) a

pub before_last-terminated : (s : Text) → before_last (s ++ 0 ∷ []) ≡ s
before_last-terminated s =
    let e : length (s ++ 0 ∷ []) - 1 ≡ length s = omega (arith, length-append {0} s (0 ∷ [])) in
    rw (e, take-append_le (length s) s (0 ∷ []) (omega arith)) (take_all (length s) s (omega arith))

pub copy_whole : (s : Text) → Fits s → copy (size_of s) s ≡ s ++ 0 ∷ []
copy_whole s f = take_all (size_of s) (s ++ 0 ∷ []) (omega (arith, length-append {0} s (0 ∷ [])))

-- The argument of a search for a string.
abbrev pub sought : Text → NpIdentifierInfo
sought s = record { string_len = size_of s; u = string (s ++ 0 ∷ []) }

pub string_info-sought : (s : Text) → Fits s → string_info s ≡ sought s
string_info-sought s f =
    ap (λ (a : List ℕ). record { string_len = size_of s; u = string a }) (copy_whole s f)

size_of_length : (s : Text) → Fits s → length (s ++ 0 ∷ []) ≡ size_of s
size_of_length s f = omega (arith, length-append {0} s (0 ∷ []))

pub find_info-same_string : (s : Text) → Fits s → cache_find_info (sought s) (sought s) ≡ true
unfolding cache_find_info
find_info-same_string s f =
    let same : memcmp_equal (size_of s) (s ++ 0 ∷ []) (s ++ 0 ∷ []) ≡ true =
      subst (λ n. memcmp_equal n (s ++ 0 ∷ []) (s ++ 0 ∷ []) ≡ true) (size_of_length s f)
        (memcmp_equal_same (s ++ 0 ∷ [])) in
    let long : 0 < size_of s = omega arith in ground arith

-- An entry for a string fits the search for a string only if they are one.
pub find_info-string :
    (s t : Text) → Fits s → Fits t → cache_find_info (sought s) (sought t) ≡ true → s ≡ t
unfolding cache_find_info
find_info-string s t f g e =
    let long : 0 < size_of s = omega arith in
    let sizes : size_of t ≡ size_of s = ground arith in
    let equal : memcmp_equal (size_of s) (s ++ 0 ∷ []) (t ++ 0 ∷ []) ≡ true = ground arith in
    let bytes : s ++ 0 ∷ [] ≡ t ++ 0 ∷ [] =
      memcmp_equal_path (size_of s) (s ++ 0 ∷ []) (t ++ 0 ∷ []) equal (size_of_length s f)
        (size_of_length t g ∙ sizes) in
    sym (before_last-terminated s) ∙ ap before_last bytes ∙ before_last-terminated t

pub find_info-string-int :
    (s : Text) (v : ℤ) → Fits s → cache_find_info (sought s) (int_info v) ≢ true
unfolding cache_find_info
find_info-string-int s v f e = grind arith

pub find_info-int-string :
    (s : Text) (v : ℤ) → Fits s → cache_find_info (int_info v) (sought s) ≢ true
unfolding cache_find_info
find_info-int-string s v f e = grind arith

pub find_info-int : (v w : ℤ) → cache_find_info (int_info v) (int_info w) ≡ true → v ≡ w
unfolding cache_find_info
find_info-int v w e = (==ℤ_iff v w).0 e

pub find_info-same_int : (v : ℤ) → cache_find_info (int_info v) (int_info v) ≡ true
unfolding cache_find_info
find_info-same_int v = (==ℤ_iff v v).1 refl
