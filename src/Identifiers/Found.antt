-- ===== src/Identifiers/Found.antt =====
-- npidentifier_cache_find of src/npw-viewer.c, in both of its builds: what it finds in a cache that
-- holds what the browser means, and that it finds what is there.
use nspluginwrapper.Prelude.{
  ℕ, ◌==◌, Bool, true, false, if◌then◌else◌, List, [], ◌∷◌, All, Option, none, some, ℤ, ◌≡◌, ◌≢◌,
  sym, ap, subst, ◌∙◌, ◌⊎◌, inl, inr, Bool-cases, arith,
}
use nspluginwrapper.Glib.{ValueTable}
use nspluginwrapper.Identifiers.{
  Text, NpIdentifierInfo, Cache, int_info, cache_find_info, first_fit, visited, visit, found_ident,
  find_in, cache_has_int, cache_has_string,
}
use nspluginwrapper.Identifiers.Strings.{
  Fits, sought, find_info-string, find_info-string-int, find_info-int-string, find_info-int,
}
use nspluginwrapper.Identifiers.Browser.{name, number, Browser}
use nspluginwrapper.Identifiers.Coherent.{Tells, tells_name, tells_number, OptionTells, Coherent}

-- An entry `k` among those of which `P` holds fits.
abbrev FitsIn : NpIdentifierInfo → (ℕ × NpIdentifierInfo → Type 0) → ℕ → Type 0
FitsIn args P k = (npi : NpIdentifierInfo) × P (k, npi) × (cache_find_info args npi ≡ true)

first_fit-FitsIn :
    (args : NpIdentifierInfo) (P : ℕ × NpIdentifierInfo → Type 0) (es : List (ℕ × NpIdentifierInfo))
    (k : ℕ)
    → All P es
    → first_fit args es ≡ some k
    → FitsIn args P k
unfolding first_fit
first_fit-FitsIn args P [] k h e = cc
first_fit-FitsIn args P ((j, npi) ∷ es) k h e = elim (Bool-cases (cache_find_info args npi)) [
  | inl fits ↦
      let found : some j ≡ some k =
        ap (λ t. if t then some j else first_fit args es) (sym fits) ∙ e in
      let key : j ≡ k = cc in subst (FitsIn args P) key (npi, h.0, fits)
  | inr other ↦
      first_fit-FitsIn args P es k h.1
        (ap (λ t. if t then some j else first_fit args es) (sym other) ∙ e)
]

visited_cases :
    (args : NpIdentifierInfo) (ident j : ℕ) (npi : NpIdentifierInfo) (k : ℕ)
    → visited args ident j npi ≡ k
    → k ≢ 0
    → (ident ≡ k) ⊎ ((j ≡ k) × (cache_find_info args npi ≡ true))
visited_cases args ident j npi k e n = elim (Bool-cases (ident == 0)) [
  | inl null ↦ elim (Bool-cases (cache_find_info args npi)) [
    | inl fits ↦ inr (ground arith, fits)
    | inr other ↦ absurd (n (ground arith))
  ]
  | inr old ↦ inl (ground arith)
]

visit-FitsIn :
    (args : NpIdentifierInfo) (P : ℕ × NpIdentifierInfo → Type 0) (es : List (ℕ × NpIdentifierInfo))
    → (ident k : ℕ) → All P es
    → visit args ident es ≡ k
    → k ≢ 0
    → (ident ≡ k) ⊎ FitsIn args P k
unfolding visit
visit-FitsIn args P [] ident k h e n = inl e
visit-FitsIn args P ((j, npi) ∷ es) ident k h e n =
    elim (visit-FitsIn args P es (visited args ident j npi) k h.1 e n) [
      | inl now ↦ elim (visited_cases args ident j npi k now n) [
        | inl old ↦ inl old
        | inr fits ↦ inr (subst (FitsIn args P) fits.0 (npi, h.0, fits.1))
      ]
      | inr later ↦ inr later
    ]

found_ident-some : (n k : ℕ) → found_ident n ≡ some k → (n ≡ k) × (k ≢ 0)
found_ident-some n k e = elim (Bool-cases (n == 0)) [
  | inl null ↦
      let missing : none ≡ some k = ap (λ t. if t then none else some n) (sym null) ∙ e in cc
  | inr found ↦
      let same : some n ≡ some k = ap (λ t. if t then none else some n) (sym found) ∙ e in
      let key : n ≡ k = cc in (key, λ z. let zero_n : n ≡ 0 = key ∙ z in ground arith)
]

module _ (tables : ValueTable NpIdentifierInfo) (has_find : Bool) (b : Browser) where
  open tables use {Table, lookup, entries}

  abbrev FoundIn : NpIdentifierInfo → ℕ → Table → Type 0
  FoundIn args k t =
      (npi : NpIdentifierInfo) × (lookup k t ≡ some npi) × (cache_find_info args npi ≡ true)

  visit_found :
      (args : NpIdentifierInfo) (k : ℕ) (t : Table)
      → found_ident (visit args 0 (entries t)) ≡ some k
      → FoundIn args k t
  visit_found args k t e =
      let (key, kept) = found_ident-some (visit args 0 (entries t)) k e in
      elim (visit-FitsIn args (λ e. lookup e.0 t ≡ some e.1) (entries t) 0 k
        (tables.lookup-entries t) key kept) [
          | inl zero_key ↦ absurd (kept (sym zero_key))
          | inr fits ↦ fits
        ]

  found_in :
      (args : NpIdentifierInfo) (k : ℕ) (t : Table) (h : Bool)
      → (if h then first_fit args (entries t) else found_ident (visit args 0 (entries t))) ≡ some k
      → FoundIn args k t
  found_in args k t true e =
      first_fit-FitsIn args (λ e. lookup e.0 t ≡ some e.1) (entries t) k (tables.lookup-entries t) e
  found_in args k t false e = visit_found args k t e

  Tells-string :
      (s : Text) (k : ℕ) (npi : NpIdentifierInfo)
      → Fits s
      → Tells b k npi
      → cache_find_info (sought s) npi ≡ true
      → b.meaning k ≡ name s
  Tells-string s k npi f (tells_name r e m g) fits =
      let same : s ≡ r =
        find_info-string s r f g (ap (cache_find_info (sought s)) (sym e) ∙ fits) in
      m ∙ ap name (sym same)
  Tells-string s k npi f (tells_number v e m) fits =
      absurd (find_info-string-int s v f (ap (cache_find_info (sought s)) (sym e) ∙ fits))

  Tells-int :
      (v : ℤ) (k : ℕ) (npi : NpIdentifierInfo)
      → Tells b k npi
      → cache_find_info (int_info v) npi ≡ true
      → b.meaning k ≡ number v
  Tells-int v k npi (tells_name r e m g) fits =
      absurd (find_info-int-string r v g (ap (cache_find_info (int_info v)) (sym e) ∙ fits))
  Tells-int v k npi (tells_number w e m) fits =
      let same : v ≡ w = find_info-int v w (ap (cache_find_info (int_info v)) (sym e) ∙ fits) in
      m ∙ ap number (sym same)

  find_in-name :
      (s : Text) (k : ℕ) (o : Option Table)
      → Fits s
      → OptionTells tables b o
      → find_in tables has_find (sought s) o ≡ some k
      → b.meaning k ≡ name s
  find_in-name s k none f h e = cc
  find_in-name s k (some t) f h e =
      let (npi, there, fits) = found_in (sought s) k t has_find e in
      Tells-string s k npi f (h k npi there) fits

  -- An identifier that is found for a string is the string's.
  pub has_string-name :
      (s : Text) (k : ℕ) (c : Cache Table)
      → Fits s
      → Coherent tables b c
      → cache_has_string tables has_find s c ≡ some k
      → b.meaning k ≡ name s
  unfolding cache_has_string
  has_string-name s k c f h e = find_in-name s k c.table f h e

  find_in-number :
      (v : ℤ) (k : ℕ) (o : Option Table)
      → OptionTells tables b o
      → find_in tables has_find (int_info v) o ≡ some k
      → b.meaning k ≡ number v
  find_in-number v k none h e = cc
  find_in-number v k (some t) h e =
      let (npi, there, fits) = found_in (int_info v) k t has_find e in
      Tells-int v k npi (h k npi there) fits

  -- An identifier that is found for an integer is the integer's.
  pub has_int-number :
      (v : ℤ) (k : ℕ) (c : Cache Table)
      → Coherent tables b c
      → cache_has_int tables has_find v c ≡ some k
      → b.meaning k ≡ number v
  unfolding cache_has_int
  has_int-number v k c h e = find_in-number v k c.table h e
