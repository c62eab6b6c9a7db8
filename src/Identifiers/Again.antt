-- ===== src/Identifiers/Again.antt =====
-- What the cache of src/npw-viewer.c saves: a second call that asks the browser nothing. The reply
-- of a failed NPN_IntFromIdentifier is kept too.
use mathlib.Core.List.{Memᴰ}
use nspluginwrapper.Prelude.{
  ℕ, ◌==◌, ==_iff, Bool, true, false, Bool-cases, if◌then◌else◌, List, [], ◌∷◌, Option, none, some,
  Option-cases, ℤ, ◌≡◌, ◌≢◌, refl, sym, ap, ◌∙◌, inl, inr, arith,
}
use nspluginwrapper.Rpc.Error.{ok}
use nspluginwrapper.Rpc.Action.{return, halt}
use nspluginwrapper.Glib.{ValueTable}
use nspluginwrapper.Identifiers.{
  Text, NpIdentifierInfo, Cache, allocates, allocated, add_to, made_table, int_info,
  cache_find_info, first_fit, visited, visit, found_ident, find_in, info_in, cache_reserve,
  cache_lookup, cache_add_int, cache_has_string,
}
use nspluginwrapper.Identifiers.Strings.{Fits, sought, find_info-same_string}
use nspluginwrapper.Identifiers.Cached.{
  Peer, invoke_int_from_identifier, int_from, ask_string, cached_int_from_identifier,
  cached_get_string_identifier,
}
use nspluginwrapper.Identifiers.Browser.{name, number, Browser}
use nspluginwrapper.Identifiers.Coherent.{Tells, tells_name, tells_number, Coherent, Tells-lookup}
use nspluginwrapper.Identifiers.Found.{has_string-name}

-- An entry that fits is found, or another one before it.
first_fit-member :
    (args npi : NpIdentifierInfo) (k : ℕ) (es : List (ℕ × NpIdentifierInfo))
    → Memᴰ (k, npi) es
    → cache_find_info args npi ≡ true
    → first_fit args es ≢ none
unfolding first_fit
first_fit-member args npi k [] m fits missing = elim m [ ]
first_fit-member args npi k ((j, n) ∷ es) (Memᴰ.head e) fits missing =
    let here : cache_find_info args n ≡ true = ap (λ p. cache_find_info args p.1) (sym e) ∙ fits in
    let found : some j ≡ none =
      ap (λ t. if t then some j else first_fit args es) (sym here) ∙ missing in
    cc
first_fit-member args npi k ((j, n) ∷ es) (Memᴰ.tail m) fits missing =
    elim (Bool-cases (cache_find_info args n)) [
      | inl here ↦
          let found : some j ≡ none =
            ap (λ t. if t then some j else first_fit args es) (sym here) ∙ missing in
          cc
      | inr other ↦
          first_fit-member args npi k es m fits
            (ap (λ t. if t then some j else first_fit args es) (sym other) ∙ missing)
    ]

visited_non_null :
    (args npi : NpIdentifierInfo) (ident k : ℕ)
    → cache_find_info args npi ≡ true
    → k ≢ 0
    → visited args ident k npi ≢ 0
visited_non_null args npi ident k fits n e = grind arith

visited_kept :
    (args npi : NpIdentifierInfo) (ident k : ℕ) → ident ≢ 0 → visited args ident k npi ≡ ident
visited_kept args npi ident k n = grind arith

visit-kept :
    (args : NpIdentifierInfo) (es : List (ℕ × NpIdentifierInfo)) (ident : ℕ)
    → ident ≢ 0
    → visit args ident es ≡ ident
unfolding visit
visit-kept args [] ident n = refl
visit-kept args ((j, npi) ∷ es) ident n =
    ap (λ i. visit args i es) (visited_kept args npi ident j n) ∙ visit-kept args es ident n

visit-member :
    (args npi : NpIdentifierInfo) (k : ℕ) (es : List (ℕ × NpIdentifierInfo)) (ident : ℕ)
    → Memᴰ (k, npi) es
    → cache_find_info args npi ≡ true
    → k ≢ 0
    → visit args ident es ≢ 0
unfolding visit
visit-member args npi k [] ident m fits n missing = elim m [ ]
visit-member args npi k ((j, i) ∷ es) ident (Memᴰ.head e) fits n missing =
    let key : k ≡ j = ap (λ p. p.0) e in
    let here : cache_find_info args i ≡ true = ap (λ p. cache_find_info args p.1) (sym e) ∙ fits in
    let kept : visited args ident j i ≢ 0 =
      visited_non_null args i ident j here (λ z. n (key ∙ z)) in
    kept (sym (visit-kept args es (visited args ident j i) kept) ∙ missing)
visit-member args npi k ((j, i) ∷ es) ident (Memᴰ.tail m) fits n missing =
    visit-member args npi k es (visited args ident j i) m fits n missing

found_ident-none : (n : ℕ) → found_ident n ≡ none → n ≡ 0
found_ident-none n e = elim (Bool-cases (n == 0)) [
  | inl null ↦ (==_iff n 0).0 null
  | inr other ↦
      let found : some n ≡ none = ap (λ t. if t then none else some n) (sym other) ∙ e in cc
]

-- The entry of the identifier of a string fits the search for it.
string_identifier-sought :
    (b : Browser) (s : Text) (npi : NpIdentifierInfo)
    → Fits s
    → Tells b (b.string_identifier s) npi
    → cache_find_info (sought s) npi ≡ true
string_identifier-sought b s npi f (tells_name r e m g) =
    let names : name s ≡ name r = sym (b.string_identifier-meaning s) ∙ m in
    let same : s ≡ r = cc in
    ap (cache_find_info (sought s)) (e ∙ ap sought (sym same)) ∙ find_info-same_string s f
string_identifier-sought b s npi f (tells_number v e m) =
    let names : name s ≡ number v = sym (b.string_identifier-meaning s) ∙ m in cc

module _ (tables : ValueTable NpIdentifierInfo) (has_find : Bool) where
  open tables use {Table, lookup, entries}

  found_by :
      (args npi : NpIdentifierInfo) (k : ℕ) (t : Table) (h : Bool)
      → Memᴰ (k, npi) (entries t)
      → cache_find_info args npi ≡ true
      → k ≢ 0
      → (if h then first_fit args (entries t) else found_ident (visit args 0 (entries t))) ≢ none
  found_by args npi k t true m fits n missing =
      first_fit-member args npi k (entries t) m fits missing
  found_by args npi k t false m fits n missing =
      visit-member args npi k (entries t) 0 m fits n
        (found_ident-none (visit args 0 (entries t)) missing)

  find_in-there :
      (args npi : NpIdentifierInfo) (k : ℕ) (o : Option Table)
      → info_in tables k o ≡ some npi
      → cache_find_info args npi ≡ true
      → k ≢ 0
      → find_in tables has_find args o ≢ none
  find_in-there args npi k none e fits n missing = cc
  find_in-there args npi k (some t) e fits n missing =
      found_by args npi k t has_find (tables.entries-lookup k npi t e) fits n missing

  -- NPN_GetStringIdentifier of a string shorter than 2^32 - 1 bytes, whose identifier is in a cache
  -- that holds only the truth, returns this identifier and changes nothing, whatever the browser
  -- would reply, in both builds of the search.
  pub get_string_identifier-cached :
      (b : Browser) (peer : Peer) (s : Text) (npi : NpIdentifierInfo) (c : Cache Table)
      → Coherent tables b c
      → Fits s
      → cache_lookup tables (b.string_identifier s) c ≡ some npi
      → cached_get_string_identifier tables has_find true peer s c ≡ (ok (b.string_identifier s), c)
  unfolding cached_get_string_identifier cache_has_string return cache_lookup
  get_string_identifier-cached b peer s npi c h f e =
      let k = b.string_identifier s in
      let fits = string_identifier-sought b s npi f (Tells-lookup tables b k npi c h e) in
      elim (Option-cases (cache_has_string tables has_find s c)) [
        | inl missing ↦
            absurd (
              find_in-there (sought s) npi k c.table e fits (b.string_identifier_non_null s)
                missing)
        | inr (j, found) ↦
            ap (λ o. ask_string tables o peer s c) found
            ∙ ap (λ i. (ok i, c))
                (b.name_unique j s (has_string-name tables has_find b s j c f h found))
      ]

module _ (tables : ValueTable NpIdentifierInfo) where
  open tables use {Table, lookup, insert}

  lookup_inserted :
      (k : ℕ) (npi : NpIdentifierInfo) (t : Table) → lookup k (insert k npi t) ≡ some npi
  lookup_inserted k npi t = grind (arith, tables.lookup-insert k k npi t)

  -- What has been added to a cache with room is looked up, if there is memory for it.
  lookup-add_int :
      (k : ℕ) (v : ℤ) (c : Cache Table)
      → c.memory ≡ []
      → cache_lookup tables k (cache_add_int tables k v (cache_reserve tables 1 c))
        ≡ some (int_info v)
  unfolding cache_lookup cache_add_int cache_reserve
  lookup-add_int k v c e =
      let reserved = cache_reserve tables 1 c in
      let t : Table = made_table tables reserved.table in
      let added : Cache Table = add_to tables k (int_info v) t (allocated tables reserved) in
      ap (λ m. cache_lookup tables k (if allocates m then added else allocated tables reserved)) e
      ∙ lookup_inserted k (int_info v) t

  int_from-known :
      (peer : Peer) (k : ℕ) (v : ℤ) (c : Cache Table)
      → cache_lookup tables k c ≡ some (int_info v)
      → cached_int_from_identifier tables true peer k c ≡ (ok v, c)
  unfolding cached_int_from_identifier return halt
  int_from-known peer k v c e = ap (λ o. int_from tables o peer k c) e

  -- Where an identifier is not in the cache and memory does not fail, a second call of
  -- NPN_IntFromIdentifier for it returns what the first did and leaves the cache as it is, whatever
  -- the browser would reply by then: also where the first call has failed and returned -1.
  pub int_from_identifier-again :
      (peer peer' : Peer) (k : ℕ) (c : Cache Table)
      → cache_lookup tables k c ≡ none
      → c.memory ≡ []
      → cached_int_from_identifier tables true peer' k
          (cached_int_from_identifier tables true peer k c).1
        ≡ (
          ok (invoke_int_from_identifier peer k),
          (cached_int_from_identifier tables true peer k c).1,
        )
  unfolding cached_int_from_identifier return
  int_from_identifier-again peer peer' k c e m =
      let v = invoke_int_from_identifier peer k in
      let first : (cached_int_from_identifier tables true peer k c).1
          ≡ cache_add_int tables k v (cache_reserve tables 1 c) =
        ap (λ o. (int_from tables o peer k c).1) e in
      let there : cache_lookup tables k (cached_int_from_identifier tables true peer k c).1
          ≡ some (int_info v) =
        ap (cache_lookup tables k) first ∙ lookup-add_int k v c m in
      int_from-known peer' k v (cached_int_from_identifier tables true peer k c).1 there
