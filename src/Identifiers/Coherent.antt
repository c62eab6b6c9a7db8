-- ===== src/Identifiers/Coherent.antt =====
-- The cache of src/npw-viewer.c holds what the browser means by its identifiers: the operations on
-- the cache keep this, and what they look up is right.
use nspluginwrapper.Prelude.{
  ℕ, ◌+◌, ◌==◌, ltb, if◌then◌else◌, Option, none, some, ℤ, ◌≡◌, refl, sym, ap, subst, inl, inr,
  Bool-cases, if_both, ==_iff, ◌∙◌,
}
use nspluginwrapper.Rpc.Error.{Result, ok}
use nspluginwrapper.Rpc.Action.{Action, return, halt, continue, ◌>>=◌}
use nspluginwrapper.Glib.{ValueTable}
use nspluginwrapper.Identifiers.{
  Text, NpIdentifierInfo, Cache, allocates, rest, add_to, allocated, npidentifier_cache_size,
  int_info, string_info, made_table, cache_reserve, cache_lookup, info_in, cache_add_int,
  add_int_to, cache_add_string, add_string_to, add_text,
}
use nspluginwrapper.Identifiers.Strings.{Fits, sought, string_info-sought}
use nspluginwrapper.Identifiers.Browser.{name, number, Browser}

-- An entry says what its key is for.
pub data Tells (b : Browser) (k : ℕ) (npi : NpIdentifierInfo) : Type 0 where
  tells_name : (s : Text) → npi ≡ sought s → b.meaning k ≡ name s → Fits s → Tells b k npi
  tells_number : (v : ℤ) → npi ≡ int_info v → b.meaning k ≡ number v → Tells b k npi

module _ (tables : ValueTable NpIdentifierInfo) (b : Browser) where
  open tables use {Table, empty, insert, lookup, entries}

  -- It tells no more, and so no identifier but a right one is found.
  abbrev pub TableTells : Table → Type 0
  TableTells t = (k : ℕ) (npi : NpIdentifierInfo) → lookup k t ≡ some npi → Tells b k npi

  abbrev pub OptionTells : Option Table → Type 0
  OptionTells none = Unit {0}
  OptionTells (some t) = TableTells t

  abbrev pub Coherent : Cache Table → Type 0
  Coherent c = OptionTells c.table

  TableTells-empty : TableTells empty
  TableTells-empty k npi e = let none_there = tables.lookup-empty k in cc

  TableTells-insert :
      (k : ℕ) (npi : NpIdentifierInfo) (t : Table)
      → TableTells t
      → Tells b k npi
      → TableTells (insert k npi t)
  TableTells-insert k npi t h told j n e =
      let found = sym (tables.lookup-insert k j npi t) ∙ e in
      elim (Bool-cases (k == j)) [
        | inl same ↦
            let key : k ≡ j = (==_iff k j).0 same in
            let value : some npi ≡ some n =
              ap (λ x. if x then some npi else lookup j t) (sym same) ∙ found in
            let npi_n : npi ≡ n = cc in
            subst (λ z. Tells b z n) key (subst (λ z. Tells b k z) npi_n told)
        | inr other ↦ h j n (ap (λ x. if x then some npi else lookup j t) (sym other) ∙ found)
      ]

  OptionTells-made_table : (o : Option Table) → OptionTells o → TableTells (made_table tables o)
  OptionTells-made_table none h = TableTells-empty
  OptionTells-made_table (some t) h = h

  pub Coherent-reserve :
      (n : ℕ) (c : Cache Table) → Coherent c → Coherent (cache_reserve tables n c)
  unfolding cache_reserve
  Coherent-reserve n c h =
      if_both TableTells (ltb npidentifier_cache_size (tables.size (made_table tables c.table) + n))
        empty (made_table tables c.table) TableTells-empty (OptionTells-made_table c.table h)

  OptionTells-add_int :
      (k : ℕ) (v : ℤ) (o : Option Table) (c : Cache Table)
      → OptionTells o
      → Coherent c
      → b.meaning k ≡ number v
      → Coherent (add_int_to tables k v o c)
  OptionTells-add_int k v none c h g e = g
  OptionTells-add_int k v (some t) c h g e =
      if_both Coherent (allocates c.memory) (add_to tables k (int_info v) t (allocated tables c))
        (allocated tables c) (TableTells-insert k (int_info v) t h (tells_number v refl e)) g

  pub Coherent-add_int :
      (k : ℕ) (v : ℤ) (c : Cache Table)
      → Coherent c
      → b.meaning k ≡ number v
      → Coherent (cache_add_int tables k v c)
  unfolding cache_add_int
  Coherent-add_int k v c h e = OptionTells-add_int k v c.table c h h e

  -- A call has returned `a` and left the cache coherent.
  abbrev pub Returned : {A : Type 0} → A → Result A × Cache Table → Type 0
  Returned a (r, c) = (r ≡ ok a) × Coherent c

  pub Returned-bind :
      {A B : Type 0} (m : Action (Cache Table) A) (f : A → Action (Cache Table) B)
      → (c : Cache Table) (x : A) (y : B) → Returned x (m c)
      → ((c' : Cache Table) → Coherent c' → Returned y (f x c'))
      → Returned y ((m >>= f) c)
  unfolding ◌>>=◌
  Returned-bind m f c x y h g =
      subst (λ r. Returned y (continue r f (m c).1)) (sym h.0) (g (m c).1 h.1)

  Returned-add_string_to :
      (k : ℕ) (s : Text) (o : Option Table) (c : Cache Table)
      → OptionTells o
      → Coherent c
      → b.meaning k ≡ name s
      → Fits s
      → Returned tt (add_string_to tables k (some s) o c)
  unfolding return halt
  Returned-add_string_to k s none c h g e f = (refl, g)
  Returned-add_string_to k s (some t) c h g e f =
      let added : TableTells (insert k (string_info s) t) =
        TableTells-insert k (string_info s) t h (tells_name s (string_info-sought s f) e f) in
      if_both (Returned tt) (allocates c.memory) (add_text tables k (some s) t (allocated tables c))
        (ok tt, allocated tables c)
        (
          refl,
          if_both Coherent (allocates (rest c.memory))
              (add_to tables k (string_info s) t (allocated tables (allocated tables c)))
              (allocated tables (allocated tables c)) added g,
        )
        (refl, g)

  pub Returned-add_string :
      (k : ℕ) (s : Text) (c : Cache Table)
      → Coherent c
      → b.meaning k ≡ name s
      → Fits s
      → Returned tt (cache_add_string tables k (some s) c)
  unfolding cache_add_string
  Returned-add_string k s c h e f = Returned-add_string_to k s c.table c h h e f

  Tells-info_in :
      (k : ℕ) (npi : NpIdentifierInfo) (o : Option Table)
      → OptionTells o
      → info_in tables k o ≡ some npi
      → Tells b k npi
  Tells-info_in k npi none h e = cc
  Tells-info_in k npi (some t) h e = h k npi e

  pub Tells-lookup :
      (k : ℕ) (npi : NpIdentifierInfo) (c : Cache Table)
      → Coherent c
      → cache_lookup tables k c ≡ some npi
      → Tells b k npi
  unfolding cache_lookup
  Tells-lookup k npi c h e = Tells-info_in k npi c.table h e
