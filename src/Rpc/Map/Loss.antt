-- ===== src/Rpc/Map/Loss.antt =====
-- What a failed `realloc` does to the map of src/rpc.c.
use nspluginwrapper.Prelude.{
  ℕ, zero, suc, ◌+◌, ℤ, ◌==ℤ◌, leb, Bool, true, false, Bool-cases, if◌then◌else◌, inl, inr, List,
  [], ◌∷◌, Option, none, some, ◌≡◌, refl, arith,
}
use nspluginwrapper.Rpc.Error.{err, no_memory}
use nspluginwrapper.Rpc.Map.{
  Entry, RpcMap, find_entry, array, is_null, lookup, n_entries_alloc, grow, insert,
}
use nspluginwrapper.Rpc.Map.Content.{value_of, IsFilled}
use nspluginwrapper.Rpc.Map.Filled.{free_slot-IsFilled}
use nspluginwrapper.Rpc.Map.Laws.{IsRpcMap, content}

module _ {V : Type 0} where
  not_null :
      (b : Bool) (x y : Option V) → b ≡ true → is_null x ≡ false → (if b then x else y) ≡ none → ⊥
  not_null true none y p h q = cc
  not_null true (some v) y p h q = cc
  not_null false x y p h q = cc

  else_none : (b : Bool) (x y : Option V) → b ≡ false → (if b then x else y) ≡ none → y ≡ none
  else_none true x y p q = cc
  else_none false x y p q = q

  find_entry-none :
      (key : ℤ) (n : ℕ) (es : List (Entry V))
      → IsFilled n es
      → value_of key n es ≡ none
      → find_entry key n es ≡ none
  unfolding find_entry value_of
  find_entry-none key zero es h p = refl
  find_entry-none key (suc n) [] h p = refl
  find_entry-none key (suc n) (e ∷ es) (h, k) p = elim (Bool-cases (e.key ==ℤ key)) [
    | inl q ↦ absurd (not_null (e.key ==ℤ key) e.value (value_of key n es) q h p)
    | inr q ↦
        let r = else_none (e.key ==ℤ key) e.value (value_of key n es) q p in
        rw (q, find_entry-none key n es k r) refl
  ]

  module _ (realloc : ℕ → Bool) (junk : Entry V) where
    lost :
        (key : ℤ) (v : V) (n max : ℕ) (entries : Option (List (Entry V)))
        → IsFilled n (array entries)
        → find_entry key n (array entries) ≡ none
        → leb max n ≡ true
        → realloc (max + n_entries_alloc) ≡ false
        → insert realloc junk key v
            (record { n_entries = n; n_entries_max = max; entries = entries })
          ≡ (err no_memory, record { n_entries = n; n_entries_max = max; entries = none })
    unfolding insert grow
    lost key v n max none h p l room = rw room refl
    lost key v n max (some es) h p l room = rw (p, free_slot-IsFilled n es h, l, room) refl

    -- Where no slot of a well-formed map is free and the C library has no memory for a larger
    -- array, `rpc_map_insert` of a new key reports RPC_ERROR_NO_MEMORY, and in the state
    -- that it leaves `rpc_map_lookup` finds NULL for each key, also for those that were there.
    pub insert-lost :
        (key : ℤ) (v : V) (m : RpcMap V)
        → IsRpcMap m
        → content m key ≡ none
        → m.n_entries ≡ m.n_entries_max
        → realloc (m.n_entries_max + n_entries_alloc) ≡ false
        → ((insert realloc junk key v m).0 ≡ err no_memory)
          × ((key' : ℤ) → (lookup key' (insert realloc junk key v m).1).0 ≡ none)
    unfolding lookup
    insert-lost key v m h p l room =
        let q = find_entry-none key m.n_entries (array m.entries) h.filled p in
        let b : leb m.n_entries_max m.n_entries ≡ true = ground (arith, l) in
        let e = lost key v m.n_entries m.n_entries_max m.entries h.filled q b room in
        (rw e refl, λ key'. rw e refl)
