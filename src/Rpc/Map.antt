-- ===== src/Rpc/Map.antt =====
-- `rpc_map_t` of src/rpc.c, the table of a connection's marshalers or methods.
pub mod Content
pub mod Filled
pub mod Laws
pub mod Loss
use nspluginwrapper.Prelude.{
  ℕ, zero, suc, ◌+◌, ◌-◌, ℤ, pos, ◌==ℤ◌, leb, Bool, true, false, if◌then◌else◌, List, [], ◌∷◌, ◌++◌,
  length, take, drop, replicate, Option, none, some,
}
use nspluginwrapper.Rpc.Error.{Result, ok, err, no_memory}

-- `value` may be NULL.
pub record Entry (V : Type 0) : Type 0 where
  pub value : Option V
  pub key : ℤ
  pub use_count : ℕ

-- `entries` is NULL or an array of `n_entries_max` entries. The destructor of the values is not
-- part of the state: it runs when the map goes.
pub record RpcMap (V : Type 0) : Type 0 where
  pub n_entries : ℕ
  pub n_entries_max : ℕ
  pub entries : Option (List (Entry V))

-- N_ENTRIES_ALLOC
abbrev pub n_entries_alloc : ℕ
n_entries_alloc = 7

abbrev pub next_index : Option ℕ → Option ℕ
next_index none = none
next_index (some i) = some (suc i)

module _ {V : Type 0} where
  -- `rpc_map_new`
  abbrev pub new : RpcMap V
  new = record { n_entries = 0; n_entries_max = 0; entries = none }

  -- `_rpc_map_lookup` in an array, a loop over the first `n` entries: the index of the entry.
  unfoldable pub find_entry : ℤ → ℕ → List (Entry V) → Option ℕ
  find_entry key zero es = none
  find_entry key (suc n) [] = none
  find_entry key (suc n) (e ∷ es) =
      let rest = find_entry key n es in if e.key ==ℤ key then some 0 else next_index rest

  -- `entries[i]`, changed
  unfoldable pub modify_at : ℕ → (Entry V → Entry V) → List (Entry V) → List (Entry V)
  modify_at i f [] = []
  modify_at zero f (e ∷ es) = f e ∷ es
  modify_at (suc i) f (e ∷ es) = e ∷ modify_at i f es

  unfoldable pub value_at : ℕ → List (Entry V) → Option V
  value_at i [] = none
  value_at zero (e ∷ es) = e.value
  value_at (suc i) (e ∷ es) = value_at i es

  abbrev pub used : Entry V → Entry V
  used e = record e { use_count = e.use_count + 1 }

  abbrev pub lookup_in : Option ℕ → List (Entry V) → RpcMap V → Option V × RpcMap V
  lookup_in none es m = (none, m)
  lookup_in (some i) es m = (value_at i es, record m { entries = some (modify_at i used es) })

  -- `rpc_map_lookup`
  unfoldable pub lookup : ℤ → RpcMap V → Option V × RpcMap V
  unfolding find_entry
  lookup key m = elim m.entries [
    | none ↦ (none, m)
    | some es ↦ lookup_in (find_entry key m.n_entries es) es m
  ]

  abbrev pub is_null : Option V → Bool
  is_null none = true
  is_null (some v) = false

  -- The first index below `n_entries_max` whose value is NULL; `n_entries_max` if there is none.
  unfoldable pub free_slot : List (Entry V) → ℕ
  free_slot [] = 0
  free_slot (e ∷ es) = let rest = free_slot es in if is_null e.value then 0 else suc rest

  abbrev pub override : V → Entry V → Entry V
  override v e = record e { value = some v; use_count = 0 }

  abbrev pub store : ℤ → V → Entry V → Entry V
  store key v e = record { key = key; value = some v; use_count = 0 }

  abbrev pub blank : Entry V
  blank = record { value = none; key = pos 0; use_count = 0 }

  -- What stands at `entries`, and nothing for NULL
  abbrev pub array : Option (List (Entry V)) → List (Entry V)
  array none = []
  array (some es) = es

  -- `memset(&entries[i], 0, …)` for N_ENTRIES_ALLOC entries
  unfoldable pub clear_at : ℕ → List (Entry V) → List (Entry V)
  clear_at i es = take i es ++ replicate n_entries_alloc blank ++ drop (i + n_entries_alloc) es

  unfoldable pub add_at : ℕ → ℤ → V → List (Entry V) → RpcMap V → Result (Unit {0}) × RpcMap V
  unfolding modify_at
  add_at i key v es m = (
    ok tt,
    record m { entries = some (modify_at i (store key v) es); n_entries = m.n_entries + 1 },
  )

  -- `realloc` of the C library, for so many entries, succeeds or not; `junk` is what stands in
  -- the entries that it adds.
  module _ (realloc : ℕ → Bool) (junk : Entry V) where
    -- No slot is free: a failed `realloc` leaves NULL in `entries`.
    unfoldable pub grow : ℤ → V → RpcMap V → Result (Unit {0}) × RpcMap V
    unfolding add_at clear_at
    grow key v m =
        let size = m.n_entries_max + n_entries_alloc in
        let es = array m.entries ++ replicate (size - length (array m.entries)) junk in
        if realloc size
        then add_at m.n_entries key v (clear_at m.n_entries es) (record m { n_entries_max = size })
        else (err no_memory, record m { entries = none })

    abbrev insert_in : Option ℕ → ℤ → V → List (Entry V) → RpcMap V → Result (Unit {0}) × RpcMap V
    insert_in (some i) key v es m =
        (ok tt, record m { entries = some (modify_at i (override v) es) })
    insert_in none key v es m =
        if leb m.n_entries_max (free_slot es)
        then grow key v m
        else add_at (free_slot es) key v es m

    -- `rpc_map_insert`
    unfoldable pub insert : ℤ → V → RpcMap V → Result (Unit {0}) × RpcMap V
    unfolding find_entry free_slot grow
    insert key v m = elim m.entries [
      | none ↦ grow key v m
      | some es ↦ insert_in (find_entry key m.n_entries es) key v es m
    ]
