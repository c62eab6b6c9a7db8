-- ===== src/Rpc/Map/Laws.antt =====
-- What the operations of `rpc_map_t` promise: a finite map from keys to values.
use nspluginwrapper.Prelude.{
  ℕ, zero, suc, ◌+◌, ◌-◌, ◌<◌, ◌≤◌, ℤ, ◌==ℤ◌, leb, Bool, true, if◌then◌else◌, Bool-cases,
  Option-cases, inl, inr, List, [], ◌++◌, length, length-append, All, take, drop, replicate,
  length-replicate, take-append_le, take_all, drop_all, append-nil, Option, none, some, ◌≡◌, refl,
  sym, ◌∙◌, ap, subst, arith,
}
use nspluginwrapper.Rpc.Error.{Result, ok}
use nspluginwrapper.Rpc.Map.{
  Entry, is_null, RpcMap, find_entry, lookup, used, modify_at, clear_at, array, blank,
  n_entries_alloc, override, store, add_at, grow, insert,
}
use nspluginwrapper.Rpc.Map.Content.{
  value_of, IsFilled, value_in, value_in-find_entry, value_of-modify_at, value_of-override,
  value_of-store, value_of-append,
}
use nspluginwrapper.Rpc.Map.Filled.{
  modify_at-length, free_slot-IsFilled, IsFilled-le, modify_at-IsFilled, override-IsFilled,
  store-IsFilled, append-IsFilled,
}

blanks : (V : Type 0) (n : ℕ) → All (λ (e : Entry V). is_null e.value ≡ true) (replicate n blank)
blanks V zero = tt
blanks V (suc n) = (refl, blanks V n)

module _ {V : Type 0} where
  -- The first `n_entries` entries are in use, and the array has `n_entries_max`.
  pub record IsRpcMap (m : RpcMap V) : Type 0 where
    pub filled : IsFilled m.n_entries (array m.entries)
    pub size : length (array m.entries) ≡ m.n_entries_max

  -- The map as a function.
  abbrev pub content : RpcMap V → ℤ → Option V
  content m key = value_of key m.n_entries (array m.entries)

  -- The call succeeds; afterwards the key has the value, and all other keys have what they had.
  pub record Updated (m : RpcMap V) (key : ℤ) (v : V) (r : Result (Unit {0}) × RpcMap V)
      : Type 0 where
    pub result : r.0 ≡ ok tt
    pub valid : IsRpcMap r.1
    pub updated : (key' : ℤ) → content r.1 key' ≡ (if key ==ℤ key' then some v else content m key')

  -- The call delivers the value and changes no value.
  pub record Looked (m : RpcMap V) (key : ℤ) (r : Option V × RpcMap V) : Type 0 where
    pub result : r.0 ≡ content m key
    pub valid : IsRpcMap r.1
    pub kept : (key' : ℤ) → content r.1 key' ≡ content m key'

  -- The map of these fields.
  abbrev map_of : ℕ → ℕ → Option (List (Entry V)) → RpcMap V
  map_of n max entries = record { n_entries = n; n_entries_max = max; entries = entries }

  found :
      (key : ℤ) (n : ℕ) (es : List (Entry V)) (o : Option ℕ)
      → find_entry key n es ≡ o
      → value_in o es ≡ value_of key n es
  found key n es o p =
      subst (λ x. value_in x es ≡ value_of key n es) p (value_in-find_entry key n es)

  value_of-nil : (key : ℤ) (n : ℕ) → value_of {V = V} key n [] ≡ none
  unfolding value_of
  value_of-nil key zero = refl
  value_of-nil key (suc n) = refl

  absent_lookup :
      (key : ℤ) (n max : ℕ) (es : List (Entry V))
      → IsRpcMap (map_of n max (some es))
      → find_entry key n es ≡ none
      → Looked (map_of n max (some es)) key (lookup key (map_of n max (some es)))
  unfolding lookup
  absent_lookup key n max es h p =
      rw p (record { result = found key n es none p; valid = h; kept = λ key'. refl })

  present_lookup :
      (key : ℤ) (n max i : ℕ) (es : List (Entry V))
      → IsRpcMap (map_of n max (some es))
      → find_entry key n es ≡ some i
      → Looked (map_of n max (some es)) key (lookup key (map_of n max (some es)))
  unfolding lookup
  present_lookup key n max i es h p = rw p (record {
    result = found key n es (some i) p;
    valid = record {
      filled = modify_at-IsFilled used (λ e. refl) n i es h.filled;
      size = modify_at-length i used es ∙ h.size;
    };
    kept = λ key'. value_of-modify_at used (λ e. refl) (λ e. refl) key' n i es;
  })

  lookup_of_fields :
      (key : ℤ) (n max : ℕ) (entries : Option (List (Entry V)))
      → IsRpcMap (map_of n max entries)
      → Looked (map_of n max entries) key (lookup key (map_of n max entries))
  unfolding lookup
  lookup_of_fields key n max none h = record {
    result = sym (value_of-nil key n);
    valid = h;
    kept = λ key'. refl;
  }
  lookup_of_fields key n max (some es) h = elim (Option-cases (find_entry key n es)) [
    | inl p ↦ absent_lookup key n max es h p
    | inr (i, p) ↦ present_lookup key n max i es h p
  ]

  -- `rpc_map_lookup` on a well-formed map delivers the value that the key has in the map, NULL if
  -- it has none; it leaves all keys the values they have, and the map well-formed.
  pub lookup-Looked : (key : ℤ) (m : RpcMap V) → IsRpcMap m → Looked m key (lookup key m)
  lookup-Looked key m h = lookup_of_fields key m.n_entries m.n_entries_max m.entries h

  -- An entry that is free takes a new key.
  added :
      (key : ℤ) (v : V) (n max : ℕ) (es : List (Entry V))
      → IsRpcMap (map_of n max (some es))
      → n < max
      → find_entry key n es ≡ none
      → Updated (map_of n max (some es)) key v (add_at n key v es (map_of n max (some es)))
  unfolding add_at
  added key v n max es h l p =
      let k : n < length es = omega (arith, h.size) in
      let e : n + 1 ≡ suc n = omega arith in
      record {
        result = refl;
        valid = record {
          filled = rw e (store-IsFilled key v n es k h.filled);
          size = modify_at-length n (store key v) es ∙ h.size;
        };
        updated = λ key'. rw e (value_of-store key key' v n es p k);
      }

  overridden :
      (key : ℤ) (v : V) (n max i : ℕ) (es : List (Entry V))
      → IsRpcMap (map_of n max (some es))
      → find_entry key n es ≡ some i
      → Updated
          (map_of n max (some es))
          key
          v
          (ok tt, map_of n max (some (modify_at i (override v) es)))
  overridden key v n max i es h p = record {
    result = refl;
    valid = record {
      filled = override-IsFilled key v n i es p h.filled;
      size = modify_at-length i (override v) es ∙ h.size;
    };
    updated = λ key'. value_of-override key key' v n i es p;
  }

  -- The memory that `realloc` adds behind a full array is cleared.
  clear_at-full :
      (n : ℕ) (es junk : List (Entry V))
      → length es ≡ n
      → length junk ≤ n_entries_alloc
      → clear_at n (es ++ junk) ≡ es ++ replicate n_entries_alloc blank
  unfolding clear_at
  clear_at-full n es junk m l =
      let a : take n (es ++ junk) ≡ es =
        take-append_le n es junk (omega arith) ∙ take_all n es (omega arith) in
      let b : drop (n + n_entries_alloc) (es ++ junk) ≡ [] =
        drop_all (n + n_entries_alloc) (es ++ junk) (omega (arith, l, m, length-append es junk)) in
      rw (a, b, append-nil) refl

  module _ (realloc : ℕ → Bool) (junk : Entry V) where
    grown :
        (key : ℤ) (v : V) (n : ℕ) (entries : Option (List (Entry V)))
        → IsRpcMap (map_of n n entries)
        → find_entry key n (array entries) ≡ none
        → realloc (n + n_entries_alloc) ≡ true
        → Updated (map_of n n entries) key v (grow realloc junk key v (map_of n n entries))
    unfolding grow
    grown key v n entries h p room =
        let es = array entries in
        let zeros : List (Entry V) = replicate n_entries_alloc blank in
        let l : length es ≤ n = omega (arith, h.size) in
        let c =
          clear_at-full n es (replicate (n + n_entries_alloc - length es) junk) h.size
            (omega (arith, h.size, length-replicate (n + n_entries_alloc - length es) junk)) in
        let k : n ≤ length es = omega (arith, h.size) in
        let q = (value_of-append key n es zeros k).1 ∙ p in
        let m : IsRpcMap (map_of n (n + n_entries_alloc) (some (es ++ zeros))) = record {
          filled = append-IsFilled n es zeros h.filled h.size (blanks V n_entries_alloc);
          size = length-append es zeros ∙ ap (λ x. x + n_entries_alloc) h.size;
        } in
        let u = added key v n (n + n_entries_alloc) (es ++ zeros) m (omega arith) q in
        rw (room, c)
          (record {
            result = u.result;
            valid = u.valid;
            updated = λ key'.
                u.updated key'
                ∙ ap (λ x. if key ==ℤ key' then some v else x)
                    (value_of-append key' n es zeros k).0;
          })

    grown_full :
        (key : ℤ) (v : V) (n max : ℕ) (entries : Option (List (Entry V)))
        → n ≡ max
        → IsRpcMap (map_of n max entries)
        → find_entry key n (array entries) ≡ none
        → realloc (max + n_entries_alloc) ≡ true
        → Updated (map_of n max entries) key v (grow realloc junk key v (map_of n max entries))
    grown_full key v n max entries e =
        subst
          (λ x.
            IsRpcMap (map_of n x entries)
            → find_entry key n (array entries) ≡ none
            → realloc (x + n_entries_alloc) ≡ true
            → Updated (map_of n x entries) key v (grow realloc junk key v (map_of n x entries)))
          e (grown key v n entries)

    slot :
        (key : ℤ) (v : V) (n max : ℕ) (es : List (Entry V))
        → IsRpcMap (map_of n max (some es))
        → realloc (max + n_entries_alloc) ≡ true
        → find_entry key n es ≡ none
        → Updated (map_of n max (some es)) key v (
            if leb max n
            then grow realloc junk key v (map_of n max (some es))
            else add_at n key v es (map_of n max (some es)))
    slot key v n max es h room p =
        let l = IsFilled-le n es h.filled in
        elim (Bool-cases (leb max n)) [
          | inl q ↦
              let e : n ≡ max = ground (arith, h.size) in
              rw q (grown_full key v n max (some es) e h p room)
          | inr q ↦ rw q (added key v n max es h (ground arith) p)
        ]

    updated :
        (key : ℤ) (v : V) (n max : ℕ) (entries : Option (List (Entry V)))
        → IsRpcMap (map_of n max entries)
        → realloc (max + n_entries_alloc) ≡ true
        → Updated (map_of n max entries) key v (insert realloc junk key v (map_of n max entries))
    unfolding insert find_entry
    updated key v zero max none h room = grown_full key v zero max none h.size h refl room
    updated key v (suc n) max none h room = absurd h.filled
    updated key v n max (some es) h room = elim (Option-cases (find_entry key n es)) [
      | inl p ↦ rw (p, free_slot-IsFilled n es h.filled) (slot key v n max es h room p)
      | inr (i, p) ↦ rw p (overridden key v n max i es h p)
    ]

    -- `rpc_map_insert` on a well-formed map gives the key its value and leaves all others the
    -- values they have, whether it overrides, fills a slot or grows the array, and the map is
    -- well-formed again, if the C library has the memory for a larger array.
    pub insert-Updated :
        (key : ℤ) (v : V) (m : RpcMap V)
        → IsRpcMap m
        → realloc (m.n_entries_max + n_entries_alloc) ≡ true
        → Updated m key v (insert realloc junk key v m)
    insert-Updated key v m h room = updated key v m.n_entries m.n_entries_max m.entries h room
