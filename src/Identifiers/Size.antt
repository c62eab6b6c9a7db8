-- ===== src/Identifiers/Size.antt =====
-- The cache of src/npw-viewer.c keeps within its bound, whatever the browser replies.
use nspluginwrapper.Prelude.{
  ℕ, ◌+◌, ◌≤◌, ◌==◌, ltb, if◌then◌else◌, if_both, List, [], ◌∷◌, Option, none, some, ℤ, arith,
}
use nspluginwrapper.Rpc.Error.{Result, ok, err, abort}
use nspluginwrapper.Rpc.Action.{Action, return, halt, continue, ◌>>=◌}
use nspluginwrapper.Glib.{ValueTable}
use nspluginwrapper.Identifiers.{
  Text, Union, string, value, NpIdentifierInfo, Cache, npidentifier_cache_size, allocates, int_info,
  string_info, add_to, allocated, made_table, add_text, add_int_to, add_string_to, cache_reserve,
  cache_add_int, cache_add_string, get_copy, copy_of, cache_lookup,
}
use nspluginwrapper.Identifiers.Cached.{
  Peer, reserve_and_add, ask_string, add_name, add_names, ask_int, utf8, read_value,
  invoke_get_string_identifier, invoke_get_int_identifier, invoke_utf8_from_identifier,
  invoke_int_from_identifier, int_from,
}

module _ (tables : ValueTable NpIdentifierInfo) where
  open tables use {Table, empty, insert, size}

  -- At most `n` entries.
  abbrev pub OptionHolds : ℕ → Option Table → Type 0
  OptionHolds n none = Unit {0}
  OptionHolds n (some t) = size t ≤ n

  abbrev pub Holds : ℕ → Cache Table → Type 0
  Holds n c = OptionHolds n c.table

  abbrev pub IsBounded : Cache Table → Type 0
  IsBounded c = Holds npidentifier_cache_size c

  room_in : (t : Table) → size (if ltb npidentifier_cache_size (size t + 1) then empty else t) ≤ 255
  room_in t = grind (arith, tables.size-empty)

  -- After npidentifier_cache_reserve(1) there is room for an entry.
  reserve-Holds : (c : Cache Table) → Holds 255 (cache_reserve tables 1 c)
  unfolding cache_reserve
  reserve-Holds c = room_in (made_table tables c.table)

  insert-size :
      (k : ℕ) (npi : NpIdentifierInfo) (t : Table) → size t ≤ 255 → size (insert k npi t) ≤ 256
  insert-size k npi t h = omega (arith, tables.size-insert k npi t)

  widen : (o : Option Table) → OptionHolds 255 o → OptionHolds 256 o
  widen none h = tt
  widen (some t) h = omega arith

  add_int_to-IsBounded :
      (k : ℕ) (v : ℤ) (o : Option Table) (c : Cache Table)
      → OptionHolds 255 o
      → IsBounded c
      → IsBounded (add_int_to tables k v o c)
  add_int_to-IsBounded k v none c h g = g
  add_int_to-IsBounded k v (some t) c h g =
      if_both IsBounded (allocates c.memory) (add_to tables k (int_info v) t (allocated tables c))
        (allocated tables c) (insert-size k (int_info v) t h) g

  add_int-IsBounded :
      (k : ℕ) (v : ℤ) (c : Cache Table)
      → IsBounded (cache_add_int tables k v (cache_reserve tables 1 c))
  unfolding cache_add_int
  add_int-IsBounded k v c =
      let c' = cache_reserve tables 1 c in
      add_int_to-IsBounded k v c'.table c' (reserve-Holds c) (widen c'.table (reserve-Holds c))

  add_text-IsBounded :
      (k : ℕ) (s : Option Text) (t : Table) (c : Cache Table)
      → size t ≤ 255
      → IsBounded c
      → IsBounded (add_text tables k s t c).1
  unfolding return halt
  add_text-IsBounded k none t c h g = g
  add_text-IsBounded k (some s) t c h g =
      if_both IsBounded (allocates c.memory)
        (add_to tables k (string_info s) t (allocated tables c)) (allocated tables c)
        (insert-size k (string_info s) t h) g

  add_string_to-IsBounded :
      (k : ℕ) (s : Option Text) (o : Option Table) (c : Cache Table)
      → OptionHolds 255 o
      → IsBounded c
      → IsBounded (add_string_to tables k s o c).1
  unfolding return
  add_string_to-IsBounded k s none c h g = g
  add_string_to-IsBounded k s (some t) c h g =
      if_both (λ r. IsBounded r.1) (allocates c.memory) (add_text tables k s t (allocated tables c))
        (ok tt, allocated tables c) (add_text-IsBounded k s t (allocated tables c) h g) g

  reserve_and_add-IsBounded :
      (k : ℕ) (s : Option Text) (c : Cache Table) → IsBounded (reserve_and_add tables k s c).1
  unfolding reserve_and_add cache_add_string
  reserve_and_add-IsBounded k s c =
      let c' = cache_reserve tables 1 c in
      add_string_to-IsBounded k s c'.table c' (reserve-Holds c) (widen c'.table (reserve-Holds c))

  abbrev pub Bounds : {A : Type 0} → Action (Cache Table) A → Type 0
  Bounds m = (c : Cache Table) → IsBounded c → IsBounded (m c).1

  continue-IsBounded :
      {A B : Type 0} (r : Result A) (f : A → Action (Cache Table) B) (c : Cache Table)
      → ((a : A) → IsBounded (f a c).1)
      → IsBounded c
      → IsBounded (continue r f c).1
  continue-IsBounded (ok a) f c h g = h a
  continue-IsBounded (err e) f c h g = g
  continue-IsBounded abort f c h g = g

  pub Bounds-bind :
      {A B : Type 0} (m : Action (Cache Table) A) (f : A → Action (Cache Table) B)
      → Bounds m
      → ((a : A) → Bounds (f a))
      → Bounds (m >>= f)
  unfolding ◌>>=◌
  Bounds-bind m f h g c k = continue-IsBounded (m c).0 f (m c).1 (λ a. g a (m c).1 (h c k)) (h c k)

  pub Bounds-return : {A : Type 0} (a : A) → Bounds (return a)
  unfolding return
  Bounds-return a c k = k

  pub Bounds-ask_string :
      (o : Option ℕ) (peer : Peer) (s : Text) → Bounds (ask_string tables o peer s)
  unfolding return
  Bounds-ask_string (some k) peer s c h = h
  Bounds-ask_string none peer s c h =
      let k = invoke_get_string_identifier peer s in
      Bounds-bind (reserve_and_add tables k (some s)) (λ _. return k)
        (λ c' h'. reserve_and_add-IsBounded k (some s) c') (λ _. Bounds-return k) c h

  pub Bounds-ask_int : (o : Option ℕ) (peer : Peer) (v : ℤ) → Bounds (ask_int tables o peer v)
  unfolding return
  Bounds-ask_int (some k) peer v c h = h
  Bounds-ask_int none peer v c h = add_int-IsBounded (invoke_get_int_identifier peer v) v c

  Bounds-add_name :
      (o : Option NpIdentifierInfo) (k : ℕ) (s : Text) → Bounds (add_name tables o k s)
  unfolding return
  Bounds-add_name none k s c h = reserve_and_add-IsBounded k (some s) c
  Bounds-add_name (some npi) k s c h = h

  pub Bounds-add_names : (ss : List Text) (ks : List ℕ) → Bounds (add_names tables ss ks)
  unfolding add_names return
  Bounds-add_names [] ks c h = h
  Bounds-add_names (s ∷ ss) [] c h = h
  Bounds-add_names (s ∷ ss) (k ∷ ks) c h =
      Bounds-bind (λ c. add_name tables (cache_lookup tables k c) k s c)
        (λ _. add_names tables ss ks) (λ c. Bounds-add_name (cache_lookup tables k c) k s c)
        (λ _. Bounds-add_names ss ks) c h

  pub Bounds-utf8 : (o : Option Text) (peer : Peer) (k : ℕ) → Bounds (utf8 tables o peer k)
  unfolding return
  Bounds-utf8 (some s) peer k c h = h
  Bounds-utf8 none peer k c h =
      let s = invoke_utf8_from_identifier peer k in
      Bounds-bind (reserve_and_add tables k s) (λ _. return s)
        (λ c' h'. reserve_and_add-IsBounded k s c') (λ _. Bounds-return s) c h

  pub get_copy-IsBounded :
      (o : Option NpIdentifierInfo) (c : Cache Table)
      → IsBounded c
      → IsBounded (get_copy tables o c).1
  get_copy-IsBounded none c h = h
  get_copy-IsBounded (some npi) c h =
      if_both (λ (r : Option Text × Cache Table). IsBounded r.1) (npi.string_len == 0) (none, c)
        (if allocates c.memory
          then (copy_of npi.u, allocated tables c)
          else (none, allocated tables c))
        h
        (if_both (λ (r : Option Text × Cache Table). IsBounded r.1) (allocates c.memory)
          (copy_of npi.u, allocated tables c) (none, allocated tables c) h h)

  Bounds-read_value : (n : ℕ) (u : Union) → Bounds (read_value tables n u)
  unfolding return halt
  Bounds-read_value n (value v) c h = if_both (λ m. IsBounded (m c).1) (n == 0) (return v) halt h h
  Bounds-read_value n (string s) c h = h

  pub Bounds-int_from :
      (o : Option NpIdentifierInfo) (peer : Peer) (k : ℕ) → Bounds (int_from tables o peer k)
  unfolding return halt
  Bounds-int_from none peer k c h = add_int-IsBounded k (invoke_int_from_identifier peer k) c
  Bounds-int_from (some npi) peer k c h = Bounds-read_value npi.string_len npi.u c h
