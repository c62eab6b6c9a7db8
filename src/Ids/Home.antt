-- ===== src/Ids/Home.antt =====
-- An identifier goes from the wrapper to the viewer and comes back.
use nspluginwrapper.Prelude.{
  ℕ, ◌+◌, ◌<◌, ◌%◌, ◌^◌, ◌==◌, leb, Bool-cases, subst, true, false, if◌then◌else◌, Option, none,
  some, ◌≡◌, refl, sym, ap, ◌∙◌, ◌⊎◌, inl, inr, arith,
}
use nspluginwrapper.Rpc.Error.{Result, ok, abort}
use nspluginwrapper.Glib.{HashTable}
use nspluginwrapper.Ids.{
  Ids, id_create, id_link, id_lookup_value, known_id, non_null, wrapper_send, wrapper_recv,
  viewer_recv, viewer_send,
}

module _ (glib : HashTable) where
  open glib use {Table, insert, lookup, find_value, lookup-insert, find_value-some}

  -- The ids in use are those that id_create has given out.
  abbrev pub IsIds : Ids Table → Type 0
  IsIds ids = (k : ℕ) → k ≡ 0 ⊎ ids.last_id < k → lookup k ids.table ≡ none

  abbrev pub Kept : ℕ → ℕ → Ids Table → Ids Table → Type 0
  Kept id ident ids ids' =
      (k : ℕ) → lookup k ids'.table ≡ (if id == k then some ident else lookup k ids.table)

  pub next_id : (n : ℕ) → n + 1 < 2 ^ 31 → n + 1 ≡ (n + 1) % 2 ^ 32
  next_id n lt = omega (arith, lt)

  pub created-Kept :
      (ident id : ℕ) (ids : Ids Table)
      → IsIds ids
      → ids.last_id + 1 ≡ id
      → (let ids' : Ids Table = record { table = insert id ident ids.table; last_id = id } in
          (id == 0) ≡ false × IsIds ids' × Kept id ident ids ids')
  created-Kept ident id ids h e =
      (ground arith, λ k v. fresh k v, λ k. lookup-insert id k ident ids.table)
    where
      fresh : (k : ℕ) → k ≡ 0 ⊎ id < k → lookup k (insert id ident ids.table) ≡ none
      fresh k v =
          let old = h k (older k v) in
          let other = not_same k v in
          lookup-insert id k ident ids.table
          ∙ ap (λ b. if b then some ident else lookup k ids.table) other
          ∙ old
        where
          older : (k : ℕ) → k ≡ 0 ⊎ id < k → k ≡ 0 ⊎ ids.last_id < k
          older k (inl z) = inl z
          older k (inr lt) = inr (omega (arith, lt, e))

          not_same : (k : ℕ) → k ≡ 0 ⊎ id < k → (id == k) ≡ false
          not_same k v = ground arith

  pub known_not_null :
      (id ident : ℕ) (ids : Ids Table)
      → IsIds ids
      → lookup id ids.table ≡ some ident
      → (id == 0) ≡ false
  known_not_null id ident ids h e = grind (arith, h id)

  -- An id in use is not negative.
  pub known_small :
      (id ident : ℕ) (ids : Ids Table)
      → IsIds ids
      → ids.last_id + 1 < 2 ^ 31
      → lookup id ids.table ≡ some ident
      → leb (2 ^ 31) id ≡ false
  known_small id ident ids h lt e = elim (Bool-cases (leb (2 ^ 31) id)) [
    | inr small ↦ small
    | inl large ↦ (let gone = h id (inr (past large)) in cc)
  ]
    where
      past : leb (2 ^ 31) id ≡ true → ids.last_id < id
      past large = ground arith

  abbrev pub Good : ℕ → Ids Table → ℕ × Ids Table → Type 0
  Good ident ids p = (p.0 == 0) ≡ false × IsIds p.1 × Kept p.0 ident ids p.1

  pub known_id-Kept :
      (ident : ℕ) (ids : Ids Table)
      → IsIds ids
      → ids.last_id + 1 < 2 ^ 31
      → (let p = known_id glib ident (id_lookup_value glib ident ids) ids in
          (p.0 == 0) ≡ false × IsIds p.1 × Kept p.0 ident ids p.1)
  unfolding id_create id_link
  known_id-Kept ident ids h lt = go (find_value ident ids.table) refl
    where
      go :
          (o : Option ℕ)
          → find_value ident ids.table ≡ o
          → Good ident ids (known_id glib ident o ids)
      go none e = created-Kept ident _ ids h (next_id ids.last_id lt)
      go (some id) e =
          let at = find_value-some ident id ids.table e in
          let small = known_small id ident ids h lt at in
          subst (λ b. Good ident ids (if b then id_create glib ident ids else (id, ids)))
            (sym small) (known_not_null id ident ids h at, h, λ k. grind arith)

  -- The ids in use are those that id_create has given out, and the next one is less than 2^31. An identifier that the wrapper sends has
  -- an id that is not 0, under which it stands in the table from then on; the other ids stay as they
  -- are. The viewer takes the id for its identifier, and sends it back; and the wrapper makes the
  -- first identifier of it.
  pub identifier-home :
      (ident : ℕ) (ids : Ids Table)
      → IsIds ids
      → ids.last_id + 1 < 2 ^ 31
      → (id : ℕ) × (ids' : Ids Table) × (wrapper_send glib (some ident) ids ≡ (ok id, ids'))
        × IsIds ids'
        × Kept id ident ids ids'
        × (viewer_recv id ≡ ok (some id))
        × (viewer_send (some id) ≡ ok id)
        × (wrapper_recv glib id ids' ≡ ok (some ident))
  unfolding wrapper_send wrapper_recv viewer_recv viewer_send
  identifier-home ident ids h lt =
      let p = known_id glib ident (id_lookup_value glib ident ids) ids in
      let (some_id, ids-IsIds, kept) = known_id-Kept ident ids h lt in
      let same : (p.0 == p.0) ≡ true = ground arith in
      let there : lookup p.0 p.1.table ≡ some ident =
        kept p.0 ∙ ap (λ b. if b then some ident else lookup p.0 ids.table) same in
      (
        p.0,
        p.1,
        ap (λ b. if◌then◌else◌ {A = Result ℕ × Ids Table} b (abort, p.1) (ok p.0, p.1)) some_id,
        ids-IsIds,
        kept,
        ap (λ b. if◌then◌else◌ {A = Result (Option ℕ)} b (ok none) (ok (some p.0))) some_id,
        ap (λ b. if◌then◌else◌ {A = Result ℕ} b abort (ok p.0)) some_id,
        ap
              (λ b.
                if◌then◌else◌ {A = Result (Option ℕ)} b (ok none)
                  (non_null glib (lookup p.0 p.1.table)))
              some_id
            ∙ ap (non_null glib) there,
      )
