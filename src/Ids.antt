-- ===== src/Ids.antt =====
-- The table of ids of src/utils.c, and the identifiers of NPAPI that go through it: the part of
-- do_send_NPIdentifier before its write, and of do_recv_NPIdentifier after its read, in
-- src/npw-rpc.c. Identifiers are the browser's; the viewer has their ids in place of them.
pub mod Home
use nspluginwrapper.Prelude.{ℕ, ◌+◌, ◌%◌, ◌^◌, ◌==◌, leb, Bool, if◌then◌else◌, Option, none, some}
use nspluginwrapper.Rpc.Error.{Result, ok, abort}
use nspluginwrapper.Glib.{HashTable}

-- `g_ids`, and the static `id` of id_create.
pub record Ids (T : Type 0) : Type 0 where
  pub table : T
  pub last_id : ℕ

module _ (glib : HashTable) where
  open glib use {Table, insert, remove, lookup, find_value}

  unfoldable pub id_link : ℕ → ℕ → Ids Table → Ids Table
  id_link id ptr ids = record ids { table = insert id ptr ids.table }

  unfoldable pub id_create : ℕ → Ids Table → ℕ × Ids Table
  unfolding id_link
  id_create ptr ids =
      let id = (ids.last_id + 1) % 2 ^ 32 in (id, id_link id ptr (record ids { last_id = id }))

  unfoldable pub id_remove : ℕ → Ids Table → Ids Table
  id_remove id ids = record ids { table = remove id ids.table }

  abbrev pub id_lookup : ℕ → Ids Table → Option ℕ
  id_lookup id ids = lookup id ids.table

  -- -1 is `none`.
  abbrev pub id_lookup_value : ℕ → Ids Table → Option ℕ
  id_lookup_value ptr ids = find_value ptr ids.table

  -- The id of an identifier that has or has not been sent before, in the wrapper. An `int` from 2^31
  -- on is negative.
  abbrev pub known_id : ℕ → Option ℕ → Ids Table → ℕ × Ids Table
  known_id ident none ids = id_create ident ids
  known_id ident (some id) ids = if leb (2 ^ 31) id then id_create ident ids else (id, ids)

  abbrev pub asserted : ℕ × Ids Table → Result ℕ × Ids Table
  asserted p = if p.0 == 0 then (abort, p.1) else (ok p.0, p.1)

  -- What the wrapper writes for an identifier; NULL is `none`.
  unfoldable pub wrapper_send : Option ℕ → Ids Table → Result ℕ × Ids Table
  unfolding id_create
  wrapper_send none ids = (ok 0, ids)
  wrapper_send (some ident) ids = asserted (known_id ident (id_lookup_value ident ids) ids)

  abbrev pub non_null : Option ℕ → Result (Option ℕ)
  non_null none = abort
  non_null (some ident) = ok (some ident)

  -- What the wrapper makes of an id that it has read.
  unfoldable pub wrapper_recv : ℕ → Ids Table → Result (Option ℕ)
  wrapper_recv id ids = if id == 0 then ok none else non_null (id_lookup id ids)

-- What the viewer makes of an id that it has read, and what it writes for an identifier.
unfoldable pub viewer_recv : ℕ → Result (Option ℕ)
viewer_recv id = if id == 0 then ok none else ok (some id)

unfoldable pub viewer_send : Option ℕ → Result ℕ
viewer_send none = ok 0
viewer_send (some ident) = if ident == 0 then abort else ok ident
