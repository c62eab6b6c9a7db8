-- ===== src/Objects/Host.antt =====
-- The objects of one process, its stubs and its proxies: src/npruntime.c, with NPN_RetainObject and
-- NPN_ReleaseObject of src/npw-viewer.c. In the wrapper these two are the browser's, which keep
-- the same count.
use nspluginwrapper.Prelude.{
  ℕ, ◌+◌, ◌-◌, ◌%◌, ◌^◌, ◌==◌, Bool, true, false, if◌then◌else◌, List, [], ◌∷◌, ◌++◌, Option, none,
  some,
}
use nspluginwrapper.Rpc.Error.{ok, abort}
use nspluginwrapper.Rpc.Action.{Action, ◌>>◌}
use nspluginwrapper.Glib.{HashTable}

-- An object of the process's own, or an `NPObjectProxy`: its class is `npclass_bridge`.
pub data Kind : Type 0 where
  own : Kind
  proxy : ℕ → Bool → Kind

pub record NpObject : Type 0 where
  pub kind : Kind
  pub reference_count : ℕ

-- An `NPObject` as do_send_NPObject_helper writes it.
pub record Wire : Type 0 where
  pub type : ℕ
  pub plugin : ℕ
  pub id : ℕ
  pub release_stub : Bool

-- What one process tells the other about objects: an argument of a call or of a reply, or a call of
-- NPClass::Deallocate.
pub data Mention : Type 0 where
  object : Wire → Mention
  deallocate : ℕ → Mention

-- The objects by their addresses, `g_stubs` with the object of each stub, the static `next_id` of
-- npobject_create_stub, `g_proxies`, and what was sent and has not been received yet.
pub record Host (T : Type 0) : Type 0 where
  pub objects : ℕ → Option NpObject
  pub stubs : T
  pub next_id : ℕ
  pub proxies : T
  pub outgoing : List Mention

abbrev pub put_object : ℕ → Option NpObject → (ℕ → Option NpObject) → ℕ → Option NpObject
put_object a o f b = if b == a then o else f b

module _ (glib : HashTable) where
  open glib use {Table, insert, remove, lookup}

  abbrev pub Process : Type 0 → Type 0
  Process A = Action (Host Table) A

  abbrev pub set_object : ℕ → Option NpObject → Host Table → Host Table
  set_object a o h = record h { objects = put_object a o h.objects }

  abbrev pub say : Mention → Host Table → Host Table
  say m h = record h { outgoing = h.outgoing ++ m ∷ [] }

  -- An access through a pointer to no object ends the process.
  unfoldable pub with_object : {A : Type 0} → ℕ → (NpObject → Process A) → Process A
  with_object a f h = elim (h.objects a) [ none ↦ (abort, h) | some o ↦ f o h ]

  abbrev pub retained : NpObject → NpObject
  retained o = record o { reference_count = (o.reference_count + 1) % 2 ^ 32 }

  -- NPN_RetainObject
  unfoldable pub retain : ℕ → Process (Unit {0})
  unfolding with_object
  retain a = with_object a λ o h. (ok tt, set_object a (some (retained o)) h)

  -- npobject_destroy_proxy, of a proxy with this id and validity at `a`. With `release_stub` and a
  -- valid proxy the other process is told; the connection is one on which a call is possible.
  unfoldable pub destroy_proxy : ℕ → ℕ → Bool → Bool → Host Table → Host Table
  destroy_proxy a id is_valid release_stub h =
      let told = if release_stub then (if is_valid then say (deallocate id) h else h) else h in
      set_object a none (record told { proxies = remove id told.proxies })

  -- `npobj->_class->deallocate`: g_NPClass_Deallocate for a proxy. What the class of another object
  -- does besides is not modelled.
  abbrev pub deallocate_object : ℕ → Kind → Host Table → Host Table
  deallocate_object a own h = set_object a none h
  deallocate_object a (proxy id is_valid) h = destroy_proxy a id is_valid true h

  abbrev pub released : NpObject → NpObject
  released o = record o { reference_count = (o.reference_count + 2 ^ 32 - 1) % 2 ^ 32 }

  -- NPN_ReleaseObject
  unfoldable pub release : ℕ → Process (Unit {0})
  unfolding with_object destroy_proxy
  release a = with_object a λ o h.
      if (released o).reference_count == 0
      then (ok tt, deallocate_object a o.kind h)
      else (ok tt, set_object a (some (released o)) h)

  -- npobject_create_stub
  unfoldable pub create_stub : ℕ → Process ℕ
  unfolding retain
  create_stub a h =
      let id = (h.next_id + 1) % 2 ^ 32 in
      (retain a >> λ h'. (ok id, record h' { stubs = insert id a h'.stubs }))
        (record h { next_id = id })

  -- npobject_destroy_stub_obj
  unfoldable pub destroy_stub_obj : ℕ → ℕ → Process (Unit {0})
  unfolding release
  destroy_stub_obj id a h = release a (record h { stubs = remove id h.stubs })

  -- npobject_lookup_local
  abbrev pub lookup_local : ℕ → Host Table → Option ℕ
  lookup_local id h = lookup id h.stubs

  -- npobject_destroy_stub, with its assert
  unfoldable pub destroy_stub : ℕ → Process (Unit {0})
  unfolding destroy_stub_obj
  destroy_stub id h = elim (lookup_local id h) [
    | none ↦ (abort, h)
    | some a ↦ destroy_stub_obj id a h
  ]

  -- npclass_handle_Deallocate, for an id that has arrived
  unfoldable pub handle_deallocate : ℕ → Process (Unit {0})
  unfolding destroy_stub_obj
  handle_deallocate id h = elim (lookup_local id h) [
    | none ↦ (ok tt, h)
    | some a ↦ destroy_stub_obj id a h
  ]

  -- npobject_create_proxy; `a` is where NPN_CreateObject has found memory.
  unfoldable pub create_proxy : ℕ → ℕ → Host Table → Host Table
  create_proxy id a h =
      let o : NpObject = record { kind = proxy id true; reference_count = 1 } in
      set_object a (some o) (record h { proxies = insert id a h.proxies })

  -- npobject_get_proxy_id
  abbrev pub proxy_id : Kind → ℕ
  proxy_id own = 0
  proxy_id (proxy id is_valid) = id

  abbrev pub invalidate_kind : ℕ → ℕ → Kind → Process (Unit {0})
  invalidate_kind a count own h = (ok tt, h)
  invalidate_kind a count (proxy id is_valid) h =
      if is_valid
      then (let o : NpObject = record { kind = proxy id false; reference_count = count } in
          (ok tt, say (deallocate id) (set_object a (some o) h)))
      else (ok tt, h)

  -- g_NPClass_Invalidate, of a proxy on the main thread
  unfoldable pub invalidate : ℕ → Process (Unit {0})
  unfolding with_object
  invalidate a = with_object a λ o. invalidate_kind a o.reference_count o.kind
