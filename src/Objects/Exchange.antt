-- ===== src/Objects/Exchange.antt =====
-- do_send_NPObject_helper and do_recv_NPObject_helper of src/npw-rpc.c: what they do to the objects
-- of the process, and what they write and read.
use nspluginwrapper.Prelude.{ℕ, ◌==◌, not, Bool, true, false, if◌then◌else◌, Option, none, some}
use nspluginwrapper.Rpc.Error.{ok, err, abort, generic}
use nspluginwrapper.Rpc.Action.{return, halt, ◌>>=◌, ◌>>◌}
use nspluginwrapper.Rpc.Message.{Send, send_uint32}
use nspluginwrapper.Rpc.Reader.{Reader, recv_uint32}
use nspluginwrapper.Glib.{HashTable}
use nspluginwrapper.Objects.Host.{
  Kind, Wire, Process, with_object, retain, release, destroy_proxy, create_stub, destroy_stub,
  lookup_local, create_proxy, own, proxy,
}

-- enum NPObjectType
abbrev pub object_null : ℕ
object_null = 0

abbrev pub sender_owned : ℕ
sender_owned = 1

abbrev pub receiver_owned : ℕ
receiver_owned = 2

abbrev pub flag : Bool → ℕ
flag true = 1
flag false = 0

abbrev pub null_wire : Wire
null_wire = record { type = object_null; plugin = 0; id = 0; release_stub = false }

abbrev pub stub_wire : ℕ → Bool → Wire
stub_wire id b = record { type = receiver_owned; plugin = 0; id = id; release_stub = b }

module _ (glib : HashTable) where
  open glib use {Table}

  module _ (owner_id : ℕ → ℕ) where
    -- What is sent of a stub, `no_id` being what the assert refuses. `owner_id` is the instance id of
    -- the object's owner in the viewer, and 0 in the wrapper.
    abbrev pub own_wire : ℕ → ℕ → Bool → Process glib Wire
    own_wire a id true = halt
    own_wire a id false =
        return (record { type = sender_owned; plugin = owner_id a; id = id; release_stub = false })

    -- An object of the process's own.
    unfoldable pub export_own : Bool → ℕ → Process glib Wire
    unfolding create_stub release
    export_own pass_ref a = do
      id ← create_stub glib a
      if pass_ref then release glib a else return tt
      own_wire a id (id == 0)

    -- A proxy, by the id of its stub. The last reference goes with the message.
    unfoldable pub export_proxy : Bool → ℕ → ℕ → Bool → ℕ → Process glib Wire
    unfolding release destroy_proxy
    export_proxy pass_ref a id is_valid count h =
        if pass_ref
        then (if count == 1
            then (ok (stub_wire id true), destroy_proxy glib a id is_valid false h)
            else (release glib a >> return (stub_wire id false)) h)
        else (ok (stub_wire id false), h)

    abbrev pub export_kind : Bool → ℕ → Kind → ℕ → Process glib Wire
    export_kind pass_ref a own count = export_own pass_ref a
    export_kind pass_ref a (proxy id is_valid) count =
        if id == 0 then export_own pass_ref a else export_proxy pass_ref a id is_valid count

    -- What do_send_NPObject_helper does before it writes.
    unfoldable pub export_object : Bool → Option ℕ → Process glib Wire
    unfolding export_own export_proxy with_object
    export_object pass_ref none = return null_wire
    export_object pass_ref (some a) =
        with_object glib a λ o. export_kind pass_ref a o.kind o.reference_count

  -- A stub of the process's own comes back: its object.
  unfoldable pub import_stub : Wire → ℕ → Process glib (Option ℕ)
  unfolding retain destroy_stub
  import_stub w b = do
    retain glib b
    if w.release_stub then destroy_stub glib w.id else return tt
    return (some b)

  -- `g_stubs` is asked, with the assert.
  abbrev pub import_local : Wire → Option ℕ → Process glib (Option ℕ)
  import_local w none h = (abort, h)
  import_local w (some b) h = import_stub w b h

  -- A proxy for a stub of the other process, `a` being where NPN_CreateObject finds memory for it.
  abbrev pub import_proxy : ℕ → Wire → Process glib (Option ℕ)
  import_proxy a w h =
      (if w.release_stub then err generic else ok (some a), create_proxy glib w.id a h)

  -- What do_recv_NPObject_helper does with what it has read.
  unfoldable pub import_object : ℕ → Wire → Process glib (Option ℕ)
  unfolding create_proxy import_stub
  import_object a w h =
      if w.type == object_null
      then (ok none, h)
      else if w.type == sender_owned
      then import_proxy a w h
      else if w.type == receiver_owned
      then import_local w (lookup_local glib w.id h) h
      else (err generic, h)

-- What do_send_NPObject_helper writes.
unfoldable pub send_wire : Bool → Wire → Send
send_wire pass_ref w = do
  send_uint32 w.type
  send_uint32 w.plugin
  send_uint32 w.id
  if pass_ref then send_uint32 (flag w.release_stub) else return tt

-- What do_recv_NPObject_helper reads.
unfoldable pub recv_wire : Bool → Reader Wire
recv_wire pass_ref = do
  type ← recv_uint32
  plugin ← recv_uint32
  id ← recv_uint32
  release_stub ← if pass_ref then recv_uint32 else return 0
  return (record { type = type; plugin = plugin; id = id; release_stub = not (release_stub == 0) })
