-- ===== src/Streams.antt =====
-- The streams that both processes know, src/npw-wrapper.c and src/npw-viewer.c: NPP_NewStream and
-- NPN_NewStream, NPP_DestroyStream and NPN_DestroyStream, as far as they keep the ids; and the
-- marshalers do_send_NPStream and do_recv_NPStream of src/npw-rpc.c, without the write and the
-- read. A process has its NPStream and StreamInstance structures by their addresses.
pub mod Held
pub mod Destroyed
pub mod Open
use nspluginwrapper.Prelude.{ℕ, ◌==◌, Bool, true, false, if◌then◌else◌, Option, none, some}
use nspluginwrapper.Rpc.Error.{Result, ok, abort}
use nspluginwrapper.Glib.{HashTable}
use nspluginwrapper.Ids.{Ids, id_create, id_link, id_remove, id_lookup}

pub record StreamInstance : Type 0 where
  pub stream : ℕ
  pub stream_id : ℕ
  pub is_plugin_stream : Bool

-- The private pointer of the NPStream at an address; `freed` where the NPStream has been freed.
pub data Private : Type 0 where
  null freed : Private
  points : ℕ → Private

-- `private` is the pdata of an NPStream in the wrapper, and its ndata in the viewer.
pub record Side (T : Type 0) : Type 0 where
  pub ids : Ids T
  pub instances : ℕ → Option StreamInstance
  pub private : ℕ → Private

abbrev pub set : {A : Type 0} → ℕ → A → (ℕ → A) → ℕ → A
set k a f j = if k == j then a else f j

module _ (glib : HashTable) where
  open glib use {Table}

  -- What the four functions that make a stream store, for the id of the stream.
  unfoldable pub stored_stream : ℕ → ℕ → ℕ → Bool → Side Table → Side Table
  stored_stream id d s is_plugin_stream x = record x {
    instances =
        set d (some (record { stream = s; stream_id = id; is_plugin_stream = is_plugin_stream }))
          x.instances;
    private = set s (points d) x.private;
  }

  -- The wrapper makes the id: g_NPP_NewStream, and NPN_NewStream with a plugin stream. The
  -- structure is allocated at `d`.
  unfoldable pub create_stream : ℕ → ℕ → Bool → Side Table → ℕ × Side Table
  unfolding stored_stream id_create id_link
  create_stream d s is_plugin_stream x =
      let (id, ids) = id_create glib d x.ids in
      (id, stored_stream id d s is_plugin_stream (record x { ids = ids }))

  -- The viewer takes the id from the message: handle_NPP_NewStream and invoke_NPN_NewStream.
  unfoldable pub link_stream : ℕ → ℕ → ℕ → Bool → Side Table → Side Table
  unfolding stored_stream id_link
  link_stream id d s is_plugin_stream x =
      stored_stream id d s is_plugin_stream (record x { ids = id_link glib id d x.ids })

  -- A structure that has been freed is used: the end of the process. `left` is what becomes of the
  -- NPStream's pointer: the wrapper sets it to NULL, and the viewer frees the NPStream with it.
  abbrev pub release_instance :
      Private → ℕ → ℕ → Option StreamInstance → Side Table → Result (Unit {0}) × Side Table
  release_instance left s d none x = (abort, x)
  release_instance left s d (some i) x = (
    ok tt,
    record x {
      ids = id_remove glib i.stream_id x.ids;
      instances = set d none x.instances;
      private = set s left x.private;
    },
  )

  -- g_NPP_DestroyStream of the wrapper, after the call of the viewer.
  abbrev pub release_private : ℕ → Private → Side Table → Result (Unit {0}) × Side Table
  release_private s null x = (ok tt, x)
  release_private s freed x = (abort, x)
  release_private s (points d) x = release_instance null s d (x.instances d) x

  unfoldable pub destroy_stream : ℕ → Side Table → Result (Unit {0}) × Side Table
  unfolding id_remove
  destroy_stream s x = release_private s (x.private s) x

  -- g_NPP_DestroyStream of the viewer, after the call of the plugin.
  abbrev pub viewer_release : ℕ → Private → Side Table → Result (Unit {0}) × Side Table
  viewer_release s null x = (ok tt, record x { private = set s freed x.private })
  viewer_release s freed x = (abort, x)
  viewer_release s (points d) x = release_instance freed s d (x.instances d) x

  unfoldable pub viewer_destroy_stream : ℕ → Side Table → Result (Unit {0}) × Side Table
  unfolding id_remove
  viewer_destroy_stream s x = viewer_release s (x.private s) x

  -- NPN_DestroyStream keeps the streams of the browser. `destroy` frees a stream of the plugin.
  abbrev pub destroy_if_plugin :
      (Side Table → Result (Unit {0}) × Side Table)
      → Option StreamInstance
      → Side Table
      → Result (Unit {0}) × Side Table
  destroy_if_plugin destroy none x = (abort, x)
  destroy_if_plugin destroy (some i) x = if i.is_plugin_stream then destroy x else (ok tt, x)

  abbrev pub npn_destroy_private :
      (Side Table → Result (Unit {0}) × Side Table)
      → Private
      → Side Table
      → Result (Unit {0}) × Side Table
  npn_destroy_private destroy null x = (ok tt, x)
  npn_destroy_private destroy freed x = (abort, x)
  npn_destroy_private destroy (points d) x = destroy_if_plugin destroy (x.instances d) x

  -- g_NPN_DestroyStream of the wrapper, before the call of the browser.
  unfoldable pub npn_destroy_stream : ℕ → Side Table → Result (Unit {0}) × Side Table
  unfolding destroy_stream
  npn_destroy_stream s x = npn_destroy_private (destroy_stream s) (x.private s) x

  -- g_NPN_DestroyStream of the viewer, after the call of the wrapper.
  unfoldable pub viewer_npn_destroy_stream : ℕ → Side Table → Result (Unit {0}) × Side Table
  unfolding viewer_destroy_stream
  viewer_npn_destroy_stream s x = npn_destroy_private (viewer_destroy_stream s) (x.private s) x

  -- npw_get_stream_instance, with its assert, and the id.
  abbrev pub sent_instance : ℕ → Option StreamInstance → Result ℕ
  sent_instance s none = abort
  sent_instance s (some i) = if i.stream == s then ok i.stream_id else abort

  abbrev pub sent_private : ℕ → Private → Side Table → Result ℕ
  sent_private s null x = ok 0
  sent_private s freed x = abort
  sent_private s (points d) x = sent_instance s (x.instances d)

  -- What do_send_NPStream writes.
  unfoldable pub send_stream : Option ℕ → Side Table → Result ℕ
  send_stream none x = ok 0
  send_stream (some s) x = sent_private s (x.private s) x

  abbrev pub received_instance : Option StreamInstance → Result (Option ℕ)
  received_instance none = abort
  received_instance (some i) = ok (some i.stream)

  abbrev pub received : Option ℕ → Side Table → Result (Option ℕ)
  received none x = ok none
  received (some d) x = received_instance (x.instances d)

  -- What do_recv_NPStream makes of an id.
  unfoldable pub recv_stream : ℕ → Side Table → Result (Option ℕ)
  recv_stream id x = received (id_lookup glib id x.ids) x
