-- ===== src/Npapi/Window/RoundTrip.antt =====
-- A window arrives as it was sent.
use nspluginwrapper.Prelude.{ℕ, Bool, true, arith, ◌≡◌, refl, Option, none, some, List}
use nspluginwrapper.Rpc.Words.{IsU32, IsInt32}
use nspluginwrapper.Rpc.Message.{Message, Send}
use nspluginwrapper.Rpc.Message.Emits.{Emitted}
use nspluginwrapper.Rpc.Reader.{Reader, when_allocated}
use nspluginwrapper.Rpc.Reader.Parses.{Parses-return}
use nspluginwrapper.Rpc.Carries.{Carries, Carries-bind, Carries-last}
use nspluginwrapper.Rpc.Carries.Scalars.{send_int32-Carries, send_uint32-Carries}
use nspluginwrapper.Npapi.Fields.{field_rules}
use nspluginwrapper.Npapi.Rect.{IsNpRect, send_rect-Carries}
use nspluginwrapper.Npapi.Window.{
  WsInfo, NpWindow, swallow, wire_visual, send_ws_info, send_window_data, send_window, recv_ws_info,
  recv_window_data, recv_window, ws_info_size, window_size,
}

-- Where the call succeeds, it does not matter that its failure would be lost.
swallow-Emitted :
    (s : Send) (m : Message) (xs : List ℕ) → Emitted m xs (s m) → Emitted m xs (swallow s m)
unfolding swallow
swallow-Emitted s m xs e = record {
  message = e.message;
  result = rw e.result refl;
  output = e.output;
  input = e.input;
  is_ready = e.is_ready;
}

pub swallow-Carries :
    {A : Type 0} {r : Reader A} {a : A} (s : Send) → Carries s r a → Carries (swallow s) r a
swallow-Carries s c = record {
  bytes = c.bytes;
  emits = record { run = λ m h. swallow-Emitted s m c.bytes (c.emits.run m h) };
  parses = c.parses;
}

module _ (visual_id : ℕ → ℕ) (malloc : ℕ → Bool) where
  pub record IsWsInfo (w : WsInfo) : Type 0 where
    pub type : IsInt32 w.type
    pub visual : IsU32 (wire_visual visual_id w.visual)
    pub colormap : IsU32 w.colormap
    pub depth : IsU32 w.depth

  abbrev pub IsOptionWsInfo : Option WsInfo → Type 0
  IsOptionWsInfo none = Unit
  IsOptionWsInfo (some w) = IsWsInfo w

  pub record IsNpWindow (w : NpWindow) : Type 0 where
    pub window : IsU32 w.window
    pub x : IsInt32 w.x
    pub y : IsInt32 w.y
    pub width : IsU32 w.width
    pub height : IsU32 w.height
    pub clip_rect : IsNpRect w.clip_rect
    pub type : IsInt32 w.type
    pub ws_info : IsOptionWsInfo w.ws_info

  -- The receiver has no display, and the visual's id in place of the visual.
  abbrev pub as_received : Option WsInfo → Option WsInfo
  as_received none = none
  as_received (some w) = some (record w { display = 0; visual = wire_visual visual_id w.visual })

  abbrev pub window_received : NpWindow → NpWindow
  window_received w = record w { ws_info = as_received w.ws_info }

  ws_info_carried :
      (w : Option WsInfo)
      → IsOptionWsInfo w
      → malloc ws_info_size ≡ true
      → Carries (send_ws_info visual_id w) (recv_ws_info malloc) (as_received w)
  unfolding send_ws_info recv_ws_info when_allocated
  ws_info_carried none h room =
      Carries-last _ _ _ (send_uint32-Carries 0 (omega arith)) (Parses-return none)
  ws_info_carried (some w) h room = rw room (
      Carries-bind _ _ _ _ (send_uint32-Carries 1 (omega arith))
        (search field_rules depth 60 fits 20000))

  ws_info_swallowed :
      (w : Option WsInfo)
      → IsOptionWsInfo w
      → malloc ws_info_size ≡ true
      → Carries (swallow (send_ws_info visual_id w)) (recv_ws_info malloc) (as_received w)
  ws_info_swallowed w h room = swallow-Carries _ (ws_info_carried w h room)

  pub window_data-Carries :
      (w : NpWindow)
      → IsNpWindow w
      → malloc ws_info_size ≡ true
      → Carries (send_window_data visual_id w) (recv_window_data malloc) (window_received w)
  unfolding send_window_data recv_window_data
  window_data-Carries w h room = Carries-bind _ _ _ _ (send_uint32-Carries w.window h.window) (
      Carries-bind _ _ _ _ (send_int32-Carries w.x h.x) (
        Carries-bind _ _ _ _ (send_int32-Carries w.y h.y) (
          Carries-bind _ _ _ _ (send_uint32-Carries w.width h.width) (
            Carries-bind _ _ _ _ (send_uint32-Carries w.height h.height) (
              Carries-bind _ _ _ _ (send_rect-Carries w.clip_rect h.clip_rect) (
                Carries-bind _ _ _ _ (send_int32-Carries w.type h.type) (
                  Carries-last _ _ _ (ws_info_swallowed w.ws_info h.ws_info room)
                    (Parses-return _))))))))

  -- A window whose fields fit the 32-bit numbers that carry them, also those that are wider in C
  -- (the window's id and the colormap), arrives as it was sent if the two allocations of the
  -- receiver succeed, but for its display, which is not sent and is NULL, and its visual, which has
  -- become the visual's id.
  pub send_window-Carries :
      (w : NpWindow)
      → IsNpWindow w
      → malloc ws_info_size ≡ true
      → malloc window_size ≡ true
      → Carries (send_window visual_id (some w)) (recv_window malloc) (some (window_received w))
  unfolding send_window recv_window when_allocated
  send_window-Carries w h room room' = rw room' (
      Carries-bind _ _ _ _ (send_uint32-Carries 1 (omega arith))
        (Carries-last _ _ _ (window_data-Carries w h room) (Parses-return _)))
