-- ===== src/Npapi/Window.antt =====
-- `NPWindow` and its `NPSetWindowCallbackStruct`: do_send_NPWindow, do_recv_NPWindow and the
-- functions that they call, of src/npw-rpc.c.
pub mod RoundTrip
use nspluginwrapper.Prelude.{ℕ, ℤ, Bool, ◌%◌, ◌^◌, ◌==◌, if◌then◌else◌, Option, none, some}
use nspluginwrapper.Rpc.Error.{Result, ok, err, abort}
use nspluginwrapper.Rpc.Action.{return, ◌>>=◌, ◌>>◌}
use nspluginwrapper.Rpc.Message.{Message, Send, send_int32, send_uint32}
use nspluginwrapper.Rpc.Reader.{Reader, recv_int32, recv_uint32, when_allocated}
use nspluginwrapper.Npapi.Rect.{NpRect, send_rect, recv_rect}

-- `display` and `visual` are 0 for NULL.
pub record WsInfo : Type 0 where
  pub type : ℤ
  pub display : ℕ
  pub visual : ℕ
  pub colormap : ℕ
  pub depth : ℕ

-- `window` is the XID.
pub record NpWindow : Type 0 where
  pub window : ℕ
  pub x : ℤ
  pub y : ℤ
  pub width : ℕ
  pub height : ℕ
  pub clip_rect : NpRect
  pub type : ℤ
  pub ws_info : Option WsInfo

-- `sizeof(NPSetWindowCallbackStruct)` and `sizeof(NPWindow)` with pointers of 8 bytes
abbrev pub ws_info_size : ℕ
ws_info_size = 40

abbrev pub window_size : ℕ
window_size = 48

-- `if ((error = …) < 0) return 0;`: the failure is not passed on.
unfoldable pub swallow : Send → Send
swallow s m = let (r, m') = s m in (elim r [ ok u ↦ ok tt | err e ↦ ok tt | abort ↦ abort ], m')

-- `visual_id` is the X library's `XVisualIDFromVisual`.
module _ (visual_id : ℕ → ℕ) where
  abbrev pub wire_visual : ℕ → ℕ
  wire_visual v = if v == 0 then 0 else visual_id v

  -- The display is not sent.
  unfoldable pub send_ws_info : Option WsInfo → Send
  send_ws_info none = send_uint32 0
  send_ws_info (some w) = do
    send_uint32 1
    send_int32 w.type
    send_uint32 (wire_visual w.visual)
    send_uint32 w.colormap
    send_uint32 w.depth

  unfoldable pub send_window_data : NpWindow → Send
  send_window_data w = do
    send_uint32 w.window
    send_int32 w.x
    send_int32 w.y
    send_uint32 w.width
    send_uint32 w.height
    send_rect w.clip_rect
    send_int32 w.type
    swallow (send_ws_info w.ws_info)

  unfoldable pub send_window : Option NpWindow → Send
  send_window none = send_uint32 0
  send_window (some w) = do send_uint32 1; send_window_data w

module _ (malloc : ℕ → Bool) where
  -- The display stays NULL, as calloc has left it.
  unfoldable pub recv_ws_info_fields : Reader (Option WsInfo)
  unfolding when_allocated
  recv_ws_info_fields = do
    type ← recv_int32
    visual ← recv_uint32
    colormap ← recv_uint32
    depth ← recv_uint32
    when_allocated malloc ws_info_size (
        return (
          some (record {
            type = type;
            display = 0;
            visual = visual;
            colormap = colormap;
            depth = depth;
          })))

  unfoldable pub recv_ws_info : Reader (Option WsInfo)
  unfolding recv_ws_info_fields
  recv_ws_info = do
    has_ws_info ← recv_uint32
    if has_ws_info == 0 then return none else recv_ws_info_fields

  unfoldable pub recv_window_data : Reader NpWindow
  recv_window_data = do
    window ← recv_uint32
    x ← recv_int32
    y ← recv_int32
    width ← recv_uint32
    height ← recv_uint32
    clip_rect ← recv_rect
    type ← recv_int32
    ws_info ← recv_ws_info
    return (record {
      window = window;
      x = x;
      y = y;
      width = width;
      height = height;
      clip_rect = clip_rect;
      type = type;
      ws_info = ws_info;
    })

  unfoldable pub recv_window : Reader (Option NpWindow)
  unfolding when_allocated
  recv_window = do
    window_valid ← recv_uint32
    if window_valid == 0
        then return none
        else when_allocated malloc window_size (do w ← recv_window_data; return (some w))
