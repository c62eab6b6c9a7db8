-- ===== src/Npapi/Event/GraphicsExpose.antt =====
-- do_send_XGraphicsExposeEvent and do_recv_XGraphicsExposeEvent of src/npw-rpc.c. `time` and the XIDs are `unsigned long`, of which 32 bits
-- are sent; an `int` that is sent as a `uint32_t` is read back by its bits.
use nspluginwrapper.Prelude.{ℤ}
use nspluginwrapper.Rpc.Action.{return, ◌>>=◌, ◌>>◌}
use nspluginwrapper.Rpc.Words.{IsInt32}
use nspluginwrapper.Rpc.Message.{Send, send_int32}
use nspluginwrapper.Rpc.Reader.{Reader, recv_int32}
use nspluginwrapper.Rpc.Carries.{Carries}
use nspluginwrapper.Npapi.Fields.{send_int_word, recv_int_word, field_rules}
use nspluginwrapper.Npapi.Event.Any.{Any, IsAny, send_any, recv_any, send_any-Carries}

-- The fields of `XGraphicsExposeEvent` that are sent, after those of `XAnyEvent`.
pub record GraphicsExpose : Type 0 where
  pub any : Any
  pub x : ℤ
  pub y : ℤ
  pub width : ℤ
  pub height : ℤ

pub record IsGraphicsExpose (e : GraphicsExpose) : Type 0 where
  pub any : IsAny e.any
  pub x : IsInt32 e.x
  pub y : IsInt32 e.y
  pub width : IsInt32 e.width
  pub height : IsInt32 e.height

pub send_graphics_expose : GraphicsExpose → Send
send_graphics_expose e = do
  send_any e.any
  send_int32 e.x
  send_int32 e.y
  send_int_word e.width
  send_int_word e.height

pub recv_graphics_expose : Reader GraphicsExpose
recv_graphics_expose = do
  any ← recv_any
  x ← recv_int32
  y ← recv_int32
  width ← recv_int_word
  height ← recv_int_word
  return (record { any = any; x = x; y = y; width = width; height = height })

pub send_graphics_expose-Carries :
    (e : GraphicsExpose)
    → IsGraphicsExpose e
    → Carries (send_graphics_expose e) recv_graphics_expose e
unfolding send_graphics_expose recv_graphics_expose
send_graphics_expose-Carries e h = search (field_rules, send_any-Carries) depth 60 fits 20000
