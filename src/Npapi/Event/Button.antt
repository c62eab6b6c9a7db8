-- ===== src/Npapi/Event/Button.antt =====
-- do_send_XButtonEvent and do_recv_XButtonEvent of src/npw-rpc.c. `time` and the XIDs are `unsigned long`, of which 32 bits
-- are sent; an `int` that is sent as a `uint32_t` is read back by its bits.
use nspluginwrapper.Prelude.{ℕ, ℤ}
use nspluginwrapper.Rpc.Action.{return, ◌>>=◌, ◌>>◌}
use nspluginwrapper.Rpc.Words.{IsU32, IsInt32}
use nspluginwrapper.Rpc.Message.{Send, send_int32, send_uint32}
use nspluginwrapper.Rpc.Reader.{Reader, recv_int32, recv_uint32}
use nspluginwrapper.Rpc.Carries.{Carries}
use nspluginwrapper.Npapi.Fields.{field_rules}
use nspluginwrapper.Npapi.Event.Any.{Any, IsAny, send_any, recv_any, send_any-Carries}

-- The fields of `XButtonEvent` that are sent, after those of `XAnyEvent`.
pub record Button : Type 0 where
  pub any : Any
  pub root : ℕ
  pub subwindow : ℕ
  pub time : ℕ
  pub x : ℤ
  pub y : ℤ
  pub x_root : ℤ
  pub y_root : ℤ
  pub state : ℕ
  pub button : ℕ
  pub same_screen : ℤ

pub record IsButton (e : Button) : Type 0 where
  pub any : IsAny e.any
  pub root : IsU32 e.root
  pub subwindow : IsU32 e.subwindow
  pub time : IsU32 e.time
  pub x : IsInt32 e.x
  pub y : IsInt32 e.y
  pub x_root : IsInt32 e.x_root
  pub y_root : IsInt32 e.y_root
  pub state : IsU32 e.state
  pub button : IsU32 e.button
  pub same_screen : IsInt32 e.same_screen

pub send_button : Button → Send
send_button e = do
  send_any e.any
  send_uint32 e.root
  send_uint32 e.subwindow
  send_uint32 e.time
  send_int32 e.x
  send_int32 e.y
  send_int32 e.x_root
  send_int32 e.y_root
  send_uint32 e.state
  send_uint32 e.button
  send_int32 e.same_screen

pub recv_button : Reader Button
recv_button = do
  any ← recv_any
  root ← recv_uint32
  subwindow ← recv_uint32
  time ← recv_uint32
  x ← recv_int32
  y ← recv_int32
  x_root ← recv_int32
  y_root ← recv_int32
  state ← recv_uint32
  button ← recv_uint32
  same_screen ← recv_int32
  return (record {
    any = any;
    root = root;
    subwindow = subwindow;
    time = time;
    x = x;
    y = y;
    x_root = x_root;
    y_root = y_root;
    state = state;
    button = button;
    same_screen = same_screen;
  })

pub send_button-Carries : (e : Button) → IsButton e → Carries (send_button e) recv_button e
unfolding send_button recv_button
send_button-Carries e h = search (field_rules, send_any-Carries) depth 60 fits 20000
