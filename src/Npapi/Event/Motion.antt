-- ===== src/Npapi/Event/Motion.antt =====
-- do_send_XMotionEvent and do_recv_XMotionEvent of src/npw-rpc.c. `time` and the XIDs are `unsigned long`, of which 32 bits
-- are sent; an `int` that is sent as a `uint32_t` is read back by its bits.
use nspluginwrapper.Prelude.{ℕ, ℤ}
use nspluginwrapper.Rpc.Action.{return, ◌>>=◌, ◌>>◌}
use nspluginwrapper.Rpc.Words.{IsByte, IsU32, IsInt32}
use nspluginwrapper.Rpc.Message.{Send, send_char, send_int32, send_uint32}
use nspluginwrapper.Rpc.Reader.{Reader, recv_char, recv_int32, recv_uint32}
use nspluginwrapper.Rpc.Carries.{Carries}
use nspluginwrapper.Npapi.Fields.{field_rules}
use nspluginwrapper.Npapi.Event.Any.{Any, IsAny, send_any, recv_any, send_any-Carries}

-- The fields of `XMotionEvent` that are sent, after those of `XAnyEvent`.
pub record Motion : Type 0 where
  pub any : Any
  pub root : ℕ
  pub subwindow : ℕ
  pub time : ℕ
  pub x : ℤ
  pub y : ℤ
  pub x_root : ℤ
  pub y_root : ℤ
  pub state : ℕ
  pub is_hint : ℕ
  pub same_screen : ℤ

pub record IsMotion (e : Motion) : Type 0 where
  pub any : IsAny e.any
  pub root : IsU32 e.root
  pub subwindow : IsU32 e.subwindow
  pub time : IsU32 e.time
  pub x : IsInt32 e.x
  pub y : IsInt32 e.y
  pub x_root : IsInt32 e.x_root
  pub y_root : IsInt32 e.y_root
  pub state : IsU32 e.state
  pub is_hint : IsByte e.is_hint
  pub same_screen : IsInt32 e.same_screen

pub send_motion : Motion → Send
send_motion e = do
  send_any e.any
  send_uint32 e.root
  send_uint32 e.subwindow
  send_uint32 e.time
  send_int32 e.x
  send_int32 e.y
  send_int32 e.x_root
  send_int32 e.y_root
  send_uint32 e.state
  send_char e.is_hint
  send_int32 e.same_screen

pub recv_motion : Reader Motion
recv_motion = do
  any ← recv_any
  root ← recv_uint32
  subwindow ← recv_uint32
  time ← recv_uint32
  x ← recv_int32
  y ← recv_int32
  x_root ← recv_int32
  y_root ← recv_int32
  state ← recv_uint32
  is_hint ← recv_char
  same_screen ← recv_int32
  return (record {
    any = any;
    root = root;
    subwindow = subwindow;
    time = time;
    x = x;
    y = y;
    x_root = x_root;
    y_root = y_root;
    state = state;
    is_hint = is_hint;
    same_screen = same_screen;
  })

pub send_motion-Carries : (e : Motion) → IsMotion e → Carries (send_motion e) recv_motion e
unfolding send_motion recv_motion
send_motion-Carries e h = search (field_rules, send_any-Carries) depth 60 fits 20000
