-- ===== src/Npapi/Event/Any.antt =====
-- do_send_XAnyEvent and do_recv_XAnyEvent of src/npw-rpc.c. `time` and the XIDs are `unsigned long`, of which 32 bits
-- are sent; an `int` that is sent as a `uint32_t` is read back by its bits.
use nspluginwrapper.Prelude.{ℕ, ℤ}
use nspluginwrapper.Rpc.Action.{return, ◌>>=◌, ◌>>◌}
use nspluginwrapper.Rpc.Words.{IsU32, IsInt32}
use nspluginwrapper.Rpc.Message.{Send, send_uint32}
use nspluginwrapper.Rpc.Reader.{Reader, recv_uint32}
use nspluginwrapper.Rpc.Carries.{Carries}
use nspluginwrapper.Npapi.Fields.{send_int_word, recv_int_word, field_rules}

-- The fields of `XAnyEvent` that are sent.
pub record Any : Type 0 where
  pub serial : ℕ
  pub send_event : ℤ
  pub window : ℕ

pub record IsAny (e : Any) : Type 0 where
  pub serial : IsU32 e.serial
  pub send_event : IsInt32 e.send_event
  pub window : IsU32 e.window

pub send_any : Any → Send
send_any e = do send_uint32 e.serial; send_int_word e.send_event; send_uint32 e.window

pub recv_any : Reader Any
recv_any = do
  serial ← recv_uint32
  send_event ← recv_int_word
  window ← recv_uint32
  return (record { serial = serial; send_event = send_event; window = window })

pub send_any-Carries : (e : Any) → IsAny e → Carries (send_any e) recv_any e
unfolding send_any recv_any
send_any-Carries e h = search (field_rules) depth 60 fits 20000
