-- ===== src/Npapi/Fields.antt =====
-- The fields of the structs of src/npw-rpc.c, and the rules by which a marshaler is proved to carry
-- a struct.
use nspluginwrapper.Prelude.{ℕ, ℤ, ◌%◌, ◌^◌, ◌<◌, ◌≡◌, arith}
use nspluginwrapper.Rpc.Action.{return, ◌>>=◌}
use nspluginwrapper.Rpc.Words.{IsInt32, to_u32, to_i32, to_u32-IsU32, to_i32-to_u32}
use nspluginwrapper.Rpc.Message.{Send, send_uint32}
use nspluginwrapper.Rpc.Reader.{Reader, recv_uint32}
use nspluginwrapper.Rpc.Reader.Parses.{Parses-return}
use nspluginwrapper.Rpc.Carries.{Carries, Carries-last, carries_rules}
use nspluginwrapper.Rpc.Carries.Scalars.{send_char-Carries, send_int32-Carries, send_uint32-Carries}

-- An `int` field that is handed to `rpc_message_send_uint32`, and assigned from a `uint32_t`.
unfoldable pub send_int_word : ℤ → Send
send_int_word v = send_uint32 (to_u32 v)

unfoldable pub recv_int_word : Reader ℤ
recv_int_word = do w ← recv_uint32; return (to_i32 w)

pub send_int_word-Carries : (v : ℤ) → IsInt32 v → Carries (send_int_word v) recv_int_word v
unfolding send_int_word recv_int_word
send_int_word-Carries v h =
    Carries-last _ _ _ (send_uint32-Carries (to_u32 v) (to_u32-IsU32 v))
      (let e = to_i32-to_u32 v h in rw e (Parses-return v))

-- A `uint16_t` field that is assigned from a `uint32_t`.
unfoldable pub recv_u16_word : Reader ℕ
recv_u16_word = do w ← recv_uint32; return (w % 2 ^ 16)

pub recv_u16_word-Carries : (w : ℕ) → w < 2 ^ 16 → Carries (send_uint32 w) recv_u16_word w
unfolding recv_u16_word
recv_u16_word-Carries w h =
    let e : w % 2 ^ 16 ≡ w = omega arith in
    Carries-last _ _ _ (send_uint32-Carries w (omega arith)) (rw e (Parses-return w))

pub ruleset field_rules = (
  send_char-Carries, send_int32-Carries, send_uint32-Carries, send_int_word-Carries,
  recv_u16_word-Carries, carries_rules,
)
