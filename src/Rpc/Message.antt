-- ===== src/Rpc/Message.antt =====
-- Sending a message: the buffer of `rpc_message_t` and the `rpc_message_send_*` of src/rpc.c.
pub mod Emits
use nspluginwrapper.Prelude.{
  ℕ, ◌+◌, ◌/◌, ◌%◌, ◌^◌, ltb, leb, if◌then◌else◌, List, [], ◌∷◌, ◌++◌, length, Option, none, some,
  ℤ, pos, negsuc,
}
use nspluginwrapper.Rpc.Error.{Result, ok, err}
use nspluginwrapper.Rpc.Action.{Action, return, ◌>>=◌, ◌>>◌}
use nspluginwrapper.Rpc.Words.{Double, to_u32, htonl_bytes}
use nspluginwrapper.Rpc.Socket.Events.{Socket}
use nspluginwrapper.Rpc.Socket.Send.{raw_send}

-- `rpc_message_t`: the first `offset` bytes of its buffer, and `sizeof(buffer)`, the BUFSIZ of the
-- C library. The marshalers `types` are an argument of the functions that look them up.
pub record Message : Type 0 where
  pub capacity : ℕ
  pub buffer : List ℕ
  pub socket : Socket

abbrev pub Send : Type 0
Send = Action Message (Unit {0})

-- `_rpc_message_send_bytes` on the message's socket
pub send_raw : List ℕ → Send
send_raw bytes m = let (r, s) = raw_send bytes m.socket in (r, record m { socket = s })

-- `rpc_message_flush`: the offset is reset also where the bytes could not be sent.
unfoldable pub flush : Send
unfolding send_raw
flush m = let (r, m') = send_raw m.buffer m in (r, record m' { buffer = [] })

-- `rpc_message_send_bytes`
unfoldable pub send_bytes : List ℕ → Send
unfolding flush send_raw ◌>>=◌
send_bytes bytes m =
    if leb m.capacity (length m.buffer + length bytes)
    then (flush >> send_raw bytes) m
    else (ok tt, record m { buffer = m.buffer ++ bytes })

-- A `char` is its byte.
unfoldable pub send_char : ℕ → Send
send_char c = send_bytes ((c % 256) ∷ [])

unfoldable pub send_int32 : ℤ → Send
send_int32 value = send_bytes (htonl_bytes (to_u32 value))

unfoldable pub send_uint32 : ℕ → Send
send_uint32 value = send_bytes (htonl_bytes (value % 2 ^ 32))

unfoldable pub send_uint64 : ℕ → Send
send_uint64 value = do send_uint32 (value / 2 ^ 32 % 2 ^ 32); send_uint32 (value % 2 ^ 32)

unfoldable pub send_double : Double → Send
send_double d = do
  send_uint32 d.negative
  send_uint32 d.exponent
  send_uint32 d.mantissa0
  send_uint32 d.mantissa1

-- The length of a string, -1 for NULL.
abbrev pub string_length : Option (List ℕ) → ℤ
string_length none = negsuc 0
string_length (some s) = pos (length s)

-- A string is its bytes up to the terminating 0, or NULL.
unfoldable pub send_string : Option (List ℕ) → Send
send_string none = send_bytes (htonl_bytes (to_u32 (string_length none)))
send_string (some s) = do
  send_bytes (htonl_bytes (to_u32 (string_length (some s))))
  if ltb 0 (length s) then send_bytes s else return tt
