-- ===== src/Npapi/Buffers.antt =====
-- `NPSavedData`, `NPUTF8`, `NPString`, `NPByteRange` and notify data: their marshalers in
-- src/npw-rpc.c. `malloc` is NPN_MemAlloc, the browser's allocator, or the C library's.
pub mod RoundTrip
pub mod Ranges
use nspluginwrapper.Prelude.{
  ℕ, zero, suc, ℤ, pos, negsuc, ◌+◌, ◌%◌, ◌/◌, ◌^◌, ltb, ◌==◌, ◌==ℤ◌, ◌&&◌, not, Bool,
  if◌then◌else◌, List, [], ◌∷◌, ◌++◌, length, Option, none, some,
}
use nspluginwrapper.Rpc.Error.{message_argument_invalid, message_timeout}
use nspluginwrapper.Rpc.Action.{return, fail, halt, ◌>>=◌, ◌>>◌}
use nspluginwrapper.Rpc.Words.{to_u32, to_i32}
use nspluginwrapper.Rpc.Message.{Send, send_int32, send_uint32, send_uint64, send_bytes}
use nspluginwrapper.Rpc.Socket.Recv.{stream}
use nspluginwrapper.Rpc.Reader.{
  Reader, recv_int32, recv_uint32, recv_uint64, recv_buffer, when_allocated,
}

-- The buffer of an `NPSavedData`, whose `len` is the length of the list; or NULL.
abbrev pub SavedData : Type 0
SavedData = Option (List ℕ)

unfoldable pub send_saved_data : SavedData → Send
send_saved_data none = send_int32 (pos 0)
send_saved_data (some buf) = do send_int32 (pos (length buf)); send_bytes buf

-- A `char *` that ends in a 0, which is sent too; or NULL.
unfoldable pub send_utf8 : Option (List ℕ) → Send
send_utf8 none = fail message_argument_invalid
send_utf8 (some s) = do send_uint32 (length (s ++ 0 ∷ []) % 2 ^ 32); send_bytes (s ++ 0 ∷ [])

-- `UTF8Length` and the bytes at `UTF8Characters`, which may be NULL.
pub record NpString : Type 0 where
  pub utf8_length : ℕ
  pub utf8_characters : Option (List ℕ)

abbrev pub send_characters : ℕ → Option (List ℕ) → Send
send_characters n none = return tt
send_characters n (some s) = if n == 0 then return tt else send_bytes s

unfoldable pub send_np_string : NpString → Send
send_np_string s = do send_uint32 s.utf8_length; send_characters s.utf8_length s.utf8_characters

pub record ByteRange : Type 0 where
  pub offset : ℤ
  pub length : ℕ

-- The linked list; a 1 stands before each range and a 0 behind the last.
unfoldable pub send_byte_range : List ByteRange → Send
send_byte_range [] = send_uint32 0
send_byte_range (r ∷ rs) = do
  send_uint32 1
  send_int32 r.offset
  send_uint32 r.length
  send_byte_range rs

-- A pointer, by its value
unfoldable pub send_notify_data : ℕ → Send
send_notify_data p = send_uint64 p

-- A 64-bit id cannot be taken where pointers have 4 bytes.
unfoldable pub recv_notify_data : ℕ → Reader ℕ
recv_notify_data pointer_size = do
  id ← recv_uint64
  if (pointer_size == 4) && not (id / 2 ^ 32 == 0) then halt else return id

-- `sizeof(NPSavedData)` and `sizeof(NPByteRange)` with pointers of 8 bytes
abbrev pub saved_data_size : ℕ
saved_data_size = 16

abbrev pub byte_range_size : ℕ
byte_range_size = 16

module _ (malloc : ℕ → Bool) where
  unfoldable pub recv_saved_data : Reader SavedData
  unfolding when_allocated
  recv_saved_data = do
    len ← recv_int32
    if len ==ℤ pos 0
        then return none
        else when_allocated malloc saved_data_size
            (when_allocated malloc (to_u32 len) (do buf ← recv_buffer len; return (some buf)))

  -- The bytes that are received, the 0 among them.
  unfoldable pub recv_utf8 : Reader (List ℕ)
  unfolding when_allocated
  recv_utf8 = do
    len ← recv_uint32
    when_allocated malloc len (if ltb 0 len then recv_buffer (to_i32 len) else return [])

  unfoldable pub recv_np_string : Reader NpString
  unfolding when_allocated
  recv_np_string = do
    len ← recv_uint32
    when_allocated malloc ((len + 1) % 2 ^ 32) (
        if ltb 0 len
        then (do
          bytes ← recv_buffer (to_i32 len)
          return (record { utf8_length = len; utf8_characters = some bytes }))
        else return (record { utf8_length = len; utf8_characters = some [] }))

  -- `for (;;)` with fuel: every round takes 12 bytes off the stream.
  unfoldable pub recv_ranges : ℕ → Reader (List ByteRange)
  unfolding when_allocated
  recv_ranges zero = fail message_timeout
  recv_ranges (suc fuel) = do
    cont ← recv_uint32
    if cont == 0
        then return []
        else when_allocated malloc byte_range_size (do
          offset ← recv_int32
          length ← recv_uint32
          rest ← recv_ranges fuel
          return (record { offset = offset; length = length } ∷ rest))

  unfoldable pub recv_byte_range : Reader (List ByteRange)
  unfolding recv_ranges
  recv_byte_range evs = recv_ranges (suc (length (stream evs))) evs
