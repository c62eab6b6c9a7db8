-- ===== src/Rpc/Reader.antt =====
-- Receiving a message: the `rpc_message_recv_*` of src/rpc.c. A reader takes bytes off the socket;
-- the buffer of the message is for sending only.
pub mod Parses
pub mod Consumes
use nspluginwrapper.Prelude.{
  ℕ, ◌+◌, ◌-◌, ◌*◌, ◌%◌, ◌^◌, ltb, ◌==◌, Bool, if◌then◌else◌, List, [], ◌∷◌, Option, none, some, ℤ,
  pos, negsuc,
}
use nspluginwrapper.Rpc.Error.{Result, ok, err, no_memory}
use nspluginwrapper.Rpc.Action.{Action, return, fail, ◌>>=◌, ◌>>◌}
use nspluginwrapper.Rpc.Words.{Double, to_i32, ntohl_bytes}
use nspluginwrapper.Rpc.Socket.Events.{RecvEvent}
use nspluginwrapper.Rpc.Socket.Recv.{recv_bytes, recv_bytes_negative}

abbrev pub Reader : Type 0 → Type 0
Reader A = Action (List RecvEvent) A

-- The byte of a `char`.
abbrev pub first_byte : List ℕ → ℕ
first_byte [] = 0
first_byte (b ∷ bs) = b

unfoldable pub recv_char : Reader ℕ
recv_char = do bytes ← recv_bytes 1; return (first_byte bytes)

unfoldable pub recv_int32 : Reader ℤ
recv_int32 = do bytes ← recv_bytes 4; return (to_i32 (ntohl_bytes bytes))

unfoldable pub recv_uint32 : Reader ℕ
recv_uint32 = do bytes ← recv_bytes 4; return (ntohl_bytes bytes)

-- `((uint64_t)hi) << 32 | lo`: the two share no bit.
unfoldable pub recv_uint64 : Reader ℕ
recv_uint64 = do hi ← recv_uint32; lo ← recv_uint32; return (hi * 2 ^ 32 + lo)

-- A bit field keeps the low bits of what is stored in it.
unfoldable pub recv_double : Reader Double
recv_double = do
  negative ← recv_uint32
  exponent ← recv_uint32
  mantissa0 ← recv_uint32
  mantissa1 ← recv_uint32
  return (record {
    negative = negative % 2;
    exponent = exponent % 2 ^ 11;
    mantissa0 = mantissa0 % 2 ^ 20;
    mantissa1 = mantissa1 % 2 ^ 32;
  })

-- An `int` where a `size_t` of 64 bits is wanted.
abbrev pub size_of_int : ℤ → ℕ
size_of_int (pos n) = n
size_of_int (negsuc n) = 2 ^ 64 - 1 - n

-- `malloc size` says whether the C library has so many bytes to give.
module _ (malloc : ℕ → Bool) where
  unfoldable pub when_allocated : {A : Type 0} → ℕ → Reader A → Reader A
  when_allocated size r = if malloc size then r else fail no_memory

  -- The buffer of a string whose length is the word `w`, read as an `int`, and not -1.
  unfoldable pub recv_string_body : ℤ → ℕ → Reader (Option (List ℕ))
  recv_string_body (pos length) w = when_allocated (size_of_int (to_i32 ((w + 1) % 2 ^ 32))) (
      if ltb 0 length
      then (do bytes ← recv_bytes length; return (some bytes))
      else return (some []))
  recv_string_body (negsuc n) w =
      when_allocated (size_of_int (to_i32 ((w + 1) % 2 ^ 32))) (return (some []))

  -- -1 is NULL. Any other negative length asks `malloc` for nearly 2 ^ 64 bytes.
  unfoldable pub recv_string : Reader (Option (List ℕ))
  unfolding recv_string_body when_allocated
  recv_string = do
    bytes ← recv_bytes 4
    let w = ntohl_bytes bytes
    if w == 2 ^ 32 - 1 then return none else recv_string_body (to_i32 w) w

-- `rpc_message_recv_bytes`, with its count as the `int` that it is.
unfoldable pub recv_buffer : ℤ → Reader (List ℕ)
recv_buffer (pos n) = recv_bytes n
recv_buffer (negsuc n) = recv_bytes_negative
