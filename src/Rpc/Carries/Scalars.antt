-- ===== src/Rpc/Carries/Scalars.antt =====
-- What is sent is what is received, for the scalar types of src/rpc.c and for strings.
use nspluginwrapper.Prelude.{
  ℕ, ◌+◌, ◌*◌, ◌/◌, ◌%◌, ◌^◌, ◌<◌, ◌≡◌, refl, sym, arith, List, [], ◌∷◌, length, ℤ,
}
use nspluginwrapper.Rpc.Words.{
  Double, IsDouble, IsByte, IsU32, IsU64, IsInt32, to_u32, htonl_bytes, to_i32-to_u32, to_u32-IsU32,
  ntohl_bytes-htonl_bytes, length-htonl_bytes,
}
use nspluginwrapper.Rpc.Message.{
  send_bytes, send_char, send_int32, send_uint32, send_uint64, send_double,
}
use nspluginwrapper.Rpc.Message.Emits.{send_bytes-Emits}
use nspluginwrapper.Rpc.Reader.{recv_char, recv_int32, recv_uint32, recv_uint64, recv_double}
use nspluginwrapper.Rpc.Reader.Parses.{Parses-return, recv_bytes-Parses}
use nspluginwrapper.Rpc.Socket.Recv.{recv_bytes}
use nspluginwrapper.Rpc.Carries.{Carries, Carries-bind, Carries-last}

pub bytes_carried :
    (n : ℕ) (xs : List ℕ)
    → n ≡ length xs
    → 0 < length xs
    → Carries (send_bytes xs) (recv_bytes n) xs
bytes_carried n xs e h = record {
  bytes = xs;
  emits = send_bytes-Emits xs;
  parses = recv_bytes-Parses n xs e h;
}

pub word_carried : (w : ℕ) → Carries (send_bytes (htonl_bytes w)) (recv_bytes 4) (htonl_bytes w)
word_carried w =
    bytes_carried 4 (htonl_bytes w) (sym (length-htonl_bytes w))
      (omega (arith, length-htonl_bytes w))

-- A `char` arrives as it was sent.
pub send_char-Carries : (c : ℕ) → IsByte c → Carries (send_char c) recv_char c
unfolding send_char recv_char
send_char-Carries c h =
    let e : c % 256 ≡ c = omega arith in
    rw e (Carries-last _ _ _ (bytes_carried 1 (c ∷ []) refl (omega arith)) (Parses-return c))

-- An integer in the range of `int32_t` arrives as it was sent, negative or not.
pub send_int32-Carries : (v : ℤ) → IsInt32 v → Carries (send_int32 v) recv_int32 v
unfolding send_int32 recv_int32
send_int32-Carries v h =
    Carries-last _ _ _ (word_carried (to_u32 v)) (
      rw (ntohl_bytes-htonl_bytes (to_u32 v) (to_u32-IsU32 v), to_i32-to_u32 v h) (Parses-return v))

-- A `uint32_t` arrives as it was sent.
pub send_uint32-Carries : (v : ℕ) → IsU32 v → Carries (send_uint32 v) recv_uint32 v
unfolding send_uint32 recv_uint32
send_uint32-Carries v h =
    let e : v % 2 ^ 32 ≡ v = omega arith in
    rw e (Carries-last _ _ _ (word_carried v) (rw (ntohl_bytes-htonl_bytes v h) (Parses-return v)))

-- A number below 2^64 arrives through `rpc_message_send_uint64` as it was sent.
pub send_uint64-Carries : (v : ℕ) → IsU64 v → Carries (send_uint64 v) recv_uint64 v
unfolding send_uint64 recv_uint64
send_uint64-Carries v h =
    let e : (v / 2 ^ 32 % 2 ^ 32) * 2 ^ 32 + v % 2 ^ 32 ≡ v = omega arith in
    Carries-bind _ _ _ _ (send_uint32-Carries (v / 2 ^ 32 % 2 ^ 32) (omega arith))
      (Carries-last _ _ _ (send_uint32-Carries (v % 2 ^ 32) (omega arith)) (rw e (Parses-return v)))

-- A `double`, its fields within their widths, arrives with all its bits.
pub send_double-Carries : (d : Double) → IsDouble d → Carries (send_double d) recv_double d
unfolding send_double recv_double
send_double-Carries d h =
    let e0 : d.negative % 2 ≡ d.negative = omega arith in
    let e1 : d.exponent % 2 ^ 11 ≡ d.exponent = omega arith in
    let e2 : d.mantissa0 % 2 ^ 20 ≡ d.mantissa0 = omega arith in
    let e3 : d.mantissa1 % 2 ^ 32 ≡ d.mantissa1 = omega arith in
    Carries-bind _ _ _ _ (send_uint32-Carries d.negative (omega arith)) (
      Carries-bind _ _ _ _ (send_uint32-Carries d.exponent (omega arith)) (
        Carries-bind _ _ _ _ (send_uint32-Carries d.mantissa0 (omega arith)) (
          Carries-last _ _ _ (send_uint32-Carries d.mantissa1 (omega arith))
            (rw (e0, e1, e2, e3) (Parses-return d)))))
