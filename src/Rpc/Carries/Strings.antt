-- ===== src/Rpc/Carries/Strings.antt =====
-- Strings: NULL, the empty string and the others.
use nspluginwrapper.Prelude.{
  ℕ, ◌+◌, ◌-◌, ◌%◌, ◌^◌, ◌<◌, ◌≡◌, refl, arith, ltb, ◌==◌, if◌then◌else◌, Bool, true, false, List,
  [], ◌∷◌, length, Option, none, some, pos,
}
use nspluginwrapper.Rpc.Action.{return, ◌>>=◌}
use nspluginwrapper.Rpc.Words.{to_u32, to_i32, ntohl_bytes-htonl_bytes}
use nspluginwrapper.Rpc.Socket.Recv.{recv_bytes}
use nspluginwrapper.Rpc.Message.{send_string, send_bytes}
use nspluginwrapper.Rpc.Reader.{recv_string, recv_string_body, when_allocated}
use nspluginwrapper.Rpc.Reader.Parses.{Parses-return}
use nspluginwrapper.Rpc.Carries.{Carries, Carries-bind, Carries-last, Carries-return}
use nspluginwrapper.Rpc.Carries.Scalars.{bytes_carried, word_carried}

-- A C string that `recv_string` has the room for, and whose length is an `int` with one to spare.
abbrev pub IsSendable : (ℕ → Bool) → Option (List ℕ) → Type 0
IsSendable malloc none = Unit
IsSendable malloc (some s) = (length s + 1 < 2 ^ 31) × (malloc (length s + 1) ≡ true)

to_i32_small : (n : ℕ) → n < 2 ^ 31 → to_i32 n ≡ pos n
unfolding to_i32
to_i32_small n h = ground arith

string_rest :
    (s : List ℕ)
    → Carries
        (if ltb 0 (length s) then send_bytes s else return tt)
        (if ltb 0 (length s)
          then (do bytes ← recv_bytes (length s); return (some bytes))
          else return (some []))
        (some s)
string_rest [] = Carries-return (some [])
string_rest (c ∷ cs) =
    let positive : ltb 0 (length (c ∷ cs)) ≡ true = ground arith in
    rw positive (
      Carries-last _ _ _ (bytes_carried (length (c ∷ cs)) (c ∷ cs) refl (omega arith))
        (Parses-return (some (c ∷ cs))))

module _ (malloc : ℕ → Bool) where
  string_body_lem :
      (s : List ℕ)
      → IsSendable malloc (some s)
      → recv_string_body malloc (pos (length s)) (length s) ≡ (
          if ltb 0 (length s)
          then (do bytes ← recv_bytes (length s); return (some bytes))
          else return (some []))
  unfolding recv_string_body when_allocated
  string_body_lem s (h, room) =
      let e : (length s + 1) % 2 ^ 32 ≡ length s + 1 = omega arith in
      rw (e, to_i32_small (length s + 1) h, room)

  -- A string of fewer than 2^31 - 1 bytes arrives as it was sent if the receiver has the memory:
  -- NULL as NULL, and an empty string as an empty one.
  pub send_string-Carries :
      (s : Option (List ℕ)) → IsSendable malloc s → Carries (send_string s) (recv_string malloc) s
  unfolding send_string recv_string to_u32
  send_string-Carries none h =
      Carries-last _ _ _ (word_carried (2 ^ 32 - 1))
        (rw (ntohl_bytes-htonl_bytes (2 ^ 32 - 1) (omega arith)) (Parses-return none))
  send_string-Carries (some s) h =
      let small : length s + 1 < 2 ^ 31 = h.0 in
      let w : to_u32 (pos (length s)) ≡ length s = omega arith in
      let ne : (length s == 2 ^ 32 - 1) ≡ false = ground arith in
      rw w (
        Carries-bind _ _ _ _ (word_carried (length s)) (
          rw
            (
              ntohl_bytes-htonl_bytes (length s) (omega arith),
              ne,
              to_i32_small (length s) (omega arith),
              string_body_lem s h,
            )
            (string_rest s)))
