-- ===== src/Npapi/Buffers/RoundTrip.antt =====
-- The buffers of NPAPI arrive as they were sent.
use nspluginwrapper.Prelude.{
  ℕ, pos, ◌+◌, ◌%◌, ◌^◌, ◌<◌, ◌≡◌, refl, arith, ltb, ◌==◌, Bool, true, false, List, [], ◌∷◌, ◌++◌,
  length, length-append, none, some,
}
use nspluginwrapper.Rpc.Action.{return}
use nspluginwrapper.Rpc.Words.{to_i32}
use nspluginwrapper.Rpc.Message.{send_bytes}
use nspluginwrapper.Rpc.Reader.{recv_buffer, when_allocated}
use nspluginwrapper.Rpc.Reader.Parses.{Parses-return}
use nspluginwrapper.Rpc.Message.Emits.{send_bytes-Emits}
use nspluginwrapper.Rpc.Carries.{Carries, Carries-bind, Carries-last, Carries-return}
use nspluginwrapper.Rpc.Carries.Scalars.{send_int32-Carries, send_uint32-Carries, bytes_carried}
use nspluginwrapper.Npapi.Buffers.{
  SavedData, send_saved_data, recv_saved_data, send_utf8, recv_utf8, send_np_string, recv_np_string,
}

to_i32_length : (n : ℕ) → n < 2 ^ 31 → to_i32 n ≡ pos n
unfolding to_i32
to_i32_length n h = ground arith

buffer_carried :
    (xs : List ℕ) → 0 < length xs → Carries (send_bytes xs) (recv_buffer (pos (length xs))) xs
unfolding recv_buffer
buffer_carried xs h = bytes_carried (length xs) xs refl h

-- Saved data without bytes arrives as NULL.
abbrev pub saved_data_received : SavedData → SavedData
saved_data_received none = none
saved_data_received (some []) = none
saved_data_received (some (x ∷ xs)) = some (x ∷ xs)

abbrev pub IsSavedData : SavedData → Type 0
IsSavedData none = Unit
IsSavedData (some buf) = length buf < 2 ^ 31

-- The empty buffer is sent as its length alone.
nothing_sent : {A : Type 0} (a : A) → Carries (send_bytes []) (return a) a
nothing_sent a = record { bytes = []; emits = send_bytes-Emits []; parses = Parses-return a }

module _ (malloc : ℕ → Bool) (room : (n : ℕ) → malloc n ≡ true) where
  -- Saved data whose length is an `int32_t` arrives as it was sent, an empty buffer as NULL, if no
  -- allocation fails.
  pub send_saved_data-Carries :
      (d : SavedData)
      → IsSavedData d
      → Carries (send_saved_data d) (recv_saved_data malloc) (saved_data_received d)
  unfolding send_saved_data recv_saved_data when_allocated
  send_saved_data-Carries none h =
      Carries-last _ _ _ (send_int32-Carries (pos 0) (omega arith)) (Parses-return none)
  send_saved_data-Carries (some []) h =
      Carries-bind _ _ _ _ (send_int32-Carries (pos 0) (omega arith)) (nothing_sent none)
  send_saved_data-Carries (some (x ∷ xs)) h =
      let ne : (length (x ∷ xs) == 0) ≡ false = ground arith in
      Carries-bind _ _ _ _ (send_int32-Carries (pos (length (x ∷ xs))) h) (
        rw (ne, room, room)
          (Carries-last _ _ _ (buffer_carried (x ∷ xs) (omega arith)) (Parses-return _)))

  -- A string of fewer than 2^31 - 1 bytes arrives with the 0 that ends it, if no allocation fails.
  pub send_utf8-Carries :
      (s : List ℕ)
      → length s + 1 < 2 ^ 31
      → Carries (send_utf8 (some s)) (recv_utf8 malloc) (s ++ 0 ∷ [])
  unfolding send_utf8 recv_utf8 when_allocated
  send_utf8-Carries s h =
      let n : length (s ++ 0 ∷ []) ≡ length s + 1 = length-append s (0 ∷ []) in
      let small : length (s ++ 0 ∷ []) % 2 ^ 32 ≡ length (s ++ 0 ∷ []) = omega arith in
      let positive : ltb 0 (length (s ++ 0 ∷ [])) ≡ true = ground (arith, n) in
      rw small (
        Carries-bind _ _ _ _ (send_uint32-Carries (length (s ++ 0 ∷ [])) (omega arith)) (
          rw (room, positive, to_i32_length (length (s ++ 0 ∷ [])) (omega arith))
            (buffer_carried (s ++ 0 ∷ []) (omega arith))))

  -- An `NPString` with its bytes, fewer than 2^31 - 1, arrives with its length and its bytes, an
  -- empty one with a buffer of no bytes, if no allocation fails.
  pub send_np_string-Carries :
      (s : List ℕ)
      → length s + 1 < 2 ^ 31
      → Carries
          (send_np_string (record { utf8_length = length s; utf8_characters = some s }))
          (recv_np_string malloc)
          (record { utf8_length = length s; utf8_characters = some s })
  unfolding send_np_string recv_np_string when_allocated
  send_np_string-Carries [] h =
      Carries-bind _ _ _ _ (send_uint32-Carries 0 (omega arith)) (rw room (Carries-return _))
  send_np_string-Carries (x ∷ xs) h =
      let ne : (length (x ∷ xs) == 0) ≡ false = ground arith in
      let positive : ltb 0 (length (x ∷ xs)) ≡ true = ground arith in
      rw ne (
        Carries-bind _ _ _ _ (send_uint32-Carries (length (x ∷ xs)) (omega arith)) (
          rw (room, positive, to_i32_length (length (x ∷ xs)) (omega arith))
            (Carries-last _ _ _ (buffer_carried (x ∷ xs) (omega arith)) (Parses-return _))))
