-- ===== src/Npapi/Print.antt =====
-- `NPPrint` and `NPPrintData`: their marshalers in src/npw-rpc.c.
use nspluginwrapper.Prelude.{
  ℕ, pos, ◌%◌, ◌^◌, ◌<◌, ◌==◌, ◌≡◌, refl, arith, Bool, true, if◌then◌else◌, List, length,
}
use nspluginwrapper.Rpc.Error.{generic}
use nspluginwrapper.Rpc.Action.{return, fail, ◌>>=◌, ◌>>◌}
use nspluginwrapper.Rpc.Words.{to_i32}
use nspluginwrapper.Rpc.Message.{Send, send_uint32, send_bytes}
use nspluginwrapper.Rpc.Reader.{Reader, recv_uint32, recv_buffer}
use nspluginwrapper.Rpc.Reader.Parses.{Parses-return}
use nspluginwrapper.Rpc.Carries.{Carries, Carries-bind, Carries-last}
use nspluginwrapper.Rpc.Carries.Scalars.{send_uint32-Carries, bytes_carried}
use nspluginwrapper.Npapi.Fields.{field_rules}
use nspluginwrapper.Npapi.Window.{NpWindow, send_window_data, recv_window_data, ws_info_size}
use nspluginwrapper.Npapi.Window.RoundTrip.{IsNpWindow, window_received, window_data-Carries}

-- Two `NPBool`, bytes. `platformPrint` is not sent.
pub record FullPrint : Type 0 where
  pub plugin_printed : ℕ
  pub print_one : ℕ

-- The union of `NPPrint` with its mode; `other` is a mode that is neither NP_FULL nor NP_EMBED.
pub data NpPrint : Type 0 where
  full : FullPrint → NpPrint
  embed : NpWindow → NpPrint
  other : ℕ → NpPrint

-- NP_EMBED is 1 and NP_FULL is 2.
abbrev pub print_mode : NpPrint → ℕ
print_mode (full p) = 2
print_mode (embed w) = 1
print_mode (other m) = m

-- An `NPBool` that is assigned from a `uint32_t`
recv_bool_word : Reader ℕ
recv_bool_word = do w ← recv_uint32; return (w % 256)

send_full_print : FullPrint → Send
send_full_print p = do send_uint32 p.plugin_printed; send_uint32 p.print_one

recv_full_print : Reader FullPrint
recv_full_print = do
  plugin_printed ← recv_bool_word
  print_one ← recv_bool_word
  return (record { plugin_printed = plugin_printed; print_one = print_one })

module _ (visual_id : ℕ → ℕ) (malloc : ℕ → Bool) where
  send_embed_print : NpWindow → Send
  send_embed_print = send_window_data visual_id

  recv_embed_print : Reader NpWindow
  recv_embed_print = recv_window_data malloc

  send_print_body : NpPrint → Send
  unfolding send_embed_print
  send_print_body (full p) = send_full_print p
  send_print_body (embed w) = send_embed_print w
  send_print_body (other m) = fail generic

  pub send_print : NpPrint → Send
  send_print p = do send_uint32 (print_mode p); send_print_body p

  pub recv_print : Reader NpPrint
  unfolding recv_embed_print
  recv_print = do
    mode ← recv_uint32
    if mode == 2
        then (do p ← recv_full_print; return (full p))
        else if mode == 1
        then (do w ← recv_embed_print; return (embed w))
        else fail generic

  abbrev pub IsNpPrint : NpPrint → Type 0
  IsNpPrint (full p) = (p.plugin_printed < 256) × (p.print_one < 256)
  IsNpPrint (embed w) = IsNpWindow visual_id malloc w
  IsNpPrint (other m) = ⊥

  abbrev pub print_received : NpPrint → NpPrint
  print_received (full p) = full p
  print_received (embed w) = embed (window_received visual_id malloc w)
  print_received (other m) = other m

recv_bool_word-Carries : (w : ℕ) → w < 256 → Carries (send_uint32 w) recv_bool_word w
unfolding recv_bool_word
recv_bool_word-Carries w h =
    let e : w % 256 ≡ w = omega arith in
    Carries-last _ _ _ (send_uint32-Carries w (omega arith)) (rw e (Parses-return w))

full_print_carried :
    (p : FullPrint)
    → p.plugin_printed < 256
    → p.print_one < 256
    → Carries (send_full_print p) recv_full_print p
unfolding send_full_print recv_full_print
full_print_carried p h k = search (recv_bool_word-Carries, field_rules) depth 20

module _ (visual_id : ℕ → ℕ) (malloc : ℕ → Bool) (room : malloc ws_info_size ≡ true) where
  -- A print request of either mode whose fields fit their C types arrives as it was sent, up to
  -- the visual of an embedded window, in place of which the id arrives, if the receiver has the
  -- memory for the callback structure.
  pub send_print-Carries :
      (p : NpPrint)
      → IsNpPrint visual_id malloc p
      → Carries
          (send_print visual_id malloc p)
          (recv_print visual_id malloc)
          (print_received visual_id malloc p)
  unfolding send_print recv_print send_print_body
  send_print-Carries (full p) (h, k) =
      Carries-bind _ _ _ _ (send_uint32-Carries 2 (omega arith))
        (Carries-last _ _ _ (full_print_carried p h k) (Parses-return _))
  send_print-Carries (embed w) h =
      Carries-bind _ _ _ _ (send_uint32-Carries 1 (omega arith))
        (Carries-last _ _ _ (window_data-Carries visual_id malloc w h room) (Parses-return _))
  send_print-Carries (other m) h = absurd h

-- The `size` first bytes of `NPPrintData.data`. The receiver does not compare the size with the
-- 4096 bytes that `data` has.
pub send_print_data : List ℕ → Send
send_print_data xs = do send_uint32 (length xs); send_bytes xs

pub recv_print_data : Reader (List ℕ)
recv_print_data = do size ← recv_uint32; recv_buffer (to_i32 size)

-- A piece of print data that is not empty and shorter than 2^31 bytes arrives as it was sent.
pub send_print_data-Carries :
    (xs : List ℕ)
    → 0 < length xs
    → length xs < 2 ^ 31
    → Carries (send_print_data xs) recv_print_data xs
unfolding send_print_data recv_print_data to_i32 recv_buffer
send_print_data-Carries xs h k =
    let e : to_i32 (length xs) ≡ pos (length xs) = ground arith in
    Carries-bind _ _ _ _ (send_uint32-Carries (length xs) (omega arith))
      (rw e (bytes_carried (length xs) xs refl h))
