-- ===== src/Tests/Messages.antt =====
-- The sending and receiving functions of src/rpc.c at concrete inputs.
use nspluginwrapper.Prelude.{ℕ, ◌^◌, ◌≡◌, List, [], ◌∷◌, ◌++◌}
use nspluginwrapper.Rpc.Error.{ok}
use nspluginwrapper.Rpc.Words.{Double}
use nspluginwrapper.Rpc.Socket.Events.{
  SendEvent, takes, send_again, send_interrupted, send_reset, ready, Socket,
}
use nspluginwrapper.Rpc.Socket.Send.{raw_send}
use nspluginwrapper.Rpc.Socket.Send.Progress.{IsLive, raw_send-IsLive, raw_send-prefix}
use nspluginwrapper.Rpc.Message.{send_bytes}
use nspluginwrapper.Rpc.Message.Emits.{Emits, send_bytes-Emits}

-- A kernel that takes two bytes, makes the sender wait, and is then interrupted.
abbrev slow : Socket
slow = record { sends = takes 2 ∷ send_again ready ∷ send_interrupted ∷ []; recvs = []; wire = [] }

raw_send-IsLive_example :
    (evs : List SendEvent) × (raw_send (1 ∷ 2 ∷ 3 ∷ []) slow
      ≡ (ok tt, record slow { sends = evs; wire = slow.wire ++ (1 ∷ 2 ∷ 3 ∷ []) }))
    × IsLive evs
raw_send-IsLive_example = raw_send-IsLive (1 ∷ 2 ∷ 3 ∷ []) slow tt

-- A peer that goes away in the middle.
abbrev broken : Socket
broken = record { sends = takes 2 ∷ send_reset ∷ []; recvs = []; wire = [] }

raw_send-prefix_example :
    (lost : List ℕ) × ((raw_send (1 ∷ 2 ∷ 3 ∷ []) broken).1.wire ++ lost
      ≡ broken.wire ++ (1 ∷ 2 ∷ 3 ∷ []))
    × ((raw_send (1 ∷ 2 ∷ 3 ∷ []) broken).0 ≡ ok tt → lost ≡ [])
raw_send-prefix_example = raw_send-prefix (1 ∷ 2 ∷ 3 ∷ []) broken

send_bytes_example : Emits (send_bytes (1 ∷ 2 ∷ [])) (1 ∷ 2 ∷ [])
send_bytes_example = send_bytes-Emits (1 ∷ 2 ∷ [])

-- The bits of -1.5.
abbrev one_and_a_half : Double
one_and_a_half = record { negative = 1; exponent = 1023; mantissa0 = 2 ^ 19; mantissa1 = 0 }
