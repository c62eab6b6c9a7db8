-- ===== src/Rpc/Socket/Send/Progress.antt =====
-- What `_rpc_message_send_bytes` puts on the wire.
use nspluginwrapper.Prelude.{
  true, ℕ, min, ◌≡◌, refl, List, [], ◌∷◌, ◌++◌, append-nil, append_assoc, arith, ◌==◌,
  if◌then◌else◌, length, take, drop, take-append-drop, Bool-cases, inl, inr,
}
use nspluginwrapper.Rpc.Error.{ok}
use nspluginwrapper.Rpc.Socket.Events.{
  ready, timed_out, poll_interrupted, poll_failed, SendEvent, takes, send_again, send_interrupted,
  send_reset, send_failed, Socket,
}
use nspluginwrapper.Rpc.Socket.Send.{Sent, send_loop, raw_send}

-- No event of the script ends a loop with an error.
abbrev pub IsLive : List SendEvent → Type 0
IsLive [] = Unit
IsLive (takes n ∷ evs) = IsLive evs
IsLive (send_again ready ∷ evs) = IsLive evs
IsLive (send_again poll_interrupted ∷ evs) = IsLive evs
IsLive (send_interrupted ∷ evs) = IsLive evs
IsLive (_ ∷ evs) = ⊥

-- All is sent, and the script is still live.
abbrev pub SendsAll : Sent → List ℕ → Type 0
SendsAll r wire = (evs : List SendEvent) × (r ≡ (ok tt, (evs, wire))) × IsLive evs

nil_of_length : (xs : List ℕ) → (length xs == 0) ≡ true → xs ≡ []
nil_of_length [] h = refl
nil_of_length (x ∷ xs) h = absurd (ground arith)

cut_wire : (k : ℕ) (bytes wire : List ℕ) → (wire ++ take k bytes) ++ drop k bytes ≡ wire ++ bytes
cut_wire k bytes wire = rw (append_assoc, take-append-drop k bytes)

-- A step of the loop: it stops with nothing left, or goes on.
abbrev goes_on : List SendEvent → List ℕ → List ℕ → Sent
goes_on evs bytes wire =
    if length bytes == 0 then (ok tt, (evs, wire)) else send_loop evs bytes wire

goes_on-SendsAll :
    (evs : List SendEvent) (bytes wire : List ℕ)
    → IsLive evs
    → SendsAll (send_loop evs bytes wire) (wire ++ bytes)
    → SendsAll (goes_on evs bytes wire) (wire ++ bytes)
goes_on-SendsAll evs bytes wire h rest = elim (Bool-cases (length bytes == 0)) [
  | inl e ↦ rw (e, nil_of_length bytes e, append-nil) (evs, refl, h)
  | inr e ↦ rw e rest
]

send_loop-live :
    (evs : List SendEvent) (bytes wire : List ℕ)
    → IsLive evs
    → SendsAll (send_loop evs bytes wire) (wire ++ bytes)
unfolding send_loop
send_loop-live [] bytes wire h = ([], refl, tt)
send_loop-live (takes n ∷ evs) bytes wire h =
    let k = min n (length bytes) in
    rw (← cut_wire k bytes wire) (
      goes_on-SendsAll evs (drop k bytes) (wire ++ take k bytes) h
        (send_loop-live evs (drop k bytes) (wire ++ take k bytes) h))
send_loop-live (send_again ready ∷ evs) bytes wire h =
    goes_on-SendsAll evs bytes wire h (send_loop-live evs bytes wire h)
send_loop-live (send_again timed_out ∷ evs) bytes wire h = absurd h
send_loop-live (send_again poll_interrupted ∷ evs) bytes wire h =
    goes_on-SendsAll evs bytes wire h (send_loop-live evs bytes wire h)
send_loop-live (send_again poll_failed ∷ evs) bytes wire h = absurd h
send_loop-live (send_interrupted ∷ evs) bytes wire h =
    goes_on-SendsAll evs bytes wire h (send_loop-live evs bytes wire h)
send_loop-live (send_reset ∷ evs) bytes wire h = absurd h
send_loop-live (send_failed ∷ evs) bytes wire h = absurd h

-- What the loop leaves out is a tail of the bytes, and nothing is left out if it succeeds.
abbrev pub SendsPrefix : Sent → List ℕ → Type 0
SendsPrefix r all = (lost : List ℕ) × (r.1.1 ++ lost ≡ all) × (r.0 ≡ ok tt → lost ≡ [])

goes_on-SendsPrefix :
    (evs : List SendEvent) (bytes wire : List ℕ)
    → SendsPrefix (send_loop evs bytes wire) (wire ++ bytes)
    → SendsPrefix (goes_on evs bytes wire) (wire ++ bytes)
goes_on-SendsPrefix evs bytes wire rest = elim (Bool-cases (length bytes == 0)) [
  | inl e ↦ rw (e, nil_of_length bytes e) ([], refl, λ _. refl)
  | inr e ↦ rw e rest
]

pub send_loop-prefix :
    (evs : List SendEvent) (bytes wire : List ℕ)
    → SendsPrefix (send_loop evs bytes wire) (wire ++ bytes)
unfolding send_loop
send_loop-prefix [] bytes wire = ([], append-nil _, λ _. refl)
send_loop-prefix (takes n ∷ evs) bytes wire =
    let k = min n (length bytes) in
    rw (← cut_wire k bytes wire) (
      goes_on-SendsPrefix evs (drop k bytes) (wire ++ take k bytes)
        (send_loop-prefix evs (drop k bytes) (wire ++ take k bytes)))
send_loop-prefix (send_again ready ∷ evs) bytes wire =
    goes_on-SendsPrefix evs bytes wire (send_loop-prefix evs bytes wire)
send_loop-prefix (send_again poll_interrupted ∷ evs) bytes wire =
    goes_on-SendsPrefix evs bytes wire (send_loop-prefix evs bytes wire)
send_loop-prefix (send_interrupted ∷ evs) bytes wire =
    goes_on-SendsPrefix evs bytes wire (send_loop-prefix evs bytes wire)
send_loop-prefix (send_again timed_out ∷ evs) bytes wire = (bytes, refl, λ e. cc)
send_loop-prefix (send_again poll_failed ∷ evs) bytes wire = (bytes, refl, λ e. cc)
send_loop-prefix (send_reset ∷ evs) bytes wire = (bytes, refl, λ e. cc)
send_loop-prefix (send_failed ∷ evs) bytes wire = (bytes, refl, λ e. cc)

-- Where no event of the script ends the loop with an error, `_rpc_message_send_bytes` succeeds:
-- all bytes go out, in order, and the events that are left have no such event either.
pub raw_send-IsLive :
    (bytes : List ℕ) (s : Socket)
    → IsLive s.sends
    → (evs : List SendEvent) × (raw_send bytes s
        ≡ (ok tt, record s { sends = evs; wire = s.wire ++ bytes }))
      × IsLive evs
unfolding raw_send
raw_send-IsLive bytes s h =
    let (evs, e, l) = send_loop-live s.sends bytes s.wire h in (evs, rw e, l)

-- Whatever the kernel does, `_rpc_message_send_bytes` lets the wire grow by a prefix of the bytes,
-- and by all of them if the call reports no error.
pub raw_send-prefix :
    (bytes : List ℕ) (s : Socket)
    → (lost : List ℕ) × ((raw_send bytes s).1.wire ++ lost ≡ s.wire ++ bytes)
      × ((raw_send bytes s).0 ≡ ok tt → lost ≡ [])
unfolding raw_send
raw_send-prefix bytes s = send_loop-prefix s.sends bytes s.wire
