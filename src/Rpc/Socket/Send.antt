-- ===== src/Rpc/Socket/Send.antt =====
-- `_rpc_message_send_bytes` of src/rpc.c.
pub mod Progress
use nspluginwrapper.Prelude.{
  ℕ, zero, min, List, [], ◌∷◌, ◌++◌, ◌==◌, if◌then◌else◌, length, take, drop,
}
use nspluginwrapper.Rpc.Error.{Result, ok, err, errno_set, connection_closed, message_timeout}
use nspluginwrapper.Rpc.Socket.Events.{
  Poll, ready, timed_out, poll_interrupted, poll_failed, SendEvent, takes, send_again,
  send_interrupted, send_reset, send_failed, Socket,
}

-- What is left of the script, and what is on the wire.
abbrev pub Sent : Type 0
Sent = Result (Unit {0}) × (List SendEvent × List ℕ)

-- `bytes` is what is still to be sent, `wire` what has been. A `continue` goes to the loop's test.
unfoldable pub send_loop : List SendEvent → List ℕ → List ℕ → Sent
send_loop [] bytes wire = (ok tt, ([], wire ++ bytes))
send_loop (takes n ∷ evs) bytes wire =
    let k = min n (length bytes) in
    let rest = send_loop evs (drop k bytes) (wire ++ take k bytes) in
    if length (drop k bytes) == 0 then (ok tt, (evs, wire ++ take k bytes)) else rest
send_loop (send_reset ∷ evs) bytes wire = (err connection_closed, (evs, wire))
send_loop (send_again ready ∷ evs) bytes wire =
    let rest = send_loop evs bytes wire in if length bytes == 0 then (ok tt, (evs, wire)) else rest
send_loop (send_again timed_out ∷ evs) bytes wire = (err message_timeout, (evs, wire))
send_loop (send_again poll_interrupted ∷ evs) bytes wire =
    let rest = send_loop evs bytes wire in if length bytes == 0 then (ok tt, (evs, wire)) else rest
send_loop (send_again poll_failed ∷ evs) bytes wire = (err errno_set, (evs, wire))
send_loop (send_interrupted ∷ evs) bytes wire =
    let rest = send_loop evs bytes wire in if length bytes == 0 then (ok tt, (evs, wire)) else rest
send_loop (send_failed ∷ evs) bytes wire = (err errno_set, (evs, wire))

-- `_rpc_message_send_bytes`
unfoldable pub raw_send : List ℕ → Socket → Result (Unit {0}) × Socket
unfolding send_loop
raw_send bytes s =
    let (r, (evs, w)) = send_loop s.sends bytes s.wire in (r, record s { sends = evs; wire = w })
