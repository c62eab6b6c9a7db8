-- ===== src/Rpc/Socket/Recv.antt =====
-- `_rpc_message_recv_bytes` of src/rpc.c.
pub mod Stream
use nspluginwrapper.Prelude.{
  ℕ, suc, ◌-◌, min, List, [], ◌∷◌, ◌++◌, ◌==◌, if◌then◌else◌, length, take, drop,
}
use nspluginwrapper.Rpc.Error.{Result, ok, err, errno_set, connection_closed, message_timeout}
use nspluginwrapper.Rpc.Socket.Events.{
  Poll, ready, timed_out, poll_interrupted, poll_failed, RecvEvent, arrived, recv_again, closed,
  recv_interrupted, recv_failed,
}

-- The bytes of a chunk that `recv` has left behind.
abbrev pub put_back : List ℕ → List RecvEvent → List RecvEvent
put_back [] evs = evs
put_back (x ∷ xs) evs = arrived x xs ∷ evs

-- `count` is what is still to be read, `bytes` what has been. A `continue` goes to the loop's test.
unfoldable pub recv_loop : List RecvEvent → ℕ → List ℕ → Result (List ℕ) × List RecvEvent
recv_loop [] count bytes = (err message_timeout, [])
recv_loop (arrived x xs ∷ evs) count bytes =
    let n = min count (length (x ∷ xs)) in
    let bytes' = bytes ++ take n (x ∷ xs) in
    let rest = recv_loop evs (count - n) bytes' in
    if n == 0
    then (err connection_closed, arrived x xs ∷ evs)
    else if count - n == 0
    then (ok bytes', put_back (drop n (x ∷ xs)) evs)
    else rest
recv_loop (closed ∷ evs) count bytes = (err connection_closed, closed ∷ evs)
recv_loop (recv_again ready ∷ evs) count bytes =
    let rest = recv_loop evs count bytes in if count == 0 then (ok bytes, evs) else rest
recv_loop (recv_again timed_out ∷ evs) count bytes = (err message_timeout, evs)
recv_loop (recv_again poll_interrupted ∷ evs) count bytes =
    let rest = recv_loop evs count bytes in if count == 0 then (ok bytes, evs) else rest
recv_loop (recv_again poll_failed ∷ evs) count bytes = (err errno_set, evs)
recv_loop (recv_interrupted ∷ evs) count bytes =
    let rest = recv_loop evs count bytes in if count == 0 then (ok bytes, evs) else rest
recv_loop (recv_failed ∷ evs) count bytes = (err errno_set, evs)

-- `_rpc_message_recv_bytes`: the bytes that it has stored.
unfoldable pub recv_bytes : ℕ → List RecvEvent → Result (List ℕ) × List RecvEvent
unfolding recv_loop
recv_bytes count evs = recv_loop evs count []

-- What the script delivers before the first event that ends a loop.
unfoldable pub stream : List RecvEvent → List ℕ
stream [] = []
stream (arrived x xs ∷ evs) = (x ∷ xs) ++ stream evs
stream (recv_again ready ∷ evs) = stream evs
stream (recv_again poll_interrupted ∷ evs) = stream evs
stream (recv_interrupted ∷ evs) = stream evs
stream (_ ∷ evs) = []

-- `_rpc_message_recv_bytes` with a negative count: `recv` takes it for a huge `size_t`, stores the
-- next chunk whole, and the loop's test then fails.
unfoldable pub recv_bytes_negative : List RecvEvent → Result (List ℕ) × List RecvEvent
recv_bytes_negative [] = (err message_timeout, [])
recv_bytes_negative (arrived x xs ∷ evs) = (ok (x ∷ xs), evs)
recv_bytes_negative (closed ∷ evs) = (err connection_closed, closed ∷ evs)
recv_bytes_negative (recv_again ready ∷ evs) = (ok [], evs)
recv_bytes_negative (recv_again timed_out ∷ evs) = (err message_timeout, evs)
recv_bytes_negative (recv_again poll_interrupted ∷ evs) = (ok [], evs)
recv_bytes_negative (recv_again poll_failed ∷ evs) = (err errno_set, evs)
recv_bytes_negative (recv_interrupted ∷ evs) = (ok [], evs)
recv_bytes_negative (recv_failed ∷ evs) = (err errno_set, evs)
