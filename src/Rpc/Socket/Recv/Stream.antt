-- ===== src/Rpc/Socket/Recv/Stream.antt =====
-- What `_rpc_message_recv_bytes` reads does not depend on how the kernel cuts the bytes up.
use nspluginwrapper.Prelude.{
  ℕ, ◌+◌, ◌-◌, ◌≤◌, ◌<◌, min, ◌≡◌, refl, sym, ◌∙◌, List, [], ◌∷◌, ◌++◌, append_assoc, arith, length,
  take, drop, length-append, take-append_le, drop-append_le, take_all, take-append_ge,
  drop-append_ge,
}
use native.Mathlib.Decide.{dec_le}
use mathlib.Core.Path.{ap}
use nspluginwrapper.Rpc.Error.{
  Error, Result, ok, err, errno_set, connection_closed, message_timeout,
}
use nspluginwrapper.Rpc.Socket.Events.{
  ready, timed_out, poll_interrupted, poll_failed, RecvEvent, arrived, recv_again, closed,
  recv_interrupted, recv_failed,
}
use nspluginwrapper.Rpc.Socket.Recv.{put_back, recv_loop, recv_bytes, stream}

pub stream-put_back :
    (xs : List ℕ) (evs : List RecvEvent) → stream (put_back xs evs) ≡ xs ++ stream evs
unfolding stream
stream-put_back [] evs = refl
stream-put_back (x ∷ xs) evs = refl

-- A result and the script that it leaves, seen through the stream.
abbrev pub Delivers : Result (List ℕ) × List RecvEvent → List ℕ → List ℕ → Type 0
Delivers r xs rest = (evs' : List RecvEvent) × (r ≡ (ok xs, evs')) × (stream evs' ≡ rest)

chunk_step :
    (c s : List ℕ) (count : ℕ) (bytes : List ℕ)
    → length c ≤ count
    → (bytes ++ c) ++ take (count - length c) s ≡ bytes ++ take count (c ++ s)
chunk_step c s count bytes h = rw (take-append_ge count c s h, append_assoc)

recv_loop_arrived_last :
    (x : ℕ) (xs : List ℕ) (evs : List RecvEvent) (count : ℕ) (bytes : List ℕ)
    → 0 < count
    → count ≤ length (x ∷ xs)
    → Delivers
        (recv_loop (arrived x xs ∷ evs) count bytes)
        (bytes ++ take count ((x ∷ xs) ++ stream evs))
        (drop count ((x ∷ xs) ++ stream evs))
unfolding recv_loop
recv_loop_arrived_last x xs evs count bytes h k =
    let e : min count (length (x ∷ xs)) ≡ count = omega arith in
    (
      put_back (drop count (x ∷ xs)) evs,
      rw (take-append_le count (x ∷ xs) (stream evs) k) (ground (arith, e)),
      stream-put_back (drop count (x ∷ xs)) evs
          ∙ sym (drop-append_le count (x ∷ xs) (stream evs) k),
    )

recv_loop_arrived_more :
    (x : ℕ) (xs : List ℕ) (evs : List RecvEvent) (count : ℕ) (bytes : List ℕ)
    → length (x ∷ xs) < count
    → recv_loop (arrived x xs ∷ evs) count bytes
      ≡ recv_loop evs (count - length (x ∷ xs)) (bytes ++ x ∷ xs)
unfolding recv_loop
recv_loop_arrived_more x xs evs count bytes h =
    let e : min count (length (x ∷ xs)) ≡ length (x ∷ xs) = omega arith in
    ground (arith, e, take_all (length (x ∷ xs)) (x ∷ xs) (omega arith))

recv_loop_ready :
    (evs : List RecvEvent) (count : ℕ) (bytes : List ℕ)
    → 0 < count
    → recv_loop (recv_again ready ∷ evs) count bytes ≡ recv_loop evs count bytes
unfolding recv_loop
recv_loop_ready evs count bytes h = ground arith

recv_loop_poll_interrupted :
    (evs : List RecvEvent) (count : ℕ) (bytes : List ℕ)
    → 0 < count
    → recv_loop (recv_again poll_interrupted ∷ evs) count bytes ≡ recv_loop evs count bytes
unfolding recv_loop
recv_loop_poll_interrupted evs count bytes h = ground arith

recv_loop_interrupted :
    (evs : List RecvEvent) (count : ℕ) (bytes : List ℕ)
    → 0 < count
    → recv_loop (recv_interrupted ∷ evs) count bytes ≡ recv_loop evs count bytes
unfolding recv_loop
recv_loop_interrupted evs count bytes h = ground arith

-- The loop on a stream that is long enough, whatever the events.
pub recv_loop-stream :
    (evs : List RecvEvent) (count : ℕ) (bytes : List ℕ)
    → 0 < count
    → count ≤ length (stream evs)
    → Delivers
        (recv_loop evs count bytes)
        (bytes ++ take count (stream evs))
        (drop count (stream evs))
unfolding stream
recv_loop-stream [] count bytes h k = absurd (omega arith)
recv_loop-stream (arrived x xs ∷ evs) count bytes h k = elim (dec_le count (length (x ∷ xs))) [
  | yes p ↦ recv_loop_arrived_last x xs evs count bytes h p
  | no p ↦
      let k' : count ≤ length (x ∷ xs) + length (stream evs) =
        omega (arith, k, length-append (x ∷ xs) (stream evs)) in
      let q : length (x ∷ xs) < count = omega arith in
      let (evs', e, s) =
        recv_loop-stream evs (count - length (x ∷ xs)) (bytes ++ x ∷ xs) (omega arith)
          (omega arith) in
      (
        evs',
        recv_loop_arrived_more x xs evs count bytes q
            ∙ e
            ∙ ap (λ r. (ok r, evs')) (chunk_step (x ∷ xs) (stream evs) count bytes (omega arith)),
        s ∙ sym (drop-append_ge count (x ∷ xs) (stream evs) (omega arith)),
      )
]
recv_loop-stream (closed ∷ evs) count bytes h k = absurd (omega arith)
recv_loop-stream (recv_again ready ∷ evs) count bytes h k =
    let (evs', e, s) = recv_loop-stream evs count bytes h k in
    (evs', recv_loop_ready evs count bytes h ∙ e, s)
recv_loop-stream (recv_again timed_out ∷ evs) count bytes h k = absurd (omega arith)
recv_loop-stream (recv_again poll_interrupted ∷ evs) count bytes h k =
    let (evs', e, s) = recv_loop-stream evs count bytes h k in
    (evs', recv_loop_poll_interrupted evs count bytes h ∙ e, s)
recv_loop-stream (recv_again poll_failed ∷ evs) count bytes h k = absurd (omega arith)
recv_loop-stream (recv_interrupted ∷ evs) count bytes h k =
    let (evs', e, s) = recv_loop-stream evs count bytes h k in
    (evs', recv_loop_interrupted evs count bytes h ∙ e, s)
recv_loop-stream (recv_failed ∷ evs) count bytes h k = absurd (omega arith)

-- The bytes that are wanted but never arrive: the loop fails, and stores nothing for the caller.
pub recv_loop_short :
    (evs : List RecvEvent) (count : ℕ) (bytes : List ℕ)
    → length (stream evs) < count
    → (e : Error) × (evs' : List RecvEvent) × (recv_loop evs count bytes ≡ (err e, evs'))
unfolding stream
recv_loop_short [] count bytes h = (message_timeout, [], unfold recv_loop in refl)
recv_loop_short (arrived x xs ∷ evs) count bytes h =
    let k : length (x ∷ xs) + length (stream evs) < count =
      omega (arith, h, length-append (x ∷ xs) (stream evs)) in
    let (e, evs', p) =
      recv_loop_short evs (count - length (x ∷ xs)) (bytes ++ x ∷ xs) (omega arith) in
    (e, evs', recv_loop_arrived_more x xs evs count bytes (omega arith) ∙ p)
recv_loop_short (closed ∷ evs) count bytes h =
    (connection_closed, closed ∷ evs, unfold recv_loop in refl)
recv_loop_short (recv_again ready ∷ evs) count bytes h =
    let (e, evs', p) = recv_loop_short evs count bytes h in
    (e, evs', recv_loop_ready evs count bytes (omega arith) ∙ p)
recv_loop_short (recv_again timed_out ∷ evs) count bytes h =
    (message_timeout, evs, unfold recv_loop in refl)
recv_loop_short (recv_again poll_interrupted ∷ evs) count bytes h =
    let (e, evs', p) = recv_loop_short evs count bytes h in
    (e, evs', recv_loop_poll_interrupted evs count bytes (omega arith) ∙ p)
recv_loop_short (recv_again poll_failed ∷ evs) count bytes h =
    (errno_set, evs, unfold recv_loop in refl)
recv_loop_short (recv_interrupted ∷ evs) count bytes h =
    let (e, evs', p) = recv_loop_short evs count bytes h in
    (e, evs', recv_loop_interrupted evs count bytes (omega arith) ∙ p)
recv_loop_short (recv_failed ∷ evs) count bytes h = (errno_set, evs, unfold recv_loop in refl)

-- For a positive count, `_rpc_message_recv_bytes` succeeds exactly when the stream holds that many
-- bytes before an event that ends it: then it returns the first `count` of them, whatever the
-- chunks, retries and signals on the way, and leaves the rest of the stream. Otherwise it fails.
pub recv_bytes-stream :
    (count : ℕ) (evs : List RecvEvent)
    → 0 < count
    → (count ≤ length (stream evs)
        → Delivers (recv_bytes count evs) (take count (stream evs)) (drop count (stream evs)))
      × (length (stream evs) < count
          → (e : Error) × (evs' : List RecvEvent) × (recv_bytes count evs ≡ (err e, evs')))
unfolding recv_bytes
recv_bytes-stream count evs h = (recv_loop-stream evs count [] h, recv_loop_short evs count [])

-- A count of 0 is not a read of nothing: as soon as bytes are there `recv` returns 0, and the
-- caller is told that the peer has closed the connection.
pub recv_bytes-zero :
    (x : ℕ) (xs : List ℕ) (evs : List RecvEvent)
    → (recv_bytes 0 (arrived x xs ∷ evs)).0 ≡ err connection_closed
unfolding recv_bytes
recv_bytes-zero x xs evs = ground arith
