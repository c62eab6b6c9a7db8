-- ===== src/Rpc/Socket/Events.antt =====
-- The byte loops of src/rpc.c over a non-blocking socket, and what the kernel does to them.
-- The kernel is a script: the outcomes of the next `send` or `recv` calls, in order.
use nspluginwrapper.Prelude.{ℕ, List}

-- How `rpc_poll` ends: the socket is ready, the message timeout has passed, or `select` fails
-- (for a signal, EINTR, or otherwise).
pub data Poll : Type 0 where
  ready timed_out poll_interrupted poll_failed : Poll

-- The outcome of one `send`: at most so many bytes are taken, or -1 with `errno`.
pub data SendEvent : Type 0 where
  takes : ℕ → SendEvent
  send_again : Poll → SendEvent
  send_interrupted send_reset send_failed : SendEvent

-- The outcome of one `recv`: bytes have arrived (the first and the others), the peer has closed
-- the connection, or -1 with `errno`.
pub data RecvEvent : Type 0 where
  arrived : ℕ → List ℕ → RecvEvent
  recv_again : Poll → RecvEvent
  closed recv_interrupted recv_failed : RecvEvent

-- One end of the connection: what `send` and `recv` will meet, and the bytes sent so far.
-- After the script `sends` the kernel takes all that it is given; after `recvs` nothing arrives.
pub record Socket : Type 0 where
  pub sends : List SendEvent
  pub recvs : List RecvEvent
  pub wire : List ℕ
