-- ===== src/Rpc/Connection/Dispatch.antt =====
-- The dispatcher of src/rpc.c, and the synchronisation of the two processes.
use nspluginwrapper.Prelude.{
  ℕ, zero, suc, ℤ, pos, negsuc, ◌==ℤ◌, Bool, true, false, ◌||◌, if◌then◌else◌, length, Option, none,
  some,
}
use nspluginwrapper.Rpc.Error.{
  Error, Result, ok, err, abort, code, generic, errno_set, no_memory, message_timeout,
  message_type_invalid, message_handler_invalid, message_sync_not_allowed,
}
use nspluginwrapper.Rpc.Action.{Action, return, fail, ◌>>=◌, ◌>>◌}
use nspluginwrapper.Rpc.Socket.Events.{Poll, timed_out}
use nspluginwrapper.Rpc.Socket.Recv.{stream}
use nspluginwrapper.Rpc.Message.{send_int32, flush}
use nspluginwrapper.Rpc.Reader.{recv_int32}
use nspluginwrapper.Rpc.Args.Sending.{message_end}
use nspluginwrapper.Rpc.Connection.{
  Connection, Endpoint, increment, decrement, on_connection, sending, receiving, reporting,
}

-- RPC_MESSAGE_*
abbrev pub message_start : ℤ
message_start = negsuc 2999

abbrev pub message_failure : ℤ
message_failure = negsuc 3004

abbrev pub message_sync : ℤ
message_sync = negsuc 3005

abbrev pub message_sync_end : ℤ
message_sync_end = negsuc 3006

abbrev pub message_sync_ack : ℤ
message_sync_ack = negsuc 3007

abbrev pub enter_dispatch : Connection → Connection
enter_dispatch c = record c { dispatch_depth = increment c.dispatch_depth }

abbrev pub leave_dispatch : Connection → Connection
leave_dispatch c = record c { dispatch_depth = decrement c.dispatch_depth }

-- n > 0
abbrev pub is_positive : ℤ → Bool
is_positive (pos zero) = false
is_positive (pos (suc n)) = true
is_positive (negsuc n) = false

-- The errors that are sent to the peer.
abbrev pub is_high_level : Error → Bool
is_high_level generic = true
is_high_level errno_set = true
is_high_level no_memory = true
is_high_level _ = false

-- A method callback, which returns no error or an RPC_ERROR_*.
abbrev pub Callback : Type 0 → Type 0
Callback S = Action (Endpoint S) (Unit {0})

module _ {S : Type 0} where
  unfoldable pub report_failure : Error → Action (Endpoint S) ℤ
  report_failure e =
      if is_high_level e
      then (do sending (do send_int32 message_failure; send_int32 (code e); flush); fail e)
      else fail e

  abbrev pub after_callback : ℤ → Result (Unit {0}) → Action (Endpoint S) ℤ
  after_callback method (ok u) q = (ok method, q)
  after_callback method (err e) q = report_failure e q
  after_callback method abort q = (abort, q)

  unfoldable pub run_callback : ℤ → Callback S → Action (Endpoint S) ℤ
  run_callback method callback p = let (r, q) = callback p in after_callback method r q

  unfoldable pub call_method : Option (Callback S) → ℤ → Action (Endpoint S) ℤ
  call_method none method = report_failure message_handler_invalid
  call_method (some callback) method = run_callback method callback

  -- RPC_MESSAGE_SYNC in `_rpc_dispatch_until`, with `_rpc_connection_is_sync_allowed`
  unfoldable pub note_sync : Action (Endpoint S) (Unit {0})
  note_sync p =
      let c = p.connection in
      if c.is_server
      then (err message_sync_not_allowed, p)
      else if c.pending_sync_depth ==ℤ pos 0
      then (ok tt, record p { connection = record c { pending_sync_depth = c.invoke_depth } })
      else (err message_sync_not_allowed, p)

  -- `rpc_connection_add_method_descriptor` has added these; a method's id is not negative.
  module _ (methods : ℕ → Option (Callback S)) where
    abbrev pub lookup_callback : ℤ → Option (Callback S)
    lookup_callback (pos n) = methods n
    lookup_callback (negsuc n) = none

    -- `_rpc_dispatch_1`. The message that it shares with its caller is empty.
    unfoldable pub dispatch_1 : Action (Endpoint S) ℤ
    dispatch_1 = do
      method ← receiving recv_int32
      tag ← receiving recv_int32
      if tag ==ℤ message_end
          then call_method (lookup_callback method) method
          else fail message_type_invalid

    -- `_rpc_dispatch`
    unfoldable pub dispatch : Action (Endpoint S) ℤ
    dispatch p =
        let (r, q) = dispatch_1 (on_connection enter_dispatch p) in
        (r, on_connection leave_dispatch q)

    -- The loop of `_rpc_dispatch_until`, of so many rounds at most.
    unfoldable pub dispatch_rounds : ℕ → ℤ → Action (Endpoint S) (Unit {0})
    dispatch_rounds zero expected = fail message_timeout
    dispatch_rounds (suc fuel) expected = do
      tag ← receiving recv_int32
      if tag ==ℤ expected
          then return tt
          else if tag ==ℤ message_sync
          then (do note_sync; dispatch_rounds fuel expected)
          else if tag ==ℤ message_start
          then (do dispatch; dispatch_rounds fuel expected)
          else fail message_type_invalid

    -- `_rpc_dispatch_until`
    unfoldable pub dispatch_until : ℤ → Action (Endpoint S) (Unit {0})
    dispatch_until expected p = dispatch_rounds (suc (length (stream p.socket.recvs))) expected p

    -- `_rpc_dispatch_sync`
    unfoldable pub dispatch_sync : Action (Endpoint S) (Unit {0})
    dispatch_sync = do
      sending (do send_int32 message_sync_ack; flush)
      dispatch_until message_sync_end

    -- `rpc_dispatch_pending_sync`; `poll` is a `select` that does not wait.
    unfoldable pub dispatch_pending_sync : (Endpoint S → Poll) → Action (Endpoint S) (Unit {0})
    dispatch_pending_sync poll p =
        let c = p.connection in
        if is_positive c.invoke_depth || is_positive c.handle_depth
        then (ok tt, p)
        else if c.pending_sync_depth ==ℤ pos 0
        then (ok tt, p)
        else if c.pending_sync_depth ==ℤ pos 1
        then (elim (poll p) [
          | timed_out ↦
              dispatch_sync (record p { connection = record c { pending_sync_depth = pos 0 } })
          | _ ↦ (abort, p)
        ])
        else (abort, p)

    module _ (error_callback : Endpoint S → Endpoint S) where
      -- `rpc_dispatch`
      unfoldable pub rpc_dispatch : Action (Endpoint S) ℤ
      rpc_dispatch = do
        tag ← reporting error_callback (receiving recv_int32)
        if tag ==ℤ message_sync
            then (do dispatch_sync; return (pos 0))
            else if tag ==ℤ message_start
            then reporting error_callback dispatch
            else reporting error_callback (fail message_type_invalid)

      unfoldable pub set_sync : Bool → Action (Endpoint S) (Unit {0})
      set_sync b p = (ok tt, record p { connection = record p.connection { is_sync = b } })

      unfoldable pub request_sync : Action (Endpoint S) (Unit {0})
      unfolding set_sync
      request_sync = do
        reporting error_callback (sending (do send_int32 message_sync; flush))
        reporting error_callback (dispatch_until message_sync_ack)
        set_sync true

      -- `rpc_sync`
      unfoldable pub rpc_sync : Action (Endpoint S) (Unit {0})
      rpc_sync p = if p.connection.is_sync then (abort, p) else request_sync p

      unfoldable pub release_sync : Action (Endpoint S) (Unit {0})
      unfolding set_sync
      release_sync = do
        reporting error_callback (sending (do send_int32 message_sync_end; flush))
        set_sync false

      -- `rpc_end_sync`
      unfoldable pub rpc_end_sync : Action (Endpoint S) (Unit {0})
      rpc_end_sync p =
          if p.connection.is_sync then release_sync p else reporting error_callback (fail generic) p
