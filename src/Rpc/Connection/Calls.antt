-- ===== src/Rpc/Connection/Calls.antt =====
-- The calls of methods in src/rpc.c: both ends of an invocation and of its reply.
use nspluginwrapper.Prelude.{ℕ, ℤ, negsuc, ◌==ℤ◌, Bool, if◌then◌else◌, List, [], ◌∷◌, Option}
use nspluginwrapper.Rpc.Error.{message_type_invalid}
use nspluginwrapper.Rpc.Action.{Action, return, fail, ◌>>=◌, ◌>>◌}
use nspluginwrapper.Rpc.Message.{Send, send_int32, flush}
use nspluginwrapper.Rpc.Reader.{recv_int32}
use nspluginwrapper.Rpc.Args.Types.{Types, Arg}
use nspluginwrapper.Rpc.Args.Sending.{message_end, send_args}
use nspluginwrapper.Rpc.Args.Receiving.{recv_args}
use nspluginwrapper.Rpc.Connection.{
  Connection, Endpoint, increment, decrement, on_connection, sending, receiving, reporting,
  unless_closed,
}
use nspluginwrapper.Rpc.Connection.Dispatch.{Callback, message_start, dispatch_until}

-- RPC_MESSAGE_REPLY
abbrev pub message_reply : ℤ
message_reply = negsuc 3003

abbrev pub enter_invoke : Connection → Connection
enter_invoke c = record c { invoke_depth = increment c.invoke_depth }

abbrev pub leave_invoke : Connection → Connection
leave_invoke c = record c { invoke_depth = decrement c.invoke_depth }

abbrev pub enter_handle : Connection → Connection
enter_handle c = record c { handle_depth = increment c.handle_depth }

abbrev pub leave_handle : Connection → Connection
leave_handle c = record c { handle_depth = decrement c.handle_depth }

-- `types` are the marshalers of the connection.
module _ {V : Type 0} (types : Types V) where
  abbrev pub send_optional_args : List (Arg V) → Send
  send_optional_args [] = return tt
  send_optional_args (a ∷ args) = do send_args types (a ∷ args); flush

  unfoldable pub send_invoke : ℤ → List (Arg V) → Send
  send_invoke method args = do
    send_int32 message_start
    send_int32 method
    send_int32 message_end
    flush
    send_optional_args args

  unfoldable pub send_reply_message : List (Arg V) → Send
  send_reply_message args = do
    send_int32 message_reply
    send_args types args
    send_int32 message_end
    flush

-- The depth is changed after the call, whether it fails or not.
unfoldable pub and_then :
    {S A : Type 0} → Action (Endpoint S) A → (Connection → Connection) → Action (Endpoint S) A
and_then act f p = let (r, q) = act p in (r, on_connection f q)

module _ {S V : Type 0} (types : Types V) (error_callback : Endpoint S → Endpoint S) where
  -- `rpc_method_invoke`
  unfoldable pub method_invoke : ℤ → List (Arg V) → Action (Endpoint S) (Unit {0})
  method_invoke method args = unless_closed λ p.
      reporting error_callback (sending (send_invoke types method args))
        (on_connection enter_invoke p)

  -- `rpc_method_send_reply`
  unfoldable pub method_send_reply : List (Arg V) → Action (Endpoint S) (Unit {0})
  unfolding and_then
  method_send_reply args =
      unless_closed
        (and_then (reporting error_callback (sending (send_reply_message types args))) leave_handle)

  -- `malloc` is the C library's.
  module _ (malloc : ℕ → Bool) where
    -- `rpc_method_get_args`
    unfoldable pub method_get_args : List ℤ → Action (Endpoint S) (List (Arg V))
    method_get_args ts = unless_closed λ p.
        reporting error_callback (receiving (recv_args malloc types ts))
          (on_connection enter_handle p)

    module _ (methods : ℕ → Option (Callback S)) where
      unfoldable pub recv_reply : List ℤ → Action (Endpoint S) (List (Arg V))
      recv_reply ts = do
        reporting error_callback (dispatch_until methods message_reply)
        args ← reporting error_callback (receiving (recv_args malloc types ts))
        tag ← reporting error_callback (receiving recv_int32)
        if tag ==ℤ message_end
            then return args
            else reporting error_callback (fail message_type_invalid)

      -- `rpc_method_wait_for_reply`
      unfoldable pub method_wait_for_reply : List ℤ → Action (Endpoint S) (List (Arg V))
      unfolding and_then
      method_wait_for_reply ts = unless_closed (and_then (recv_reply ts) leave_invoke)
