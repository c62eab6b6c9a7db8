-- ===== src/Tests/Connection.antt =====
-- Calls over a connection of src/rpc.c at concrete inputs.
use nspluginwrapper.Prelude.{
  ℕ, pos, negsuc, suc, ◌==◌, Bool, true, false, List, [], ◌∷◌, Option, none, some, ◌≡◌,
  if◌then◌else◌, refl, subst, arith,
}
use nspluginwrapper.Rpc.Action.{fail}
use nspluginwrapper.Rpc.Error.{generic}
use nspluginwrapper.Rpc.Socket.Events.{RecvEvent, arrived, recv_interrupted}
use nspluginwrapper.Rpc.Socket.Recv.{stream}
use nspluginwrapper.Rpc.Words.{htonl_bytes, to_u32}
use nspluginwrapper.Rpc.Args.Types.{int32}
use nspluginwrapper.Rpc.Connection.{Connection, Endpoint, active, reporting}
use nspluginwrapper.Rpc.Connection.Dispatch.{
  dispatch_rounds, message_sync_ack, Callback, rpc_dispatch,
}
use nspluginwrapper.Rpc.Connection.Fuel.{Shortens, dispatch_rounds_fuel}
use nspluginwrapper.Rpc.Connection.Calls.{method_invoke}
use nspluginwrapper.Rpc.Connection.Depth.{
  dispatch_depth_of, dispatch_depth-IsDepth, Keeps, rpc_dispatch-Keeps,
}
use nspluginwrapper.Rpc.Connection.Arrival.{call_bytes}
use nspluginwrapper.Rpc.Connection.Service.{served, with_input, rpc_dispatch-served}
use nspluginwrapper.Tests.Rpc.{no_types}

abbrev fresh_connection : Connection
fresh_connection = record {
  is_server = false;
  status = active;
  dispatch_depth = pos 0;
  invoke_depth = pos 0;
  handle_depth = pos 0;
  is_sync = false;
  pending_sync_depth = pos 0;
}

abbrev caller : Endpoint ℕ
caller = record {
  connection = fresh_connection;
  socket = record { sends = []; recvs = []; wire = [] };
  capacity = 64;
  state = 0;
}

-- A callback that counts its calls and then fails.
abbrev count_call : Callback ℕ
count_call p = fail generic (record p { state = suc p.state })

abbrev callback_in : Option (Callback ℕ) → Callback ℕ
callback_in none = count_call
callback_in (some c) = c

abbrev only_five : ℕ → Option (Callback ℕ)
only_five n = if n == 5 then some count_call else none

abbrev ignore_error : Endpoint ℕ → Endpoint ℕ
ignore_error p = p

-- The call of method 5 has arrived, in two pieces.
abbrev called : Endpoint ℕ
called =
    with_input
      (arrived 255 (255 ∷ 244 ∷ 72 ∷ 0 ∷ 0 ∷ [])
        ∷ recv_interrupted
        ∷ arrived 0 (5 ∷ 255 ∷ 255 ∷ 244 ∷ 70 ∷ [])
        ∷ [])
      caller

called-stream : stream called.socket.recvs ≡ call_bytes (pos 5) []
unfolding stream htonl_bytes to_u32
called-stream = refl

rpc_dispatch-served_example :
    (evs : List RecvEvent) × (stream evs ≡ [])
    × (rpc_dispatch only_five ignore_error called
        ≡ reporting ignore_error (served (pos 5) count_call) (with_input evs called))
rpc_dispatch-served_example =
    rpc_dispatch-served only_five ignore_error 5 count_call called [] refl (omega arith)
      called-stream

count_call-Keeps : Keeps dispatch_depth_of dispatch_depth-IsDepth count_call
unfolding fail
count_call-Keeps p = refl

registered :
    (b : Bool) (c : Callback ℕ)
    → (if b then some count_call else none) ≡ some c
    → Keeps dispatch_depth_of dispatch_depth-IsDepth c
registered true c h =
    subst (λ o. Keeps dispatch_depth_of dispatch_depth-IsDepth (callback_in o)) h count_call-Keeps
registered false c h = cc

rpc_dispatch-Keeps_example :
    dispatch_depth_of (rpc_dispatch only_five ignore_error called).1.connection
    ≡ dispatch_depth_of called.connection
rpc_dispatch-Keeps_example =
    rpc_dispatch-Keeps dispatch_depth_of dispatch_depth-IsDepth only_five
      (λ n c h. registered (n == 5) c h) ignore_error (λ p. refl) called

count_call-Shortens : Shortens count_call
unfolding fail
count_call-Shortens p q a e = cc e

short_callback :
    (b : Bool) (c : Callback ℕ) → (if b then some count_call else none) ≡ some c → Shortens c
short_callback true c h = subst (λ o. Shortens (callback_in o)) h count_call-Shortens
short_callback false c h = cc

dispatch_rounds_fuel_example :
    dispatch_rounds only_five 13 message_sync_ack called
    ≡ dispatch_rounds only_five 99 message_sync_ack called
unfolding stream
dispatch_rounds_fuel_example =
    dispatch_rounds_fuel only_five (λ n c h. short_callback (n == 5) c h) 13 99 message_sync_ack
      called (omega arith) (omega arith)

abbrev deliver : List ℕ → List RecvEvent
deliver [] = []
deliver (x ∷ xs) = arrived x [] ∷ deliver xs

-- The wire of the caller as the peer receives it, byte after byte.
abbrev peer : Endpoint ℕ
peer =
    with_input
      (deliver
        (method_invoke no_types ignore_error (pos 5) (int32 (negsuc 1) ∷ []) caller).1.socket.wire)
      caller
