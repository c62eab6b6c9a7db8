-- ===== src/Rpc/Connection/Arrival.antt =====
-- A call from one process to the other in src/rpc.c: what `rpc_method_invoke` puts on the wire, and
-- what the dispatcher of the peer makes of it.
use nspluginwrapper.Prelude.{ℕ, ℤ, Bool, List, [], ◌++◌, map, ◌≡◌, refl, sym, subst}
use nspluginwrapper.Rpc.Error.{Result, ok}
use nspluginwrapper.Rpc.Action.{Action}
use nspluginwrapper.Rpc.Words.{to_u32, htonl_bytes}
use nspluginwrapper.Rpc.Message.{Message, Send}
use nspluginwrapper.Rpc.Message.Emits.{Emitted, Emits, IsReady}
use nspluginwrapper.Rpc.Reader.Parses.{Parses}
use nspluginwrapper.Rpc.Args.Types.{Types, Arg, arg_type}
use nspluginwrapper.Rpc.Args.Sending.{message_end}
use nspluginwrapper.Rpc.Args.Receiving.{recv_args}
use nspluginwrapper.Rpc.Args.RoundTrip.{as_received}
use nspluginwrapper.Rpc.Connection.{Endpoint, Status, active, checked}
use nspluginwrapper.Rpc.Connection.Dispatch.{message_start}
use nspluginwrapper.Rpc.Connection.Calls.{enter_invoke}

-- The call succeeds, its bytes follow what was written, and none of them is left in the buffer.
pub record Flushes (act : Send) (xs : List ℕ) : Type 0 where
  pub run : (m : Message) → IsReady m → (b : Emitted m xs (act m)) × (b.message.buffer ≡ [])

-- The bytes of an `int32_t`.
abbrev pub int32_bytes : ℤ → List ℕ
int32_bytes v = htonl_bytes (to_u32 v)

-- MESSAGE_START, the method's id, MESSAGE_END, and what follows.
abbrev pub call_bytes : ℤ → List ℕ → List ℕ
call_bytes method xs =
    int32_bytes message_start ++ (int32_bytes method ++ (int32_bytes message_end ++ xs))

-- The call has succeeded, and the wire has these bytes and no fewer.
pub record Sent {S : Type 0} (p : Endpoint S) (xs : List ℕ) (r : Result (Unit {0}) × Endpoint S)
    : Type 0 where
  pub result : r.0 ≡ ok tt
  pub wire : r.1.socket.wire ≡ p.socket.wire ++ xs
  pub input : r.1.socket.recvs ≡ p.socket.recvs
  pub connection : r.1.connection ≡ p.connection

module _ {S : Type 0} where
  pub checked_active :
      {A : Type 0} (s : Status) (act : Action (Endpoint S) A) (p : Endpoint S)
      → s ≡ active
      → checked s act p ≡ act p
  checked_active s act p h = subst (λ x. checked x act p ≡ act p) (sym h) refl

-- `rpc_method_invoke` has succeeded: the call is on the wire with its arguments, which
-- `rpc_message_recv_args` reads back, and the caller is one invocation deeper.
pub record Arrives {S V : Type 0} (types : Types V) (malloc : ℕ → Bool) (method : ℤ)
    (args : List (Arg V)) (p : Endpoint S) (r : Result (Unit {0}) × Endpoint S) : Type 0 where
  pub bytes : List ℕ
  pub result : r.0 ≡ ok tt
  pub wire : r.1.socket.wire ≡ p.socket.wire ++ call_bytes method bytes
  pub connection : r.1.connection ≡ enter_invoke p.connection
  pub parses :
      Parses
        (recv_args malloc types (map arg_type args))
        bytes
        (map (as_received malloc types) args)
