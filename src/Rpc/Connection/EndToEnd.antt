-- ===== src/Rpc/Connection/EndToEnd.antt =====
-- A call of src/rpc.c from `rpc_method_invoke` in one process to the callback in the other, and to
-- the arguments that the callback gets.
use nspluginwrapper.Prelude.{ℕ, List, ◌≡◌}
use nspluginwrapper.Rpc.Error.{Result, ok}
use nspluginwrapper.Rpc.Socket.Events.{RecvEvent}
use nspluginwrapper.Rpc.Socket.Recv.{stream}
use nspluginwrapper.Rpc.Reader.Parses.{Parses}
use nspluginwrapper.Rpc.Args.Types.{Types, Arg}
use nspluginwrapper.Rpc.Connection.{Endpoint, on_connection}
use nspluginwrapper.Rpc.Connection.Calls.{enter_handle}
use nspluginwrapper.Rpc.Connection.Service.{with_input}

-- The call delivers these arguments, and leaves the handler one call deeper and `rest` on the stream.
abbrev pub Gets :
    {S V : Type 0}
    → Endpoint S
    → List (Arg V)
    → List ℕ
    → Result (List (Arg V)) × Endpoint S
    → Type 0
Gets {S} p args rest r =
    (evs : List RecvEvent) × (stream evs ≡ rest)
    × (r ≡ (ok args, with_input evs (on_connection enter_handle p)))
