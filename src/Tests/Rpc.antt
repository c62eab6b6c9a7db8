-- ===== src/Tests/Rpc.antt =====
-- The message layer of src/rpc.c at concrete inputs.
use nspluginwrapper.Prelude.{
  ℕ, ◌≤◌, ◌<◌, ◌≡◌, refl, arith, Bool, true, List, [], ◌∷◌, length, take, drop, none, some, negsuc,
}
use nspluginwrapper.Rpc.Error.{Error, ok, err}
use nspluginwrapper.Rpc.Socket.Events.{RecvEvent, arrived, recv_again, ready, closed}
use nspluginwrapper.Rpc.Socket.Recv.{recv_bytes, stream}
use nspluginwrapper.Rpc.Socket.Recv.Stream.{Delivers, recv_bytes-stream}
use nspluginwrapper.Rpc.Carries.{Carries}
use nspluginwrapper.Rpc.Args.Types.{Types, Arg, int32, string, array, strings}

-- A machine that does not run out of memory, and no marshalers.
abbrev pub plenty : ℕ → Bool
plenty n = true

abbrev pub no_types : Types ℕ
no_types t = none

abbrev call_args : List (Arg ℕ)
call_args =
    int32 (negsuc 41) ∷ string none ∷ array (strings (some (104 ∷ 105 ∷ []) ∷ none ∷ [])) ∷ []

-- Three bytes, in two pieces with a wait between them, and one more.
abbrev pieces : List RecvEvent
pieces = arrived 1 [] ∷ recv_again ready ∷ arrived 2 (3 ∷ 4 ∷ []) ∷ closed ∷ []

pieces_read : recv_bytes 3 pieces ≡ (ok (1 ∷ 2 ∷ 3 ∷ []), arrived 4 [] ∷ closed ∷ [])
unfolding recv_bytes
pieces_read = refl

recv_bytes_example :
    (3 ≤ length (stream pieces)
      → Delivers (recv_bytes 3 pieces) (take 3 (stream pieces)) (drop 3 (stream pieces)))
    × (length (stream pieces) < 3
        → (e : Error) × (evs' : List RecvEvent) × (recv_bytes 3 pieces ≡ (err e, evs')))
recv_bytes_example = recv_bytes-stream 3 pieces (omega arith)
