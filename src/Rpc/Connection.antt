-- ===== src/Rpc/Connection.antt =====
-- `rpc_connection` of src/rpc.c: its status and depths, and the calls that are made over it. The
-- connection is there: the checks for NULL are left out.
pub mod Dispatch
pub mod Calls
pub mod Depth
pub mod Arrival
pub mod Service
pub mod Fuel
pub mod EndToEnd
use nspluginwrapper.Prelude.{ℕ, zero, suc, ℤ, pos, negsuc, Bool, List, [], ◌≡◌, refl}
use nspluginwrapper.Rpc.Error.{Error, Result, ok, err, abort, connection_closed}
use nspluginwrapper.Rpc.Action.{Action, return, fail, ◌>>=◌, ◌>>◌}
use nspluginwrapper.Rpc.Socket.Events.{RecvEvent, Socket}
use nspluginwrapper.Rpc.Message.{Message, Send}
use nspluginwrapper.Rpc.Reader.{Reader}

-- RPC_STATUS_*
pub data Status : Type 0 where
  broken closed active : Status

-- `is_server` is the type. The depths are of the type `int`.
pub record Connection : Type 0 where
  pub is_server : Bool
  pub status : Status
  pub dispatch_depth : ℤ
  pub invoke_depth : ℤ
  pub handle_depth : ℤ
  pub is_sync : Bool
  pub pending_sync_depth : ℤ

-- A process at one end: `capacity` is the size of the buffer in each of its messages, `state` what
-- its method callbacks and its error callback keep.
pub record Endpoint (S : Type 0) : Type 0 where
  pub connection : Connection
  pub socket : Socket
  pub capacity : ℕ
  pub state : S

-- `++depth` and `--depth`
abbrev pub increment : ℤ → ℤ
increment (pos n) = pos (suc n)
increment (negsuc zero) = pos 0
increment (negsuc (suc n)) = negsuc n

abbrev pub decrement : ℤ → ℤ
decrement (pos zero) = negsuc 0
decrement (pos (suc n)) = pos n
decrement (negsuc n) = negsuc (suc n)

pub decrement-increment : (z : ℤ) → decrement (increment z) ≡ z
decrement-increment (pos n) = refl
decrement-increment (negsuc zero) = refl
decrement-increment (negsuc (suc n)) = refl

-- Only an active connection changes its status.
abbrev pub status_after : Error → Status → Status
status_after connection_closed active = closed
status_after _ active = broken
status_after _ closed = closed
status_after _ broken = broken

-- `_rpc_set_status`, which is called for errors only
unfoldable pub set_status : Error → Connection → Connection
set_status e c = record c { status = status_after e c.status }

module _ {S : Type 0} where
  abbrev pub on_connection : (Connection → Connection) → Endpoint S → Endpoint S
  on_connection f p = record p { connection = f p.connection }

  -- `rpc_message_init`
  abbrev pub message_init : Endpoint S → Message
  message_init p = record { capacity = p.capacity; buffer = []; socket = p.socket }

  -- A message of the function's own: what is not flushed is lost when the function returns.
  unfoldable pub sending : Send → Action (Endpoint S) (Unit {0})
  sending s p = let (r, m) = s (message_init p) in (r, record p { socket = m.socket })

  unfoldable pub receiving : {A : Type 0} → Reader A → Action (Endpoint S) A
  receiving r p =
      let (a, evs) = r p.socket.recvs in (a, record p { socket = record p.socket { recvs = evs } })

  -- The callback of rpc_connection_set_error_callback; the identity if there is none.
  module _ (error_callback : Endpoint S → Endpoint S) where
    abbrev pub notify : Status → Endpoint S → Endpoint S
    notify active p = p
    notify closed p = error_callback p
    notify broken p = error_callback p

    -- `rpc_error`
    unfoldable pub rpc_error : Error → Endpoint S → Endpoint S
    unfolding set_status
    rpc_error e p = let q = on_connection (set_status e) p in notify q.connection.status q

    abbrev pub reported : {A : Type 0} → Result A → Action (Endpoint S) A
    reported (ok a) p = (ok a, p)
    reported (err e) p = (err e, rpc_error e p)
    reported abort p = (abort, p)

    -- `if (error != RPC_ERROR_NO_ERROR) return rpc_error(connection, error);`
    unfoldable pub reporting : {A : Type 0} → Action (Endpoint S) A → Action (Endpoint S) A
    reporting act p = let (r, q) = act p in reported r q

  -- `if (status == RPC_STATUS_CLOSED) return RPC_ERROR_CONNECTION_CLOSED;`
  abbrev pub checked : {A : Type 0} → Status → Action (Endpoint S) A → Action (Endpoint S) A
  checked closed act p = (err connection_closed, p)
  checked broken act p = act p
  checked active act p = act p

  unfoldable pub unless_closed : {A : Type 0} → Action (Endpoint S) A → Action (Endpoint S) A
  unless_closed act p = checked p.connection.status act p
