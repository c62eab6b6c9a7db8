-- ===== src/Rpc/Connection/Service.antt =====
-- A call that is on the stream of src/rpc.c's dispatcher.
use nspluginwrapper.Prelude.{
  ℕ, ℤ, pos, ◌<◌, ◌^◌, List, ◌++◌, append-nil, Option, some, ◌≡◌, refl, sym, ◌∙◌, ap, subst, arith,
}
use nspluginwrapper.Rpc.Error.{Result, ok}
use nspluginwrapper.Rpc.Action.{Action, continue, ◌>>=◌}
use nspluginwrapper.Rpc.Words.{
  IsInt32, to_u32, length-htonl_bytes, ntohl_bytes-htonl_bytes, to_i32-to_u32, to_u32-IsU32,
}
use nspluginwrapper.Rpc.Socket.Events.{RecvEvent}
use nspluginwrapper.Rpc.Socket.Recv.{stream}
use nspluginwrapper.Rpc.Reader.{Reader, recv_int32}
use nspluginwrapper.Rpc.Reader.Parses.{Parses, Parses-bind, Parses-return, recv_bytes-Parses}
use nspluginwrapper.Rpc.Args.Sending.{message_end}
use nspluginwrapper.Rpc.Connection.{Endpoint, on_connection, receiving, reported, reporting}
use nspluginwrapper.Rpc.Connection.Dispatch.{
  Callback, message_start, enter_dispatch, leave_dispatch, call_method, run_callback, dispatch_1,
  dispatch, rpc_dispatch,
}
use nspluginwrapper.Rpc.Connection.Arrival.{int32_bytes, call_bytes}

recv_int32-Parses : (v : ℤ) → IsInt32 v → Parses recv_int32 (int32_bytes v) v
unfolding recv_int32
recv_int32-Parses v h =
    subst (λ xs. Parses recv_int32 xs v) (append-nil (int32_bytes v))
      (Parses-bind _ _
        (recv_bytes-Parses 4 (int32_bytes v) (sym (length-htonl_bytes (to_u32 v)))
          (omega (arith, length-htonl_bytes (to_u32 v))))
        (rw (ntohl_bytes-htonl_bytes (to_u32 v) (to_u32-IsU32 v), to_i32-to_u32 v h)
          (Parses-return v)))

module _ {S : Type 0} where
  abbrev pub with_input : List RecvEvent → Endpoint S → Endpoint S
  with_input evs p = record p { socket = record p.socket { recvs = evs } }

  -- The callback runs one dispatch deeper.
  abbrev pub served : ℤ → Callback S → Action (Endpoint S) ℤ
  served method callback p =
      let (r, q) = run_callback method callback (on_connection enter_dispatch p) in
      (r, on_connection leave_dispatch q)

  next_step :
      {A B : Type 0} (m : Action (Endpoint S) A) (f : A → Action (Endpoint S) B) (p q : Endpoint S)
      (a : A)
      → m p ≡ (ok a, q)
      → (m >>= f) p ≡ f a q
  unfolding ◌>>=◌
  next_step {A = A} m f p q a e = ap (λ (r : Result A × Endpoint S). continue r.0 f r.1) e

  pub received :
      {A : Type 0} (r : Reader A) (p : Endpoint S) (a : A) (evs : List RecvEvent)
      → r p.socket.recvs ≡ (ok a, evs)
      → receiving r p ≡ (ok a, with_input evs p)
  unfolding receiving
  received r p a evs e = ap (λ x. (x.0, with_input x.1 p)) e

  module _ (methods : ℕ → Option (Callback S)) (error_callback : Endpoint S → Endpoint S) where
    -- The header of a call that is registered: its callback runs, and finds on the stream what follows the header.
    dispatch_1_lem :
        (n : ℕ) (callback : Callback S) (p : Endpoint S) (rest : List ℕ)
        → methods n ≡ some callback
        → n < 2 ^ 31
        → stream p.socket.recvs ≡ int32_bytes (pos n) ++ (int32_bytes message_end ++ rest)
        → (evs : List RecvEvent) × (stream evs ≡ rest)
          × (dispatch_1 methods p ≡ run_callback (pos n) callback (with_input evs p))
    unfolding dispatch_1 call_method
    dispatch_1_lem n callback p rest e h s =
        let a = (recv_int32-Parses (pos n) (omega arith)).run p.socket.recvs _ s in
        let b = (recv_int32-Parses message_end (omega arith)).run a.events rest a.remains in
        (
          b.events,
          b.remains,
          next_step (receiving recv_int32) _ p _ _ (received recv_int32 p (pos n) a.events a.result)
              ∙ next_step (receiving recv_int32) _ (with_input a.events p) _ _
                  (received recv_int32 (with_input a.events p) message_end b.events b.result)
              ∙ rw e refl,
        )

    -- Where a call of a registered method comes first on the stream, `rpc_dispatch` runs its callback
    -- one dispatch deeper, with all that follows the call's header still on the stream, and reports
    -- what comes of it.
    pub rpc_dispatch-served :
        (n : ℕ) (callback : Callback S) (p : Endpoint S) (rest : List ℕ)
        → methods n ≡ some callback
        → n < 2 ^ 31
        → stream p.socket.recvs ≡ call_bytes (pos n) rest
        → (evs : List RecvEvent) × (stream evs ≡ rest)
          × (rpc_dispatch methods error_callback p
              ≡ reporting error_callback (served (pos n) callback) (with_input evs p))
    unfolding rpc_dispatch reporting dispatch
    rpc_dispatch-served n callback p rest e h s =
        let a = (recv_int32-Parses message_start (omega arith)).run p.socket.recvs _ s in
        let (evs, t, d) =
          dispatch_1_lem n callback (on_connection enter_dispatch (with_input a.events p)) rest e h
            a.remains in
        (
          evs,
          t,
          next_step (reporting error_callback (receiving recv_int32)) _ p _ _ (
                ap (λ x. reported error_callback x.0 x.1)
                  (received recv_int32 p message_start a.events a.result))
              ∙ ap (λ x. reported error_callback x.0 (on_connection leave_dispatch x.1)) d,
        )
