-- ===== src/Rpc/Reader/Consumes.antt =====
-- A read that succeeds takes bytes off the stream.
use nspluginwrapper.Prelude.{ℕ, ◌<◌, ◌≡◌, arith, List, length, length-drop}
use native.Mathlib.Decide.{dec_le}
use nspluginwrapper.Rpc.Error.{ok}
use nspluginwrapper.Rpc.Action.{return, ◌>>=◌, bind_ok}
use nspluginwrapper.Rpc.Words.{to_i32, ntohl_bytes}
use nspluginwrapper.Rpc.Socket.Events.{RecvEvent}
use nspluginwrapper.Rpc.Socket.Recv.{recv_bytes, stream}
use nspluginwrapper.Rpc.Socket.Recv.Stream.{recv_bytes-stream}
use nspluginwrapper.Rpc.Reader.{Reader, recv_uint32, recv_int32}

abbrev pub Consumes : {A : Type 0} → Reader A → Type 0
Consumes {A} r =
    (evs evs' : List RecvEvent) (a : A)
    → r evs ≡ (ok a, evs')
    → length (stream evs') < length (stream evs)

recv_bytes-Consumes : (n : ℕ) → 0 < n → Consumes (recv_bytes n)
recv_bytes-Consumes n h evs evs' bytes e = elim (dec_le n (length (stream evs))) [
  | yes p ↦
      let (evs'', q, s) = (recv_bytes-stream n evs h).0 p in
      let same : evs'' ≡ evs' = cc (q, e) in rw (← same, s, length-drop) (omega arith)
  | no p ↦ let (x, evs'', q) = (recv_bytes-stream n evs h).1 (omega arith) in cc (q, e)
]

module _ {A B : Type 0} where
  pub Consumes-return : (r : Reader A) (g : A → B) → Consumes r → Consumes (r >>= λ a. return (g a))
  unfolding return
  Consumes-return r g h evs evs' b e =
      let (a, s, p, q) = bind_ok r (λ a. return (g a)) evs evs' b e in
      let same : s ≡ evs' = cc q in rw (← same) (h evs s a p)

pub recv_uint32-Consumes : Consumes recv_uint32
unfolding recv_uint32
recv_uint32-Consumes =
    Consumes-return (recv_bytes 4) ntohl_bytes (recv_bytes-Consumes 4 (omega arith))

pub recv_int32-Consumes : Consumes recv_int32
unfolding recv_int32
recv_int32-Consumes =
    Consumes-return (recv_bytes 4) (λ b. to_i32 (ntohl_bytes b))
      (recv_bytes-Consumes 4 (omega arith))
