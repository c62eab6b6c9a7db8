-- ===== src/Rpc/Reader/Parses.antt =====
-- What the reading functions make of the bytes on the wire, however the kernel cuts them up.
use nspluginwrapper.Prelude.{
  ℕ, ◌<◌, ◌≡◌, refl, ap, ◌∙◌, arith, List, [], ◌∷◌, ◌++◌, append_assoc, length, length-append, take,
  drop, take-append_le, take_all,
}
use nspluginwrapper.Rpc.Error.{Result, ok}
use nspluginwrapper.Rpc.Action.{return, ◌>>=◌}
use nspluginwrapper.Rpc.Socket.Events.{RecvEvent}
use nspluginwrapper.Rpc.Socket.Recv.{recv_bytes, stream}
use nspluginwrapper.Rpc.Socket.Recv.Stream.{recv_bytes-stream}
use nspluginwrapper.Rpc.Reader.{Reader}

-- The reader returned `a` and left `rest` on the stream.
pub record Parsed {A : Type 0} (a : A) (rest : List ℕ) (r : Result A × List RecvEvent)
    : Type 0 where
  pub events : List RecvEvent
  pub result : r ≡ (ok a, events)
  pub remains : stream events ≡ rest

-- From any script whose stream begins with `xs`, the reader takes just these bytes and returns `a`.
pub record Parses {A : Type 0} (r : Reader A) (xs : List ℕ) (a : A) : Type 0 where
  pub run : (evs : List RecvEvent) (rest : List ℕ) → stream evs ≡ xs ++ rest → Parsed a rest (r evs)

pub Parses-return : {A : Type 0} (a : A) → Parses (return a) [] a
unfolding return
Parses-return a = record { run = λ evs rest e. record { events = evs; result = refl; remains = e } }

module _ {A B : Type 0} (r : Reader A) (f : A → Reader B) where
  bind-Parsed :
      {a : A} {b : B} {rest rest' : List ℕ} (evs : List RecvEvent)
      → Parsed a rest (r evs)
      → ((evs' : List RecvEvent) → stream evs' ≡ rest → Parsed b rest' (f a evs'))
      → Parsed b rest' ((r >>= f) evs)
  unfolding ◌>>=◌
  bind-Parsed evs p q =
      let c = q p.events p.remains in
      record { events = c.events; result = rw p.result c.result; remains = c.remains }

  pub Parses-bind :
      {a : A} {b : B} {xs ys : List ℕ}
      → Parses r xs a
      → Parses (f a) ys b
      → Parses (r >>= f) (xs ++ ys) b
  Parses-bind {xs = xs} {ys = ys} p q = record {
    run = λ evs rest e.
        bind-Parsed evs (p.run evs (ys ++ rest) (e ∙ append_assoc xs ys rest))
          (λ evs' e'. q.run evs' rest e');
  }

take_prefix : (xs rest : List ℕ) → take (length xs) (xs ++ rest) ≡ xs
take_prefix xs rest =
    take-append_le (length xs) xs rest (omega arith) ∙ take_all (length xs) xs (omega arith)

drop_prefix : (xs rest : List ℕ) → drop (length xs) (xs ++ rest) ≡ rest
drop_prefix [] rest = refl
drop_prefix (x ∷ xs) rest = drop_prefix xs rest

-- Reading a positive number of bytes.
pub recv_bytes-Parses :
    (n : ℕ) (xs : List ℕ) → n ≡ length xs → 0 < length xs → Parses (recv_bytes n) xs xs
recv_bytes-Parses n xs k h = record {
  run = λ evs rest e.
      let (evs', p, s) =
        (recv_bytes-stream n evs (omega arith)).0 (rw (e, length-append) (omega arith)) in
      record {
        events = evs';
        result = p ∙ ap (λ zs. (ok zs, evs')) (rw (e, k) (take_prefix xs rest));
        remains = s ∙ rw (e, k) (drop_prefix xs rest);
      };
}
