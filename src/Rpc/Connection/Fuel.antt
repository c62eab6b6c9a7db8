-- ===== src/Rpc/Connection/Fuel.antt =====
-- The loop of `_rpc_dispatch_until` of src/rpc.c ends: each round takes bytes off the stream.
use nspluginwrapper.Prelude.{
  ℕ, zero, suc, ◌<◌, ◌≤◌, ℤ, pos, negsuc, ◌==ℤ◌, Bool, true, false, Bool-cases, inl, inr,
  if◌then◌else◌, length, Option, none, some, ◌≡◌, refl, sym, ap, ◌∙◌, arith,
}
use nspluginwrapper.Rpc.Error.{Error, Result, ok, err, abort}
use nspluginwrapper.Rpc.Action.{Action, fail, bind_ok, bind_cong}
use nspluginwrapper.Rpc.Socket.Recv.{stream}
use nspluginwrapper.Rpc.Reader.{Reader, recv_int32}
use nspluginwrapper.Rpc.Reader.Consumes.{Consumes, recv_int32-Consumes}
use nspluginwrapper.Rpc.Args.Sending.{message_end}
use nspluginwrapper.Rpc.Connection.{Endpoint, receiving, on_connection}
use nspluginwrapper.Rpc.Connection.Dispatch.{
  Callback, message_start, message_sync, is_high_level, enter_dispatch, report_failure,
  run_callback, after_callback, call_method, lookup_callback, dispatch_1, dispatch, note_sync,
  dispatch_rounds,
}

module _ {S : Type 0} where
  -- How many bytes are on the stream.
  abbrev pub input : Endpoint S → ℕ
  input p = length (stream p.socket.recvs)

  -- A call that succeeds has put no bytes on its own stream.
  abbrev pub Shortens : {A : Type 0} → Action (Endpoint S) A → Type 0
  Shortens {A} act = (p q : Endpoint S) (a : A) → act p ≡ (ok a, q) → input q ≤ input p

  receiving-Consumes :
      {A : Type 0} (r : Reader A) (p q : Endpoint S) (a : A)
      → Consumes r
      → receiving r p ≡ (ok a, q)
      → input q < input p
  unfolding receiving
  receiving-Consumes r p q a h e =
      let evs = p.socket.recvs in
      let e0 : (r evs).0 ≡ ok a = ap (λ x. x.0) e in
      let e1 : length (stream (r evs).1) ≡ input q = ap (λ x. input x.1) e in
      let k = h evs (r evs).1 a (ap (λ x. (x, (r evs).1)) e0) in omega (arith, e1, k)

  -- A call that never succeeds.
  abbrev Fails : {A : Type 0} → Action (Endpoint S) A → Type 0
  Fails {A} act = (p q : Endpoint S) (a : A) → act p ≡ (ok a, q) → ⊥

  fail-Fails : (A : Type 0) (e : Error) → Fails (fail {A = A} e)
  unfolding fail
  fail-Fails A e p q a h = cc h

  if-Fails :
      {A : Type 0} (b : Bool) (m n : Action (Endpoint S) A)
      → Fails m
      → Fails n
      → Fails (if b then m else n)
  if-Fails true m n h k = h
  if-Fails false m n h k = k

  report_failure-Fails : (e : Error) → Fails (report_failure e)
  unfolding report_failure
  report_failure-Fails e =
      if-Fails (is_high_level e) _ _
        (λ p q a h. let (u, s, x, y) = bind_ok _ _ p q a h in fail-Fails ℤ e s q a y)
        (fail-Fails ℤ e)

  if-Shortens :
      {A : Type 0} (b : Bool) (m n : Action (Endpoint S) A)
      → Shortens m
      → Shortens n
      → Shortens (if b then m else n)
  if-Shortens true m n h k = h
  if-Shortens false m n h k = k

  same_input :
      {A : Type 0} (b : Bool) (x y : Result A × Endpoint S) (n : ℕ)
      → input x.1 ≡ n
      → input y.1 ≡ n
      → input (if b then x else y).1 ≡ n
  same_input true x y n h k = h
  same_input false x y n h k = k

  note_sync-Shortens : Shortens note_sync
  unfolding note_sync
  note_sync-Shortens p q a h =
      let e : input (note_sync p).1 ≡ input p =
        same_input p.connection.is_server _ _ (input p) refl
          (same_input (p.connection.pending_sync_depth ==ℤ pos 0) _ _ (input p) refl refl) in
      let k = ap (λ x. input x.1) h in omega (arith, sym k ∙ e)

  after_callback-Shortens :
      (method : ℤ) (r : Result (Unit {0})) (p s q : Endpoint S) (a : ℤ)
      → (r ≡ ok tt → input s ≤ input p)
      → after_callback method r s ≡ (ok a, q)
      → input q ≤ input p
  after_callback-Shortens method (ok tt) p s q a h e =
      let k = ap (λ x. input x.1) e in omega (arith, h refl, k)
  after_callback-Shortens method (err x) p s q a h e = absurd (report_failure-Fails x s q a e)
  after_callback-Shortens method abort p s q a h e = cc e

  run_callback-Shortens :
      (method : ℤ) (c : Callback S) → Shortens c → Shortens (run_callback method c)
  unfolding run_callback
  run_callback-Shortens method c h p q a e =
      after_callback-Shortens method (c p).0 p (c p).1 q a
        (λ k. h p (c p).1 tt (ap (λ x. (x, (c p).1)) k)) e

  module _ (methods : ℕ → Option (Callback S))
      (h : (n : ℕ) (c : Callback S) → methods n ≡ some c → Shortens c) where
    call_method-Shortens :
        (o : Option (Callback S)) (method : ℤ)
        → ((c : Callback S) → o ≡ some c → Shortens c)
        → Shortens (call_method o method)
    unfolding call_method
    call_method-Shortens none method k p q a e = absurd (report_failure-Fails _ p q a e)
    call_method-Shortens (some c) method k p q a e =
        run_callback-Shortens method c (k c refl) p q a e

    lookup_callback-Shortens :
        (z : ℤ) (c : Callback S) → lookup_callback methods z ≡ some c → Shortens c
    lookup_callback-Shortens (pos n) c e = h n c e
    lookup_callback-Shortens (negsuc n) c e = cc

    dispatch_1-Shortens : Shortens (dispatch_1 methods)
    unfolding dispatch_1
    dispatch_1-Shortens p q a e =
        let (method, p1, e1, k1) = bind_ok (receiving recv_int32) _ p q a e in
        let (tag, p2, e2, k2) = bind_ok (receiving recv_int32) _ p1 q a k1 in
        let l1 = receiving-Consumes recv_int32 p p1 method recv_int32-Consumes e1 in
        let l2 = receiving-Consumes recv_int32 p1 p2 tag recv_int32-Consumes e2 in
        let l3 =
          if-Shortens (tag ==ℤ message_end) _ _
            (call_method-Shortens (lookup_callback methods method) method
              (lookup_callback-Shortens method))
            (λ s t b x. absurd (fail-Fails ℤ _ s t b x)) p2 q a k2 in
        omega (arith, l1, l2, l3)

    dispatch-Shortens : Shortens (dispatch methods)
    unfolding dispatch
    dispatch-Shortens p q a e =
        let p' = on_connection enter_dispatch p in
        let e0 = ap (λ x. x.0) e in
        let e1 = ap (λ x. input x.1) e in
        let l =
          dispatch_1-Shortens p' (dispatch_1 methods p').1 a
            (ap (λ x. (x, (dispatch_1 methods p').1)) e0) in
        omega (arith, e1, l)

    -- With more fuel than there are bytes on the stream, the amount of fuel does not matter to the
    -- loop of `_rpc_dispatch_until`, if no callback that succeeds puts bytes on the stream.
    pub dispatch_rounds_fuel :
        (f g : ℕ) (expected : ℤ) (p : Endpoint S)
        → input p < f
        → input p < g
        → dispatch_rounds methods f expected p ≡ dispatch_rounds methods g expected p
    unfolding dispatch_rounds
    dispatch_rounds_fuel zero g expected p k l = absurd (omega arith)
    dispatch_rounds_fuel (suc f) zero expected p k l = absurd (omega arith)
    dispatch_rounds_fuel (suc f) (suc g) expected p k l = bind_cong _ _ _ p λ tag p1 e1.
        let less = receiving-Consumes recv_int32 p p1 tag recv_int32-Consumes e1 in
        elim (Bool-cases (tag ==ℤ expected)) [
          | inl done ↦ rw done refl
          | inr more ↦ rw more (elim (Bool-cases (tag ==ℤ message_sync)) [
            | inl sync ↦ rw sync (
                bind_cong note_sync _ _ p1 λ u p2 e2.
                  let le = note_sync-Shortens p1 p2 u e2 in
                  dispatch_rounds_fuel f g expected p2 (omega arith) (omega arith))
            | inr call ↦ rw call (elim (Bool-cases (tag ==ℤ message_start)) [
              | inl start ↦ rw start (
                  bind_cong (dispatch methods) _ _ p1 λ m p2 e2.
                    let le = dispatch-Shortens p1 p2 m e2 in
                    dispatch_rounds_fuel f g expected p2 (omega arith) (omega arith))
              | inr invalid ↦ rw invalid refl
            ])
          ])
        ]
