-- ===== src/Rpc/Connection/Depth.antt =====
-- The depths of a connection of src/rpc.c: what the dispatcher does to them.
use nspluginwrapper.Prelude.{
  ℕ, zero, suc, ℤ, pos, negsuc, ◌==ℤ◌, Bool, true, false, if◌then◌else◌, Option, none, some, ◌≡◌,
  refl, ap, ◌∙◌,
}
use nspluginwrapper.Rpc.Error.{Error, Result, ok, err, abort}
use nspluginwrapper.Rpc.Action.{Action, return, fail, continue, ◌>>=◌}
use nspluginwrapper.Rpc.Message.{Send}
use nspluginwrapper.Rpc.Reader.{Reader}
use nspluginwrapper.Rpc.Args.Sending.{message_end}
use nspluginwrapper.Rpc.Connection.{
  Connection, Endpoint, Status, broken, closed, active, set_status, sending, receiving, rpc_error,
  on_connection, notify, reported, reporting, decrement, decrement-increment,
}
use nspluginwrapper.Rpc.Connection.Dispatch.{
  Callback, enter_dispatch, leave_dispatch, report_failure, run_callback, after_callback,
  message_sync_end, message_sync, message_start, call_method, lookup_callback, dispatch_1, dispatch,
  note_sync, dispatch_rounds, dispatch_until, dispatch_sync, rpc_dispatch,
}

-- A number that belongs to the calls in progress: errors and SYNC messages leave it, and the end of
-- a dispatch takes back what its beginning did.
pub record IsDepth (depth : Connection → ℤ) : Type 0 where
  pub status : (e : Error) (c : Connection) → depth (set_status e c) ≡ depth c
  pub pending : (c : Connection) (z : ℤ) → depth (record c { pending_sync_depth = z }) ≡ depth c
  pub balanced :
      (c c' : Connection)
      → depth c' ≡ depth (enter_dispatch c)
      → depth (leave_dispatch c') ≡ depth c

abbrev pub dispatch_depth_of : Connection → ℤ
dispatch_depth_of c = c.dispatch_depth

abbrev pub handle_depth_of : Connection → ℤ
handle_depth_of c = c.handle_depth

abbrev pub invoke_depth_of : Connection → ℤ
invoke_depth_of c = c.invoke_depth

pub dispatch_depth-IsDepth : IsDepth dispatch_depth_of
unfolding set_status
dispatch_depth-IsDepth = record {
  status = λ e c. refl;
  pending = λ c z. refl;
  balanced = λ c c' h. ap decrement h ∙ decrement-increment c.dispatch_depth;
}

pub handle_depth-IsDepth : IsDepth handle_depth_of
unfolding set_status
handle_depth-IsDepth = record {
  status = λ e c. refl;
  pending = λ c z. refl;
  balanced = λ c c' h. h;
}

pub invoke_depth-IsDepth : IsDepth invoke_depth_of
unfolding set_status
invoke_depth-IsDepth = record {
  status = λ e c. refl;
  pending = λ c z. refl;
  balanced = λ c c' h. h;
}

module _ {S : Type 0} (depth : Connection → ℤ) (is_depth : IsDepth depth) where
  -- Whatever the call returns, the depth is what it was.
  abbrev pub Keeps : {A : Type 0} → Action (Endpoint S) A → Type 0
  Keeps act = (p : Endpoint S) → depth (act p).1.connection ≡ depth p.connection

  continue-Keeps :
      {A B : Type 0} (r : Result A) (f : A → Action (Endpoint S) B) (p : Endpoint S)
      → ((a : A) → Keeps (f a))
      → depth (continue r f p).1.connection ≡ depth p.connection
  continue-Keeps (ok a) f p h = h a p
  continue-Keeps (err e) f p h = refl
  continue-Keeps abort f p h = refl

  bind-Keeps :
      {A B : Type 0} (m : Action (Endpoint S) A) (f : A → Action (Endpoint S) B)
      → Keeps m
      → ((a : A) → Keeps (f a))
      → Keeps (m >>= f)
  unfolding ◌>>=◌
  bind-Keeps m f h k p = continue-Keeps (m p).0 f (m p).1 k ∙ h p

  if-Keeps :
      {A : Type 0} (b : Bool) (m n : Action (Endpoint S) A)
      → Keeps m
      → Keeps n
      → Keeps (if b then m else n)
  if-Keeps true m n h k = h
  if-Keeps false m n h k = k

  return-Keeps : {A : Type 0} (a : A) → Keeps (return a)
  unfolding return
  return-Keeps a p = refl

  fail-Keeps : (A : Type 0) (e : Error) → Keeps (fail {A = A} e)
  unfolding fail
  fail-Keeps A e p = refl

  sending-Keeps : (s : Send) → Keeps (sending s)
  unfolding sending
  sending-Keeps s p = refl

  receiving-Keeps : {A : Type 0} (r : Reader A) → Keeps (receiving r)
  unfolding receiving
  receiving-Keeps r p = refl

  ruleset keep_rules =
      (bind-Keeps, if-Keeps, return-Keeps, fail-Keeps, sending-Keeps, receiving-Keeps)

  report_failure-Keeps : (e : Error) → Keeps (report_failure e)
  unfolding report_failure
  report_failure-Keeps e = search keep_rules

  after_callback-Keeps : (method : ℤ) (r : Result (Unit {0})) → Keeps (after_callback method r)
  after_callback-Keeps method (ok u) p = refl
  after_callback-Keeps method (err e) p = report_failure-Keeps e p
  after_callback-Keeps method abort p = refl

  run_callback-Keeps :
      (method : ℤ) (callback : Callback S) → Keeps callback → Keeps (run_callback method callback)
  unfolding run_callback
  run_callback-Keeps method callback h p =
      after_callback-Keeps method (callback p).0 (callback p).1 ∙ h p

  either_outcome :
      {A : Type 0} (b : Bool) (x y : Result A × Endpoint S) (d : ℤ)
      → depth x.1.connection ≡ d
      → depth y.1.connection ≡ d
      → depth (if b then x else y).1.connection ≡ d
  either_outcome true x y d h k = h
  either_outcome false x y d h k = k

  note_sync-Keeps : Keeps note_sync
  unfolding note_sync
  note_sync-Keeps p = either_outcome p.connection.is_server _ _ _ refl (
      either_outcome (p.connection.pending_sync_depth ==ℤ pos 0) _ _ _
        (is_depth.pending p.connection p.connection.invoke_depth) refl)

  module _ (methods : ℕ → Option (Callback S))
      (h : (n : ℕ) (c : Callback S) → methods n ≡ some c → Keeps c) where
    call_method-Keeps :
        (o : Option (Callback S)) (method : ℤ)
        → ((c : Callback S) → o ≡ some c → Keeps c)
        → Keeps (call_method o method)
    unfolding call_method
    call_method-Keeps none method k = report_failure-Keeps _
    call_method-Keeps (some c) method k = run_callback-Keeps method c (k c refl)

    lookup_callback-Keeps : (z : ℤ) (c : Callback S) → lookup_callback methods z ≡ some c → Keeps c
    lookup_callback-Keeps (pos n) c e = h n c e
    lookup_callback-Keeps (negsuc n) c e = cc

    dispatch_1-Keeps : Keeps (dispatch_1 methods)
    unfolding dispatch_1
    dispatch_1-Keeps = bind-Keeps _ _ (receiving-Keeps _) λ method.
        bind-Keeps _ _ (receiving-Keeps _) λ tag.
          if-Keeps (tag ==ℤ message_end) _ _
            (call_method-Keeps _ method (lookup_callback-Keeps method)) (fail-Keeps _ _)

    dispatch-Keeps : Keeps (dispatch methods)
    unfolding dispatch
    dispatch-Keeps p =
        is_depth.balanced p.connection _ (dispatch_1-Keeps (on_connection enter_dispatch p))

    dispatch_rounds-Keeps :
        (fuel : ℕ) (expected : ℤ) → Keeps (dispatch_rounds methods fuel expected)
    unfolding dispatch_rounds
    dispatch_rounds-Keeps zero expected = fail-Keeps _ _
    dispatch_rounds-Keeps (suc fuel) expected = bind-Keeps _ _ (receiving-Keeps _) λ tag.
        if-Keeps (tag ==ℤ expected) _ _ (return-Keeps tt) (
          if-Keeps (tag ==ℤ message_sync) _ _
            (bind-Keeps _ _ note_sync-Keeps λ u. dispatch_rounds-Keeps fuel expected)
            (if-Keeps (tag ==ℤ message_start) _ _
              (bind-Keeps _ _ dispatch-Keeps λ m. dispatch_rounds-Keeps fuel expected)
              (fail-Keeps _ _)))

    pub dispatch_until-Keeps : (expected : ℤ) → Keeps (dispatch_until methods expected)
    unfolding dispatch_until
    dispatch_until-Keeps expected p = dispatch_rounds-Keeps _ expected p

    dispatch_sync-Keeps : Keeps (dispatch_sync methods)
    unfolding dispatch_sync
    dispatch_sync-Keeps =
        bind-Keeps _ _ (sending-Keeps _) λ u. dispatch_until-Keeps message_sync_end

    module _ (error_callback : Endpoint S → Endpoint S)
        (k : (p : Endpoint S) → depth (error_callback p).connection ≡ depth p.connection) where
      notify-Keeps :
          (s : Status) (p : Endpoint S)
          → depth (notify error_callback s p).connection ≡ depth p.connection
      notify-Keeps active p = refl
      notify-Keeps closed p = k p
      notify-Keeps broken p = k p

      rpc_error-Keeps :
          (e : Error) (p : Endpoint S)
          → depth (rpc_error error_callback e p).connection ≡ depth p.connection
      unfolding rpc_error
      rpc_error-Keeps e p = notify-Keeps _ _ ∙ is_depth.status e p.connection

      reported-Keeps : {A : Type 0} (r : Result A) → Keeps (reported error_callback r)
      reported-Keeps (ok a) p = refl
      reported-Keeps (err e) p = rpc_error-Keeps e p
      reported-Keeps abort p = refl

      reporting-Keeps :
          {A : Type 0} (act : Action (Endpoint S) A)
          → Keeps act
          → Keeps (reporting error_callback act)
      unfolding reporting
      reporting-Keeps act h p = reported-Keeps (act p).0 (act p).1 ∙ h p

      -- `rpc_dispatch` leaves a depth as it found it, whatever arrives and however it ends, if the
      -- method callbacks and the error callback do.
      pub rpc_dispatch-Keeps : Keeps (rpc_dispatch methods error_callback)
      unfolding rpc_dispatch
      rpc_dispatch-Keeps = bind-Keeps _ _ (reporting-Keeps _ (receiving-Keeps _)) λ tag.
          if-Keeps (tag ==ℤ message_sync) _ _
            (bind-Keeps _ _ dispatch_sync-Keeps λ u. return-Keeps (pos 0))
            (if-Keeps (tag ==ℤ message_start) _ _ (reporting-Keeps _ dispatch-Keeps)
              (reporting-Keeps _ (fail-Keeps _ _)))
