-- ===== src/Objects/Import.antt =====
-- do_recv_NPObject_helper keeps the invariant of Sound.
use nspluginwrapper.Prelude.{
  ℕ, ◌==◌, Bool, true, false, if◌then◌else◌, ◌&&◌, List, ◌∷◌, Option, none, some, ◌≡◌, ◌≢◌, refl,
  ap, subst, arith,
}
use nspluginwrapper.Rpc.Error.{Result, ok, err, abort, generic}
use nspluginwrapper.Rpc.Action.{return, bind_ok, ◌>>◌, ◌>>=◌}
use nspluginwrapper.Glib.{HashTable}
use nspluginwrapper.Objects.Host.{
  Wire, Mention, object, Host, lookup_local, destroy_stub, destroy_stub_obj, retain,
}
use nspluginwrapper.Objects.Exchange.{
  import_object, import_stub, import_local, import_proxy, object_null, sender_owned, receiver_owned,
}
use nspluginwrapper.Objects.Queue.{one_if, creates, frees, and_false, and_true}
use nspluginwrapper.Objects.Count.{Quiet}
use nspluginwrapper.Objects.Quiet.{retain-Quiet}
use nspluginwrapper.Objects.Sound.{Sound, Link-ext, nothing, taken, pop-Sound, Quiet-Sound}
use nspluginwrapper.Objects.Receive.{destroy-Sound, proxy-Sound}

module _ (glib : HashTable) where
  open glib use {Table, lookup}

  abbrev pub Ends : Option ℕ → Result (Option ℕ) × Host Table → Host Table → Type 0
  Ends r p x' = p ≡ (ok r, x')

  pub destroy_stub-Sound :
      (j : ℕ) (u : Unit {0}) (x x' y : Host Table)
      → Sound glib (λ id. one_if (j == id)) nothing x y
      → destroy_stub glib j x ≡ (ok u, x')
      → Sound glib nothing nothing x' y
  unfolding destroy_stub
  destroy_stub-Sound j u x x' y sound = go (lookup j x.stubs)
    where
      go :
          (o : Option ℕ)
          → elim o as (λ _. Result (Unit {0}) × Host Table) [
            | none ↦ (abort, x)
            | some b ↦ destroy_stub_obj glib j b x
          ]
            ≡ (ok u, x')
          → Sound glib nothing nothing x' y
      go none e = cc
      go (some b) e =
          subst (λ z. Sound glib nothing nothing z y) (ap (λ p. p.1) e)
            (destroy-Sound glib j b x y sound)

  -- What is done with the stub after its object was retained.
  pub let_go-Sound :
      (j b : ℕ) (release_stub : Bool) (r : Option ℕ) (x x' y : Host Table)
      → Sound glib (λ id. one_if (j == id && release_stub)) nothing x y
      → ((if release_stub then destroy_stub glib j else return tt) >> return (some b)) x
        ≡ (ok r, x')
      → Sound glib nothing nothing x' y
  unfolding ◌>>=◌ return
  let_go-Sound j b false r x x' y (lx, ly, o, h) e =
      subst (λ z. Sound glib nothing nothing z y) (ap (λ p. p.1) e)
        (lx, ly, Link-ext glib _ nothing x y (λ id. and_false (j == id)) o, h)
  let_go-Sound j b true r x x' y (lx, ly, o, h) e =
      let (u, x1, done, last) = bind_ok (destroy_stub glib j) _ x x' r e in
      subst (λ z. Sound glib nothing nothing z y) (ap (λ p. p.1) last)
        (destroy_stub-Sound j u x x1 y
          (lx, ly, Link-ext glib _ _ x y (λ id. and_true (j == id)) o, h) done)

  pub stub-Sound :
      (w : Wire) (b : ℕ) (r : Option ℕ) (x x' y : Host Table)
      → Sound glib (λ id. one_if (w.id == id && w.release_stub)) nothing x y
      → import_stub glib w b x ≡ (ok r, x')
      → Sound glib nothing nothing x' y
  unfolding import_stub
  stub-Sound w b r x x' y sound e =
      let (u, x1, kept, rest) = bind_ok (retain glib b) _ x x' r e in
      let quiet =
        subst (λ z. Quiet glib x z) (ap (λ p. p.1) kept) (retain-Quiet glib b x (sound.0)) in
      let_go-Sound w.id b w.release_stub r x1 x' y (Quiet-Sound glib _ nothing x x1 y quiet sound)
        rest

  pub local-Sound :
      (w : Wire) (o : Option ℕ) (r : Option ℕ) (x x' y : Host Table)
      → Sound glib (λ id. one_if (w.id == id && w.release_stub)) nothing x y
      → import_local glib w o x ≡ (ok r, x')
      → Sound glib nothing nothing x' y
  local-Sound w none r x x' y sound e = cc
  local-Sound w (some b) r x x' y sound e = stub-Sound w b r x x' y sound e

  pub other_type : (t j k : ℕ) → j ≢ k → (t == j) ≡ true → (t == k) ≡ false
  other_type t j k n e = ground arith

  -- By the tests on the type of the wire: no object, the sender's, or the receiver's.
  pub typed-Sound :
      (b0 b1 b2 : Bool) (a : ℕ) (w : Wire) (r : Option ℕ) (x x' y : Host Table)
      → (b0 ≡ true → (b1 ≡ false) × (b2 ≡ false))
      → (b1 ≡ true → b2 ≡ false)
      → Sound glib
          (λ id. one_if (b2 && (w.id == id && w.release_stub)))
          (λ id. one_if (b1 && w.id == id))
          x
          y
      → (if b0
          then (ok none, x)
          else if b1
          then import_proxy glib a w x
          else if b2
          then import_local glib w (lookup_local glib w.id x) x
          else (err generic, x))
        ≡ (ok r, x')
      → Sound glib nothing nothing x' y
  typed-Sound true true b2 a w r x x' y n m sound e = let (bad, _) = n refl in cc
  typed-Sound true false true a w r x x' y n m sound e = let (_, bad) = n refl in cc
  typed-Sound true false false a w r x x' y n m sound e =
      subst (λ z. Sound glib nothing nothing z y) (ap (λ p. p.1) e) sound
  typed-Sound false true true a w r x x' y n m sound e = let bad = m refl in cc
  typed-Sound false true false a w r x x' y n m sound e =
      subst (λ z. Sound glib nothing nothing z y) (ap (λ p. p.1) e)
        (proxy-Sound glib w.id a x y sound)
  typed-Sound false false true a w r x x' y n m sound e =
      local-Sound w (lookup_local glib w.id x) r x x' y sound e
  typed-Sound false false false a w r x x' y n m sound e = cc

  pub import-Sound :
      (a : ℕ) (w : Wire) (rest : List Mention) (r : Option ℕ) (x x' y : Host Table)
      → y.outgoing ≡ object w ∷ rest
      → Sound glib nothing nothing x y
      → import_object glib a w x ≡ (ok r, x')
      → Sound glib nothing nothing x' (taken glib rest y)
  unfolding import_object frees creates
  import-Sound a w rest r x x' y e sound q =
      typed-Sound (w.type == object_null) (w.type == sender_owned) (w.type == receiver_owned) a w r
        x x' (taken glib rest y)
        (λ t. (other_type w.type 0 1 (omega arith) t, other_type w.type 0 2 (omega arith) t))
        (other_type w.type 1 2 (omega arith)) (pop-Sound glib (object w) rest x y e sound) q
