-- ===== src/Objects/Receive.antt =====
-- do_recv_NPObject_helper and npclass_handle_Deallocate keep the invariant of Sound.
use nspluginwrapper.Prelude.{
  ℕ, ◌+◌, ◌≤◌, ◌==◌, Bool, true, false, if◌then◌else◌, List, ◌∷◌, Option, none, some, ◌≡◌, ◌≢◌,
  refl, sym, ap, subst, inl, inr, arith,
}
use nspluginwrapper.Rpc.Error.{Result, ok}
use nspluginwrapper.Glib.{HashTable}
use nspluginwrapper.Objects.Host.{
  proxy, NpObject, Mention, deallocate, Host, create_proxy, handle_deallocate, destroy_stub_obj,
}
use nspluginwrapper.Objects.Queue.{one_if, creates, frees}
use nspluginwrapper.Objects.Count.{
  there, there-insert, put-some, stub, created, held, Good, Linked, Holder,
}
use nspluginwrapper.Objects.Quiet.{release-Quiet}
use nspluginwrapper.Objects.Sound.{
  Sound, Link, nothing, taken, pop-Sound, drop-Sound, Quiet-Sound, there-le,
}

module _ (glib : HashTable) where
  open glib use {Table, insert, remove, lookup, lookup-insert}

  -- A new proxy is the only one of its stub.
  pub Good-insert :
      (t : Table) (a j c : ℕ) (o : NpObject)
      → there (lookup j t) ≡ 0
      → Good glib t c o
      → Good glib (insert j a t) c o
  Good-insert t a j c o e (lt, k) = (lt, λ i v q. ((k i v q).0, kept i ((k i v q).1)))
    where
      kept : (i : ℕ) → lookup i t ≡ some c → lookup i (insert j a t) ≡ some c
      kept i at = grind (arith, lookup-insert j i a t)

  pub Good-new :
      (t : Table) (a j : ℕ)
      → Good glib (insert j a t) a (record { kind = proxy j true; reference_count = 1 })
  Good-new t a j =
      (omega arith, λ i v q. (let same : j ≡ i = cc in (cc, grind (arith, lookup-insert j i a t))))

  pub proxied :
      (t : Bool) (s c f old new : ℕ)
      → s ≡ c + (old + f) + one_if t
      → s ≤ 1
      → new ≡ (if t then 1 else old)
      → s ≡ c + (new + f) + 0 × (t ≡ true → old + f ≡ 0) × (t ≡ false → new ≡ old)
  proxied true s c f old new e le r =
      (omega (arith, e, r, le), λ q. omega (arith, e, le), λ q. grind arith)
  proxied false s c f old new e le r = (omega (arith, e, r, le), λ q. grind arith, λ q. r)

  pub named_still :
      (id : ℕ) (t t' : Table) (q : List Mention)
      → Holder glib id t q
      → held glib id t' q ≤ 1
      → (b : Bool) → (b ≡ true → held glib id t q ≡ 0)
      → (b ≡ false → there (lookup id t') ≡ there (lookup id t))
      → Holder glib id t' q
  named_still id t t' q (_, o, inl n) le b zero same = (le, o, inl n)
  named_still id t t' q (_, o, inr n) le true zero same = (le, o, inl (omega (arith, n, zero refl)))
  named_still id t t' q (_, o, inr n) le false zero same =
      (le, o, inr (omega (arith, n, same refl)))

  pub ==-refl : (j : ℕ) → (j == j) ≡ true
  ==-refl j = ground arith

  pub proxy-Sound :
      (j a : ℕ) (x y : Host Table)
      → Sound glib nothing (λ id. one_if (j == id)) x y
      → Sound glib nothing nothing (create_proxy glib j a x) y
  unfolding create_proxy
  proxy-Sound j a x y (lx, ly, o, h) = (linked, ly, o, holds)
    where
      x' : Host Table
      x' = create_proxy glib j a x

      counts :
          (id : ℕ)
          → stub glib id y ≡ created glib id y + held glib id x'.proxies x'.outgoing + 0
            × ((j == id) ≡ true → held glib id x.proxies x.outgoing ≡ 0)
            × ((j == id) ≡ false → there (lookup id x'.proxies) ≡ there (lookup id x.proxies))
      counts id =
          proxied (j == id) _ _ _ _ _ ((h id).0.0) (there-le glib (lookup id y.stubs))
            (there-insert glib id j a x.proxies)

      linked : Linked glib x'
      linked c p e = elim (put-some glib a _ p x.objects c e) [
        | inl (same, eq) ↦
            subst (λ z. Good glib x'.proxies z p) (sym same)
              (subst (λ z. Good glib x'.proxies a z) eq (Good-new x.proxies a j))
        | inr (other, old) ↦
            Good-insert x.proxies a j c p (omega (arith, (counts j).1 (==-refl j))) (lx c p old)
      ]

      holds : Link glib nothing y x'
      holds id =
          let ((b, u), k) = h id in
          let (s, zero, same) = counts id in
          (
            (s, u),
            named_still id x.proxies x'.proxies x.outgoing k
                (omega (arith, s, there-le glib (lookup id y.stubs))) (j == id) zero same,
          )

  pub there-some : (o : Option ℕ) → there o ≢ 0 → o ≢ none
  there-some none n e = n refl
  there-some (some a) n e = cc

  -- npobject_destroy_stub_obj, for a message that frees the stub
  pub destroy-Sound :
      (j b : ℕ) (x y : Host Table)
      → Sound glib (λ id. one_if (j == id)) nothing x y
      → Sound glib nothing nothing ((destroy_stub_obj glib j b x).1) y
  unfolding destroy_stub_obj
  destroy-Sound j b x y sound =
      let x' : Host Table = record x { stubs = remove j x.stubs } in
      let sound' = drop-Sound glib j nothing x y sound in
      Quiet-Sound glib nothing nothing x' _ y (release-Quiet glib b x' (sound'.0)) sound'

  -- The stub that a waiting message is about is there.
  pub waiting-there :
      (p c : ℕ → ℕ) (j : ℕ) (x y : Host Table)
      → Sound glib p c x y
      → 1 ≤ held glib j y.proxies y.outgoing + p j
      → lookup j x.stubs ≢ none
  waiting-there p c j x y (_, _, o, _) w = there-some _ (λ e. omega (arith, (o j).0.0, e, w))

  -- npclass_handle_Deallocate, of the next message
  pub handle-Sound :
      (j : ℕ) (rest : List Mention) (x y : Host Table)
      → y.outgoing ≡ deallocate j ∷ rest
      → Sound glib nothing nothing x y
      → Sound glib nothing nothing ((handle_deallocate glib j x).1) (taken glib rest y)
  unfolding handle_deallocate frees creates
  handle-Sound j rest x y e sound = go (lookup j x.stubs) refl
    where
      popped : Sound glib (λ id. one_if (j == id)) nothing x (taken glib rest y)
      popped = pop-Sound glib (deallocate j) rest x y e sound

      one : one_if (j == j) ≡ 1
      one = ap one_if (==-refl j)

      go :
          (o : Option ℕ)
          → lookup j x.stubs ≡ o
          → Sound glib nothing nothing
              ((elim o as (λ _. Result (Unit {0}) × Host Table) [
                | none ↦ (ok tt, x)
                | some a ↦ destroy_stub_obj glib j a x
              ]).1)
              (taken glib rest y)
      go none q = elim (waiting-there _ _ j x (taken glib rest y) popped (omega (arith, one)) q) [ ]
      go (some a) q = destroy-Sound j a x (taken glib rest y) popped
