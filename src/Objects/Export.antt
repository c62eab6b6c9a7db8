-- ===== src/Objects/Export.antt =====
-- do_send_NPObject_helper keeps the invariant of Sound.
use nspluginwrapper.Prelude.{
  ℕ, ◌+◌, ◌-◌, ◌<◌, ◌^◌, ◌%◌, ◌==◌, Bool, true, false, if◌then◌else◌, Option, none, some, ◌≡◌, refl,
  sym, ap, ◌∙◌, subst, arith,
}
use nspluginwrapper.Rpc.Error.{Result, ok, abort}
use nspluginwrapper.Rpc.Action.{return, halt, bind_ok, ◌>>◌}
use nspluginwrapper.Glib.{HashTable}
use nspluginwrapper.Objects.Host.{
  Kind, own, proxy, NpObject, Wire, object, Host, say, set_object, create_stub, retain, release,
  released, with_object, destroy_proxy, deallocate_object,
}
use nspluginwrapper.Objects.Exchange.{
  own_wire, export_own, export_proxy, export_kind, export_object, null_wire, stub_wire,
  sender_owned,
}
use nspluginwrapper.Objects.Queue.{one_if, creates, names, frees, total-add, and_false, and_true}
use nspluginwrapper.Objects.Count.{
  Quiet, Linked, Keeps-last, Keeps-named, put-none, Good-remove, Quiet-put, Quiet-refl, reduced,
}
use nspluginwrapper.Objects.Quiet.{retain-Quiet, release-Quiet, Quiet-trans}
use nspluginwrapper.Objects.Sound.{Sound, nothing, add-Sound, say-Sound, Quiet-Sound}

module _ (glib : HashTable) where
  open glib use {Table, insert, remove, lookup}

  -- The id of a new stub is waiting to be told.
  pub create-Sound :
      (a id : ℕ) (x x' y : Host Table)
      → x.next_id + 1 < 2 ^ 32
      → Sound glib nothing nothing x y
      → create_stub glib a x ≡ (ok id, x')
      → Sound glib (λ i. one_if (id == i)) nothing x' y
  unfolding create_stub
  create-Sound a id x x' y lt sound e =
      let n = (x.next_id + 1) % 2 ^ 32 in
      let x0 : Host Table = record x { next_id = n } in
      let (u, x1, kept, last) = bind_ok (retain glib a) _ x0 x' id e in
      let (l, s, same, c, k) : Quiet glib x0 x1 =
        subst (λ z. Quiet glib x0 z) (ap (λ p. p.1) kept) (retain-Quiet glib a x0 (sound.0)) in
      let insertion : Quiet glib (record x { next_id = n; stubs = insert n a x.stubs })
          (record x1 { stubs = insert n a x1.stubs }) =
        (l, ap (λ t. insert n a t) s, same, c, k) in
      let n_next : x.next_id + 1 ≡ n = omega (arith, lt) in
      let before =
        subst
          (λ z.
            Sound glib (λ i. one_if (z == i)) nothing
              (record x { next_id = z; stubs = insert z a x.stubs }) y)
          n_next (add-Sound glib a x y lt sound) in
      let after = Quiet-Sound glib _ nothing _ _ y insertion before in
      let same_id : n ≡ id = cc in
      subst (λ z. Sound glib (λ i. one_if (z == i)) nothing x' y) same_id
        (subst (λ z. Sound glib (λ i. one_if (n == i)) nothing z y) (ap (λ p. p.1) last) after)

  -- A proxy is named, and stays.
  pub Quiet-named :
      (x : Host Table) (a j : ℕ)
      → lookup j x.proxies ≡ some a
      → Linked glib x
      → Quiet glib x (say glib (object (stub_wire j false)) x)
  unfolding creates names frees
  Quiet-named x a j e l = (
    l,
    refl,
    refl,
    λ id. omega (arith, total-add (creates id) x.outgoing (object (stub_wire j false))),
    Keeps-named glib x.proxies x.outgoing j a (object (stub_wire j false))
        (λ id. (and_false (j == id), refl)) e,
  )

  -- The last reference to a proxy goes with the message.
  pub Quiet-last :
      (x : Host Table) (a j : ℕ) (v : Bool)
      → lookup j x.proxies ≡ some a
      → Linked glib x
      → Quiet glib x (say glib (object (stub_wire j true)) (destroy_proxy glib a j v false x))
  unfolding creates names frees destroy_proxy
  Quiet-last x a j v e l = (
    λ c p q.
        (let (ne, old) = put-none glib a p x.objects c q in
          Good-remove glib x.proxies a j c p e ne (l c p old)),
    refl,
    refl,
    λ id. omega (arith, total-add (creates id) x.outgoing (object (stub_wire j true))),
    Keeps-last glib x.proxies x.outgoing j a (object (stub_wire j true))
        (λ id. (and_true (j == id), refl)) e,
  )

  pub not_gone : (n : ℕ) → n < 2 ^ 32 → (n == 1) ≡ false → ((n + 2 ^ 32 - 1) % 2 ^ 32 == 0) ≡ false
  not_gone n lt e = ground arith

  -- A release that is not the last one.
  pub release-kept :
      (a : ℕ) (o : NpObject) (x : Host Table)
      → x.objects a ≡ some o
      → o.reference_count < 2 ^ 32
      → (o.reference_count == 1) ≡ false
      → (release glib a x).1 ≡ set_object glib a (some (released glib o)) x
  unfolding release with_object
  release-kept a o x e lt one =
      ap
        (λ (v : Option NpObject).
          (elim v as (λ _. Result (Unit {0}) × Host Table) [
            | none ↦ (abort, x)
            | some p ↦ outcome p ((released glib p).reference_count == 0)
          ]).1)
        e
      ∙ ap (λ b. (outcome o b).1) (not_gone _ lt one)
    where
      outcome : NpObject → Bool → Result (Unit {0}) × Host Table
      outcome p b =
          if b
          then (ok tt, deallocate_object glib a p.kind x)
          else (ok tt, set_object glib a (some (released glib p)) x)

  pub maybe-Quiet :
      (b : Bool) (a : ℕ) (u : Unit {0}) (x x' : Host Table)
      → Linked glib x
      → (if b then release glib a else return tt) x ≡ (ok u, x')
      → Quiet glib x x'
  unfolding return
  maybe-Quiet true a u x x' l e =
      subst (λ z. Quiet glib x z) (ap (λ p. p.1) e) (release-Quiet glib a x l)
  maybe-Quiet false a u x x' l e =
      subst (λ z. Quiet glib x z) (ap (λ p. p.1) e) (Quiet-refl glib x l)

  -- After a successful call, what it has delivered is sent.
  abbrev pub Sends : Host Table → Result Wire × Host Table → Type 0
  Sends y p =
      (w : Wire) (x' : Host Table)
      → p ≡ (ok w, x')
      → Sound glib nothing nothing (say glib (object w) x') y

  pub Sends-ok :
      (w : Wire) (x y : Host Table)
      → Sound glib nothing nothing (say glib (object w) x) y
      → Sends y (ok w, x)
  Sends-ok w x y sound v x' e =
      let same : w ≡ v = cc in
      subst (λ z. Sound glib nothing nothing (say glib (object v) z) y) (ap (λ p. p.1) e)
        (subst (λ z. Sound glib nothing nothing (say glib (object z) x) y) same sound)

  module _ (owner_id : ℕ → ℕ) where
    pub told :
        (a id : ℕ) (x y : Host Table)
        → Sound glib (λ i. one_if (id == i)) nothing x y
        → (no_id : Bool) → Sends y (own_wire glib owner_id a id no_id x)
    unfolding creates names return halt
    told a id x y sound true w x' e = cc
    told a id x y sound false w x' e =
        Sends-ok
          (record { type = sender_owned; plugin = owner_id a; id = id; release_stub = false }) x y
          (say-Sound glib _ _ x y (λ i. (refl, refl)) sound) w x' e

    pub own-Sound :
        (pass_ref : Bool) (a : ℕ) (x y : Host Table)
        → x.next_id + 1 < 2 ^ 32
        → Sound glib nothing nothing x y
        → Sends y (export_own glib owner_id pass_ref a x)
    unfolding export_own creates names return
    own-Sound pass_ref a x y lt sound w x' e =
        let (id, x1, made, rest) = bind_ok (create_stub glib a) _ x x' w e in
        let waiting = create-Sound a id x x1 y lt sound made in
        let (u, x2, maybe, last) =
          bind_ok (if pass_ref then release glib a else return tt) _ x1 x' w rest in
        let sound' =
          Quiet-Sound glib _ nothing x1 x2 y (maybe-Quiet pass_ref a u x1 x2 (waiting.0) maybe)
            waiting in
        told a id x2 y sound' (id == 0) w x' last

    pub proxy-Sends :
        (pass_ref one : Bool) (a j : ℕ) (v : Bool) (o : NpObject) (x y : Host Table)
        → x.objects a ≡ some o
        → o.reference_count < 2 ^ 32
        → (o.reference_count == 1) ≡ one
        → lookup j x.proxies ≡ some a
        → Sound glib nothing nothing x y
        → Sends y (
            (if pass_ref
              then (if one
                  then (ok (stub_wire j true), destroy_proxy glib a j v false x)
                  else (release glib a >> return (stub_wire j false)) x)
              else (ok (stub_wire j false), x)))
    unfolding return
    proxy-Sends false one a j v o x y at lt e k sound w x' q =
        Sends-ok (stub_wire j false) x y
          (Quiet-Sound glib _ _ x _ y (Quiet-named x a j k (sound.0)) sound) w x' q
    proxy-Sends true true a j v o x y at lt e k sound w x' q =
        Sends-ok (stub_wire j true) _ y
          (Quiet-Sound glib _ _ x _ y (Quiet-last x a j v k (sound.0)) sound) w x' q
    proxy-Sends true false a j v o x y at lt e k sound w x' q =
        let (u, x1, done, last) = bind_ok (release glib a) _ x x' w q in
        let quiet =
          Quiet-put glib x a (released glib o) (reduced glib _, (sound.0 a o at).1) (sound.0) in
        let same : set_object glib a (some (released glib o)) x ≡ x1 =
          sym (release-kept a o x at lt e) ∙ ap (λ p. p.1) done in
        let released-Sound =
          Quiet-Sound glib _ _ _ _ y (Quiet-trans glib x _ _ quiet (Quiet-named _ a j k (quiet.0)))
            sound in
        Sends-ok (stub_wire j false) x1 y
          (subst (λ z. Sound glib nothing nothing (say glib (object (stub_wire j false)) z) y) same
            released-Sound)
          w x' last

    -- do_send_NPObject_helper, whatever object it sends
    pub export-Sound :
        (pass_ref : Bool) (target : Option ℕ) (x y : Host Table)
        → x.next_id + 1 < 2 ^ 32
        → Sound glib nothing nothing x y
        → Sends y (export_object glib owner_id pass_ref target x)
    unfolding export_object with_object export_proxy creates names return
    export-Sound pass_ref none x y lt sound =
        Sends-ok null_wire x y
          (say-Sound glib (object null_wire) nothing x y (λ i. (refl, refl)) sound)
    export-Sound pass_ref (some a) x y lt sound = go (x.objects a) refl
      where
        by_kind :
            (k : Kind) (o : NpObject)
            → x.objects a ≡ some o
            → o.kind ≡ k
            → Sends y (export_kind glib owner_id pass_ref a k o.reference_count x)
        by_kind own o at e = own-Sound pass_ref a x y lt sound
        by_kind (proxy j v) o at e = by_id (j == 0)
          where
            by_id :
                (b : Bool)
                → Sends y (
                    (if b
                        then export_own glib owner_id pass_ref a
                        else export_proxy glib owner_id pass_ref a j v o.reference_count)
                      x)
            by_id true = own-Sound pass_ref a x y lt sound
            by_id false =
                proxy-Sends pass_ref _ a j v o x y at ((sound.0 a o at).0) refl
                  (((sound.0 a o at).1 j v e).1) sound

        go :
            (t : Option NpObject)
            → x.objects a ≡ t
            → Sends y (elim t as (λ _. Result Wire × Host Table) [
              | none ↦ (abort, x)
              | some o ↦ export_kind glib owner_id pass_ref a o.kind o.reference_count x
            ])
        go none e = λ w x1 q. cc
        go (some o) e = by_kind o.kind o e refl
