-- ===== src/Objects/Safety.antt =====
-- No process is sent an object that it does not know: the asserts on `npobject_lookup_local` hold.
use nspluginwrapper.Prelude.{
  ℕ, ◌+◌, ◌==◌, ◌≤◌, ◌&&◌, List, ◌∷◌, Option, none, some, ◌≡◌, ◌≢◌, refl, ap, subst, ◌⊎◌, inl, inr,
  arith,
}
use nspluginwrapper.Glib.{HashTable}
use nspluginwrapper.Objects.Host.{Wire, Mention, object, Host, lookup_local}
use nspluginwrapper.Objects.Exchange.{receiver_owned, sender_owned}
use nspluginwrapper.Objects.Queue.{total, names, creates, one_if}
use nspluginwrapper.Objects.Count.{there, Quiet-put}
use nspluginwrapper.Objects.Quiet.{retain-Quiet, release-Quiet}
use nspluginwrapper.Objects.Sound.{Sound, Link, nothing, taken, Quiet-Sound, there-le}
use nspluginwrapper.Objects.Receive.{handle-Sound, waiting-there}
use nspluginwrapper.Objects.Import.{import-Sound}
use nspluginwrapper.Objects.Export.{export-Sound}
use nspluginwrapper.Objects.System.{
  Turn, make, retain_object, release_object, send, receive, serve, Reachable, started, first,
  second, start_host,
}

module _ (glib : HashTable) where
  open glib use {Table, empty, lookup, lookup-empty}

  pub swap-Sound :
      (x y : Host Table) → Sound glib nothing nothing x y → Sound glib nothing nothing y x
  swap-Sound x y (lx, ly, o, h) = (ly, lx, h, o)

  pub Turn-Sound :
      (x y x' y' : Host Table)
      → Turn glib x y x' y'
      → Sound glib nothing nothing x y
      → Sound glib nothing nothing x' y'
  Turn-Sound _ _ _ _ (make a n x y lt) sound =
      Quiet-Sound glib nothing nothing x _ y (Quiet-put glib x a _ (lt, λ j v e. cc) (sound.0))
        sound
  Turn-Sound _ _ _ _ (retain_object a u x x' y e) sound =
      subst (λ z. Sound glib nothing nothing z y) (ap (λ p. p.1) e)
        (Quiet-Sound glib nothing nothing x _ y (retain-Quiet glib a x (sound.0)) sound)
  Turn-Sound _ _ _ _ (release_object a u x x' y e) sound =
      subst (λ z. Sound glib nothing nothing z y) (ap (λ p. p.1) e)
        (Quiet-Sound glib nothing nothing x _ y (release-Quiet glib a x (sound.0)) sound)
  Turn-Sound _ _ _ _ (send owner_id pass_ref target w x x' y lt e) sound =
      export-Sound glib owner_id pass_ref target x y lt sound w x' e
  Turn-Sound _ _ _ _ (receive a w rest r x x' y e q) sound =
      import-Sound glib a w rest r x x' y e sound q
  Turn-Sound _ _ _ _ (serve j rest u x x' y e q) sound =
      subst (λ z. Sound glib nothing nothing z (taken glib rest y)) (ap (λ p. p.1) q)
        (handle-Sound glib j rest x y e sound)

  pub start-Link : Link glib nothing (start_host glib) (start_host glib)
  unfolding total
  start-Link id =
      let e = ap there (lookup-empty id) in
      ((omega (arith, e), λ v. e), (omega (arith, e), tt, inl refl))

  -- In every state that the two processes reach by calls that return, with no NPClass::Invalidate
  -- and before `next_id` comes round: each proxy is valid, and the one that its process knows by its
  -- id; a process has a stub exactly for an id that was sent and not yet taken, that the other
  -- process has a proxy of, or that a message of the other process lets go, which are never two of
  -- these at once; and a message names a stub only while the sender keeps it, and before it is let
  -- go.
  pub Reachable-Sound : (x y : Host Table) → Reachable glib x y → Sound glib nothing nothing x y
  Reachable-Sound _ _ started = (λ a o e. cc, λ a o e. cc, start-Link, start-Link)
  Reachable-Sound _ _ (first x y x' y' before turn) =
      Turn-Sound x y x' y' turn (Reachable-Sound x y before)
  Reachable-Sound _ _ (second x y x' y' before turn) =
      swap-Sound y' x' (Turn-Sound y x y' x' turn (swap-Sound x y (Reachable-Sound x y before)))

  pub tagged : (t k id : ℕ) → t ≡ k → one_if (t == k && id == id) ≡ 1
  tagged t k id e = ground arith

  pub there-none : (o : Option ℕ) → there o ≡ 0 → o ≡ none
  there-none none e = refl
  there-none (some a) e = cc

  pub kept : (all n rest k : ℕ) → all ≡ n + rest → n ≡ 1 → all ≡ 0 ⊎ k ≡ 1 → 1 ≤ k + 0
  kept all n rest k a e (inl z) = omega (arith, a, e, z)
  kept all n rest k a e (inr one) = omega (arith, one)

  -- In every state that the two processes reach by calls that return, with no NPClass::Invalidate
  -- and before `next_id` comes round, the stub of an object that comes back is there: the assert of
  -- do_recv_NPObject_helper on npobject_lookup_local holds.
  pub receives_stub :
      (w : Wire) (rest : List Mention) (x y : Host Table)
      → Reachable glib x y
      → y.outgoing ≡ object w ∷ rest
      → w.type ≡ receiver_owned
      → lookup_local glib w.id x ≢ none
  unfolding total names
  receives_stub w rest x y reached e t =
      let sound = Reachable-Sound x y reached in
      waiting-there glib nothing nothing w.id x y sound (
        kept _ _ _ _ (ap (total (names w.id)) e) (tagged w.type receiver_owned w.id t)
          ((sound.2 w.id).1.2))

  -- In every state that the two processes reach by calls that return, with no NPClass::Invalidate
  -- and before `next_id` comes round, an object that the other process owns and that arrives has no
  -- proxy yet.
  pub receives_new :
      (w : Wire) (rest : List Mention) (x y : Host Table)
      → Reachable glib x y
      → y.outgoing ≡ object w ∷ rest
      → w.type ≡ sender_owned
      → lookup w.id x.proxies ≡ none
  unfolding total creates
  receives_new w rest x y reached e t =
      let sound = Reachable-Sound x y reached in
      there-none _ (
        omega (
          arith,
          (sound.3 w.id).0.0,
          ap (total (creates w.id)) e,
          tagged w.type sender_owned w.id t,
          there-le glib (lookup w.id y.stubs),
        ))
