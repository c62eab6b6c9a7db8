-- ===== src/Objects/Invalid.antt =====
-- A proxy that the browser has invalidated, and that is sent nevertheless.
use nspluginwrapper.Prelude.{
  ℕ, ◌==◌, true, false, if◌then◌else◌, Option, none, some, ◌≡◌, refl, ap, ◌∙◌,
}
use nspluginwrapper.Rpc.Error.{Result, ok, abort}
use nspluginwrapper.Glib.{HashTable}
use nspluginwrapper.Objects.Host.{
  proxy, NpObject, Host, set_object, say, deallocate, handle_deallocate, destroy_stub_obj,
  invalidate, invalidate_kind,
}
use nspluginwrapper.Objects.Exchange.{export_object, import_object, import_local, stub_wire}
use nspluginwrapper.Objects.Count.{Linked}
use nspluginwrapper.Objects.Quiet.{release-Quiet}
use nspluginwrapper.Objects.Home.{with_some, same, export_proxy_ok}

module _ (glib : HashTable) where
  open glib use {Table, remove, lookup, lookup-remove}

  -- After npclass_handle_Deallocate, the stub is gone.
  pub handled_gone :
      (j : ℕ) (x : Host Table)
      → Linked glib x
      → lookup j (handle_deallocate glib j x).1.stubs ≡ none
  unfolding handle_deallocate destroy_stub_obj
  handled_gone j x l = go (lookup j x.stubs) refl
    where
      go :
          (o : Option ℕ)
          → lookup j x.stubs ≡ o
          → lookup j
              (elim o as (λ _. Result (Unit {0}) × Host Table) [
                | none ↦ (ok tt, x)
                | some a ↦ destroy_stub_obj glib j a x
              ]).1.stubs
            ≡ none
      go none e = e
      go (some a) e =
          let x' : Host Table = record x { stubs = remove j x.stubs } in
          ap (λ t. lookup j t) ((release-Quiet glib a x' l).1)
          ∙ lookup-remove j j x.stubs
          ∙ ap (λ b. if b then none else lookup j x.stubs) (same glib j)

  module _ (owner_id : ℕ → ℕ) where
    -- A valid proxy is invalidated, and the other process, whose proxies are the ones it knows by their
    -- ids, serves the call that this makes: when the proxy is sent after that, the sender finds nothing
    -- wrong, and the process that receives it ends by the assert on npobject_lookup_local.
    pub invalidated_ends :
        (a b j c : ℕ) (x y : Host Table)
        → Linked glib x
        → (j == 0) ≡ false
        → y.objects a ≡ some (record { kind = proxy j true; reference_count = c })
        → (export_object glib owner_id false (some a) (invalidate glib a y).1).0
            ≡ ok (stub_wire j false)
          × (import_object glib b (stub_wire j false) (handle_deallocate glib j x).1).0 ≡ abort
    unfolding invalidate import_object
    invalidated_ends a b j c x y l n e =
        let o : NpObject = record { kind = proxy j true; reference_count = c } in
        let dead : NpObject = record { kind = proxy j false; reference_count = c } in
        let y' : Host Table = say glib (deallocate j) (set_object glib a (some dead) y) in
        let there : y'.objects a ≡ some dead =
          ap (λ t. if t then some dead else y.objects a) (same glib a) in
        let x' = (handle_deallocate glib j x).1 in
        (
          ap
                (λ (p : Result (Unit {0}) × Host Table).
                  (export_object glib owner_id false (some a) p.1).0)
                (with_some glib a o (λ p. invalidate_kind glib a p.reference_count p.kind) y e)
              ∙ ap (λ p. p.0) (export_proxy_ok glib owner_id a j c false y' n there),
          ap (λ t. (import_local glib (stub_wire j false) t x').0) (handled_gone j x l),
        )
