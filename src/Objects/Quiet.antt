-- ===== src/Objects/Quiet.antt =====
-- The changes of reference counts keep what the two processes know of each other's objects.
use nspluginwrapper.Prelude.{
  ℕ, ◌==◌, Bool, true, false, if◌then◌else◌, Option, none, some, ◌≡◌, refl, sym, ◌∙◌, subst,
}
use nspluginwrapper.Rpc.Error.{Result, ok, abort}
use nspluginwrapper.Glib.{HashTable}
use nspluginwrapper.Objects.Host.{
  Kind, own, proxy, NpObject, Host, Process, set_object, with_object, retained, retain, released,
  deallocate_object, release,
}
use nspluginwrapper.Objects.Count.{
  Linked, Quiet, Quiet-refl, Quiet-put, Quiet-none, Quiet-proxy, reduced,
}

module _ (glib : HashTable) where
  open glib use {Table, insert, remove, lookup}

  pub Quiet-with :
      {A : Type 0} (a : ℕ) (f : NpObject → Process glib A) (h : Host Table)
      → Linked glib h
      → ((o : NpObject) → h.objects a ≡ some o → Quiet glib h ((f o h).1))
      → Quiet glib h ((with_object glib a f h).1)
  unfolding with_object
  Quiet-with {A} a f h l k = go (h.objects a) refl
    where
      go :
          (x : Option NpObject)
          → h.objects a ≡ x
          → Quiet glib h
              ((elim x as (λ _. Result A × Host Table) [ none ↦ (abort, h) | some o ↦ f o h ]).1)
      go none e = Quiet-refl glib h l
      go (some o) e = k o e

  pub retain-Quiet : (a : ℕ) (h : Host Table) → Linked glib h → Quiet glib h ((retain glib a h).1)
  unfolding retain
  retain-Quiet a h l =
      Quiet-with a (λ o h. (ok tt, set_object glib a (some (retained glib o)) h)) h l
        λ o e. Quiet-put glib h a (retained glib o) (reduced glib _, (l a o e).1) l

  pub deallocate-Quiet :
      (a : ℕ) (o : NpObject) (h : Host Table)
      → h.objects a ≡ some o
      → Linked glib h
      → Quiet glib h (deallocate_object glib a o.kind h)
  deallocate-Quiet a o h e l = go o.kind refl
    where
      go : (k : Kind) → o.kind ≡ k → Quiet glib h (deallocate_object glib a k h)
      go own q = Quiet-none glib h a l
      go (proxy j v) q =
          let (valid, at) = (l a o e).1 j v q in
          subst (λ x. Quiet glib h (deallocate_object glib a (proxy j x) h)) (sym valid)
            (Quiet-proxy glib h a j at l)

  pub release-Quiet : (a : ℕ) (h : Host Table) → Linked glib h → Quiet glib h ((release glib a h).1)
  unfolding release
  release-Quiet a h l =
      Quiet-with a (λ o h'. outcome o h' ((released glib o).reference_count == 0)) h l
        λ o e. go o e ((released glib o).reference_count == 0)
    where
      outcome : NpObject → Host Table → Bool → Result (Unit {0}) × Host Table
      outcome o h' b =
          if b
          then (ok tt, deallocate_object glib a o.kind h')
          else (ok tt, set_object glib a (some (released glib o)) h')

      go : (o : NpObject) → h.objects a ≡ some o → (b : Bool) → Quiet glib h ((outcome o h b).1)
      go o e true = deallocate-Quiet a o h e l
      go o e false = Quiet-put glib h a (released glib o) (reduced glib _, (l a o e).1) l

  pub Quiet-trans : (h h' h'' : Host Table) → Quiet glib h h' → Quiet glib h' h'' → Quiet glib h h''
  Quiet-trans h h' h'' (_, s, n, c, k) (l, s', n', c', k') = (
    l,
    s' ∙ s,
    n' ∙ n,
    λ id. c' id ∙ c id,
    λ id o. (let (o', e) = k id o in let (o'', e') = k' id o' in (o'', e' ∙ e)),
  )
