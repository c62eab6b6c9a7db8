-- ===== src/Objects/Count.antt =====
-- How often a process and its messages stand for a stub, and the operations on objects that leave
-- these numbers as they are.
use nspluginwrapper.Prelude.{
  ℕ, ◌+◌, ◌<◌, ◌≤◌, ◌-◌, ◌%◌, ◌^◌, ◌==◌, Bool, true, if◌then◌else◌, List, [], ◌∷◌, ◌++◌, Option,
  none, some, ◌≡◌, refl, sym, ap, ◌∙◌, subst, ◌⊎◌, inl, inr, arith, Bool-cases, ◌≢◌,
}
use nspluginwrapper.Glib.{HashTable}
use nspluginwrapper.Objects.Host.{
  proxy, NpObject, Mention, deallocate, Host, put_object, set_object, destroy_proxy,
}
use nspluginwrapper.Objects.Queue.{
  one_if, creates, names, frees, frees-le, total, total-add, Ordered, Ordered-other, Ordered-last,
}

abbrev pub there : Option ℕ → ℕ
there none = 0
there (some a) = 1

module _ (glib : HashTable) where
  open glib use {Table, insert, remove, lookup, lookup-insert, lookup-remove}

  -- Whether the process has a stub of this id.
  abbrev pub stub : ℕ → Host Table → ℕ
  stub id h = there (lookup id h.stubs)

  -- How many proxies are to be made of the stub.
  abbrev pub created : ℕ → Host Table → ℕ
  created id h = total (creates id) h.outgoing

  -- How often the process, as the holder of a proxy, and what it has sent keep the stub.
  abbrev pub held : ℕ → Table → List Mention → ℕ
  held id t q = there (lookup id t) + total (frees id) q

  abbrev pub Good : Table → ℕ → NpObject → Type 0
  Good t a o =
      o.reference_count < 2 ^ 32
      × ((j : ℕ) (v : Bool) → o.kind ≡ proxy j v → v ≡ true × lookup j t ≡ some a)

  -- Each proxy among the objects is valid and the one that `g_proxies` knows by its id.
  abbrev pub Linked : Host Table → Type 0
  Linked h = (a : ℕ) (o : NpObject) → h.objects a ≡ some o → Good h.proxies a o

  -- The process keeps a stub of the other one at most once, names it only while it does, and not
  -- after it has let it go.
  abbrev pub Holder : ℕ → Table → List Mention → Type 0
  Holder id t q = held id t q ≤ 1 × Ordered id q × (total (names id) q ≡ 0 ⊎ held id t q ≡ 1)

  -- What is kept of the stubs of the other process stays.
  abbrev pub Keeps : Table → List Mention → Table → List Mention → Type 0
  Keeps t q t' q' = (id : ℕ) → Holder id t q → Holder id t' q' × held id t' q' ≡ held id t q

  -- The stubs stay as well.
  abbrev pub Quiet : Host Table → Host Table → Type 0
  Quiet h h' =
      Linked h'
      × h'.stubs ≡ h.stubs
      × h'.next_id ≡ h.next_id
      × ((id : ℕ) → created id h' ≡ created id h)
      × Keeps h.proxies h.outgoing h'.proxies h'.outgoing

  pub put-some :
      (a : ℕ) (o p : NpObject) (f : ℕ → Option NpObject) (c : ℕ)
      → put_object a (some o) f c ≡ some p
      → (c ≡ a × o ≡ p) ⊎ (c ≢ a × f c ≡ some p)
  put-some a o p f c e = grind arith

  pub put-none :
      (a : ℕ) (p : NpObject) (f : ℕ → Option NpObject) (c : ℕ)
      → put_object a none f c ≡ some p
      → c ≢ a × f c ≡ some p
  put-none a p f c e = grind arith

  pub reduced : (n : ℕ) → n % 2 ^ 32 < 2 ^ 32
  reduced n = omega arith

  pub gone : (n : ℕ) → n < 2 ^ 32 → ((n + 2 ^ 32 - 1) % 2 ^ 32 == 0) ≡ true → n ≡ 1
  gone n l e = ground arith

  pub there-remove :
      (id j : ℕ) (t : Table)
      → there (lookup id (remove j t)) ≡ (if j == id then 0 else there (lookup id t))
  there-remove id j t = grind (arith, lookup-remove j id t)

  pub there-insert :
      (id j a : ℕ) (t : Table)
      → there (lookup id (insert j a t)) ≡ (if j == id then 1 else there (lookup id t))
  there-insert id j a t = grind (arith, lookup-insert j id a t)

  pub held-last :
      (t : Table) (q : List Mention) (j a : ℕ) (m : Mention) (id : ℕ)
      → frees id m ≡ one_if (j == id)
      → lookup j t ≡ some a
      → held id (remove j t) (q ++ m ∷ []) ≡ held id t q
  held-last t q j a m id f e = grind (arith, there-remove id j t, total-add (frees id) q m)

  pub there-one :
      (t : Table) (j a id : ℕ) → (j == id) ≡ true → lookup j t ≡ some a → there (lookup id t) ≡ 1
  there-one t j a id y e = grind arith

  pub names-last :
      (t : Table) (q : List Mention) (m : Mention) (id : ℕ) (t' : Table)
      → names id m ≡ 0
      → held id t' (q ++ m ∷ []) ≡ held id t q
      → total (names id) q ≡ 0 ⊎ held id t q ≡ 1
      → total (names id) (q ++ m ∷ []) ≡ 0 ⊎ held id t' (q ++ m ∷ []) ≡ 1
  names-last t q m id t' u e (inl n) = inl (omega (arith, total-add (names id) q m, u, n))
  names-last t q m id t' u e (inr n) = inr (e ∙ n)

  -- The last message about a stub takes the place of the proxy.
  pub Keeps-last :
      (t : Table) (q : List Mention) (j a : ℕ) (m : Mention)
      → ((id : ℕ) → frees id m ≡ one_if (j == id) × names id m ≡ one_if (j == id))
      → lookup j t ≡ some a
      → Keeps t q (remove j t) (q ++ m ∷ [])
  Keeps-last t q j a m f e id (le, o, n) =
      let same = held-last t q j a m id ((f id).0) e in
      elim (Bool-cases (j == id)) [
        | inl same_id ↦ (
          let one = there-one t j a id same_id e in
              (
                omega (arith, same, le),
                Ordered-last id q m (omega (arith, one, le)) o,
                inr (omega (arith, same, one, le)),
              ),
          same,
        )
        | inr other ↦ (
          let unnamed = (f id).1 ∙ ap one_if other in
              (
                omega (arith, same, le),
                Ordered-other id q m unnamed o,
                names-last t q m id (remove j t) unnamed same n,
              ),
          same,
        )
      ]

  -- A message that names no stub changes nothing.
  pub Keeps-other :
      (t : Table) (q : List Mention) (m : Mention)
      → ((id : ℕ) → names id m ≡ 0)
      → Keeps t q t (q ++ m ∷ [])
  Keeps-other t q m u id (le, o, n) =
      let same : held id t (q ++ m ∷ []) ≡ held id t q =
        omega (arith, total-add (frees id) q m, frees-le id m, u id) in
      (
        (
          omega (arith, same, le),
          Ordered-other id q m (u id) o,
          names-last t q m id t (u id) same n,
        ),
        same,
      )

  -- A message that names the stub of a proxy and leaves it.
  pub Keeps-named :
      (t : Table) (q : List Mention) (j a : ℕ) (m : Mention)
      → ((id : ℕ) → frees id m ≡ 0 × names id m ≡ one_if (j == id))
      → lookup j t ≡ some a
      → Keeps t q t (q ++ m ∷ [])
  Keeps-named t q j a m f e id (le, o, n) =
      let same : held id t (q ++ m ∷ []) ≡ held id t q =
        omega (arith, total-add (frees id) q m, (f id).0) in
      elim (Bool-cases (j == id)) [
        | inl same_id ↦
            (let one = there-one t j a id same_id e in
              (
                (
                  omega (arith, same, le),
                  Ordered-last id q m (omega (arith, one, le)) o,
                  inr (omega (arith, same, one, le)),
                ),
                same,
              ))
        | inr other ↦
            (let unnamed = (f id).1 ∙ ap one_if other in
              (
                (
                  omega (arith, same, le),
                  Ordered-other id q m unnamed o,
                  names-last t q m id t unnamed same n,
                ),
                same,
              ))
      ]

  pub Quiet-refl : (h : Host Table) → Linked h → Quiet h h
  Quiet-refl h l = (l, refl, refl, λ id. refl, λ id o. (o, refl))

  -- An object put in the place of another of its kind, or of none when it is the process's own.
  pub Quiet-put :
      (h : Host Table) (a : ℕ) (o : NpObject)
      → Good h.proxies a o
      → Linked h
      → Quiet h (set_object glib a (some o) h)
  Quiet-put h a o g l = (linked, refl, refl, λ id. refl, λ id held. (held, refl))
    where
      linked : Linked (set_object glib a (some o) h)
      linked c p e = elim (put-some a o p h.objects c e) [
        | inl (same, eq) ↦
            subst (λ x. Good h.proxies x p) (sym same) (subst (λ x. Good h.proxies a x) eq g)
        | inr (other, old) ↦ l c p old
      ]

  -- A process lets its own object go.
  pub Quiet-none : (h : Host Table) (a : ℕ) → Linked h → Quiet h (set_object glib a none h)
  Quiet-none h a l =
      (λ c p e. l c p ((put-none a p h.objects c e).1), refl, refl, λ id. refl, λ id o. (o, refl))

  -- What stays linked when the proxy at `a` goes.
  pub Good-remove :
      (t : Table) (a j c : ℕ) (o : NpObject)
      → lookup j t ≡ some a
      → c ≢ a
      → Good t c o
      → Good (remove j t) c o
  Good-remove t a j c o e ne (lt, k) = (lt, λ i v q. ((k i v q).0, kept i ((k i v q).1)))
    where
      kept : (i : ℕ) → lookup i t ≡ some c → lookup i (remove j t) ≡ some c
      kept i at = grind (arith, lookup-remove j i t)

  -- It lets a proxy go and tells the other process.
  pub Quiet-proxy :
      (h : Host Table) (a j : ℕ)
      → lookup j h.proxies ≡ some a
      → Linked h
      → Quiet h (destroy_proxy glib a j true true h)
  unfolding destroy_proxy creates frees names
  Quiet-proxy h a j e l = (
    λ c p x.
        (let (ne, old) = put-none a p h.objects c x in
          Good-remove h.proxies a j c p e ne (l c p old)),
    refl,
    refl,
    λ id. omega (arith, total-add (creates id) h.outgoing (deallocate j)),
    Keeps-last h.proxies h.outgoing j a (deallocate j) (λ id. (refl, refl)) e,
  )
