-- ===== src/Objects/Sound.antt =====
-- What the two processes know of each other's objects: the invariant of their stubs, their proxies
-- and the messages under way.
use nspluginwrapper.Prelude.{
  ℕ, ◌+◌, ◌<◌, ◌≤◌, ◌^◌, ◌==◌, Bool, true, false, if◌then◌else◌, List, ◌∷◌, Option, none, some, ◌≡◌,
  refl, ap, ◌∙◌, subst, ◌⊎◌, inl, inr, arith,
}
use nspluginwrapper.Glib.{HashTable}
use nspluginwrapper.Objects.Host.{Mention, Host, say}
use nspluginwrapper.Objects.Queue.{one_if, creates, names, frees, total, total-add, Ordered}
use nspluginwrapper.Objects.Count.{
  there, there-remove, there-insert, stub, created, held, Linked, Holder, Quiet, Keeps-other,
}

abbrev pub nothing : ℕ → ℕ
nothing id = 0

module _ (glib : HashTable) where
  open glib use {Table, insert, remove, lookup}

  -- The owner keeps the stub for the proxies that are to be made of it, for the holder, and for
  -- `waiting` more. It has not given out an id past `next_id`, and 0 is none.
  abbrev pub Owner : ℕ → ℕ → Host Table → ℕ → Type 0
  Owner id waiting h n =
      stub glib id h ≡ created glib id h + n + waiting
      × (id ≡ 0 ⊎ h.next_id < id → stub glib id h ≡ 0)

  abbrev pub Link : (ℕ → ℕ) → Host Table → Host Table → Type 0
  Link waiting x y =
      (id : ℕ)
      → Owner id (waiting id) x (held glib id y.proxies y.outgoing)
        × Holder glib id y.proxies y.outgoing

  -- Between the steps, nothing is waiting.
  abbrev pub Sound : (ℕ → ℕ) → (ℕ → ℕ) → Host Table → Host Table → Type 0
  Sound mine yours x y = Linked glib x × Linked glib y × Link mine x y × Link yours y x

  abbrev pub owned : ℕ → Host Table → Host Table → ℕ
  owned id x y = created glib id x + held glib id y.proxies y.outgoing

  pub Link-ext :
      (p p' : ℕ → ℕ) (x y : Host Table) → ((id : ℕ) → p id ≡ p' id) → Link p x y → Link p' x y
  Link-ext p p' x y e o id =
      let ((s, u), k) = o id in ((s ∙ ap (λ w. owned id x y + w) (e id), u), k)

  pub Quiet-Sound :
      (p c : ℕ → ℕ) (x x' y : Host Table) → Quiet glib x x' → Sound p c x y → Sound p c x' y
  Quiet-Sound p c x x' y (l, s, n, made, keeps) (lx, ly, o, h) = (l, ly, owns, holds)
    where
      owns : Link p x' y
      owns id =
          let ((b, u), k) = o id in
          let stubs = ap (λ t. there (lookup id t)) s in
          ((omega (arith, stubs, made id, b), λ v. stubs ∙ u (subst (λ z. id ≡ 0 ⊎ z < id) n v)), k)

      holds : Link c y x'
      holds id =
          let ((b, u), k) = h id in let (k', e) = keeps id k in ((omega (arith, e, b), u), k')

  abbrev pub taken : List Mention → Host Table → Host Table
  taken rest y = record y { outgoing = rest }

  pub rest_named :
      (f n n' all k k' : ℕ)
      → f ≡ 0 ⊎ n' ≡ 0
      → all ≡ n + n'
      → all ≡ 0 ⊎ k ≡ 1
      → k ≡ k' + f
      → n' ≡ 0 ⊎ k' ≡ 1
  rest_named f n n' all k k' (inr z) a b c = inl z
  rest_named f n n' all k k' (inl z) a (inl e) c = inl (omega (arith, a, e))
  rest_named f n n' all k k' (inl z) a (inr e) c = inr (omega (arith, c, z, e))

  -- The next message is taken: what it frees and creates is waiting.
  pub pop-Sound :
      (m : Mention) (rest : List Mention) (x y : Host Table)
      → y.outgoing ≡ m ∷ rest
      → Sound nothing nothing x y
      → Sound (λ id. frees id m) (λ id. creates id m) x (taken rest y)
  unfolding total
  pop-Sound m rest x y e (lx, ly, o, h) = (lx, ly, owns, holds)
    where
      owns : Link (λ id. frees id m) x (taken rest y)
      owns id =
          let ((b, u), (le, ord, n)) = o id in
          let f = ap (total (frees id)) e in
          let ord' = subst (Ordered id) e ord in
          let n' = ap (total (names id)) e in
          (
            (omega (arith, b, f), u),
            (omega (arith, le, f), ord'.1, rest_named _ _ _ _ _ _ ord'.0 n' n (omega (arith, f))),
          )

      holds : Link (λ id. creates id m) (taken rest y) x
      holds id =
          let ((b, u), k) = h id in
          let made = ap (total (creates id)) e in ((omega (arith, b, made), u), k)

  pub there-le : (o : Option ℕ) → there o ≤ 1
  there-le none = omega arith
  there-le (some a) = omega arith

  pub dropped :
      (t : Bool) (old new n : ℕ)
      → new ≡ (if t then 0 else old)
      → old ≤ 1
      → old ≡ n + one_if t
      → new ≡ n
  dropped true old new n r le e = omega (arith, r, le, e)
  dropped false old new n r le e = omega (arith, r, le, e)

  pub dropped-none : (t : Bool) (old new : ℕ) → new ≡ (if t then 0 else old) → old ≡ 0 → new ≡ 0
  dropped-none true old new r e = r
  dropped-none false old new r e = r ∙ e

  pub added :
      (t : Bool) (old new n : ℕ)
      → new ≡ (if t then 1 else old)
      → (t ≡ true → old ≡ 0)
      → old ≡ n
      → new ≡ n + one_if t
  added true old new n r z e = omega (arith, r, z refl, e)
  added false old new n r z e = omega (arith, r, e)

  pub added-none :
      (t : Bool) (old new : ℕ) → new ≡ (if t then 1 else old) → t ≡ false → old ≡ 0 → new ≡ 0
  added-none true old new r f e = search
  added-none false old new r f e = r ∙ e

  pub past : (n id : ℕ) → (n + 1 == id) ≡ true → n < id
  past n id e = ground arith

  pub not_past : (n id : ℕ) → id ≡ 0 ⊎ n + 1 < id → (n + 1 == id) ≡ false
  not_past n id v = ground arith

  pub older : (n id : ℕ) → id ≡ 0 ⊎ n + 1 < id → id ≡ 0 ⊎ n < id
  older n id (inl e) = inl e
  older n id (inr l) = inr (omega (arith, l))

  -- The owner lets a stub go that one more is waiting to see gone.
  pub drop-Sound :
      (j : ℕ) (c : ℕ → ℕ) (x y : Host Table)
      → Sound (λ id. one_if (j == id)) c x y
      → Sound nothing c (record x { stubs = remove j x.stubs }) y
  drop-Sound j c x y (lx, ly, o, h) = (lx, ly, owns, h)
    where
      owns : Link nothing (record x { stubs = remove j x.stubs }) y
      owns id =
          let ((b, u), k) = o id in
          let r = there-remove glib id j x.stubs in
          let before = there-le (lookup id x.stubs) in
          (
            (
              dropped (j == id) _ _ _ r before b ∙ omega arith,
              λ v. dropped-none (j == id) _ _ r (u v),
            ),
            k,
          )

  -- The owner makes a stub, with an id that was not given out before.
  pub add-Sound :
      (a : ℕ) (x y : Host Table)
      → x.next_id + 1 < 2 ^ 32
      → Sound nothing nothing x y
      → Sound
          (λ id. one_if (x.next_id + 1 == id))
          nothing
          (record x { next_id = x.next_id + 1; stubs = insert (x.next_id + 1) a x.stubs })
          y
  add-Sound a x y lt (lx, ly, o, h) = (lx, ly, owns, h)
    where
      owns :
          Link
            (λ id. one_if (x.next_id + 1 == id))
            (record x { next_id = x.next_id + 1; stubs = insert (x.next_id + 1) a x.stubs })
            y
      owns id =
          let ((b, u), k) = o id in
          let r = there-insert glib id (x.next_id + 1) a x.stubs in
          (
            (
              added (x.next_id + 1 == id) _ _ _ r (λ t. u (inr (past x.next_id id t)))
                  (omega (arith, b)),
              λ v.
                  added-none (x.next_id + 1 == id) _ _ r (not_past x.next_id id v)
                    (u (older x.next_id id v)),
            ),
            k,
          )

  -- It tells the holder about the stub.
  pub say-Sound :
      (m : Mention) (p : ℕ → ℕ) (x y : Host Table)
      → ((id : ℕ) → creates id m ≡ p id × names id m ≡ 0)
      → Sound p nothing x y
      → Sound nothing nothing (say glib m x) y
  say-Sound m p x y f (lx, ly, o, h) = (lx, ly, owns, holds)
    where
      owns : Link nothing (say glib m x) y
      owns id =
          let ((b, u), k) = o id in
          ((omega (arith, b, total-add (creates id) x.outgoing m, (f id).0), u), k)

      holds : Link nothing y (say glib m x)
      holds id =
          let ((b, u), k) = h id in
          let (k', e) = Keeps-other glib x.proxies x.outgoing m (λ i. (f i).1) id k in
          ((omega (arith, b, e), u), k')
