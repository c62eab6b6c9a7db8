-- ===== src/Objects/Queue.antt =====
-- What the messages under way say of one stub.
use nspluginwrapper.Prelude.{
  ℕ, ◌+◌, ◌≤◌, ◌==◌, ◌&&◌, Bool, true, false, List, [], ◌∷◌, ◌++◌, ◌≡◌, refl, ◌⊎◌, inl, inr, arith,
}
use nspluginwrapper.Objects.Host.{Mention, object, deallocate}
use nspluginwrapper.Objects.Exchange.{sender_owned, receiver_owned}

-- 1 for yes.
abbrev pub one_if : Bool → ℕ
one_if true = 1
one_if false = 0

-- A message of the stub's owner that makes a proxy for it.
unfoldable pub creates : ℕ → Mention → ℕ
creates id (object w) = one_if (w.type == sender_owned && w.id == id)
creates id (deallocate j) = 0

-- A message to the stub's owner that names it.
unfoldable pub names : ℕ → Mention → ℕ
names id (object w) = one_if (w.type == receiver_owned && w.id == id)
names id (deallocate j) = one_if (j == id)

-- A message to the stub's owner after which the stub goes.
unfoldable pub frees : ℕ → Mention → ℕ
frees id (object w) = one_if (w.type == receiver_owned && (w.id == id && w.release_stub))
frees id (deallocate j) = one_if (j == id)

unfoldable pub total : (Mention → ℕ) → List Mention → ℕ
total f [] = 0
total f (m ∷ q) = f m + total f q

pub total-add :
    (f : Mention → ℕ) (q : List Mention) (m : Mention) → total f (q ++ m ∷ []) ≡ total f q + f m
unfolding total
total-add f [] m = omega arith
total-add f (x ∷ q) m = omega (arith, total-add f q m)

pub frees-le : (id : ℕ) (m : Mention) → frees id m ≤ names id m
unfolding frees names
frees-le id (object w) = ground arith
frees-le id (deallocate j) = omega arith

-- No message names the stub after one that frees it.
abbrev pub Ordered : ℕ → List Mention → Type 0
Ordered id [] = Unit
Ordered id (m ∷ q) = (frees id m ≡ 0 ⊎ total (names id) q ≡ 0) × Ordered id q

-- A message that does not name the stub may come after any other.
pub Ordered-other :
    (id : ℕ) (q : List Mention) (m : Mention)
    → names id m ≡ 0
    → Ordered id q
    → Ordered id (q ++ m ∷ [])
unfolding total
Ordered-other id [] m e tt = (inr refl, tt)
Ordered-other id (x ∷ q) m e (inl f, o) = (inl f, Ordered-other id q m e o)
Ordered-other id (x ∷ q) m e (inr n, o) =
    (inr (omega (arith, total-add (names id) q m, n, e)), Ordered-other id q m e o)

-- Any message may come last when no earlier one frees the stub.
pub Ordered-last :
    (id : ℕ) (q : List Mention) (m : Mention)
    → total (frees id) q ≡ 0
    → Ordered id q
    → Ordered id (q ++ m ∷ [])
unfolding total
Ordered-last id [] m e tt = (inr refl, tt)
Ordered-last id (x ∷ q) m e (_, o) =
    (inl (omega (arith, e)), Ordered-last id q m (omega (arith, e)) o)

pub and_false : (b : Bool) → one_if (b && false) ≡ 0
and_false true = refl
and_false false = refl

pub and_true : (b : Bool) → one_if (b && true) ≡ one_if b
and_true true = refl
and_true false = refl
