-- ===== src/Rpc/Action.antt =====
-- Calls that change a state and may fail: `if ((error = f(…)) < 0) return error;` is one bind.
-- What a failed call has already done to the state stays done.
use mathlib.Core.Path.{◌≡◌, refl, ap, fun_ext}
use nspluginwrapper.Rpc.Error.{Error, Result, ok, err, abort}

abbrev pub Action {ℓ} : Type ℓ → Type ℓ → Type ℓ
Action S A = S → Result A × S

module _ {ℓ} {S A : Type ℓ} where
  unfoldable pub return : A → Action S A
  return a s = (ok a, s)

  unfoldable pub fail : Error → Action S A
  fail e s = (err e, s)

  -- A failed `assert`, or `abort()`.
  unfoldable pub halt : Action S A
  halt s = (abort, s)

module _ {ℓ} {S A B : Type ℓ} where
  abbrev pub continue : Result A → (A → Action S B) → Action S B
  continue (ok a) f s = f a s
  continue (err e) f s = (err e, s)
  continue abort f s = (abort, s)

  infixl 10 ◌>>=◌ ◌>>◌
  unfoldable pub ◌>>=◌ : Action S A → (A → Action S B) → Action S B
  unfolding return fail halt
  ◌>>=◌ m f s = let (r, s') = m s in continue r f s'

  abbrev pub ◌>>◌ : Action S A → Action S B → Action S B
  m >> n = m >>= λ _. n

module _ {ℓ} {S A B C : Type ℓ} where
  continue_assoc :
      (r : Result A) (f : A → Action S B) (g : B → Action S C) (s : S)
      → (continue r f >>= g) s ≡ continue r (λ a. f a >>= g) s
  unfolding ◌>>=◌
  continue_assoc (ok a) f g s = refl
  continue_assoc (err e) f g s = refl
  continue_assoc abort f g s = refl

  pub bind_assoc :
      (m : Action S A) (f : A → Action S B) (g : B → Action S C)
      → (m >>= f >>= g) ≡ (m >>= λ a. f a >>= g)
  unfolding ◌>>=◌
  bind_assoc m f g = fun_ext λ s. let (r, s') = m s in continue_assoc r f g s'

module _ {ℓ} {S A B : Type ℓ} where
  continue_cong :
      (r : Result A) (s' : S) (f g : A → Action S B)
      → ((a : A) → r ≡ ok a → f a s' ≡ g a s')
      → continue r f s' ≡ continue r g s'
  continue_cong (ok a) s' f g h = h a refl
  continue_cong (err e) s' f g h = refl
  continue_cong abort s' f g h = refl

  -- Two continuations that agree on what the first call delivers.
  pub bind_cong :
      (m : Action S A) (f g : A → Action S B) (s : S)
      → ((a : A) (s' : S) → m s ≡ (ok a, s') → f a s' ≡ g a s')
      → (m >>= f) s ≡ (m >>= g) s
  unfolding ◌>>=◌
  bind_cong m f g s h =
      continue_cong (m s).0 (m s).1 f g (λ a e. h a (m s).1 (ap (λ r. (r, (m s).1)) e))

  continue_ok :
      (r : Result A) (s' s'' : S) (f : A → Action S B) (b : B)
      → continue r f s' ≡ (ok b, s'')
      → (a : A) × (r ≡ ok a) × (f a s' ≡ (ok b, s''))
  continue_ok (ok a) s' s'' f b e = (a, refl, e)
  continue_ok (err x) s' s'' f b e = cc
  continue_ok abort s' s'' f b e = cc

  -- Where two calls in a row succeed, each of them does.
  pub bind_ok :
      (m : Action S A) (f : A → Action S B) (s s'' : S) (b : B)
      → (m >>= f) s ≡ (ok b, s'')
      → (a : A) × (s' : S) × (m s ≡ (ok a, s')) × (f a s' ≡ (ok b, s''))
  unfolding ◌>>=◌
  bind_ok m f s s'' b e =
      let (a, p, q) = continue_ok (m s).0 (m s).1 s'' f b e in
      (a, (m s).1, ap (λ r. (r, (m s).1)) p, q)

  -- Two first calls that agree at a state.
  pub bind_first :
      (m n : Action S A) (f : A → Action S B) (s : S) → m s ≡ n s → (m >>= f) s ≡ (n >>= f) s
  unfolding ◌>>=◌
  bind_first m n f s e = ap (λ (p : Result A × S). continue p.0 f p.1) e
