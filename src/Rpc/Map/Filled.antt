-- ===== src/Rpc/Map/Filled.antt =====
-- Which entries of the map of src/rpc.c are in use: the first `n_entries`.
use nspluginwrapper.Prelude.{
  ℕ, zero, suc, ◌<◌, ◌≤◌, ℤ, ◌==ℤ◌, true, List, [], ◌∷◌, ◌++◌, length, All, some, ◌≡◌, refl, arith,
}
use nspluginwrapper.Rpc.Map.{Entry, find_entry, modify_at, free_slot, is_null, override, store}
use nspluginwrapper.Rpc.Map.Content.{IsFilled, round_suc}

module _ {V : Type 0} where
  pub modify_at-length :
      (i : ℕ) (f : Entry V → Entry V) (es : List (Entry V)) → length (modify_at i f es) ≡ length es
  unfolding modify_at
  modify_at-length i f [] = refl
  modify_at-length zero f (e ∷ es) = refl
  modify_at-length (suc i) f (e ∷ es) = rw (modify_at-length i f es) refl

  -- The loop that looks for a free slot stops behind the entries in use.
  pub free_slot-IsFilled : (n : ℕ) (es : List (Entry V)) → IsFilled n es → free_slot es ≡ n
  unfolding free_slot
  free_slot-IsFilled zero [] h = refl
  free_slot-IsFilled zero (e ∷ es) (h, k) = rw h refl
  free_slot-IsFilled (suc n) (e ∷ es) (h, k) = rw (h, free_slot-IsFilled n es k) refl
  free_slot-IsFilled (suc n) [] h = absurd h

  pub IsFilled-le : (n : ℕ) (es : List (Entry V)) → IsFilled n es → n ≤ length es
  IsFilled-le zero es h = omega arith
  IsFilled-le (suc n) [] h = absurd h
  IsFilled-le (suc n) (e ∷ es) (h, k) = omega (arith, IsFilled-le n es k)

  -- A change that keeps values where they are.
  pub modify_at-IsFilled :
      (f : Entry V → Entry V)
      → ((e : Entry V) → (f e).value ≡ e.value)
      → (n i : ℕ) (es : List (Entry V)) → IsFilled n es
      → IsFilled n (modify_at i f es)
  unfolding modify_at
  modify_at-IsFilled f p n i [] h = h
  modify_at-IsFilled f p zero zero (e ∷ es) (h, k) = (rw (p e) h, k)
  modify_at-IsFilled f p zero (suc i) (e ∷ es) (h, k) = (h, modify_at-IsFilled f p zero i es k)
  modify_at-IsFilled f p (suc n) zero (e ∷ es) (h, k) = (rw (p e) h, k)
  modify_at-IsFilled f p (suc n) (suc i) (e ∷ es) (h, k) = (h, modify_at-IsFilled f p n i es k)

  pub override-IsFilled :
      (key : ℤ) (v : V) (n i : ℕ) (es : List (Entry V))
      → find_entry key n es ≡ some i
      → IsFilled n es
      → IsFilled n (modify_at i (override v) es)
  unfolding modify_at find_entry
  override-IsFilled key v zero i es p h = cc
  override-IsFilled key v (suc n) i [] p h = absurd h
  override-IsFilled key v (suc n) zero (e ∷ es) p (h, k) = (refl, k)
  override-IsFilled key v (suc n) (suc i) (e ∷ es) p (h, k) =
      let q = (round_suc (e.key ==ℤ key) (find_entry key n es) i p).1 in
      (h, override-IsFilled key v n i es q k)

  pub store-IsFilled :
      (key : ℤ) (v : V) (n : ℕ) (es : List (Entry V))
      → n < length es
      → IsFilled n es
      → IsFilled (suc n) (modify_at n (store key v) es)
  unfolding modify_at
  store-IsFilled key v n [] l h = absurd (omega arith)
  store-IsFilled key v zero (e ∷ es) l (h, k) = (refl, k)
  store-IsFilled key v (suc n) (e ∷ es) l (h, k) = (h, store-IsFilled key v n es (omega arith) k)

  pub append-IsFilled :
      (n : ℕ) (es ds : List (Entry V))
      → IsFilled n es
      → length es ≡ n
      → All (λ e. is_null e.value ≡ true) ds
      → IsFilled n (es ++ ds)
  append-IsFilled zero [] ds h l d = d
  append-IsFilled zero (e ∷ es) ds h l d = absurd (omega arith)
  append-IsFilled (suc n) [] ds h l d = absurd h
  append-IsFilled (suc n) (e ∷ es) ds (h, k) l d = (h, append-IsFilled n es ds k (omega arith) d)
