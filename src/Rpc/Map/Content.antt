-- ===== src/Rpc/Map/Content.antt =====
-- The map of src/rpc.c as a function from keys to values.
use nspluginwrapper.Prelude.{
  ℕ, zero, suc, ◌<◌, ◌≤◌, ℤ, ◌==ℤ◌, ==ℤ_iff, Bool, true, false, if◌then◌else◌, Bool-cases, inl, inr,
  List, [], ◌∷◌, ◌++◌, length, All, Option, none, some, ◌≡◌, refl, ◌∙◌, subst, arith,
}
use nspluginwrapper.Rpc.Map.{
  Entry, find_entry, next_index, modify_at, value_at, is_null, override, store,
}

-- One round of the loop, read backwards.
round_zero : (b : Bool) (o : Option ℕ) → (if b then some 0 else next_index o) ≡ some 0 → b ≡ true
round_zero true o h = refl
round_zero false none h = cc
round_zero false (some j) h = absurd (ground arith)

pub round_suc :
    (b : Bool) (o : Option ℕ) (i : ℕ)
    → (if b then some 0 else next_index o) ≡ some (suc i)
    → (b ≡ false) × (o ≡ some i)
round_suc true o i h = absurd (ground arith)
round_suc false none i h = cc
round_suc false (some j) i h = (refl, ground arith)

round_none :
    (b : Bool) (o : Option ℕ)
    → (if b then some 0 else next_index o) ≡ none
    → (b ≡ false) × (o ≡ none)
round_none true o h = cc
round_none false none h = (refl, refl)
round_none false (some j) h = cc

-- Two keys of which one is a third: the updates do not meet.
keys_differ : (a b c : ℤ) → (a ==ℤ b) ≡ false → (b ==ℤ c) ≡ true → (a ==ℤ c) ≡ false
keys_differ a b c h k = let e : b ≡ c = (==ℤ_iff b c).0 k in subst (λ x. (a ==ℤ x) ≡ false) e h

module _ {V : Type 0} where
  -- The value of the first of `n` entries with a key.
  unfoldable pub value_of : ℤ → ℕ → List (Entry V) → Option V
  value_of key zero es = none
  value_of key (suc n) [] = none
  value_of key (suc n) (e ∷ es) =
      let rest = value_of key n es in if e.key ==ℤ key then e.value else rest

  -- `n` entries have a value, and those behind them have none.
  abbrev pub IsFilled : ℕ → List (Entry V) → Type 0
  IsFilled zero es = All (λ e. is_null e.value ≡ true) es
  IsFilled (suc n) [] = ⊥
  IsFilled (suc n) (e ∷ es) = (is_null e.value ≡ false) × IsFilled n es

  abbrev pub value_in : Option ℕ → List (Entry V) → Option V
  value_in none es = none
  value_in (some i) es = value_at i es

  value_in_next :
      (o : Option ℕ) (e : Entry V) (es : List (Entry V))
      → value_in (next_index o) (e ∷ es) ≡ value_in o es
  unfolding value_at
  value_in_next none e es = refl
  value_in_next (some i) e es = refl

  -- What the loop finds is the first entry with the key.
  pub value_in-find_entry :
      (key : ℤ) (n : ℕ) (es : List (Entry V))
      → value_in (find_entry key n es) es ≡ value_of key n es
  unfolding find_entry value_of value_at
  value_in-find_entry key zero es = refl
  value_in-find_entry key (suc n) [] = refl
  value_in-find_entry key (suc n) (e ∷ es) = elim (Bool-cases (e.key ==ℤ key)) [
    | inl h ↦ rw h refl
    | inr h ↦ rw h (value_in_next (find_entry key n es) e es ∙ value_in-find_entry key n es)
  ]

  -- A change of an entry that keeps its key and its value.
  pub value_of-modify_at :
      (f : Entry V → Entry V)
      → ((e : Entry V) → (f e).key ≡ e.key)
      → ((e : Entry V) → (f e).value ≡ e.value)
      → (key : ℤ) (n i : ℕ) (es : List (Entry V))
      → value_of key n (modify_at i f es) ≡ value_of key n es
  unfolding value_of modify_at
  value_of-modify_at f hk hv key zero i es = refl
  value_of-modify_at f hk hv key (suc n) i [] = refl
  value_of-modify_at f hk hv key (suc n) zero (e ∷ es) = rw (hk, hv) refl
  value_of-modify_at f hk hv key (suc n) (suc i) (e ∷ es) =
      rw (value_of-modify_at f hk hv key n i es) refl

  -- The entry that was found gets the value.
  pub value_of-override :
      (key key' : ℤ) (v : V) (n i : ℕ) (es : List (Entry V))
      → find_entry key n es ≡ some i
      → value_of key' n (modify_at i (override v) es)
        ≡ (if key ==ℤ key' then some v else value_of key' n es)
  unfolding value_of modify_at find_entry
  value_of-override key key' v zero i es h = cc
  value_of-override key key' v (suc n) i [] h = cc
  value_of-override key key' v (suc n) zero (e ∷ es) h =
      let q : e.key ≡ key =
        (==ℤ_iff e.key key).0 (round_zero (e.key ==ℤ key) (find_entry key n es) h) in
      rw q (elim (Bool-cases (key ==ℤ key')) [ inl r ↦ rw r refl | inr r ↦ rw r refl ])
  value_of-override key key' v (suc n) (suc i) (e ∷ es) h =
      let (p, q) = round_suc (e.key ==ℤ key) (find_entry key n es) i h in
      rw (value_of-override key key' v n i es q) (elim (Bool-cases (key ==ℤ key')) [
        | inl r ↦ let d = keys_differ e.key key key' p r in rw (r, d) refl
        | inr r ↦ rw r refl
      ])

  -- A key that was not found is stored behind the last entry.
  pub value_of-store :
      (key key' : ℤ) (v : V) (n : ℕ) (es : List (Entry V))
      → find_entry key n es ≡ none
      → n < length es
      → value_of key' (suc n) (modify_at n (store key v) es)
        ≡ (if key ==ℤ key' then some v else value_of key' n es)
  unfolding value_of modify_at find_entry
  value_of-store key key' v n [] h k = absurd (omega arith)
  value_of-store key key' v zero (e ∷ es) h k = refl
  value_of-store key key' v (suc n) (e ∷ es) h k =
      let (p, q) = round_none (e.key ==ℤ key) (find_entry key n es) h in
      rw (value_of-store key key' v n es q (omega arith)) (elim (Bool-cases (key ==ℤ key')) [
        | inl r ↦ let d = keys_differ e.key key key' p r in rw (r, d) refl
        | inr r ↦ rw r refl
      ])

  -- The entries that are not used do not matter.
  pub value_of-append :
      (key : ℤ) (n : ℕ) (es ds : List (Entry V))
      → n ≤ length es
      → (value_of key n (es ++ ds) ≡ value_of key n es)
        × (find_entry key n (es ++ ds) ≡ find_entry key n es)
  unfolding value_of find_entry
  value_of-append key zero es ds h = (refl, refl)
  value_of-append key (suc n) [] ds h = absurd (omega arith)
  value_of-append key (suc n) (e ∷ es) ds h =
      let (p, q) = value_of-append key n es ds (omega arith) in (rw p refl, rw q refl)
