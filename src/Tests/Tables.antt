-- ===== src/Tests/Tables.antt =====
-- A list of the insertions, newest first, for the hash tables of GLib whose values are structures.
use mathlib.Core.List.{Memᴰ}
use nspluginwrapper.Prelude.{
  ℕ, ◌+◌, ◌≤◌, ◌==◌, ==_iff, false, Bool-cases, if◌then◌else◌, if_both, if_true, if_false, subst,
  List, [], ◌∷◌, length, All, Option, none, some, ◌≡◌, ◌≢◌, refl, sym, ap, ◌∙◌, inl, inr, arith,
}
use nspluginwrapper.Glib.{ValueTable}

module _ (V : Type 0) where
  abbrev pub Log : Type 0
  Log = List (ℕ × V)

  unfoldable pub value_at : ℕ → Log → Option V
  value_at k [] = none
  value_at k ((j, v) ∷ t) = let later = value_at k t in if j == k then some v else later

  unfoldable pub without_key : ℕ → Log → Log
  without_key k [] = []
  without_key k ((j, v) ∷ t) =
      let later = without_key k t in if j == k then later else (j, v) ∷ later

  unfoldable pub newest : Log → Log
  unfolding without_key
  newest [] = []
  newest ((k, v) ∷ t) = (k, v) ∷ without_key k (newest t)

  length-without_key : (k : ℕ) (t : Log) → length (without_key k t) ≤ length t
  unfolding without_key
  length-without_key k [] = omega arith
  length-without_key k ((j, v) ∷ t) = let ih = length-without_key k t in grind arith

  pub value_at-empty : (k : ℕ) → value_at k [] ≡ none
  unfolding value_at
  value_at-empty k = refl

  pub newest-empty : length (newest []) ≡ 0
  unfolding newest
  newest-empty = refl

  pub value_at-insert :
      (k j : ℕ) (v : V) (t : Log)
      → value_at j ((k, v) ∷ t) ≡ (if k == j then some v else value_at j t)
  unfolding value_at
  value_at-insert k j v t = refl

  pub size-insert : (k : ℕ) (v : V) (t : Log) → length (newest ((k, v) ∷ t)) ≤ length (newest t) + 1
  unfolding newest
  size-insert k v t = omega (arith, length-without_key k (newest t))

  abbrev Latest : ℕ → V → Log → ℕ × V → Type 0
  Latest k v t e = value_at e.0 ((k, v) ∷ t) ≡ some e.1

  keep-others :
      (k : ℕ) (v : V) (t es : Log)
      → All (λ e. value_at e.0 t ≡ some e.1) es
      → All (Latest k v t) (without_key k es)
  unfolding without_key value_at
  keep-others k v t [] h = tt
  keep-others k v t ((j, w) ∷ es) h = elim (Bool-cases (j == k)) [
    | inl same ↦
        subst (All (Latest k v t)) (sym (if_true (j == k) (without_key k es) _ same))
          (keep-others k v t es h.1)
    | inr other ↦
        let flip : (k == j) ≡ false = ground arith in
        subst (All (Latest k v t)) (sym (if_false (j == k) _ ((j, w) ∷ without_key k es) other))
          (if_false (k == j) (some v) (value_at j t) flip ∙ h.0, keep-others k v t es h.1)
  ]

  pub value_at-newest : (t : Log) → All (λ e. value_at e.0 t ≡ some e.1) (newest t)
  unfolding newest value_at
  value_at-newest [] = tt
  value_at-newest ((k, v) ∷ t) = (
    if_true (k == k) (some v) (value_at k t) ((==_iff k k).1 refl),
    keep-others k v t (newest t) (value_at-newest t),
  )

  member-without_key :
      (k j : ℕ) (v : V) (es : Log) → Memᴰ (k, v) es → j ≢ k → Memᴰ (k, v) (without_key j es)
  unfolding without_key
  member-without_key k j v [] m n = elim m [ ]
  member-without_key k j v ((i, w) ∷ es) (Memᴰ.head e) n =
      let key : k ≡ i = ap (λ p. p.0) e in
      let other : (i == j) ≡ false = grind arith in
      subst (Memᴰ (k, v))
        (sym (if_false (i == j) (without_key j es) ((i, w) ∷ without_key j es) other)) (Memᴰ.head e)
  member-without_key k j v ((i, w) ∷ es) (Memᴰ.tail m) n =
      let later = member-without_key k j v es m n in
      if_both (Memᴰ (k, v)) (i == j) (without_key j es) ((i, w) ∷ without_key j es) later
        (Memᴰ.tail later)

  pub newest-value_at : (k : ℕ) (v : V) (t : Log) → value_at k t ≡ some v → Memᴰ (k, v) (newest t)
  unfolding newest value_at
  newest-value_at k v [] e = cc
  newest-value_at k v ((j, w) ∷ t) e = elim (Bool-cases (j == k)) [
    | inl same ↦
        let key : j ≡ k = (==_iff j k).0 same in
        let found : some w ≡ some v = sym (if_true (j == k) (some w) (value_at k t) same) ∙ e in
        let value : w ≡ v = cc in let entry : (k, v) ≡ (j, w) = cc in Memᴰ.head entry
    | inr other ↦
        let apart : j ≢ k = λ z. ground arith in
        Memᴰ.tail (
          member-without_key k j v (newest t)
            (newest-value_at k v t (sym (if_false (j == k) (some w) (value_at k t) other) ∙ e))
            apart)
  ]

  abbrev pub tables : ValueTable V
  tables = record {
    Table = Log;
    empty = [];
    insert = λ k v t. (k, v) ∷ t;
    lookup = value_at;
    size = λ t. length (newest t);
    entries = newest;
    lookup-empty = value_at-empty;
    lookup-insert = value_at-insert;
    size-empty = newest-empty;
    size-insert = size-insert;
    lookup-entries = value_at-newest;
    entries-lookup = newest-value_at;
  }
