-- ===== src/Tests/Glib.antt =====
-- An association list for the hash tables of GLib.
use nspluginwrapper.Prelude.{
  ℕ, ◌==◌, Bool, true, false, if◌then◌else◌, List, [], ◌∷◌, Option, none, some, ◌≡◌, ◌≢◌, refl, ap,
  arith,
}
use nspluginwrapper.Glib.{HashTable}

abbrev pub Pairs : Type 0
Pairs = List (ℕ × ℕ)

unfoldable pub find : ℕ → Pairs → Option ℕ
find k [] = none
find k ((j, v) ∷ t) = let rest = find k t in if j == k then some v else rest

unfoldable pub without : ℕ → Pairs → Pairs
without k [] = []
without k ((j, v) ∷ t) = let rest = without k t in if j == k then rest else (j, v) ∷ rest

unfoldable pub holds : ℕ → Option ℕ → Bool
holds v none = false
holds v (some u) = u == v

-- A key of `t` that has this value in `all`.
unfoldable pub key_in : ℕ → Pairs → Pairs → Option ℕ
key_in v all [] = none
key_in v all ((j, u) ∷ t) =
    let rest = key_in v all t in if holds v (find j all) then some j else rest

holds_iff : (v : ℕ) (o : Option ℕ) → holds v o ≡ true → o ≡ some v
unfolding holds
holds_iff v none e = cc
holds_iff v (some u) e = ap some (ground arith)

holds_not : (v : ℕ) (o : Option ℕ) → holds v o ≡ false → o ≢ some v
unfolding holds
holds_not v none e q = cc
holds_not v (some u) e q = let same : u ≡ v = cc in ground arith

pub find-empty : (k : ℕ) → find k [] ≡ none
unfolding find
find-empty k = refl

pub find-without :
    (k j : ℕ) (t : Pairs) → find j (without k t) ≡ (if k == j then none else find j t)
unfolding find without
find-without k j [] = ground arith
find-without k j ((i, v) ∷ t) = let ih = find-without k j t in grind arith

pub find-insert :
    (k j v : ℕ) (t : Pairs) → find j ((k, v) ∷ without k t) ≡ (if k == j then some v else find j t)
unfolding find
find-insert k j v t = grind (arith, find-without k j t)

pub key_in-some : (v k : ℕ) (all t : Pairs) → key_in v all t ≡ some k → find k all ≡ some v
unfolding key_in
key_in-some v k all [] e = cc
key_in-some v k all ((j, u) ∷ t) e =
    let ih = key_in-some v k all t in let h = holds_iff v (find j all) in grind arith

pub key_in-none :
    (v k w : ℕ) (all t : Pairs) → key_in v all t ≡ none → find k t ≡ some w → find k all ≢ some v
unfolding key_in find
key_in-none v k w all [] e f = cc
key_in-none v k w all ((j, u) ∷ t) e f =
    let ih = key_in-none v k w all t in let h = holds_not v (find j all) in grind arith

abbrev pub glib : HashTable
glib = record {
  Table = Pairs;
  empty = [];
  insert = λ k v t. (k, v) ∷ without k t;
  remove = without;
  lookup = find;
  find_value = λ v t. key_in v t t;
  lookup-empty = find-empty;
  lookup-insert = find-insert;
  lookup-remove = find-without;
  find_value-some = λ v k t e. key_in-some v k t t e;
  find_value-none = λ v k t e q. key_in-none v k v t t e q q;
}
