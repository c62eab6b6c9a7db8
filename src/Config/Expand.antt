-- ===== src/Config/Expand.antt =====
-- strexpand of src/npw-config.c, by which the paths of the viewers are made. Text is a list of
-- character codes, without the 0 at its end.
pub mod Template
use nspluginwrapper.Prelude.{
  ℕ, zero, suc, ◌+◌, ◌-◌, ◌==◌, leb, ◌&&◌, Bool, true, false, if◌then◌else◌, List, [], ◌∷◌, ◌++◌,
  length, Option, none, some,
}

abbrev pub Text : Type 0
Text = List ℕ

-- '%'
abbrev pub percent : ℕ
percent = 37

-- A variable, whose value may be NULL.
pub record Var : Type 0 where
  pub name : Text
  pub value : Option Text

-- What is in `dst`, however large `dst` is; -1; or the end of the process by `error`.
pub data Expansion : Type 0 where
  done : Text → Expansion
  too_long : Expansion
  exit : Expansion

-- strcmp(…) == 0
unfoldable pub same_text : Text → Text → Bool
same_text [] [] = true
same_text [] (y ∷ ys) = false
same_text (x ∷ xs) [] = false
same_text (x ∷ xs) (y ∷ ys) = x == y && same_text xs ys

-- What stands before the next '%', if there is one.
unfoldable pub name_in : Text → Option Text
name_in [] = none
name_in (c ∷ rest) =
    let found = name_in rest in
    if c == percent then some [] else elim found [ none ↦ none | some name ↦ some (c ∷ name) ]

-- The value of the first variable of this name.
unfoldable pub value_of : List Var → Text → Option Text
unfolding same_text
value_of [] name = none
value_of (v ∷ vars) name =
    let rest = value_of vars name in if same_text v.name name then v.value else rest

module _ (dstlen : ℕ) (vars : List Var) where
  -- A '%' with its name; `go` continues after so many characters, with the text so far.
  abbrev pub expand_name : Text → Option Text → (ℕ → Text → Expansion) → Expansion
  expand_name out none go = exit
  expand_name out (some name) go =
      if leb 15 (length name)
      then exit
      else elim (value_of vars name) [ none ↦ exit | some v ↦ go (length name + 1) (out ++ v) ]

  -- The loop: `k` characters are to go, of which the first `skip` belong to the last name.
  unfoldable pub expand : ℕ → ℕ → Text → Text → Expansion
  unfolding name_in value_of
  expand zero skip rest out = done out
  expand (suc k) skip [] out = done out
  expand (suc k) (suc skip) (c ∷ rest) out = expand k skip rest out
  expand (suc k) zero (c ∷ rest) out =
      let next = expand k 0 rest (out ++ c ∷ []) in
      if c == percent
      then expand_name out (name_in rest) (λ skip out'. expand k skip rest out')
      else if leb (dstlen - 1) (length out + 1)
      then too_long
      else next

  -- `srclen` of 0 is for all of `src`.
  unfoldable pub strexpand : Option Text → ℕ → Expansion
  unfolding expand
  strexpand none srclen = too_long
  strexpand (some src) srclen =
      if leb 1 dstlen
      then (if srclen == 0 then expand (length src) 0 src [] else expand srclen 0 src [])
      else too_long
