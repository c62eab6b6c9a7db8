-- ===== src/Config/Expand/Template.antt =====
-- What strexpand makes of a template: characters, and names of variables between two '%'.
use nspluginwrapper.Prelude.{
  ℕ, suc, ◌+◌, ◌-◌, ◌<◌, ◌==◌, leb, true, false, if◌then◌else◌, List, [], ◌∷◌, ◌++◌, length,
  length-append, append_assoc, append-nil, All, Option, none, some, ◌≡◌, refl, sym, ap, ◌∙◌, arith,
}
use nspluginwrapper.Config.Expand.{
  Text, percent, Var, Expansion, done, too_long, exit, name_in, value_of, expand_name, expand,
  strexpand,
}

pub data Piece : Type 0 where
  literal : ℕ → Piece
  variable : Text → Piece

-- The template as it is written.
unfoldable pub written : List Piece → Text
written [] = []
written (literal c ∷ ps) = c ∷ written ps
written (variable name ∷ ps) = percent ∷ (name ++ percent ∷ written ps)

-- The text that it stands for, where all its variables have values.
unfoldable pub expanded : List Var → List Piece → Option Text
expanded vars [] = some []
expanded vars (literal c ∷ ps) = elim (expanded vars ps) [ none ↦ none | some xs ↦ some (c ∷ xs) ]
expanded vars (variable name ∷ ps) = elim (value_of vars name) [
  | none ↦ none
  | some v ↦ elim (expanded vars ps) [ none ↦ none | some xs ↦ some (v ++ xs) ]
]

-- No '%' is a character of its own, and no name has one, or 15 characters.
abbrev pub IsPiece : Piece → Type 0
IsPiece (literal c) = (c == percent) ≡ false
IsPiece (variable name) = length name < 15 × All (λ c. (c == percent) ≡ false) name

pub name_in-written :
    (name rest : Text)
    → All (λ c. (c == percent) ≡ false) name
    → name_in (name ++ percent ∷ rest) ≡ some name
unfolding name_in
name_in-written [] rest h = refl
name_in-written (c ∷ name) rest (h, hs) = let ih = name_in-written name rest hs in rw (h, ih) refl

literal_inv :
    (c : ℕ) (xs : Text) (o : Option Text)
    → elim o as (λ _. Option Text) [ none ↦ none | some ys ↦ some (c ∷ ys) ] ≡ some xs
    → (ys : Text) × (o ≡ some ys) × (xs ≡ c ∷ ys)
literal_inv c xs none e = cc
literal_inv c xs (some ys) e = (ys, refl, cc)

variable_inv :
    (xs : Text) (o p : Option Text)
    → elim o as (λ _. Option Text) [
      | none ↦ none
      | some v ↦ elim p [ none ↦ none | some ys ↦ some (v ++ ys) ]
    ]
      ≡ some xs
    → (v : Text) × (ys : Text) × (o ≡ some v) × (p ≡ some ys) × (xs ≡ v ++ ys)
variable_inv xs none p e = cc
variable_inv xs (some v) none e = cc
variable_inv xs (some v) (some ys) e = (v, ys, refl, refl, cc)

module _ (dstlen : ℕ) (vars : List Var) where
  -- A name is passed over.
  pub expand-skip :
      (xs rest out : Text) (k : ℕ)
      → expand dstlen vars (length xs + k) (length xs) (xs ++ rest) out
        ≡ expand dstlen vars k 0 rest out
  unfolding expand
  expand-skip [] rest out k = ap (λ n. expand dstlen vars n 0 rest out) (omega arith)
  expand-skip (x ∷ xs) rest out k =
      ap (λ n. expand dstlen vars n (suc (length xs)) (x ∷ (xs ++ rest)) out) (more (length xs) k)
      ∙ expand-skip xs rest out k
    where
      more : (n k : ℕ) → suc n + k ≡ suc (n + k)
      more n k = omega arith

  -- A name and the '%' after it are passed over.
  pub pass_name :
      (name more tail out : Text)
      → expand dstlen vars
          (length (name ++ percent ∷ more))
          (length name + 1)
          (name ++ percent ∷ tail)
          out
        ≡ expand dstlen vars (length more) 0 tail out
  pass_name name more tail out =
      let both = name ++ percent ∷ [] in
      let skipped : length name + 1 ≡ length both =
        sym (length-append name (percent ∷ []) ∙ omega arith) in
      let total : length (name ++ percent ∷ more) ≡ length both + length more =
        omega (arith, length-append name (percent ∷ more), skipped) in
      ap (λ n. expand dstlen vars n (length name + 1) (name ++ percent ∷ tail) out) total
      ∙ ap (λ n. expand dstlen vars (length both + length more) n (name ++ percent ∷ tail) out)
          skipped
      ∙ ap (λ t. expand dstlen vars (length both + length more) (length both) t out)
          (sym (append_assoc name (percent ∷ []) tail))
      ∙ expand-skip both tail out (length more)

  pub expand-written :
      (ps : List Piece) (xs rest out : Text)
      → All IsPiece ps
      → expanded vars ps ≡ some xs
      → length out + length xs + 1 < dstlen
      → expand dstlen vars (length (written ps)) 0 (written ps ++ rest) out ≡ done (out ++ xs)
  unfolding expand written expanded
  expand-written [] xs rest out h e lt =
      let same : [] ≡ xs = cc in ap done (sym (append-nil out) ∙ ap (λ z. out ++ z) same)
  expand-written (literal c ∷ ps) xs rest out (h, hs) e lt =
      let (ys, q, same) = literal_inv c xs (expanded vars ps) e in
      let longer : length xs ≡ suc (length ys) = ap (λ z. length z) same in
      let out' = out ++ c ∷ [] in
      let room : leb (dstlen - 1) (length out + 1) ≡ false = ground arith in
      let ih =
        expand-written ps ys rest out' hs q
          (omega (arith, lt, longer, length-append out (c ∷ []))) in
      ap
        (λ b.
          if b
          then expand_name dstlen vars out (name_in (written ps ++ rest))
              (λ skip o. expand dstlen vars (length (written ps)) skip (written ps ++ rest) o)
          else if leb (dstlen - 1) (length out + 1)
          then too_long
          else expand dstlen vars (length (written ps)) 0 (written ps ++ rest) out')
        h
      ∙ ap
          (λ b.
            if b
            then too_long
            else expand dstlen vars (length (written ps)) 0 (written ps ++ rest) out')
          room
      ∙ ih
      ∙ ap done (append_assoc out (c ∷ []) ys ∙ ap (λ z. out ++ z) (sym same))
  expand-written (variable name ∷ ps) xs rest out ((short, h), hs) e lt =
      let (v, ys, value, q, same) = variable_inv xs (value_of vars name) (expanded vars ps) e in
      let tail = written ps ++ rest in
      let total = length (name ++ percent ∷ written ps) in
      let longer : length xs ≡ length v + length ys =
        ap (λ z. length z) same ∙ length-append v ys in
      let fits : leb 15 (length name) ≡ false = ground arith in
      let ih =
        expand-written ps ys rest (out ++ v) hs q
          (omega (arith, lt, longer, length-append out v)) in
      ap
        (λ t. expand_name dstlen vars out (name_in t) (λ skip o. expand dstlen vars total skip t o))
        (append_assoc name (percent ∷ written ps) rest)
      ∙ ap
          (λ n.
            expand_name dstlen vars out n
              (λ skip o. expand dstlen vars total skip (name ++ percent ∷ tail) o))
          (name_in-written name tail h)
      ∙ ap (λ b. if b then exit else after (value_of vars name)) fits
      ∙ ap after value
      ∙ pass_name name (written ps) tail (out ++ v)
      ∙ ih
      ∙ ap done (append_assoc out v ys ∙ ap (λ z. out ++ z) (sym same))
    where
      after : Option Text → Expansion
      after o = elim o as (λ _. Expansion) [
        | none ↦ exit
        | some w ↦
            expand dstlen vars (length (name ++ percent ∷ written ps)) (length name + 1)
              (name ++ percent ∷ (written ps ++ rest)) (out ++ w)
      ]

  -- `src` begins with a template that is not empty, whose characters are not '%', whose names have
  -- fewer than 15 characters, none of them '%', and whose variables have values; and the text that
  -- the template stands for leaves two places of the buffer free. Told the template's length,
  -- strexpand puts this text into the buffer.
  pub strexpand-written :
      (ps : List Piece) (xs rest : Text)
      → All IsPiece ps
      → expanded vars ps ≡ some xs
      → length xs + 1 < dstlen
      → 0 < length (written ps)
      → strexpand dstlen vars (some (written ps ++ rest)) (length (written ps)) ≡ done xs
  unfolding strexpand
  strexpand-written ps xs rest h e lt some_text =
      let src = written ps ++ rest in
      let n = length (written ps) in
      let room : leb 1 dstlen ≡ true = ground arith in
      let given : (n == 0) ≡ false = ground arith in
      ap
        (λ b.
          if b
          then (if n == 0
              then expand dstlen vars (length src) 0 src []
              else expand dstlen vars n 0 src [])
          else too_long)
        room
      ∙ ap
          (λ b.
            if b then expand dstlen vars (length src) 0 src [] else expand dstlen vars n 0 src [])
          given
      ∙ expand-written ps xs rest [] h e (omega (arith, lt))
