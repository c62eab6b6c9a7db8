-- ===== src/Config/Viewer/Tried.antt =====
-- Where detect_plugin_viewer finds nothing, all its candidates were refused.
use nspluginwrapper.Prelude.{
  ℕ, ◌&&◌, not, Bool, true, false, if◌then◌else◌, List, [], ◌∷◌, ◌++◌, take, Option, none, some,
  ◌≡◌, ◌≢◌, inl, inr, refl, sym, ap, ◌∙◌, subst,
}
use mathlib.Core.List.{Memᴰ}
use mathlib.Core.List.Memᴰ
use nspluginwrapper.Config.Expand.{Text, Expansion, done, too_long, exit, same_text}
use nspluginwrapper.Config.Viewer.{
  arch_pattern, os_pattern, default_arch, default_os, strnstr, specs, spec_length, Search, found,
  not_found, native, Step, next, stop, result, try_path, or_else, os_loop, first_of, arch_loop,
  spec_loop, table_of, detect_plugin_viewer,
}
use nspluginwrapper.Config.Viewer.Found.{candidate}

-- The entries of a table that make different paths of a specification: all of them where it has the
-- pattern, and the first one otherwise.
abbrev pub tried_if : Bool → List Text → List Text
tried_if has table = if has then table else take 1 table

abbrev pub tried : Text → Text → List Text → List Text
tried spec pattern table = tried_if (strnstr spec (spec_length spec) pattern) table

module _ (accessible viewer_ok : Text → Bool) (path_len : ℕ) (viewer : Text) where
  abbrev pub outcome : Bool → Bool → Bool → Search → Step
  outcome a v s r = if a then (if v then result r else if s then next else stop) else next

  abbrev pub continued : Step → Option Search → Option Search
  continued s r = or_else accessible viewer_ok path_len viewer s r

  pub refused :
      (a v s : Bool) (f : Search) (r : Option Search)
      → a ≡ true
      → continued (outcome a v s f) r ≡ none
      → v ≡ false
  refused false v s f r h e = cc
  refused true true s f r h e = cc
  refused true false s f r h e = refl

  pub goes_on :
      (a v s : Bool) (f : Search) (r : Option Search)
      → s ≡ true
      → continued (outcome a v s f) r ≡ none
      → r ≡ none
  goes_on false v s f r h e = e
  goes_on true true s f r h e = cc
  goes_on true false true f r h e = e
  goes_on true false false f r h e = cc

  -- Where the specification has the pattern, the loop goes on.
  pub step_goes_on :
      (spec arch os : Text) (x : Expansion) (r : Option Search)
      → strnstr spec (spec_length spec) os_pattern ≡ true
      → continued (try_path accessible viewer_ok path_len viewer spec arch os x) r ≡ none
      → r ≡ none
  step_goes_on spec arch os too_long r h e = e
  step_goes_on spec arch os exit r h e = cc
  step_goes_on spec arch os (done p) r h e =
      goes_on (accessible (p ++ viewer)) (viewer_ok (p ++ viewer)) _ _ r h e

  abbrev pub made : Text → Text → Text → Expansion
  made spec arch os = candidate accessible viewer_ok path_len viewer spec arch os

  -- The first system of the table.
  pub first_refused :
      (spec arch os p : Text) (r : Option Search)
      → continued (try_path accessible viewer_ok path_len viewer spec arch os (made spec arch os)) r
        ≡ none
      → made spec arch os ≡ done p
      → accessible (p ++ viewer) ≡ true
      → viewer_ok (p ++ viewer) ≡ false
  first_refused spec arch os p r e c at =
      refused (accessible (p ++ viewer)) (viewer_ok (p ++ viewer))
        (strnstr spec (spec_length spec) os_pattern) (found arch os (p ++ viewer)) r at
        (subst
          (λ x. continued (try_path accessible viewer_ok path_len viewer spec arch os x) r ≡ none) c
          e)

  pub os_loop-tried :
      (has : Bool) (spec arch os p : Text) (table : List Text)
      → strnstr spec (spec_length spec) os_pattern ≡ has
      → os_loop accessible viewer_ok path_len viewer spec arch table ≡ none
      → Memᴰ os (tried_if has table)
      → made spec arch os ≡ done p
      → accessible (p ++ viewer) ≡ true
      → viewer_ok (p ++ viewer) ≡ false
  unfolding os_loop
  os_loop-tried true spec arch os p [] b e m c at = elim (Memᴰ.not-nil m) [ ]
  os_loop-tried false spec arch os p [] b e m c at = elim (Memᴰ.not-nil m) [ ]
  os_loop-tried true spec arch os p (os' ∷ table) b e (Memᴰ.head same) c at =
      first_refused spec arch os' p _ e (subst (λ z. made spec arch z ≡ done p) same c) at
  os_loop-tried true spec arch os p (os' ∷ table) b e (Memᴰ.tail m) c at =
      os_loop-tried true spec arch os p table b
        (step_goes_on spec arch os' (made spec arch os') _ b e) m c at
  os_loop-tried false spec arch os p (os' ∷ table) b e (Memᴰ.head same) c at =
      first_refused spec arch os' p _ e (subst (λ z. made spec arch z ≡ done p) same c) at
  os_loop-tried false spec arch os p (os' ∷ table) b e (Memᴰ.tail m) c at =
      elim (Memᴰ.not-nil m) [ ]

  pub first_of-none :
      (o rest : Option Search)
      → first_of accessible viewer_ok path_len viewer o rest ≡ none
      → (o ≡ none) × (rest ≡ none)
  first_of-none none rest e = (refl, e)
  first_of-none (some r) rest e = cc

  pub arch_loop-tried :
      (has : Bool) (spec arch os p : Text) (os_table table : List Text)
      → strnstr spec (spec_length spec) arch_pattern ≡ has
      → arch_loop accessible viewer_ok path_len viewer spec os_table table ≡ none
      → Memᴰ arch (tried_if has table)
      → Memᴰ os (tried spec os_pattern os_table)
      → made spec arch os ≡ done p
      → accessible (p ++ viewer) ≡ true
      → viewer_ok (p ++ viewer) ≡ false
  unfolding arch_loop
  arch_loop-tried true spec arch os p os_table [] b e m n c at = elim (Memᴰ.not-nil m) [ ]
  arch_loop-tried false spec arch os p os_table [] b e m n c at = elim (Memᴰ.not-nil m) [ ]
  arch_loop-tried true spec arch os p os_table (arch' ∷ table) b e (Memᴰ.head same) n c at =
      os_loop-tried _ spec arch' os p os_table refl (first_of-none _ _ e).0 n
        (subst (λ z. made spec z os ≡ done p) same c) at
  arch_loop-tried true spec arch os p os_table (arch' ∷ table) b e (Memᴰ.tail m) n c at =
      arch_loop-tried true spec arch os p os_table table b
        (ap
            (λ t.
              if t
              then arch_loop accessible viewer_ok path_len viewer spec os_table table
              else none)
            (sym b)
          ∙ (first_of-none _ _ e).1)
        m n c at
  arch_loop-tried false spec arch os p os_table (arch' ∷ table) b e (Memᴰ.head same) n c at =
      os_loop-tried _ spec arch' os p os_table refl (first_of-none _ _ e).0 n
        (subst (λ z. made spec z os ≡ done p) same c) at
  arch_loop-tried false spec arch os p os_table (arch' ∷ table) b e (Memᴰ.tail m) n c at =
      elim (Memᴰ.not-nil m) [ ]

  -- A loop that ends with a result has found a viewer or failed.
  pub outcome_kept :
      (a v s : Bool) (arch os path : Text) (r : Option Search)
      → continued (outcome a v s (found arch os path)) r ≡ some not_found
      → r ≡ some not_found
  outcome_kept false v s arch os path r e = e
  outcome_kept true true s arch os path r e = cc
  outcome_kept true false true arch os path r e = e
  outcome_kept true false false arch os path r e = cc

  pub step_kept :
      (spec arch os : Text) (x : Expansion) (r : Option Search)
      → continued (try_path accessible viewer_ok path_len viewer spec arch os x) r ≡ some not_found
      → r ≡ some not_found
  step_kept spec arch os too_long r e = e
  step_kept spec arch os exit r e = cc
  step_kept spec arch os (done p) r e =
      outcome_kept (accessible (p ++ viewer)) (viewer_ok (p ++ viewer)) _ arch os (p ++ viewer) r e

  pub os_loop_found :
      (spec arch : Text) (table : List Text)
      → os_loop accessible viewer_ok path_len viewer spec arch table ≢ some not_found
  unfolding os_loop
  os_loop_found spec arch [] e = cc
  os_loop_found spec arch (os ∷ table) e =
      os_loop_found spec arch table (step_kept spec arch os (made spec arch os) _ e)

  pub arch_loop_found :
      (spec : Text) (os_table table : List Text)
      → arch_loop accessible viewer_ok path_len viewer spec os_table table ≢ some not_found
  unfolding arch_loop
  arch_loop_found spec os_table [] e = cc
  arch_loop_found spec os_table (arch ∷ table) e =
      go (os_loop accessible viewer_ok path_len viewer spec arch os_table)
        (strnstr spec (spec_length spec) arch_pattern) (os_loop_found spec arch os_table)
        (arch_loop_found spec os_table table) e
    where
      rest : Option Search
      rest = arch_loop accessible viewer_ok path_len viewer spec os_table table

      go :
          (o : Option Search) (b : Bool)
          → o ≢ some not_found
          → rest ≢ some not_found
          → first_of accessible viewer_ok path_len viewer o (if b then rest else none)
            ≢ some not_found
      go none true n m q = m q
      go none false n m q = cc
      go (some r) b n m q = n q

  pub spec_loop-tried :
      (spec arch os p : Text) (os_table arch_table table : List Text)
      → spec_loop accessible viewer_ok path_len viewer os_table arch_table table ≡ not_found
      → Memᴰ spec table
      → Memᴰ arch (tried spec arch_pattern arch_table)
      → Memᴰ os (tried spec os_pattern os_table)
      → made spec arch os ≡ done p
      → accessible (p ++ viewer) ≡ true
      → viewer_ok (p ++ viewer) ≡ false
  unfolding spec_loop
  spec_loop-tried spec arch os p os_table arch_table [] e m i j c at = elim (Memᴰ.not-nil m) [ ]
  spec_loop-tried spec arch os p os_table arch_table (spec' ∷ table) e m i j c at =
      let (nothing, others) =
        both (arch_loop accessible viewer_ok path_len viewer spec' os_table arch_table)
          (spec_loop accessible viewer_ok path_len viewer os_table arch_table table)
          (arch_loop_found spec' os_table arch_table) e in
      elim (Memᴰ.cases_cons m) [
        | inl same ↦
            arch_loop-tried _ spec arch os p os_table arch_table refl
              (subst
                (λ z. arch_loop accessible viewer_ok path_len viewer z os_table arch_table ≡ none)
                (sym same) nothing)
              i j c at
        | inr later ↦ spec_loop-tried spec arch os p os_table arch_table table others later i j c at
      ]
    where
      both :
          (o : Option Search) (rest : Search)
          → o ≢ some not_found
          → elim o as (λ _. Search) [ none ↦ rest | some r ↦ r ] ≡ not_found
          → (o ≡ none) × (rest ≡ not_found)
      both none rest n q = (refl, q)
      both (some r) rest n q = elim (n (ap some q)) [ ]

  -- Where detect_plugin_viewer finds no viewer, take any of the specifications, an architecture and a
  -- system of the two tables, the first one where the specification does not have the pattern for
  -- them. If strexpand makes a path of these, and the viewer there is accessible, then
  -- is_plugin_viewer_ok has refused it.
  pub detect-tried :
      (allow_native : Bool) (host_arch host_os paths arch os spec arch' os' p : Text)
      → detect_plugin_viewer accessible viewer_ok path_len viewer allow_native host_arch host_os
          paths arch os
        ≡ not_found
      → Memᴰ spec (specs paths)
      → Memᴰ arch' (
          tried spec arch_pattern (table_of accessible viewer_ok path_len viewer arch default_arch))
      → Memᴰ os'
          (tried spec os_pattern (table_of accessible viewer_ok path_len viewer os default_os))
      → made spec arch' os' ≡ done p
      → accessible (p ++ viewer) ≡ true
      → viewer_ok (p ++ viewer) ≡ false
  unfolding detect_plugin_viewer
  detect-tried allow_native host_arch host_os paths arch os spec arch' os' p e m i j c at =
      spec_loop-tried spec arch' os' p _ _ (specs paths)
        (go (not allow_native && (same_text arch host_arch && same_text os host_os)) _ e) m i j c at
    where
      go : (b : Bool) (rest : Search) → (if b then native else rest) ≡ not_found → rest ≡ not_found
      go true rest q = cc
      go false rest q = q
