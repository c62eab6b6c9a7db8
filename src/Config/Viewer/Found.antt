-- ===== src/Config/Viewer/Found.antt =====
-- The viewers that detect_plugin_viewer finds.
use nspluginwrapper.Prelude.{
  ℕ, ◌&&◌, not, Bool, true, false, if◌then◌else◌, List, [], ◌∷◌, ◌++◌, Option, none, some, ◌≡◌,
  refl, sym, ap, ◌∙◌, subst,
}
use mathlib.Core.List.{Memᴰ}
use nspluginwrapper.Config.Expand.{Text, Expansion, done, too_long, exit, same_text, strexpand}
use nspluginwrapper.Config.Viewer.{
  arch_pattern, os_pattern, default_arch, default_os, strnstr, specs, spec_length, Search, found,
  native, Step, next, stop, result, vars_of, try_path, or_else, os_loop, first_of, arch_loop,
  spec_loop, table_of, detect_plugin_viewer,
}

module _ (accessible viewer_ok : Text → Bool) (path_len : ℕ) (viewer : Text) where
  abbrev pub candidate : Text → Text → Text → Expansion
  candidate spec arch os = strexpand path_len (vars_of arch os) (some spec) (spec_length spec)

  -- The path is made of the specification, and its viewer can run the plugin.
  abbrev pub IsViewer : Text → Text → Text → Text → Type 0
  IsViewer spec arch os path =
      (p : Text) × (candidate spec arch os ≡ done p)
      × (path ≡ p ++ viewer)
      × (accessible path ≡ true)
      × (viewer_ok path ≡ true)

  pub try_path-IsViewer :
      (spec arch os arch' os' path : Text) (x : Expansion)
      → candidate spec arch os ≡ x
      → try_path accessible viewer_ok path_len viewer spec arch os x ≡ result (found arch' os' path)
      → (arch ≡ arch') × (os ≡ os') × IsViewer spec arch os path
  try_path-IsViewer spec arch os arch' os' path too_long c e = cc
  try_path-IsViewer spec arch os arch' os' path exit c e = cc
  try_path-IsViewer spec arch os arch' os' path (done p) c e =
      go (accessible (p ++ viewer)) (viewer_ok (p ++ viewer))
        (strnstr spec (spec_length spec) os_pattern) refl refl e
    where
      go :
          (a v s : Bool)
          → accessible (p ++ viewer) ≡ a
          → viewer_ok (p ++ viewer) ≡ v
          → (if a
              then (if v then result (found arch os (p ++ viewer)) else if s then next else stop)
              else next)
            ≡ result (found arch' os' path)
          → (arch ≡ arch') × (os ≡ os') × IsViewer spec arch os path
      go false v s ha hv q = cc
      go true false true ha hv q = cc
      go true false false ha hv q = cc
      go true true s ha hv q =
          let same : p ++ viewer ≡ path = cc in
          (cc, cc, (p, c, sym same, ap accessible (sym same) ∙ ha, ap viewer_ok (sym same) ∙ hv))

  pub os_loop-IsViewer :
      (spec arch arch' os' path : Text) (table : List Text)
      → os_loop accessible viewer_ok path_len viewer spec arch table ≡ some (found arch' os' path)
      → (arch ≡ arch') × Memᴰ os' table × IsViewer spec arch os' path
  unfolding os_loop
  os_loop-IsViewer spec arch arch' os' path [] e = cc
  os_loop-IsViewer spec arch arch' os' path (os ∷ table) e =
      go (try_path accessible viewer_ok path_len viewer spec arch os (candidate spec arch os)) refl
        (os_loop-IsViewer spec arch arch' os' path table) e
    where
      go :
          (s : Step)
          → try_path accessible viewer_ok path_len viewer spec arch os (candidate spec arch os) ≡ s
          → (os_loop accessible viewer_ok path_len viewer spec arch table
                ≡ some (found arch' os' path)
              → (arch ≡ arch') × Memᴰ os' table × IsViewer spec arch os' path)
          → or_else accessible viewer_ok path_len viewer s
              (os_loop accessible viewer_ok path_len viewer spec arch table)
            ≡ some (found arch' os' path)
          → (arch ≡ arch') × Memᴰ os' (os ∷ table) × IsViewer spec arch os' path
      go next h ih q = let (a, m, v) = ih q in (a, Memᴰ.tail m, v)
      go stop h ih q = cc
      go (result r) h ih q =
          let same : r ≡ found arch' os' path = cc in
          let (a, o, v) =
            try_path-IsViewer spec arch os arch' os' path (candidate spec arch os) refl
              (h ∙ ap result same) in
          (a, Memᴰ.head (sym o), subst (λ z. IsViewer spec arch z path) o v)

  pub arch_loop-IsViewer :
      (spec arch' os' path : Text) (os_table table : List Text)
      → arch_loop accessible viewer_ok path_len viewer spec os_table table
        ≡ some (found arch' os' path)
      → Memᴰ arch' table × Memᴰ os' os_table × IsViewer spec arch' os' path
  unfolding arch_loop
  arch_loop-IsViewer spec arch' os' path os_table [] e = cc
  arch_loop-IsViewer spec arch' os' path os_table (arch ∷ table) e =
      go (os_loop accessible viewer_ok path_len viewer spec arch os_table) refl
        (strnstr spec (spec_length spec) arch_pattern)
        (arch_loop-IsViewer spec arch' os' path os_table table) e
    where
      rest : Option Search
      rest = arch_loop accessible viewer_ok path_len viewer spec os_table table

      go :
          (o : Option Search)
          → os_loop accessible viewer_ok path_len viewer spec arch os_table ≡ o
          → (b : Bool)
          → (rest ≡ some (found arch' os' path)
              → Memᴰ arch' table × Memᴰ os' os_table × IsViewer spec arch' os' path)
          → first_of accessible viewer_ok path_len viewer o (if b then rest else none)
            ≡ some (found arch' os' path)
          → Memᴰ arch' (arch ∷ table) × Memᴰ os' os_table × IsViewer spec arch' os' path
      go none h false ih q = cc
      go none h true ih q = let (a, o, v) = ih q in (Memᴰ.tail a, o, v)
      go (some r) h b ih q =
          let (a, o, v) = os_loop-IsViewer spec arch arch' os' path os_table (h ∙ q) in
          (Memᴰ.head (sym a), o, subst (λ z. IsViewer spec z os' path) a v)

  pub spec_loop-IsViewer :
      (arch' os' path : Text) (os_table arch_table table : List Text)
      → spec_loop accessible viewer_ok path_len viewer os_table arch_table table
        ≡ found arch' os' path
      → (spec : Text) × Memᴰ spec table
        × Memᴰ arch' arch_table
        × Memᴰ os' os_table
        × IsViewer spec arch' os' path
  unfolding spec_loop
  spec_loop-IsViewer arch' os' path os_table arch_table [] e = cc
  spec_loop-IsViewer arch' os' path os_table arch_table (spec ∷ table) e =
      go (arch_loop accessible viewer_ok path_len viewer spec os_table arch_table) refl
        (spec_loop-IsViewer arch' os' path os_table arch_table table) e
    where
      go :
          (o : Option Search)
          → arch_loop accessible viewer_ok path_len viewer spec os_table arch_table ≡ o
          → (spec_loop accessible viewer_ok path_len viewer os_table arch_table table
                ≡ found arch' os' path
              → (s : Text) × Memᴰ s table
                × Memᴰ arch' arch_table
                × Memᴰ os' os_table
                × IsViewer s arch' os' path)
          → elim o as (λ _. Search) [
            | none ↦ spec_loop accessible viewer_ok path_len viewer os_table arch_table table
            | some r ↦ r
          ]
            ≡ found arch' os' path
          → (s : Text) × Memᴰ s (spec ∷ table)
            × Memᴰ arch' arch_table
            × Memᴰ os' os_table
            × IsViewer s arch' os' path
      go none h ih q = let (s, m, a, o, v) = ih q in (s, Memᴰ.tail m, a, o, v)
      go (some r) h ih q =
          (let (a, o, v) =
              arch_loop-IsViewer spec arch' os' path os_table arch_table (h ∙ ap some q) in
            (spec, Memᴰ.head refl, a, o, v))

  -- Where detect_plugin_viewer finds a viewer, its path is made by strexpand of one of the
  -- specifications, with an architecture and a system of the two tables; it is accessible, and
  -- is_plugin_viewer_ok accepts it.
  pub detect-IsViewer :
      (allow_native : Bool) (host_arch host_os paths arch os arch' os' path : Text)
      → detect_plugin_viewer accessible viewer_ok path_len viewer allow_native host_arch host_os
          paths arch os
        ≡ found arch' os' path
      → (spec : Text) × Memᴰ spec (specs paths)
        × Memᴰ arch' (table_of accessible viewer_ok path_len viewer arch default_arch)
        × Memᴰ os' (table_of accessible viewer_ok path_len viewer os default_os)
        × IsViewer spec arch' os' path
  unfolding detect_plugin_viewer
  detect-IsViewer allow_native host_arch host_os paths arch os arch' os' path =
      go (not allow_native && (same_text arch host_arch && same_text os host_os))
    where
      arches : List Text
      arches = table_of accessible viewer_ok path_len viewer arch default_arch

      systems : List Text
      systems = table_of accessible viewer_ok path_len viewer os default_os

      go :
          (b : Bool)
          → (if b
              then native
              else spec_loop accessible viewer_ok path_len viewer systems arches (specs paths))
            ≡ found arch' os' path
          → (spec : Text) × Memᴰ spec (specs paths)
            × Memᴰ arch' arches
            × Memᴰ os' systems
            × IsViewer spec arch' os' path
      go true e = cc
      go false e = spec_loop-IsViewer arch' os' path systems arches (specs paths) e
