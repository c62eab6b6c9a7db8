-- ===== src/Tests/Config.antt =====
-- The search of the configuration tool for a viewer, at concrete inputs.
use nspluginwrapper.Prelude.{◌++◌, Bool, true, false, List, [], ◌∷◌, some, ◌≡◌, refl, arith}
use mathlib.Core.List.{Memᴰ}
use nspluginwrapper.Config.Expand.{Text, done, strexpand, value_of}
use nspluginwrapper.Config.Expand.Template.{
  Piece, literal, variable, written, expanded, strexpand-written,
}
use nspluginwrapper.Config.Viewer.{
  os_name, os_pattern, default_os, default_arch, vars_of, specs, detect_plugin_viewer, table_of,
  strnstr, after_colons,
}
use nspluginwrapper.Config.Viewer.Found.{IsViewer, detect-IsViewer}
use nspluginwrapper.Config.Viewer.Tried.{detect-tried}

-- "/%OS%"
abbrev template : List Piece
template = literal 47 ∷ variable os_name ∷ []

abbrev linux_path : Text
linux_path = 47 ∷ default_os

-- "/%OS%:/v"
abbrev paths : Text
paths = 47 ∷ (os_pattern ++ 58 ∷ 47 ∷ 118 ∷ [])

strexpand-written_example :
    strexpand 20 (vars_of default_arch default_os) (some (written template ++ [])) 5
    ≡ done linux_path
unfolding written expanded value_of
strexpand-written_example =
    strexpand-written 20 (vars_of default_arch default_os) template linux_path []
      (refl, ((omega arith, (refl, (refl, tt))), tt)) refl (omega arith) (omega arith)

-- "/x"
abbrev viewer : Text
viewer = 47 ∷ 120 ∷ []

abbrev any : Text → Bool
any path = true

abbrev none_of : Text → Bool
none_of path = false

detect-IsViewer_example :
    (spec : Text) × Memᴰ spec (specs paths)
    × Memᴰ default_arch (table_of any any 20 viewer [] default_arch)
    × Memᴰ default_os (table_of any any 20 viewer [] default_os)
    × IsViewer any any 20 viewer spec default_arch default_os (linux_path ++ viewer)
unfolding detect_plugin_viewer
detect-IsViewer_example =
    detect-IsViewer any any 20 viewer true [] [] paths [] [] default_arch default_os
      (linux_path ++ viewer) refl

detect-tried_example : none_of (linux_path ++ viewer) ≡ false
unfolding detect_plugin_viewer strnstr after_colons
detect-tried_example =
    detect-tried any none_of 20 viewer true [] [] paths [] [] paths default_arch default_os
      linux_path refl (Memᴰ.head refl) (Memᴰ.head refl) (Memᴰ.head refl) refl refl
