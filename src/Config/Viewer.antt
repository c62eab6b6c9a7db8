-- ===== src/Config/Viewer.antt =====
-- detect_plugin_viewer of src/npw-config.c: the search for a viewer that can run a plugin.
pub mod Found
pub mod Tried
use nspluginwrapper.Prelude.{
  ℕ, zero, suc, ◌+◌, ◌-◌, ◌==◌, leb, ◌&&◌, not, Bool, true, false, if◌then◌else◌, List, [], ◌∷◌,
  ◌++◌, length, Option, none, some,
}
use nspluginwrapper.Config.Expand.{Text, Var, Expansion, done, too_long, exit, same_text, strexpand}

-- "ARCH", "OS", "%ARCH%", "%OS%"
abbrev pub arch_name : Text
arch_name = 65 ∷ 82 ∷ 67 ∷ 72 ∷ []

abbrev pub os_name : Text
os_name = 79 ∷ 83 ∷ []

abbrev pub arch_pattern : Text
arch_pattern = 37 ∷ 65 ∷ 82 ∷ 67 ∷ 72 ∷ 37 ∷ []

abbrev pub os_pattern : Text
os_pattern = 37 ∷ 79 ∷ 83 ∷ 37 ∷ []

-- "i386" and "linux"
abbrev pub default_arch : Text
default_arch = 105 ∷ 51 ∷ 56 ∷ 54 ∷ []

abbrev pub default_os : Text
default_os = 108 ∷ 105 ∷ 110 ∷ 117 ∷ 120 ∷ []

-- Whether the text begins with another one.
unfoldable pub begins : Text → Text → Bool
begins [] s = true
begins (x ∷ xs) [] = false
begins (x ∷ xs) (c ∷ s) = c == x && begins xs s

-- `strstr`: where the first match is.
unfoldable pub strstr : Text → Text → Option ℕ
unfolding begins
strstr [] pattern = if begins pattern [] then some 0 else none
strstr (c ∷ s) pattern =
    let rest = strstr s pattern in
    if begins pattern (c ∷ s) then some 0 else elim rest [ none ↦ none | some i ↦ some (suc i) ]

-- strnstr: whether the first match ends within `len` characters.
unfoldable pub strnstr : Text → ℕ → Text → Bool
unfolding strstr
strnstr s len pattern = elim (strstr s pattern) [
  | none ↦ false
  | some i ↦ if leb 1 len && not (leb (i + length pattern) len) then false else true
]

-- The text after each ':'.
unfoldable pub after_colons : Text → List Text
after_colons [] = []
after_colons (c ∷ s) = let rest = after_colons s in if c == 58 then s ∷ rest else rest

-- Where each specification of a path begins.
abbrev pub specs : Text → List Text
specs s = s ∷ after_colons s

-- The length of the specification at the beginning of the text.
unfoldable pub spec_length : Text → ℕ
spec_length [] = 0
spec_length (c ∷ s) = let rest = spec_length s in if c == 58 then 0 else suc rest

-- EXIT_VIEWER_OK with what is stored in the plugin's info, EXIT_VIEWER_NOT_FOUND,
-- EXIT_VIEWER_NATIVE, or the end of the process by `error`.
pub data Search : Type 0 where
  found : Text → Text → Text → Search
  not_found : Search
  native : Search
  failed : Search

-- A specification with no '%OS%' or no '%ARCH%' ends a loop over a table.
pub data Step : Type 0 where
  next stop : Step
  result : Search → Step

abbrev pub vars_of : Text → Text → List Var
vars_of arch os =
    record { name = arch_name; value = some arch } ∷ record { name = os_name; value = some os } ∷ []

-- `accessible` is access(path, F_OK) == 0, `viewer_ok` is_plugin_viewer_ok for the plugin.
-- `path_len` is viewer_path_len, `viewer` "/" NPW_VIEWER.
module _ (accessible viewer_ok : Text → Bool) (path_len : ℕ) (viewer : Text) where
  -- The body of the loop over the systems.
  abbrev pub try_path : Text → Text → Text → Expansion → Step
  try_path spec arch os too_long = next
  try_path spec arch os exit = result failed
  try_path spec arch os (done p) =
      if accessible (p ++ viewer)
      then (if viewer_ok (p ++ viewer)
          then result (found arch os (p ++ viewer))
          else if strnstr spec (spec_length spec) os_pattern
          then next
          else stop)
      else next

  abbrev pub or_else : Step → Option Search → Option Search
  or_else next rest = rest
  or_else stop rest = none
  or_else (result r) rest = some r

  -- The loop over the systems.
  unfoldable pub os_loop : Text → Text → List Text → Option Search
  unfolding strexpand strnstr spec_length
  os_loop spec arch [] = none
  os_loop spec arch (os ∷ table) =
      let rest = os_loop spec arch table in
      or_else
        (try_path spec arch os
          (strexpand path_len (vars_of arch os) (some spec) (spec_length spec)))
        rest

  abbrev pub first_of : Option Search → Option Search → Option Search
  first_of none rest = rest
  first_of (some r) rest = some r

  -- The loop over the architectures.
  unfoldable pub arch_loop : Text → List Text → List Text → Option Search
  unfolding os_loop
  arch_loop spec os_table [] = none
  arch_loop spec os_table (arch ∷ table) =
      let rest = arch_loop spec os_table table in
      first_of (os_loop spec arch os_table)
        (if strnstr spec (spec_length spec) arch_pattern then rest else none)

  -- The loop over the specifications.
  unfoldable pub spec_loop : List Text → List Text → List Text → Search
  unfolding arch_loop
  spec_loop os_table arch_table [] = not_found
  spec_loop os_table arch_table (spec ∷ table) =
      let rest = spec_loop os_table arch_table table in
      elim (arch_loop spec os_table arch_table) [ none ↦ rest | some r ↦ r ]

  -- The first entry of a table is the target's, if it is known.
  abbrev pub table_of : Text → Text → List Text
  table_of [] default = default ∷ []
  table_of (c ∷ target) default = (c ∷ target) ∷ default ∷ []

  -- detect_plugin_viewer, with the info's target and the host's names; `paths` is NPW_VIEWER_PATHS.
  unfoldable pub detect_plugin_viewer : Bool → Text → Text → Text → Text → Text → Search
  unfolding spec_loop
  detect_plugin_viewer allow_native host_arch host_os paths arch os =
      if not allow_native && (same_text arch host_arch && same_text os host_os)
      then native
      else spec_loop (table_of os default_os) (table_of arch default_arch) (specs paths)
