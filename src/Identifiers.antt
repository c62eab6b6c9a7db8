-- ===== src/Identifiers.antt =====
-- The viewer's cache of NPAPI identifiers, src/npw-viewer.c: `NPIdentifierInfo`, the functions
-- npidentifier_info_* and npidentifier_cache_*. An identifier is the number that the browser's side
-- gave it, with 0 for NULL. A string is its bytes before the 0.
pub mod Cached
pub mod Browser
pub mod Strings
pub mod Coherent
pub mod Found
pub mod Answers
pub mod Refinement
pub mod Size
pub mod Limit
pub mod Again
use nspluginwrapper.Prelude.{
  ℕ, zero, suc, ◌+◌, ◌-◌, ◌%◌, ◌^◌, ◌==◌, ltb, ◌&&◌, Bool, true, false, if◌then◌else◌, List, [],
  ◌∷◌, ◌++◌, length, take, Option, none, some, ℤ, pos, ◌==ℤ◌,
}
use nspluginwrapper.Rpc.Action.{Action, return, halt}
use nspluginwrapper.Glib.{ValueTable}

abbrev pub Text : Type 0
Text = List ℕ

-- The union `u`.
pub data Union : Type 0 where
  string : List ℕ → Union
  value : ℤ → Union

pub record NpIdentifierInfo : Type 0 where
  pub string_len : ℕ
  pub u : Union

-- NPIDENTIFIER_CACHE_SIZE
abbrev pub npidentifier_cache_size : ℕ
npidentifier_cache_size = 256

-- `g_npidentifier_cache`, NULL before it is made, and whether the next calls of the allocator
-- return memory; each of them does where the list has ended.
pub record Cache (T : Type 0) : Type 0 where
  pub table : Option T
  pub memory : List Bool

-- Whether the next call of the allocator returns memory, and what is to come after it.
abbrev pub allocates : List Bool → Bool
allocates [] = true
allocates (b ∷ memory) = b

abbrev pub rest : List Bool → List Bool
rest [] = []
rest (b ∷ memory) = memory

-- `strlen(str) + 1` in a `guint`
abbrev pub size_of : Text → ℕ
size_of str = (length str + 1) % 2 ^ 32

-- memcpy of `n` bytes of a string with its 0
abbrev pub copy : ℕ → Text → List ℕ
copy n str = take n (str ++ 0 ∷ [])

abbrev pub int_info : ℤ → NpIdentifierInfo
int_info v = record { string_len = 0; u = value v }

abbrev pub string_info : Text → NpIdentifierInfo
string_info str = record { string_len = size_of str; u = string (copy (size_of str) str) }

-- memcmp(…) == 0
unfoldable pub memcmp_equal : ℕ → List ℕ → List ℕ → Bool
memcmp_equal zero a b = true
memcmp_equal (suc n) (x ∷ xs) (y ∷ ys) = x == y && memcmp_equal n xs ys
memcmp_equal (suc n) a b = false

-- The two tests of npidentifier_cache_find_info on the unions. A member that was not the one
-- written is not compared.
abbrev pub same_string : ℕ → Union → Union → Bool
same_string n (string a) (string b) = memcmp_equal n a b
same_string n (value a) b = false
same_string n (string a) (value b) = false

abbrev pub same_value : Union → Union → Bool
same_value (value a) (value b) = a ==ℤ b
same_value (string a) b = false
same_value (value a) (string b) = false

unfoldable pub cache_find_info : NpIdentifierInfo → NpIdentifierInfo → Bool
unfolding memcmp_equal
cache_find_info args npi =
    if npi.string_len == args.string_len
    then (if ltb 0 args.string_len
        then same_string args.string_len args.u npi.u
        else same_value args.u npi.u)
    else false

-- g_hash_table_find with npidentifier_cache_find_info: it stops at the first entry that fits.
unfoldable pub first_fit : NpIdentifierInfo → List (ℕ × NpIdentifierInfo) → Option ℕ
first_fit args [] = none
first_fit args ((k, npi) ∷ es) =
    let found = first_fit args es in if cache_find_info args npi then some k else found

-- One call of it by g_hash_table_foreach, with `args->ident` in `ident`.
abbrev pub visited : NpIdentifierInfo → ℕ → ℕ → NpIdentifierInfo → ℕ
visited args ident k npi = if ident == 0 then (if cache_find_info args npi then k else 0) else ident

-- g_hash_table_foreach: every entry is visited.
unfoldable pub visit : NpIdentifierInfo → ℕ → List (ℕ × NpIdentifierInfo) → ℕ
visit args ident [] = ident
visit args ident ((k, npi) ∷ es) = visit args (visited args ident k npi) es

-- The NULL test after g_hash_table_foreach.
abbrev pub found_ident : ℕ → Option ℕ
found_ident ident = if ident == 0 then none else some ident

-- NPW_MemAllocCopy of a string, as the text before its 0; `none` is NULL.
abbrev pub copy_of : Union → Option Text
copy_of (string a) = some (take (length a - 1) a)
copy_of (value v) = none

module _ (tables : ValueTable NpIdentifierInfo) where
  open tables use {Table, empty, insert, lookup, size}

  -- npidentifier_cache_create makes the table where there is none yet.
  abbrev pub made_table : Option Table → Table
  made_table none = empty
  made_table (some t) = t

  -- npidentifier_cache_reserve. With or without g_hash_table_remove_all an invalidated cache is
  -- empty.
  unfoldable pub cache_reserve : ℕ → Cache Table → Cache Table
  cache_reserve n_entries c =
      let t = made_table c.table in
      record c {
        table = some (if ltb npidentifier_cache_size (size t + n_entries) then empty else t);
      }

  abbrev pub info_in : ℕ → Option Table → Option NpIdentifierInfo
  info_in ident none = none
  info_in ident (some t) = lookup ident t

  unfoldable pub cache_lookup : ℕ → Cache Table → Option NpIdentifierInfo
  cache_lookup ident c = info_in ident c.table

  -- g_hash_table_insert into the table that there is.
  abbrev pub add_to : ℕ → NpIdentifierInfo → Table → Cache Table → Cache Table
  add_to ident npi t c = record c { table = some (insert ident npi t) }

  -- npidentifier_info_new, or another call of the allocator.
  abbrev pub allocated : Cache Table → Cache Table
  allocated c = record c { memory = rest c.memory }

  abbrev pub add_int_to : ℕ → ℤ → Option Table → Cache Table → Cache Table
  add_int_to ident v none c = c
  add_int_to ident v (some t) c =
      if allocates c.memory then add_to ident (int_info v) t (allocated c) else allocated c

  unfoldable pub cache_add_int : ℕ → ℤ → Cache Table → Cache Table
  cache_add_int ident v c = add_int_to ident v c.table c

  -- With the structure allocated: strlen(NULL) ends the process.
  abbrev pub add_text : ℕ → Option Text → Table → Action (Cache Table) (Unit {0})
  add_text ident none t c = halt c
  add_text ident (some str) t c =
      return tt
        (if allocates c.memory then add_to ident (string_info str) t (allocated c) else allocated c)

  abbrev pub add_string_to : ℕ → Option Text → Option Table → Action (Cache Table) (Unit {0})
  add_string_to ident str none c = return tt c
  add_string_to ident str (some t) c =
      if allocates c.memory then add_text ident str t (allocated c) else return tt (allocated c)

  -- `str` is NULL where it is `none`.
  unfoldable pub cache_add_string : ℕ → Option Text → Action (Cache Table) (Unit {0})
  unfolding return halt
  cache_add_string ident str c = add_string_to ident str c.table c

  abbrev pub get_copy : Option NpIdentifierInfo → Cache Table → Option Text × Cache Table
  get_copy none c = (none, c)
  get_copy (some npi) c =
      if npi.string_len == 0
      then (none, c)
      else (if allocates c.memory then (copy_of npi.u, allocated c) else (none, allocated c))

  unfoldable pub cache_get_string_copy : ℕ → Cache Table → Option Text × Cache Table
  unfolding cache_lookup
  cache_get_string_copy ident c = get_copy (cache_lookup ident c) c

-- `has_find` is HAVE_G_HASH_TABLE_FIND in a build that is not BUILD_GENERIC.
module _ (tables : ValueTable NpIdentifierInfo) (has_find : Bool) where
  open tables use {Table, entries}

  abbrev pub find_in : NpIdentifierInfo → Option Table → Option ℕ
  find_in args none = none
  find_in args (some t) =
      if has_find then first_fit args (entries t) else found_ident (visit args 0 (entries t))

  unfoldable pub cache_has_int : ℤ → Cache Table → Option ℕ
  unfolding first_fit visit
  cache_has_int v c = find_in (int_info v) c.table

  -- `args.info.u.string` is the string itself, with its 0.
  unfoldable pub cache_has_string : Text → Cache Table → Option ℕ
  unfolding first_fit visit
  cache_has_string str c =
      find_in (record { string_len = size_of str; u = string (str ++ 0 ∷ []) }) c.table
