-- ===== src/Glib.antt =====
-- The hash tables of GLib, from keys that are ids to values that are addresses: what the program
-- uses of `GHashTable`. The table is a parameter of the functions that keep one.
use mathlib.Core.List.{Memᴰ}
use nspluginwrapper.Prelude.{
  ℕ, ◌+◌, ◌≤◌, ◌==◌, if◌then◌else◌, List, Option, none, some, ◌≡◌, ◌≢◌, All,
}

pub record HashTable : Type 1 where
  pub Table : Type 0
  -- g_hash_table_new
  pub empty : Table
  -- g_hash_table_insert, which replaces the value of a key that is there
  pub insert : ℕ → ℕ → Table → Table
  -- g_hash_table_remove
  pub remove : ℕ → Table → Table
  -- g_hash_table_lookup, with NULL for a key that is not there
  pub lookup : ℕ → Table → Option ℕ
  -- g_hash_table_find for a value: one of its keys
  pub find_value : ℕ → Table → Option ℕ
  pub lookup-empty : (k : ℕ) → lookup k empty ≡ none
  pub lookup-insert :
      (k j v : ℕ) (t : Table) → lookup j (insert k v t) ≡ (if k == j then some v else lookup j t)
  pub lookup-remove :
      (k j : ℕ) (t : Table) → lookup j (remove k t) ≡ (if k == j then none else lookup j t)
  pub find_value-some : (v k : ℕ) (t : Table) → find_value v t ≡ some k → lookup k t ≡ some v
  pub find_value-none : (v k : ℕ) (t : Table) → find_value v t ≡ none → lookup k t ≢ some v

-- A table whose values are structures, and that is visited entry by entry.
pub record ValueTable (V : Type 0) : Type 1 where
  pub Table : Type 0
  -- g_hash_table_new_full, and g_hash_table_remove_all
  pub empty : Table
  -- g_hash_table_insert
  pub insert : ℕ → V → Table → Table
  -- g_hash_table_lookup
  pub lookup : ℕ → Table → Option V
  -- g_hash_table_size
  pub size : Table → ℕ
  -- The keys and values in the order in which g_hash_table_find and g_hash_table_foreach meet them.
  pub entries : Table → List (ℕ × V)
  pub lookup-empty : (k : ℕ) → lookup k empty ≡ none
  pub lookup-insert :
      (k j : ℕ) (v : V) (t : Table)
      → lookup j (insert k v t) ≡ (if k == j then some v else lookup j t)
  pub size-empty : size empty ≡ 0
  pub size-insert : (k : ℕ) (v : V) (t : Table) → size (insert k v t) ≤ size t + 1
  pub lookup-entries : (t : Table) → All (λ e. lookup e.0 t ≡ some e.1) (entries t)
  pub entries-lookup : (k : ℕ) (v : V) (t : Table) → lookup k t ≡ some v → Memᴰ (k, v) (entries t)
