-- ===== src/Tests/Map.antt =====
-- The map of src/rpc.c at concrete inputs.
use nspluginwrapper.Prelude.{ℕ, Bool, false, ℤ, pos, ◌∷◌, replicate, some, none, refl, ◌≡◌}
use nspluginwrapper.Rpc.Error.{err, no_memory}
use nspluginwrapper.Rpc.Map.{Entry, RpcMap, blank, lookup, insert}
use nspluginwrapper.Rpc.Map.Content.{value_of}
use nspluginwrapper.Rpc.Map.Laws.{IsRpcMap, Updated, Looked, lookup-Looked, insert-Updated}
use nspluginwrapper.Rpc.Map.Loss.{insert-lost}
use nspluginwrapper.Tests.Rpc.{plenty}

abbrev empty_memory : ℕ → Bool
empty_memory n = false

abbrev seven : Entry ℕ
seven = record { value = some 70; key = pos 7; use_count = 2 }

-- One entry of seven is in use.
abbrev table : RpcMap ℕ
table = record { n_entries = 1; n_entries_max = 7; entries = some (seven ∷ replicate 6 blank) }

abbrev table-IsRpcMap : IsRpcMap table
table-IsRpcMap = record {
  filled = (refl, (refl, (refl, (refl, (refl, (refl, (refl, tt)))))));
  size = refl;
}

-- All are.
abbrev full_table : RpcMap ℕ
full_table = record { n_entries = 7; n_entries_max = 7; entries = some (replicate 7 seven) }

abbrev full_table-IsRpcMap : IsRpcMap full_table
full_table-IsRpcMap = record {
  filled = (refl, (refl, (refl, (refl, (refl, (refl, (refl, tt)))))));
  size = refl;
}

lookup-Looked_example : Looked table (pos 7) (lookup (pos 7) table)
lookup-Looked_example = lookup-Looked (pos 7) table table-IsRpcMap

insert-Updated_example : Updated full_table (pos 8) 80 (insert plenty blank (pos 8) 80 full_table)
insert-Updated_example = insert-Updated plenty blank (pos 8) 80 full_table full_table-IsRpcMap refl

insert-lost_example :
    ((insert empty_memory blank (pos 8) 80 full_table).0 ≡ err no_memory)
    × ((key' : ℤ) → (lookup key' (insert empty_memory blank (pos 8) 80 full_table).1).0 ≡ none)
unfolding value_of
insert-lost_example =
    insert-lost empty_memory blank (pos 8) 80 full_table full_table-IsRpcMap refl refl refl
