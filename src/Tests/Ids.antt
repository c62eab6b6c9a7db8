-- ===== src/Tests/Ids.antt =====
-- The table of ids at concrete inputs.
use nspluginwrapper.Prelude.{ℕ, [], some, ◌≡◌, arith}
use nspluginwrapper.Rpc.Error.{ok}
use nspluginwrapper.Ids.{Ids, wrapper_send, wrapper_recv, viewer_recv, viewer_send}
use nspluginwrapper.Ids.Home.{IsIds, Kept, identifier-home}
use nspluginwrapper.Tests.Glib.{Pairs, glib, find-empty}

abbrev no_ids : Ids Pairs
no_ids = record { table = []; last_id = 4 }

no_ids-IsIds : IsIds glib no_ids
no_ids-IsIds k v = find-empty k

identifier-home_example :
    (id : ℕ) × (ids' : Ids Pairs) × (wrapper_send glib (some 70) no_ids ≡ (ok id, ids'))
    × IsIds glib ids'
    × Kept glib id 70 no_ids ids'
    × (viewer_recv id ≡ ok (some id))
    × (viewer_send (some id) ≡ ok id)
    × (wrapper_recv glib id ids' ≡ ok (some 70))
identifier-home_example = identifier-home glib 70 no_ids no_ids-IsIds (omega arith)
