-- ===== src/Tests/Wrapper.antt =====
-- The life cycle of the wrapper, on a plugin whose viewer works.
use nspluginwrapper.Prelude.{
  ◌≤◌, true, false, [], ◌∷◌, none, some, negsuc, ◌≡◌, refl, sym, ap, arith,
}
use nspluginwrapper.Wrapper.{
  no_error, generic_error, Start, Wrapper, start_wrapper, Info, no_info, pids, plugin_init,
  plugin_start_if_needed, init_if_needed, np_initialize, np_shutdown,
}
use nspluginwrapper.Wrapper.Kill.{
  sigterm, sigkill, kill_loop, term_loop, shutdown, IsOrdered, shutdown-IsOrdered,
}
use nspluginwrapper.Wrapper.History.{
  break_connection, loaded, after, initializes, History-one_viewer,
}
use nspluginwrapper.Wrapper.Restart.{Restarted, restarts, np_initialize_after_shutdown}

abbrev info : Info
info = record { name = some (70 ∷ []); description = none; formats = some (120 ∷ []) }

-- All that `--info` can say here is what it says.
info_there : (i : Info) → some info ≡ some i → no_info i ≡ false
info_there i e = let same : info ≡ i = cc in ap no_info (sym same)

abbrev works : Start
works = record {
  viewer_info = some info;
  fork = some 17;
  connects = true;
  marshalers = true;
  methods = true;
  class_methods = true;
  has_getvalue = true;
  glib_loop = true;
  x_app_context = false;
  xt_source = false;
  xt_sync = false;
  np_initialize = no_error;
}

abbrev initialized_wrapper : Wrapper
initialized_wrapper = (np_initialize false false true works works start_wrapper).1

-- The wrapper after NP_Initialize.
test_initialize :
    ((np_initialize false false true works works start_wrapper).0 ≡ no_error)
    × (initialized_wrapper.viewer_pid ≡ some 17)
unfolding np_initialize init_if_needed plugin_init
test_initialize = (refl, refl)

-- A viewer that hangs.
test_shutdown : shutdown [] ≡ (sigterm ∷ sigkill ∷ [], 6)
unfolding term_loop kill_loop
test_shutdown = refl

History-one_viewer_example : initialized_wrapper.running ≡ pids initialized_wrapper.viewer_pid
History-one_viewer_example = History-one_viewer false false true initialized_wrapper (
    after start_wrapper initialized_wrapper loaded
      (initializes works works start_wrapper (λ i e. info_there i e)))

restarts_example :
    Restarted works
      (plugin_start_if_needed false false true works 5 (break_connection initialized_wrapper))
unfolding np_initialize init_if_needed plugin_init
restarts_example =
    restarts works 5 initialized_wrapper
      (record {
        connects = refl;
        marshalers = refl;
        methods = refl;
        class_methods = refl;
        has_getvalue = refl;
        glib_loop = refl;
      })
      refl refl refl (omega arith)

np_initialize_after_shutdown_example :
    ((np_initialize false false true works works (np_shutdown initialized_wrapper)).0
      ≡ generic_error)
    × ((np_initialize false false true works works (np_shutdown initialized_wrapper)).1.initialized
        ≡ negsuc 0)
unfolding np_initialize init_if_needed plugin_init
np_initialize_after_shutdown_example =
    np_initialize_after_shutdown true works works initialized_wrapper refl refl

shutdown-IsOrdered_example :
    ((shutdown (false ∷ true ∷ [])).1 ≤ 6) × IsOrdered (shutdown (false ∷ true ∷ [])).0
shutdown-IsOrdered_example = shutdown-IsOrdered (false ∷ true ∷ [])
