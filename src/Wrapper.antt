-- ===== src/Wrapper.antt =====
-- The life cycle of the wrapper, src/npw-wrapper.c: plugin_init, plugin_exit, plugin_kill,
-- plugin_start and the entry points that call them. What the system does in a call is an argument:
-- how fork, rpc_init_client and the others end, what waitpid returns, and the time.
pub mod Kill
pub mod Viewers
pub mod Steps
pub mod Calls
pub mod History
pub mod Restart
use nspluginwrapper.Prelude.{
  ℕ, zero, suc, ◌+◌, ◌-◌, ◌==◌, ltb, not, ◌&&◌, ◌||◌, Bool, true, false, if◌then◌else◌, List, [],
  ◌∷◌, ◌++◌, Option, none, some, ℤ, pos, negsuc, is_neg, ◌==ℤ◌,
}

-- `name`, `description` and `formats`, as far as they have been read.
pub record Info : Type 0 where
  pub name : Option (List ℕ)
  pub description : Option (List ℕ)
  pub formats : Option (List ℕ)

-- The status of a connection, as far as plugin_start_if_needed looks at it.
pub data MasterStatus : Type 0 where
  active broken : MasterStatus

pub data NpError : Type 0 where
  no_error generic_error module_load_failed : NpError
  -- What the plugin's NP_Initialize or NP_Shutdown returns.
  other : ℕ → NpError

-- `g_plugin`, and the static variables of the file. The children that have been forked and are not
-- known to have ended are `running`.
pub record Wrapper : Type 0 where
  pub initialized : ℤ
  pub viewer_pid : Option ℕ
  pub is_wrapper : Bool
  pub info : Info
  -- `g_rpc_connection`, and whether plugin_kill_cb is its error callback.
  pub connection : Option MasterStatus
  pub error_callback : Bool
  pub rpc_source : Bool
  pub rpc_sync_source : Bool
  pub xt_rpc_source_id : Bool
  pub xt_rpc_sync_id : Bool
  pub plugin_killed : Bool
  pub init_count : ℕ
  pub last_restart : ℕ
  pub running : List ℕ

-- How the calls of the system end in one call of plugin_init: the output of `--info`, if popen
-- succeeds; the child, if fork does; the steps of the connection's set-up; the event loop.
pub record Start : Type 0 where
  pub viewer_info : Option Info
  pub fork : Option ℕ
  pub connects : Bool
  pub marshalers : Bool
  pub methods : Bool
  pub class_methods : Bool
  pub has_getvalue : Bool
  pub glib_loop : Bool
  pub x_app_context : Bool
  pub xt_source : Bool
  pub xt_sync : Bool
  -- What the remote NP_Initialize returns.
  pub np_initialize : NpError

abbrev pub start_wrapper : Wrapper
start_wrapper = record {
  initialized = pos 0;
  viewer_pid = none;
  is_wrapper = false;
  info = record { name = none; description = none; formats = none };
  connection = none;
  error_callback = false;
  rpc_source = false;
  rpc_sync_source = false;
  xt_rpc_source_id = false;
  xt_rpc_sync_id = false;
  plugin_killed = false;
  init_count = 0;
  last_restart = 0;
  running = [];
}

abbrev pub is_null : Option (List ℕ) → Bool
is_null none = true
is_null (some s) = false

abbrev pub no_info : Info → Bool
no_info i = is_null i.name && is_null i.description && is_null i.formats

-- n <= 0
abbrev pub not_positive : ℤ → Bool
not_positive (pos n) = n == 0
not_positive (negsuc n) = true

-- 1 + is_NP_Initialize
abbrev pub level : Bool → ℤ
level true = pos 2
level false = pos 1

abbrev pub pids : Option ℕ → List ℕ
pids none = []
pids (some p) = p ∷ []

-- From the event listener to the end of plugin_init.
abbrev pub attach : Start → Wrapper → Wrapper
attach e w =
    if e.glib_loop
    then record w { rpc_source = true; rpc_sync_source = true }
    else (if e.x_app_context
        then record w { xt_rpc_source_id = e.xt_source; xt_rpc_sync_id = e.xt_sync }
        else w)

abbrev pub finish : Wrapper → Wrapper
finish w =
    if not w.rpc_source && (not w.xt_rpc_source_id || not w.xt_rpc_sync_id)
    then w
    else record w { error_callback = true; initialized = level true }

-- The connection's set-up, once there is one.
abbrev pub set_up : Start → Wrapper → Wrapper
set_up e w =
    if e.marshalers && (e.methods && (e.class_methods && e.has_getvalue))
    then finish (attach e w)
    else w

-- From fork to the end.
abbrev pub launch : Start → Wrapper → Wrapper
launch e w =
    let forked = record w { viewer_pid = e.fork; running = pids e.fork ++ w.running } in
    if e.connects
    then set_up e (record forked { connection = some active; error_callback = false })
    else record forked { connection = none; error_callback = false }

abbrev pub then_launch : Start → Bool → Wrapper → Wrapper
then_launch e true w = launch e w
then_launch e false w = w

-- From the count of the calls to the end: the information is read if there is none.
abbrev pub with_info : Start → Bool → Option Info → Wrapper → Wrapper
with_info e is_np_initialize none w = w
with_info e is_np_initialize (some i) w =
    then_launch e is_np_initialize (record w { info = i; initialized = pos 1 })

abbrev pub inform : Start → Bool → Wrapper → Wrapper
inform e is_np_initialize w =
    if no_info w.info
    then with_info e is_np_initialize e.viewer_info w
    else then_launch e is_np_initialize w

unfoldable pub without_pid : Option ℕ → List ℕ → List ℕ
without_pid none ps = ps
without_pid (some p) [] = []
without_pid (some p) (q ∷ ps) =
    let rest = without_pid (some p) ps in if q == p then rest else q ∷ rest

-- A viewer that has not ended of itself gets the signals of Kill.shutdown, the last one SIGKILL.
unfoldable pub plugin_exit : Wrapper → Wrapper
unfolding without_pid
plugin_exit w = record w {
  xt_rpc_source_id = false;
  xt_rpc_sync_id = false;
  rpc_source = false;
  rpc_sync_source = false;
  connection = none;
  error_callback = false;
  viewer_pid = none;
  running = without_pid w.viewer_pid w.running;
  initialized = pos 0;
}

-- npruntime_deactivate, which it also calls, keeps no state of this file.
unfoldable pub plugin_kill : Wrapper → Wrapper
unfolding plugin_exit
plugin_kill w = if w.is_wrapper then w else record (plugin_exit w) {
  initialized = pos 0;
  viewer_pid = none;
  is_wrapper = false;
  plugin_killed = true;
}

-- Its call of rpc_connection_set_error_callback with NULL changes nothing: the connection that calls
-- it has an error callback, and one that is set stays.
unfoldable pub plugin_kill_cb : Wrapper → Wrapper
unfolding plugin_kill
plugin_kill_cb w = plugin_kill w

-- rpc_status(g_rpc_connection) != RPC_STATUS_ACTIVE
abbrev pub is_down : Option MasterStatus → Bool
is_down (some active) = false
is_down (some broken) = true
is_down none = true

-- strcmp(plugin_path, NPW_DEFAULT_PLUGIN_PATH) == 0, PLUGIN_DIRECT_EXEC, and whether the path has a
-- '/' behind its first character.
module _ (default_path direct_exec has_file_name : Bool) where
  -- plugin_init after its first test and assignment.
  abbrev pub begin : Start → Bool → Wrapper → Wrapper
  begin e is_np_initialize w =
      if default_path
      then record w { is_wrapper = true; initialized = level is_np_initialize }
      else (if direct_exec
          then record w { initialized = pos 1 }
          else (if has_file_name
              then inform e is_np_initialize (record w { init_count = w.init_count + 1 })
              else w))

  unfoldable pub plugin_init : Start → Bool → Wrapper → Wrapper
  plugin_init e is_np_initialize w =
      if is_neg w.initialized
      then w
      else begin e is_np_initialize (record w { initialized = negsuc 0 })

  unfoldable pub plugin_start : Start → Wrapper → NpError × Wrapper
  unfolding plugin_init plugin_kill
  plugin_start e w =
      let w' = if w.plugin_killed then w else plugin_kill w in
      let started = plugin_init e true (record w' { plugin_killed = false }) in
      if not_positive started.initialized
      then (module_load_failed, started)
      else (e.np_initialize, started)

  -- MIN_RESTART_INTERVAL is one second.
  unfoldable pub plugin_start_if_needed : Start → ℕ → Wrapper → NpError × Wrapper
  unfolding plugin_start
  plugin_start_if_needed e now w =
      if direct_exec
      then (no_error, w)
      else (if is_down w.connection
          then (if ltb (now - w.last_restart) 1
              then (generic_error, w)
              else plugin_start e (record w { last_restart = now }))
          else (no_error, w))

  -- The first lines of NP_GetValue, NP_GetMIMEDescription and NP_Initialize.
  unfoldable pub init_if_needed : Start → Wrapper → Wrapper
  unfolding plugin_init
  init_if_needed e w = if w.initialized ==ℤ pos 0 then plugin_init e false w else w

  -- NP_Initialize after its tests of the two tables, with the ends of its two calls of plugin_init.
  -- id_init and npobject_bridge_new succeed.
  unfoldable pub np_initialize : Start → Start → Wrapper → NpError × Wrapper
  unfolding init_if_needed plugin_init
  np_initialize e e' w =
      let w1 = init_if_needed e w in
      if not_positive w1.initialized
      then (generic_error, w1)
      else (if w1.is_wrapper
          then (no_error, w1)
          else (let w2 =
                if w1.initialized ==ℤ pos 0 || (w1.initialized ==ℤ pos 1)
                then plugin_init e' true w1
                else w1 in
              if not_positive w2.initialized
              then (module_load_failed, w2)
              else (e'.np_initialize, w2)))

-- NP_Shutdown, after the call of the viewer.
unfoldable pub np_shutdown : Wrapper → Wrapper
unfolding plugin_exit
np_shutdown w = if w.is_wrapper then w else plugin_exit w
