-- ===== src/Wrapper/Restart.antt =====
-- The recovery model of src/npw-wrapper.c: a viewer that has gone is started again for the next
-- instance; and what NP_Shutdown leaves.
use nspluginwrapper.Prelude.{
  ℕ, ◌+◌, ◌-◌, ◌≤◌, ltb, Bool, true, false, if◌then◌else◌, if_both, if_true, if_false, ◌&&◌, is_neg,
  ◌++◌, Option, none, some, pos, negsuc, ◌≡◌, refl, sym, ap, subst, ◌∙◌, arith,
}
use nspluginwrapper.Wrapper.{
  active, broken, NpError, generic_error, module_load_failed, no_error, is_down, Wrapper,
  not_positive, pids, attach, finish, set_up, launch, with_info, inform, Start, no_info,
  plugin_exit, plugin_kill, plugin_kill_cb, plugin_init, plugin_start, plugin_start_if_needed,
  init_if_needed, np_initialize, np_shutdown,
}
use nspluginwrapper.Wrapper.History.{break_connection}

-- Each step of the connection's set-up succeeds, in a browser with the event loop of GLib.
pub record Works (e : Start) : Type 0 where
  pub connects : e.connects ≡ true
  pub marshalers : e.marshalers ≡ true
  pub methods : e.methods ≡ true
  pub class_methods : e.class_methods ≡ true
  pub has_getvalue : e.has_getvalue ≡ true
  pub glib_loop : e.glib_loop ≡ true

-- A viewer is up, and its end will be heard of.
abbrev pub IsUp : Option ℕ → Wrapper → Type 0
IsUp pid w =
    (w.initialized ≡ pos 2)
    × (w.viewer_pid ≡ pid)
    × (w.connection ≡ some active)
    × (w.error_callback ≡ true)

set_up-IsUp :
    (e : Start) (pid : Option ℕ) (w : Wrapper)
    → Works e
    → w.connection ≡ some active
    → w.viewer_pid ≡ pid
    → IsUp pid (set_up e w)
set_up-IsUp e pid w h c p =
    let ready : Bool = e.marshalers && (e.methods && (e.class_methods && e.has_getvalue)) in
    let is_ready : ready ≡ true = rw (h.marshalers, h.methods, h.class_methods) h.has_getvalue in
    let source = record w { rpc_source = true; rpc_sync_source = true } in
    let hook : Wrapper =
      if e.x_app_context
      then record w { xt_rpc_source_id = e.xt_source; xt_rpc_sync_id = e.xt_sync }
      else w in
    subst (IsUp pid) (sym (if_true ready (finish (attach e w)) w is_ready)) (
      subst (λ v. IsUp pid (finish v)) (sym (if_true e.glib_loop source hook h.glib_loop))
        (refl, p, c, refl))

launch-IsUp : (e : Start) (w : Wrapper) → Works e → IsUp e.fork (launch e w)
launch-IsUp e w h =
    let forked = record w { viewer_pid = e.fork; running = pids e.fork ++ w.running } in
    let connected = record forked { connection = some active; error_callback = false } in
    subst (IsUp e.fork)
      (sym (
        if_true e.connects (set_up e connected)
          (record forked { connection = none; error_callback = false }) h.connects))
      (set_up-IsUp e e.fork connected h refl refl)

plugin_init-IsUp :
    (e : Start) (w : Wrapper)
    → Works e
    → w.initialized ≡ pos 0
    → no_info w.info ≡ false
    → IsUp e.fork (plugin_init false false true e true w)
unfolding plugin_init
plugin_init-IsUp e w h i n =
    let counted = record w { initialized = negsuc 0; init_count = w.init_count + 1 } in
    let idle : is_neg w.initialized ≡ false = ap is_neg i in
    subst (IsUp e.fork) (sym (if_false (is_neg w.initialized) w (inform e true counted) idle)) (
      subst (IsUp e.fork)
        (sym
          (if_false (no_info w.info) (with_info e true e.viewer_info counted) (launch e counted) n))
        (launch-IsUp e counted h))

abbrev pub Restarted : Start → NpError × Wrapper → Type 0
Restarted e (r, w) = (r ≡ e.np_initialize) × IsUp e.fork w

plugin_start-Restarted :
    (e : Start) (w : Wrapper)
    → Works e
    → w.initialized ≡ pos 0
    → w.plugin_killed ≡ true
    → no_info w.info ≡ false
    → Restarted e (plugin_start false false true e w)
unfolding plugin_start
plugin_start-Restarted e w h i k n =
    let off : Wrapper = if w.plugin_killed then w else plugin_kill w in
    let same : off ≡ w = if_true w.plugin_killed w (plugin_kill w) k in
    let started =
      λ (v : Wrapper). plugin_init false false true e true (record v { plugin_killed = false }) in
    let up = plugin_init-IsUp e (record w { plugin_killed = false }) h i n in
    let good : not_positive (started w).initialized ≡ false = ap not_positive up.0 in
    subst
      (λ v. Restarted e (
        if not_positive (started v).initialized
        then (module_load_failed, started v)
        else (e.np_initialize, started v)))
      (sym same)
      (subst (Restarted e)
        (sym (
          if_false (not_positive (started w).initialized) (module_load_failed, started w)
            (e.np_initialize, started w) good))
        (refl, up))

-- What plugin_kill leaves.
record Gone (w : Wrapper) : Type 0 where
  down : w.connection ≡ none
  level_zero : w.initialized ≡ pos 0
  killed : w.plugin_killed ≡ true

start_if_needed-Restarted :
    (e : Start) (now : ℕ) (w : Wrapper)
    → Works e
    → Gone w
    → no_info w.info ≡ false
    → w.last_restart + 1 ≤ now
    → Restarted e (plugin_start_if_needed false false true e now w)
unfolding plugin_start_if_needed
start_if_needed-Restarted e now w h g n late =
    let noted = record w { last_restart = now } in
    let started = plugin_start false false true e noted in
    let early : Bool = ltb (now - w.last_restart) 1 in
    let in_time : early ≡ false = ground arith in
    let restarted_w : NpError × Wrapper = if early then (generic_error, w) else started in
    let down : is_down w.connection ≡ true = ap is_down g.down in
    subst (Restarted e) (sym (if_true (is_down w.connection) restarted_w (no_error, w) down)) (
      subst (Restarted e) (sym (if_false early (generic_error, w) started in_time))
        (plugin_start-Restarted e noted h g.level_zero g.killed n))

abbrev cut_off : Wrapper → Wrapper
cut_off w = record w { connection = some broken }

break_called :
    (w : Wrapper) → w.error_callback ≡ true → break_connection w ≡ plugin_kill_cb (cut_off w)
break_called w c = if_true w.error_callback (plugin_kill_cb (cut_off w)) (cut_off w) c

killed_Gone : (w : Wrapper) → w.is_wrapper ≡ false → Gone (plugin_kill_cb w)
unfolding plugin_kill_cb plugin_kill plugin_exit
killed_Gone w f =
    let killed_w = record (plugin_exit w) {
      initialized = pos 0;
      viewer_pid = none;
      is_wrapper = false;
      plugin_killed = true;
    } in
    subst Gone (sym (if_false w.is_wrapper w killed_w f))
      (record { down = refl; level_zero = refl; killed = refl })

kept_by_kill :
    (w : Wrapper)
    → ((plugin_kill_cb w).info ≡ w.info) × ((plugin_kill_cb w).last_restart ≡ w.last_restart)
unfolding plugin_kill_cb plugin_kill plugin_exit
kept_by_kill w =
    if_both (λ (v : Wrapper). (v.info ≡ w.info) × (v.last_restart ≡ w.last_restart)) w.is_wrapper w
      _ (refl, refl) (refl, refl)

-- After the connection of a viewer has broken, with the error callback, plugin_start_if_needed, the
-- first step of NPP_New, starts a new viewer, and returns what the remote NP_Initialize does: the
-- wrapper is initialized, names the new child, and its connection is active and has the error
-- callback. It is so where the wrapper is not in a program's own path and the plugin is not executed
-- directly, its path has a '/' and its information has been read, the last restart is a second ago
-- or more, and each call of the system succeeds, in a browser with the event loop of GLib.
pub restarts :
    (e : Start) (now : ℕ) (w : Wrapper)
    → Works e
    → w.is_wrapper ≡ false
    → w.error_callback ≡ true
    → no_info w.info ≡ false
    → w.last_restart + 1 ≤ now
    → Restarted e (plugin_start_if_needed false false true e now (break_connection w))
restarts e now w h f c n late =
    let (info, last) = kept_by_kill (cut_off w) in
    subst (λ v. Restarted e (plugin_start_if_needed false false true e now v))
      (sym (break_called w c))
      (start_if_needed-Restarted e now (plugin_kill_cb (cut_off w)) h (killed_Gone (cut_off w) f)
        (ap no_info info ∙ n) (subst (λ l. l + 1 ≤ now) (sym last) late))

exit_stuck :
    (f : Bool) (e : Start) (w : Wrapper)
    → no_info w.info ≡ false
    → (init_if_needed false false f e (plugin_exit w)).initialized ≡ negsuc 0
unfolding init_if_needed plugin_init plugin_exit
exit_stuck f e w n =
    let counted = record (plugin_exit w) {
      initialized = negsuc 0;
      init_count = w.init_count + 1;
    } in
    if_both (λ (v : Wrapper). v.initialized ≡ negsuc 0) f (inform e false counted)
      (record (plugin_exit w) { initialized = negsuc 0 })
      (ap (λ (v : Wrapper). v.initialized)
        (if_false (no_info w.info) (with_info e false e.viewer_info counted) counted n))
      refl

abbrev Stuck : NpError × Wrapper → Type 0
Stuck (r, w) = (r ≡ generic_error) × (w.initialized ≡ negsuc 0)

np_initialize-Stuck :
    (f : Bool) (e e' : Start) (w : Wrapper)
    → (init_if_needed false false f e w).initialized ≡ negsuc 0
    → Stuck (np_initialize false false f e e' w)
unfolding np_initialize
np_initialize-Stuck f e e' w s =
    let failed : not_positive (init_if_needed false false f e w).initialized ≡ true =
      ap not_positive s in
    subst Stuck (sym (if_true _ (generic_error, init_if_needed false false f e w) _ failed))
      (refl, s)

-- After NP_Shutdown NP_Initialize fails with NPERR_GENERIC_ERROR and leaves `initialized` at -1,
-- whatever the calls of the system return, if the wrapper had read the information of the plugin, is
-- not in its own path and does not execute the plugin directly.
pub np_initialize_after_shutdown :
    (has_file_name : Bool) (e e' : Start) (w : Wrapper)
    → w.is_wrapper ≡ false
    → no_info w.info ≡ false
    → ((np_initialize false false has_file_name e e' (np_shutdown w)).0 ≡ generic_error)
      × ((np_initialize false false has_file_name e e' (np_shutdown w)).1.initialized ≡ negsuc 0)
unfolding np_shutdown
np_initialize_after_shutdown f e e' w h n =
    subst (λ v. Stuck (np_initialize false false f e e' v))
      (sym (if_false w.is_wrapper w (plugin_exit w) h))
      (np_initialize-Stuck f e e' (plugin_exit w) (exit_stuck f e w n))
