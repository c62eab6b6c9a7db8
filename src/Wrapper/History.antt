-- ===== src/Wrapper/History.antt =====
-- What the browser and the connection make the wrapper of src/npw-wrapper.c do, call after call.
use nspluginwrapper.Prelude.{ℕ, Bool, false, if◌then◌else◌, some, ◌≡◌, refl}
use nspluginwrapper.Wrapper.{
  Info, broken, Wrapper, Start, start_wrapper, no_info, pids, MasterStatus, plugin_kill_cb,
  plugin_start_if_needed, init_if_needed, np_initialize, np_shutdown,
}
use nspluginwrapper.Wrapper.Viewers.{Sound}
use nspluginwrapper.Wrapper.Steps.{Sound-plugin_kill_cb, Sound-break}
use nspluginwrapper.Wrapper.Calls.{
  Sound-init_if_needed, Sound-np_initialize, Sound-np_shutdown, Sound-start_if_needed,
}

-- The connection breaks, and rpc_error calls the error callback if one is set.
abbrev pub break_connection : Wrapper → Wrapper
break_connection w =
    let off = record w { connection = some broken } in
    if w.error_callback then plugin_kill_cb off else off

-- Where `--info` has been read, it has said something.
abbrev pub IsInformed : Start → Type 0
IsInformed e = (i : Info) → e.viewer_info ≡ some i → no_info i ≡ false

module _ (default_path direct_exec has_file_name : Bool) where
  -- The calls of the browser, the end of the connection, with the error callback or without, and
  -- the error callback of a connection before it, which is never taken off. The browser asks for
  -- information before it makes an instance.
  pub data LifeStep : Wrapper → Wrapper → Type 0 where
    -- NP_GetValue or NP_GetMIMEDescription
    asked :
        (e : Start) (w : Wrapper)
        → IsInformed e
        → LifeStep w (init_if_needed default_path direct_exec has_file_name e w)
    initializes :
        (e e' : Start) (w : Wrapper)
        → IsInformed e
        → LifeStep w (np_initialize default_path direct_exec has_file_name e e' w).1
    shuts_down : (w : Wrapper) → LifeStep w (np_shutdown w)
    -- NPP_New
    makes_instance :
        (e : Start) (now : ℕ) (w : Wrapper)
        → no_info w.info ≡ false
        → LifeStep w (plugin_start_if_needed default_path direct_exec has_file_name e now w).1
    breaks :
        (s : MasterStatus) (w : Wrapper) → w.connection ≡ some s → LifeStep w (break_connection w)
    -- A connection that the wrapper has let go, and that an instance still holds, has an error.
    kills_again : (w : Wrapper) → LifeStep w (plugin_kill_cb w)

  pub data History : Wrapper → Type 0 where
    loaded : History start_wrapper
    after : (w w' : Wrapper) → History w → LifeStep w w' → History w'

  Sound-LifeStep :
      (w w' : Wrapper)
      → Sound default_path direct_exec w
      → LifeStep w w'
      → Sound default_path direct_exec w'
  Sound-LifeStep w w' h (asked e v n) =
      Sound-init_if_needed default_path direct_exec has_file_name e v h n
  Sound-LifeStep w w' h (initializes e e' v n) =
      Sound-np_initialize default_path direct_exec has_file_name e e' v h n
  Sound-LifeStep w w' h (shuts_down v) =
      Sound-np_shutdown default_path direct_exec has_file_name v h
  Sound-LifeStep w w' h (makes_instance e now v n) =
      Sound-start_if_needed default_path direct_exec has_file_name e now v h n
  Sound-LifeStep w w' h (breaks s v c) =
      Sound-break default_path direct_exec has_file_name broken v h
  Sound-LifeStep w w' h (kills_again v) =
      Sound-plugin_kill_cb default_path direct_exec has_file_name v h

  Sound-start : Sound default_path direct_exec start_wrapper
  Sound-start = record {
    listed = refl;
    idle = λ n two. refl;
    informed = λ one d x. cc;
    wrapper = λ t. cc;
    default = λ d. refl;
    live = λ two d. cc;
  }

  History-Sound : (w : Wrapper) → History w → Sound default_path direct_exec w
  History-Sound w loaded = Sound-start
  History-Sound w (after u v h s) = Sound-LifeStep u v (History-Sound u h) s

  -- Whatever the browser calls and in whatever order, however the calls of the system end, whenever
  -- the connection breaks, with the error callback or without, and whenever the error callback runs
  -- again through a connection before it, the children that have been started and not been brought to
  -- their end are the one that g_plugin.viewer_pid names, if it names one, and no other. It is so
  -- if `--info`, where it can be read, gives a name, a description or the formats, and if no
  -- instance is made before that has been read.
  pub History-one_viewer : (w : Wrapper) → History w → w.running ≡ pids w.viewer_pid
  History-one_viewer w h = (History-Sound w h).listed
