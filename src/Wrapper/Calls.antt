-- ===== src/Wrapper/Calls.antt =====
-- plugin_start and the entry points of src/npw-wrapper.c keep account of the viewer.
use nspluginwrapper.Prelude.{
  ℕ, ◌-◌, ltb, ◌||◌, Bool, true, false, Bool-cases, if◌then◌else◌, if_both, if_true, if_false, none,
  some, ℤ, pos, negsuc, is_neg, ◌==ℤ◌, ==ℤ_iff, ◌≡◌, refl, sym, ap, subst, ◌∙◌, inl, inr, arith,
}
use nspluginwrapper.Wrapper.{
  Info, active, NpError, module_load_failed, no_error, generic_error, Wrapper, Start, no_info,
  plugin_exit, plugin_kill, plugin_init, plugin_start, is_down, plugin_start_if_needed,
  init_if_needed, np_initialize, np_shutdown, not_positive,
}
use nspluginwrapper.Wrapper.Viewers.{Sound}
use nspluginwrapper.Wrapper.Steps.{Sound-plugin_init, Sound-plugin_exit, Sound-plugin_kill}

is_one : (i : ℤ) → not_positive i ≡ false → (i ==ℤ pos 0 || (i ==ℤ pos 1)) ≡ true → i ≡ pos 1
is_one (pos n) p e = ap pos (ground arith)
is_one (negsuc n) p e = cc

module _ (default_path direct_exec has_file_name : Bool) where
  abbrev Free : Wrapper → Type 0
  Free w = is_neg w.initialized ≡ false → default_path ≡ false → w.viewer_pid ≡ none

  abbrev Own : Wrapper → Type 0
  Own w = Sound default_path direct_exec w

  -- Where the connection is down plugin_start finds no viewer, killed or not.
  killed_Free : (w : Wrapper) → Own w → is_down w.connection ≡ true → Free w
  killed_Free w h down n d = h.idle n λ two.
      let up = h.live two d in
      let bad : is_down (some active) ≡ true = ap is_down (sym up.0) ∙ down in cc

  kill_Free : (w : Wrapper) → Own w → default_path ≡ false → (plugin_kill w).viewer_pid ≡ none
  unfolding plugin_kill
  kill_Free w h d = elim (Bool-cases w.is_wrapper) [
    | inl t ↦ let e = h.wrapper t in cc
    | inr f ↦ ap (λ (v : Wrapper). v.viewer_pid) (if_false w.is_wrapper w _ f)
  ]

  kill_info : (w : Wrapper) → (plugin_kill w).info ≡ w.info
  unfolding plugin_kill
  kill_info w = if_both (λ (v : Wrapper). v.info ≡ w.info) w.is_wrapper w _ refl refl

  Sound-unmarked : (w : Wrapper) → Own w → Own (record w { plugin_killed = false })
  Sound-unmarked w h = record {
    listed = h.listed;
    idle = h.idle;
    informed = h.informed;
    wrapper = h.wrapper;
    default = h.default;
    live = h.live;
  }

  Sound-plugin_start :
      (e : Start) (w : Wrapper)
      → Own w
      → is_down w.connection ≡ true
      → no_info w.info ≡ false
      → Own (plugin_start default_path direct_exec has_file_name e w).1
  unfolding plugin_start
  Sound-plugin_start e w h down n =
      let off : Wrapper = if w.plugin_killed then w else plugin_kill w in
      let off_Sound : Own off =
        if_both Own w.plugin_killed w (plugin_kill w) h
          (Sound-plugin_kill default_path direct_exec has_file_name w h) in
      let off_Free : Free off =
        if_both Free w.plugin_killed w (plugin_kill w) (killed_Free w h down)
          (λ x d. kill_Free w h d) in
      let known : off.info ≡ w.info =
        if_both (λ (v : Wrapper). v.info ≡ w.info) w.plugin_killed w (plugin_kill w) refl
          (kill_info w) in
      let started : Wrapper =
        plugin_init default_path direct_exec has_file_name e true
          (record off { plugin_killed = false }) in
      if_both (λ (r : NpError × Wrapper). Own r.1) (not_positive started.initialized)
        (module_load_failed, started) (e.np_initialize, started)
        (Sound-plugin_init default_path direct_exec has_file_name e true
          (record off { plugin_killed = false }) (Sound-unmarked off off_Sound) off_Free
          (λ d x. ap no_info known ∙ n))
        (Sound-plugin_init default_path direct_exec has_file_name e true
          (record off { plugin_killed = false }) (Sound-unmarked off off_Sound) off_Free
          (λ d x. ap no_info known ∙ n))

  Sound-noted : (now : ℕ) (w : Wrapper) → Own w → Own (record w { last_restart = now })
  Sound-noted now w h = record {
    listed = h.listed;
    idle = h.idle;
    informed = h.informed;
    wrapper = h.wrapper;
    default = h.default;
    live = h.live;
  }

  abbrev OwnResult : NpError × Wrapper → Type 0
  OwnResult r = Own r.1

  pub Sound-start_if_needed :
      (e : Start) (now : ℕ) (w : Wrapper)
      → Own w
      → no_info w.info ≡ false
      → Own (plugin_start_if_needed default_path direct_exec has_file_name e now w).1
  unfolding plugin_start_if_needed
  Sound-start_if_needed e now w h n =
      let early : Bool = ltb (now - w.last_restart) 1 in
      let noted = record w { last_restart = now } in
      let started = plugin_start default_path direct_exec has_file_name e noted in
      let restarted : NpError × Wrapper = if early then (generic_error, w) else started in
      if_both OwnResult direct_exec (no_error, w)
        (if is_down w.connection then restarted else (no_error, w)) h
        (elim (Bool-cases (is_down w.connection)) [
          | inl down ↦
              subst OwnResult (sym (if_true (is_down w.connection) restarted (no_error, w) down)) (
                if_both OwnResult early (generic_error, w) started h
                  (Sound-plugin_start e noted (Sound-noted now w h) down n))
          | inr up ↦
              subst OwnResult (sym (if_false (is_down w.connection) restarted (no_error, w) up)) h
        ])

  pub Sound-init_if_needed :
      (e : Start) (w : Wrapper)
      → Own w
      → ((i : Info) → e.viewer_info ≡ some i → no_info i ≡ false)
      → Own (init_if_needed default_path direct_exec has_file_name e w)
  unfolding init_if_needed
  Sound-init_if_needed e w h n =
      let init = plugin_init default_path direct_exec has_file_name e false w in
      elim (Bool-cases (w.initialized ==ℤ pos 0)) [
        | inl zero_level ↦
            let never = (==ℤ_iff w.initialized (pos 0)).0 zero_level in
            subst Own (sym (if_true (w.initialized ==ℤ pos 0) init w zero_level)) (
              Sound-plugin_init default_path direct_exec has_file_name e false w h
                (λ x d. h.idle x λ two. let bad : pos 0 ≡ pos 2 = sym never ∙ two in cc) (λ d x. n))
        | inr other ↦ subst Own (sym (if_false (w.initialized ==ℤ pos 0) init w other)) h
      ]

  -- The second call of plugin_init in NP_Initialize.
  Sound-second_init :
      (e : Start) (w : Wrapper)
      → Own w
      → not_positive w.initialized ≡ false
      → Own (
          if w.initialized ==ℤ pos 0 || (w.initialized ==ℤ pos 1)
          then plugin_init default_path direct_exec has_file_name e true w
          else w)
  Sound-second_init e w h p =
      let init = plugin_init default_path direct_exec has_file_name e true w in
      let test : Bool = w.initialized ==ℤ pos 0 || (w.initialized ==ℤ pos 1) in
      elim (Bool-cases test) [
        | inl fresh ↦
            let one = is_one w.initialized p fresh in
            subst Own (sym (if_true test init w fresh)) (
              Sound-plugin_init default_path direct_exec has_file_name e true w h
                (λ x d. h.idle x λ two. let bad : pos 1 ≡ pos 2 = sym one ∙ two in cc)
                (λ d x. h.informed one d x))
        | inr old ↦ subst Own (sym (if_false test init w old)) h
      ]

  pub Sound-np_initialize :
      (e e' : Start) (w : Wrapper)
      → Own w
      → ((i : Info) → e.viewer_info ≡ some i → no_info i ≡ false)
      → Own (np_initialize default_path direct_exec has_file_name e e' w).1
  unfolding np_initialize
  Sound-np_initialize e e' w h n =
      let w1 = init_if_needed default_path direct_exec has_file_name e w in
      let h1 = Sound-init_if_needed e w h n in
      let w2 : Wrapper =
        if w1.initialized ==ℤ pos 0 || (w1.initialized ==ℤ pos 1)
        then plugin_init default_path direct_exec has_file_name e' true w1
        else w1 in
      let last : NpError × Wrapper =
        if not_positive w2.initialized then (module_load_failed, w2) else (e'.np_initialize, w2) in
      let further : NpError × Wrapper = if w1.is_wrapper then (no_error, w1) else last in
      elim (Bool-cases (not_positive w1.initialized)) [
        | inl failed ↦
            subst OwnResult
              (sym (if_true (not_positive w1.initialized) (generic_error, w1) further failed)) h1
        | inr positive ↦
            let h2 = Sound-second_init e' w1 h1 positive in
            subst OwnResult
              (sym (if_false (not_positive w1.initialized) (generic_error, w1) further positive))
              (if_both OwnResult w1.is_wrapper (no_error, w1) last h1
                (if_both OwnResult (not_positive w2.initialized) (module_load_failed, w2)
                  (e'.np_initialize, w2) h2 h2))
      ]

  pub Sound-np_shutdown : (w : Wrapper) → Own w → Own (np_shutdown w)
  unfolding np_shutdown
  Sound-np_shutdown w h =
      if_both Own w.is_wrapper w (plugin_exit w) h
        (Sound-plugin_exit default_path direct_exec has_file_name w h)
