-- ===== src/Wrapper/Steps.antt =====
-- plugin_init, plugin_exit and their callers in src/npw-wrapper.c keep account of the viewer.
use nspluginwrapper.Prelude.{
  ℕ, ◌+◌, ◌==◌, ==_iff, Bool, true, false, Bool-cases, if◌then◌else◌, if_both, if_true, if_false,
  [], ◌∷◌, Option, none, some, pos, negsuc, is_neg, ◌≡◌, refl, sym, ap, subst, ◌∙◌, inl, inr,
}
use nspluginwrapper.Wrapper.{
  MasterStatus, Wrapper, Start, level, pids, inform, without_pid, begin, plugin_exit, plugin_kill,
  plugin_kill_cb, plugin_init,
}
use nspluginwrapper.Wrapper.Viewers.{
  Sound, Fresh, Launched-Fresh, Sound-failed, Sound-inform, Informs,
}

without_pids : (o : Option ℕ) → without_pid o (pids o) ≡ []
unfolding without_pid
without_pids none = refl
without_pids (some p) = if_true (p == p) [] (p ∷ []) ((==_iff p p).1 refl)

module _ (default_path direct_exec has_file_name : Bool) where
  -- A call of plugin_init finds no viewer, if it does anything.
  abbrev pub Free : Wrapper → Type 0
  Free w = is_neg w.initialized ≡ false → default_path ≡ false → w.viewer_pid ≡ none

  Sound-as_wrapper :
      (b : Bool) (w : Wrapper)
      → Sound default_path direct_exec w
      → default_path ≡ true
      → Sound default_path direct_exec (record w { is_wrapper = true; initialized = level b })
  Sound-as_wrapper b w h d = record {
    listed = h.listed;
    idle = λ n two. h.default d;
    informed = λ one x y. cc;
    wrapper = λ t. d;
    default = λ t. h.default d;
    live = λ two x. cc;
  }

  Sound-direct :
      (w : Wrapper)
      → Sound default_path direct_exec w
      → w.viewer_pid ≡ none
      → direct_exec ≡ true
      → Sound default_path direct_exec (record w { initialized = pos 1 })
  Sound-direct w h free x = record {
    listed = h.listed;
    idle = λ n two. free;
    informed = λ one d y. cc;
    wrapper = h.wrapper;
    default = h.default;
    live = λ two d. cc;
  }

  -- Where it is not the wrapper's own path, there is no viewer and nothing else to show.
  Fresh-init :
      (w : Wrapper)
      → Sound default_path direct_exec w
      → w.viewer_pid ≡ none
      → default_path ≡ false
      → Fresh default_path direct_exec (record w { initialized = negsuc 0 })
  Fresh-init w h free d = record {
    empty = h.listed ∙ ap pids free;
    free = free;
    wrapper = elim (Bool-cases w.is_wrapper) [
      | inl t ↦ let yes_default = h.wrapper t in cc
      | inr f ↦ f
    ];
    own = d;
  }

  abbrev pub Own : Wrapper → Type 0
  Own w = Sound default_path direct_exec w

  Sound-begin :
      (e : Start) (b : Bool) (w : Wrapper)
      → Own w
      → (default_path ≡ false → w.viewer_pid ≡ none)
      → (default_path ≡ false → direct_exec ≡ false → Informs default_path direct_exec e b w.info)
      → Own (begin default_path direct_exec has_file_name e b (record w { initialized = negsuc 0 }))
  Sound-begin e b w h free n =
      let w' = record w { initialized = negsuc 0 } in
      let counted = record w' { init_count = w.init_count + 1 } in
      let as_wrapper = record w' { is_wrapper = true; initialized = level b } in
      let direct = record w' { initialized = pos 1 } in
      let viewed = if has_file_name then inform e b counted else w' in
      elim (Bool-cases default_path) [
        | inl d ↦
            subst Own
              (sym (if_true default_path as_wrapper (if direct_exec then direct else viewed) d))
              (Sound-as_wrapper b w h d)
        | inr d ↦
            subst Own
              (sym (if_false default_path as_wrapper (if direct_exec then direct else viewed) d))
              (elim (Bool-cases direct_exec) [
                | inl x ↦
                    subst Own (sym (if_true direct_exec direct viewed x))
                      (Sound-direct w h (free d) x)
                | inr x ↦ subst Own (sym (if_false direct_exec direct viewed x)) (
                    let fresh = Fresh-init w h (free d) d in
                    if_both Own has_file_name (inform e b counted) w'
                      (Sound-inform default_path direct_exec e b counted
                        (record {
                          empty = fresh.empty;
                          free = fresh.free;
                          wrapper = fresh.wrapper;
                          own = d;
                        })
                        refl (n d x))
                      (Sound-failed default_path direct_exec w'
                        (Launched-Fresh default_path direct_exec w' fresh) refl))
              ])
      ]

  pub Sound-plugin_init :
      (e : Start) (b : Bool) (w : Wrapper)
      → Own w
      → Free w
      → (default_path ≡ false → direct_exec ≡ false → Informs default_path direct_exec e b w.info)
      → Own (plugin_init default_path direct_exec has_file_name e b w)
  unfolding plugin_init
  Sound-plugin_init e b w h free n =
      let begun =
        begin default_path direct_exec has_file_name e b (record w { initialized = negsuc 0 }) in
      elim (Bool-cases (is_neg w.initialized)) [
        | inl neg ↦ subst Own (sym (if_true (is_neg w.initialized) w begun neg)) h
        | inr positive ↦
            subst Own (sym (if_false (is_neg w.initialized) w begun positive))
              (Sound-begin e b w h (free positive) n)
      ]

  pub Sound-plugin_exit : (w : Wrapper) → Own w → Own (plugin_exit w)
  unfolding plugin_exit
  Sound-plugin_exit w h = record {
    listed = ap (without_pid w.viewer_pid) h.listed ∙ without_pids w.viewer_pid;
    idle = λ n two. refl;
    informed = λ one d x. cc;
    wrapper = h.wrapper;
    default = λ d. refl;
    live = λ two d. cc;
  }

  -- plugin_kill of what is not the wrapper itself.
  abbrev killed : Wrapper → Wrapper
  killed w = record (plugin_exit w) {
    initialized = pos 0;
    viewer_pid = none;
    is_wrapper = false;
    plugin_killed = true;
  }

  Sound-killed : (w : Wrapper) → Own w → Own (killed w)
  unfolding plugin_exit
  Sound-killed w h = record {
    listed = ap (without_pid w.viewer_pid) h.listed ∙ without_pids w.viewer_pid;
    idle = λ n two. refl;
    informed = λ one d x. cc;
    wrapper = λ t. cc;
    default = λ d. refl;
    live = λ two d. cc;
  }

  pub Sound-plugin_kill : (w : Wrapper) → Own w → Own (plugin_kill w)
  unfolding plugin_kill
  Sound-plugin_kill w h = if_both Own w.is_wrapper w (killed w) h (Sound-killed w h)

  pub Sound-plugin_kill_cb : (w : Wrapper) → Own w → Own (plugin_kill_cb w)
  unfolding plugin_kill_cb
  Sound-plugin_kill_cb w h = Sound-plugin_kill w h

  -- The connection has another status, and the error callback has run if there is one.
  pub Sound-break :
      (s : MasterStatus) (w : Wrapper)
      → Own w
      → Own (
          if w.error_callback
          then plugin_kill_cb (record w { connection = some s })
          else record w { connection = some s })
  unfolding plugin_kill_cb plugin_kill plugin_exit
  Sound-break s w h =
      let off = record w { connection = some s } in
      let kept = if w.is_wrapper then off else killed off in
      elim (Bool-cases w.error_callback) [
        | inl c ↦
            subst Own (sym (if_true w.error_callback kept off c)) (elim (Bool-cases w.is_wrapper) [
              | inl t ↦ subst Own (sym (if_true w.is_wrapper off (killed off) t)) (record {
                listed = h.listed;
                idle = h.idle;
                informed = h.informed;
                wrapper = h.wrapper;
                default = h.default;
                live = λ two d. let other = h.wrapper t in cc;
              })
              | inr f ↦
                  subst Own (sym (if_false w.is_wrapper off (killed off) f)) (Sound-killed w h)
            ])
        | inr c ↦ subst Own (sym (if_false w.error_callback kept off c)) (record {
          listed = h.listed;
          idle = h.idle;
          informed = h.informed;
          wrapper = h.wrapper;
          default = h.default;
          live = λ two d. let other = (h.live two d).1 in cc;
        })
      ]
