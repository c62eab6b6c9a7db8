-- ===== src/Wrapper/Viewers.antt =====
-- The viewers that the wrapper of src/npw-wrapper.c starts and ends.
use nspluginwrapper.Prelude.{
  not, ◌&&◌, ◌||◌, Bool, true, false, if◌then◌else◌, if_both, if_false, [], ◌++◌, append-nil,
  Option, none, some, pos, negsuc, is_neg, ◌≡◌, ◌≢◌, refl, sym, ap, subst, ◌∙◌,
}
use nspluginwrapper.Wrapper.{
  Info, active, Wrapper, Start, no_info, level, pids, attach, finish, set_up, launch, with_info,
  inform,
}

module _ (default_path direct_exec : Bool) where
  -- What holds of the wrapper between its calls.
  pub record Sound (w : Wrapper) : Type 0 where
    pub listed : w.running ≡ pids w.viewer_pid
    pub idle : is_neg w.initialized ≡ false → w.initialized ≢ pos 2 → w.viewer_pid ≡ none
    pub informed :
        w.initialized ≡ pos 1 → default_path ≡ false → direct_exec ≡ false → no_info w.info ≡ false
    pub wrapper : w.is_wrapper ≡ true → default_path ≡ true
    pub default : default_path ≡ true → w.viewer_pid ≡ none
    pub live :
        w.initialized ≡ pos 2
        → default_path ≡ false
        → (w.connection ≡ some active) × (w.error_callback ≡ true)

  -- A viewer or none, in a wrapper that does more than pass for itself.
  pub record Launched (w : Wrapper) : Type 0 where
    pub listed : w.running ≡ pids w.viewer_pid
    pub wrapper : w.is_wrapper ≡ false
    pub own : default_path ≡ false

  pub Sound-failed : (w : Wrapper) → Launched w → w.initialized ≡ negsuc 0 → Sound w
  Sound-failed w h e = record {
    listed = h.listed;
    idle = λ n two. let bad : is_neg (negsuc 0) ≡ false = ap is_neg (sym e) ∙ n in cc;
    informed = λ one d x. let bad : negsuc 0 ≡ pos 1 = sym e ∙ one in cc;
    wrapper = λ t. let f = h.wrapper in cc;
    default = λ t. let f = h.own in cc;
    live = λ two d. let bad : negsuc 0 ≡ pos 2 = sym e ∙ two in cc;
  }

  Sound-finish :
      (w : Wrapper)
      → Launched w
      → w.initialized ≡ negsuc 0
      → w.connection ≡ some active
      → Sound (finish w)
  Sound-finish w h e c =
      let up = record w { error_callback = true; initialized = level true } in
      let up_Sound : Sound up = record {
        listed = h.listed;
        idle = λ n two. absurd (two refl);
        informed = λ one d x. cc;
        wrapper = λ t. let f = h.wrapper in cc;
        default = λ t. let f = h.own in cc;
        live = λ two d. (c, refl);
      } in
      if_both Sound (not w.rpc_source && (not w.xt_rpc_source_id || not w.xt_rpc_sync_id)) w up
        (Sound-failed w h e) up_Sound

  abbrev Ready : Wrapper → Type 0
  Ready w = Launched w × (w.initialized ≡ negsuc 0) × (w.connection ≡ some active)

  Sound-set_up : (e : Start) (w : Wrapper) → Ready w → Sound (set_up e w)
  Sound-set_up e w (h, i, c) =
      if_both Sound (e.marshalers && (e.methods && (e.class_methods && e.has_getvalue)))
        (finish (attach e w)) w
        (if_both (λ v. Sound (finish v)) e.glib_loop
          (record w { rpc_source = true; rpc_sync_source = true })
          (if e.x_app_context
            then record w { xt_rpc_source_id = e.xt_source; xt_rpc_sync_id = e.xt_sync }
            else w)
          (Sound-finish (record w { rpc_source = true; rpc_sync_source = true })
            (record { listed = h.listed; wrapper = h.wrapper; own = h.own }) i c)
          (if_both (λ v. Sound (finish v)) e.x_app_context
            (record w { xt_rpc_source_id = e.xt_source; xt_rpc_sync_id = e.xt_sync }) w
            (Sound-finish (record w { xt_rpc_source_id = e.xt_source; xt_rpc_sync_id = e.xt_sync })
              (record { listed = h.listed; wrapper = h.wrapper; own = h.own }) i c)
            (Sound-finish w h i c)))
        (Sound-failed w h i)

  -- Before fork no viewer runs.
  pub record Fresh (w : Wrapper) : Type 0 where
    pub empty : w.running ≡ []
    pub free : w.viewer_pid ≡ none
    pub wrapper : w.is_wrapper ≡ false
    pub own : default_path ≡ false

  Sound-launch : (e : Start) (w : Wrapper) → Fresh w → w.initialized ≡ negsuc 0 → Sound (launch e w)
  Sound-launch e w h i =
      let forked = record w { viewer_pid = e.fork; running = pids e.fork ++ w.running } in
      let one : pids e.fork ++ w.running ≡ pids e.fork =
        ap (λ ps. pids e.fork ++ ps) h.empty ∙ append-nil (pids e.fork) in
      if_both Sound e.connects
        (set_up e (record forked { connection = some active; error_callback = false }))
        (record forked { connection = none; error_callback = false })
        (Sound-set_up e (record forked { connection = some active; error_callback = false })
          (record { listed = one; wrapper = h.wrapper; own = h.own }, i, refl))
        (Sound-failed (record forked { connection = none; error_callback = false })
          (record { listed = one; wrapper = h.wrapper; own = h.own }) i)

  pub Launched-Fresh : (w : Wrapper) → Fresh w → Launched w
  Launched-Fresh w h = record {
    listed = h.empty ∙ sym (ap pids h.free);
    wrapper = h.wrapper;
    own = h.own;
  }

  -- The information has been read, and NP_Initialize is still to come.
  Sound-with_info :
      (e : Start) (i : Info) (w : Wrapper)
      → Fresh w
      → no_info i ≡ false
      → Sound (record w { info = i; initialized = pos 1 })
  Sound-with_info e i w h n = record {
    listed = h.empty ∙ sym (ap pids h.free);
    idle = λ x y. h.free;
    informed = λ one d x. n;
    wrapper = λ t. let f = h.wrapper in cc;
    default = λ t. h.free;
    live = λ two d. cc;
  }

  -- What plugin_init is given: with NP_Initialize the information that is there, and without it
  -- what `--info` says.
  abbrev pub Informs : Start → Bool → Info → Type 0
  Informs e true i = no_info i ≡ false
  Informs e false i = (j : Info) → e.viewer_info ≡ some j → no_info j ≡ false

  Sound-read :
      (e : Start) (o : Option Info) (w : Wrapper)
      → Fresh w
      → w.initialized ≡ negsuc 0
      → ((j : Info) → o ≡ some j → no_info j ≡ false)
      → Sound (with_info e false o w)
  Sound-read e none w h i n = Sound-failed w (Launched-Fresh w h) i
  Sound-read e (some j) w h i n = Sound-with_info e j w h (n j refl)

  pub Sound-inform :
      (e : Start) (b : Bool) (w : Wrapper)
      → Fresh w
      → w.initialized ≡ negsuc 0
      → Informs e b w.info
      → Sound (inform e b w)
  Sound-inform e true w h i n =
      subst Sound
        (sym (if_false (no_info w.info) (with_info e true e.viewer_info w) (launch e w) n))
        (Sound-launch e w h i)
  Sound-inform e false w h i n =
      if_both Sound (no_info w.info) (with_info e false e.viewer_info w) w
        (Sound-read e e.viewer_info w h i n) (Sound-failed w (Launched-Fresh w h) i)
