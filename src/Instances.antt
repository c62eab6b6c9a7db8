-- ===== src/Instances.antt =====
-- The reference counts of NPW_PluginInstance in src/npw-common.c. The class of an instance belongs to
-- the wrapper or the viewer; its hooks act on the rest of the process.
pub mod Lifetime
use nspluginwrapper.Prelude.{
  ℕ, ◌+◌, ◌-◌, ◌%◌, ◌^◌, ◌==◌, Bool, true, false, if◌then◌else◌, List, [], ◌∷◌, Option, none, some,
}
use nspluginwrapper.Rpc.Error.{Result, ok, abort}
use nspluginwrapper.Rpc.Action.{Action}

-- The `int` as its bit pattern. The class is NULL, or has hooks, which may be NULL.
pub record PluginInstance : Type 0 where
  pub refcount : ℕ
  pub is_valid : Bool

-- The hooks but `allocate` and `deallocate`, in which the classes of the repository make and free the
-- structure and no more.
pub record PluginInstanceClass (W : Type 0) : Type 0 where
  pub finalize : Option (ℕ → W → W)
  pub invalidate : Option (ℕ → W → W)

-- The instances by their addresses, and the rest of the process.
pub record Process (W : Type 0) : Type 0 where
  pub instances : ℕ → Option PluginInstance
  pub world : W

module _ {W : Type 0} where
  abbrev pub put_instance : ℕ → Option PluginInstance → Process W → Process W
  put_instance a i p = record p { instances = λ b. if b == a then i else p.instances b }

  abbrev pub hook : Option (ℕ → W → W) → ℕ → Process W → Process W
  hook none a p = p
  hook (some f) a p = record p { world = f a p.world }

  abbrev pub finalize_of : Option (PluginInstanceClass W) → Option (ℕ → W → W)
  finalize_of none = none
  finalize_of (some k) = k.finalize

  abbrev pub invalidate_of : Option (PluginInstanceClass W) → Option (ℕ → W → W)
  invalidate_of none = none
  invalidate_of (some k) = k.invalidate

  -- npw_plugin_instance_new, with the memory found at `a`
  unfoldable pub instance_new : ℕ → Process W → Process W
  instance_new a = put_instance a (some (record { refcount = 1; is_valid = true }))

  -- npw_plugin_instance_ref of an instance: an access to one that is gone ends the process.
  abbrev pub ref_found : ℕ → Option PluginInstance → Action (Process W) (Unit {0})
  ref_found a none p = (abort, p)
  ref_found a (some i) p =
      (ok tt, put_instance a (some (record i { refcount = (i.refcount + 1) % 2 ^ 32 })) p)

  unfoldable pub instance_ref : Option ℕ → Action (Process W) (Unit {0})
  instance_ref none p = (ok tt, p)
  instance_ref (some a) p = ref_found a (p.instances a) p

module _ {W : Type 0} (klass : Option (PluginInstanceClass W)) where
  -- The end of npw_plugin_instance_unref: the finalizer, then the memory goes.
  abbrev pub destroy_instance : ℕ → Process W → Process W
  destroy_instance a p = put_instance a none (hook (finalize_of klass) a p)

  -- g_atomic_int_dec_and_test
  abbrev pub decremented : PluginInstance → PluginInstance
  decremented i = record i { refcount = (i.refcount + 2 ^ 32 - 1) % 2 ^ 32 }

  abbrev pub unref_found : ℕ → Option PluginInstance → Action (Process W) (Unit {0})
  unref_found a none p = (abort, p)
  unref_found a (some i) p =
      let p' = put_instance a (some (decremented i)) p in
      if (decremented i).refcount == 0 then (ok tt, destroy_instance a p') else (ok tt, p')

  unfoldable pub instance_unref : Option ℕ → Action (Process W) (Unit {0})
  instance_unref none p = (ok tt, p)
  instance_unref (some a) p = unref_found a (p.instances a) p

  -- npw_plugin_instance_invalidate: the hook, then the flag.
  abbrev pub invalidate_found : ℕ → Option PluginInstance → Action (Process W) (Unit {0})
  invalidate_found a none p = (abort, p)
  invalidate_found a (some i) p = (
    ok tt,
    put_instance a (some (record i { is_valid = false })) (hook (invalidate_of klass) a p),
  )

  unfoldable pub instance_invalidate : Option ℕ → Action (Process W) (Unit {0})
  instance_invalidate none p = (ok tt, p)
  instance_invalidate (some a) p = invalidate_found a (p.instances a) p
