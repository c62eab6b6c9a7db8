-- ===== src/Tests/Instances.antt =====
-- A plugin instance at concrete inputs: the rest of the process is the number of finalizers run.
use nspluginwrapper.Prelude.{ℕ, ◌+◌, [], ◌∷◌, Option, some, none, ◌≡◌, arith}
use nspluginwrapper.Rpc.Error.{ok}
use nspluginwrapper.Instances.{PluginInstanceClass, Process, instance_new, instance_unref}
use nspluginwrapper.Instances.Lifetime.{
  take, give, taking, giving, nothing, uses, Counts, finalized, lifetime,
}

abbrev counting : Option (PluginInstanceClass ℕ)
counting = some (record { finalize = some (λ a n. n + 1); invalidate = none })

abbrev no_instances : Process ℕ
no_instances = record { instances = λ a. none; world = 0 }

lifetime_example :
    (p' : Process ℕ) × (p'' : Process ℕ) × (uses counting 8
        (take ∷ give ∷ [])
        (instance_new 8 no_instances)
      ≡ (ok tt, p'))
    × Counts counting 8 1 0 p'
    × (instance_unref counting (some 8) p' ≡ (ok tt, p''))
    × (p''.instances 8 ≡ none)
    × (p''.world ≡ finalized counting 8 0)
lifetime_example =
    lifetime counting 8 (take ∷ give ∷ []) no_instances
      (taking (omega arith) (giving (omega arith) nothing))
