-- ===== src/Instances/Lifetime.antt =====
-- How long a plugin instance lives.
use nspluginwrapper.Prelude.{
  ℕ, ◌+◌, ◌-◌, ◌%◌, ◌^◌, ◌<◌, ◌==◌, Bool, true, false, if◌then◌else◌, List, [], ◌∷◌, Option, none,
  some, ◌≡◌, refl, ap, ◌∙◌, arith,
}
use nspluginwrapper.Rpc.Error.{Result, ok}
use nspluginwrapper.Rpc.Action.{Action, return, ◌>>=◌, ◌>>◌, continue}
use nspluginwrapper.Instances.{
  PluginInstance, PluginInstanceClass, Process, put_instance, hook, finalize_of, ref_found,
  unref_found, instance_ref, instance_unref, instance_new, destroy_instance,
}

pub data Use : Type 0 where
  take give : Use

-- From `n` references to `m` by these calls, of which none gives back the last reference.
pub data Stays : ℕ → List Use → ℕ → Type 0 where
  nothing : {n : ℕ} → Stays n [] n
  taking : {n m : ℕ} {us : List Use} → n + 1 < 2 ^ 32 → Stays (n + 1) us m → Stays n (take ∷ us) m
  giving : {n m : ℕ} {us : List Use} → 0 < n → Stays n us m → Stays (n + 1) (give ∷ us) m

module _ {W : Type 0} (a : ℕ) where
  abbrev pub after : Option (ℕ → W → W) → W → W
  after none w = w
  after (some f) w = f a w

  pub world-hook : (f : Option (ℕ → W → W)) (p : Process W) → (hook f a p).world ≡ after f p.world
  world-hook none p = refl
  world-hook (some f) p = refl

module _ {W : Type 0} (klass : Option (PluginInstanceClass W)) (a : ℕ) where
  abbrev pub use_one : Use → Action (Process W) (Unit {0})
  use_one take = instance_ref (some a)
  use_one give = instance_unref klass (some a)

  pub uses : List Use → Action (Process W) (Unit {0})
  uses [] = return tt
  uses (u ∷ us) = use_one u >> uses us

  -- The instance is there with so many references.
  abbrev pub Counts : ℕ → W → Process W → Type 0
  Counts n w p =
      (v : Bool) × (p.instances a ≡ some (record { refcount = n; is_valid = v })) × (p.world ≡ w)

  pub same_address :
      (i : Option PluginInstance) (o : Option PluginInstance) → (if a == a then i else o) ≡ i
  same_address i o = ground arith

  -- The process after the class's finalizer.
  abbrev pub finalized : W → W
  finalized w = after a (finalize_of klass) w

  abbrev pub counted : ℕ → Bool → PluginInstance
  counted n v = record { refcount = n; is_valid = v }

  pub ref-Counts :
      (n : ℕ) (w : W) (p : Process W)
      → n + 1 < 2 ^ 32
      → Counts n w p
      → (p' : Process W) × (instance_ref (some a) p ≡ (ok tt, p')) × Counts (n + 1) w p'
  unfolding instance_ref
  ref-Counts n w p lt (v, there, same) =
      let more : (n + 1) % 2 ^ 32 ≡ n + 1 = omega (arith, lt) in
      (
        put_instance a (some (counted ((n + 1) % 2 ^ 32) v)) p,
        ap (λ o. ref_found a o p) there,
        (v, same_address _ (p.instances a) ∙ ap (λ c. some (counted c v)) more, same),
      )

  pub unref-Counts :
      (n : ℕ) (w : W) (p : Process W)
      → 0 < n
      → n + 1 < 2 ^ 32
      → Counts (n + 1) w p
      → (p' : Process W) × (instance_unref klass (some a) p ≡ (ok tt, p')) × Counts n w p'
  unfolding instance_unref
  unref-Counts n w p some_left lt (v, there, same) =
      let c = (n + 1 + 2 ^ 32 - 1) % 2 ^ 32 in
      let fewer : c ≡ n = omega (arith, lt) in
      let left : (c == 0) ≡ false = ground arith in
      let p' = put_instance a (some (counted c v)) p in
      (
        p',
        ap (λ o. unref_found klass a o p) there
            ∙ ap
                (λ b.
                  if◌then◌else◌ {A = Result (Unit {0}) × Process W} b
                    (ok tt, destroy_instance klass a p') (ok tt, p'))
                left,
        (v, same_address _ (p.instances a) ∙ ap (λ k. some (counted k v)) fewer, same),
      )

  -- The last reference.
  pub last-unref :
      (w : W) (p : Process W)
      → Counts 1 w p
      → (p' : Process W) × (instance_unref klass (some a) p ≡ (ok tt, p'))
        × (p'.instances a ≡ none)
        × (p'.world ≡ finalized w)
  unfolding instance_unref
  last-unref w p (v, there, same) =
      let p1 = put_instance a (some (counted 0 v)) p in
      (
        destroy_instance klass a p1,
        ap (λ o. unref_found klass a o p) there,
        same_address none _,
        world-hook a (finalize_of klass) p1 ∙ ap finalized same,
      )

  pub uses-Counts :
      (n m : ℕ) (us : List Use) (w : W) (p : Process W)
      → Stays n us m
      → n < 2 ^ 32
      → Counts n w p
      → (p' : Process W) × (uses us p ≡ (ok tt, p')) × Counts m w p'
  unfolding uses return ◌>>=◌ instance_ref instance_unref
  uses-Counts n m _ w p nothing lt c = (p, refl, c)
  uses-Counts n m _ w p (taking {us = us} fits more) lt c =
      let (p1, done, c1) = ref-Counts n w p fits c in
      let (p2, rest, c2) = uses-Counts (n + 1) m us w p1 more fits c1 in
      (p2, ap (λ r. continue r.0 (λ u. uses us) r.1) done ∙ rest, c2)
  uses-Counts _ m _ w p (giving {n = n} {us = us} some_left more) lt c =
      let (p1, done, c1) = unref-Counts n w p some_left lt c in
      let (p2, rest, c2) = uses-Counts n m us w p1 more (omega (arith, lt)) c1 in
      (p2, ap (λ r. continue r.0 (λ u. uses us) r.1) done ∙ rest, c2)

  -- A plugin instance is made, references to it are taken and given back, in an order in which the
  -- last one is kept until the end, and then this one is given back. No call fails; the instance
  -- is there until the last call, and gone after it; and its finalizer has run once, with nothing
  -- else done to the process.
  pub lifetime :
      (us : List Use) (p : Process W)
      → Stays 1 us 1
      → (p' : Process W) × (p'' : Process W) × (uses us (instance_new a p) ≡ (ok tt, p'))
        × Counts 1 p.world p'
        × (instance_unref klass (some a) p' ≡ (ok tt, p''))
        × (p''.instances a ≡ none)
        × (p''.world ≡ finalized p.world)
  unfolding instance_new
  lifetime us p stays =
      let (p', used, c) =
        uses-Counts 1 1 us p.world (instance_new a p) stays (omega arith)
          (true, same_address _ (p.instances a), refl) in
      let (p'', done, gone, final) = last-unref p.world p' c in
      (p', p'', used, c, done, gone, final)
