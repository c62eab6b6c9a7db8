-- ===== src/Wrapper/Kill.antt =====
-- How plugin_exit of src/npw-wrapper.c waits for the viewer, and ends it.
use nspluginwrapper.Prelude.{
  ℕ, zero, suc, ◌+◌, ◌≤◌, Bool, false, if◌then◌else◌, if_both, List, [], ◌∷◌, ◌≡◌, ◌⊎◌, inl, inr,
  refl, ap, arith,
}

pub data Signal : Type 0 where
  sigterm sigkill : Signal

-- Whether the next waitpid finds that the child has ended, and what the ones after it find. Where
-- the list is over they find it alive.
abbrev pub ended : List Bool → Bool
ended [] = false
ended (b ∷ waits) = b

abbrev pub waited : List Bool → List Bool
waited [] = []
waited (b ∷ waits) = waits

-- The inner loop of plugin_exit: the signals that it sends, and how often it sleeps. The counter is
-- 3 less `left`.
unfoldable pub kill_loop : ℕ → List Bool → List Signal × ℕ
kill_loop zero waits = if ended waits then ([], 0) else (sigkill ∷ [], 0)
kill_loop (suc left) waits =
    let (signals, sleeps) = kill_loop left (waited waits) in
    if ended waits then ([], 0) else (signals, 1 + sleeps)

-- The outer one.
unfoldable pub term_loop : ℕ → List Bool → List Signal × ℕ
unfolding kill_loop
term_loop zero waits =
    let (signals, sleeps) = kill_loop 3 (waited waits) in
    if ended waits then ([], 0) else (sigterm ∷ signals, sleeps)
term_loop (suc left) waits =
    let (signals, sleeps) = term_loop left (waited waits) in
    if ended waits then ([], 0) else (signals, 1 + sleeps)

-- WAITPID_DELAY_TO_SIGTERM
abbrev pub shutdown : List Bool → List Signal × ℕ
shutdown waits = term_loop 3 waits

abbrev Loop : ℕ → List Signal × ℕ → Type 0
Loop n (signals, sleeps) = (sleeps ≤ n) × ((signals ≡ []) ⊎ (signals ≡ sigkill ∷ []))

kill_loop-Loop : (left : ℕ) (waits : List Bool) → Loop left (kill_loop left waits)
unfolding kill_loop
kill_loop-Loop zero waits =
    if_both (Loop 0) (ended waits) ([], 0) (sigkill ∷ [], 0) (omega arith, inl refl)
      (omega arith, inr refl)
kill_loop-Loop (suc left) waits =
    let (bound, kinds) = kill_loop-Loop left (waited waits) in
    let (signals, sleeps) = kill_loop left (waited waits) in
    if_both (Loop (suc left)) (ended waits) ([], 0) (signals, 1 + sleeps) (omega arith, inl refl)
      (omega arith, kinds)

-- What plugin_exit has sent to the viewer.
abbrev pub IsOrdered : List Signal → Type 0
IsOrdered signals = (signals ≡ []) ⊎ ((signals ≡ sigterm ∷ []) ⊎ (signals ≡ sigterm ∷ sigkill ∷ []))

abbrev Outer : ℕ → List Signal × ℕ → Type 0
Outer n (signals, sleeps) = (sleeps ≤ n + 3) × IsOrdered signals

term_loop-Outer : (left : ℕ) (waits : List Bool) → Outer left (term_loop left waits)
unfolding term_loop
term_loop-Outer zero waits =
    let (bound, kinds) = kill_loop-Loop 3 (waited waits) in
    let (signals, sleeps) = kill_loop 3 (waited waits) in
    if_both (Outer 0) (ended waits) ([], 0) (sigterm ∷ signals, sleeps) (omega arith, inl refl)
      (
        omega arith,
        elim kinds [
          | inl none_sent ↦ inr (inl (ap (λ l. sigterm ∷ l) none_sent))
          | inr one_sent ↦ inr (inr (ap (λ l. sigterm ∷ l) one_sent))
        ],
      )
term_loop-Outer (suc left) waits =
    let (bound, kinds) = term_loop-Outer left (waited waits) in
    let (signals, sleeps) = term_loop left (waited waits) in
    if_both (Outer (suc left)) (ended waits) ([], 0) (signals, 1 + sleeps) (omega arith, inl refl)
      (omega arith, kinds)

-- Whatever waitpid finds, plugin_exit sleeps for six seconds at most, and sends the viewer nothing,
-- SIGTERM, or SIGTERM and then SIGKILL.
pub shutdown-IsOrdered :
    (waits : List Bool) → ((shutdown waits).1 ≤ 6) × IsOrdered (shutdown waits).0
shutdown-IsOrdered waits = term_loop-Outer 3 waits
