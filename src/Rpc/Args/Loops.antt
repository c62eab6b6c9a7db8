-- ===== src/Rpc/Args/Loops.antt =====
-- The loops over the elements of an array in rpc_message_send_args and rpc_message_recv_args, and
-- the marks around the arguments.
use native.Mathlib.Nat.{suc-mul}
use nspluginwrapper.Prelude.{
  ℕ, zero, suc, ◌+◌, ◌-◌, ◌*◌, ◌%◌, ◌^◌, ◌<◌, ◌≤◌, ◌≡◌, leb, refl, subst, arith, true, List, [],
  ◌∷◌, All, length, ℤ, ==ℤ_iff,
}
use nspluginwrapper.Rpc.Words.{IsInt32}
use nspluginwrapper.Rpc.Message.{Send}
use nspluginwrapper.Rpc.Reader.{Reader}
use nspluginwrapper.Rpc.Reader.Parses.{Parses-return}
use nspluginwrapper.Rpc.Carries.{Carries, Carries-bind, Carries-last, Carries-return}
use nspluginwrapper.Rpc.Carries.Scalars.{send_int32-Carries}
use nspluginwrapper.Rpc.Message.{send_int32}
use nspluginwrapper.Rpc.Args.Sending.{send_each}
use nspluginwrapper.Rpc.Args.Receiving.{recv_each, recv_into, recv_marker}

pub send_each-Carries :
    {A : Type 0} {P : A → Type 0} (f : A → Send) (r : Reader A)
    → ((x : A) → P x → Carries (f x) r x)
    → (xs : List A) → All P xs
    → Carries (send_each f xs) (recv_each r (length xs)) xs
unfolding send_each recv_each
send_each-Carries f r one [] h = Carries-return []
send_each-Carries f r one (x ∷ xs) h =
    Carries-bind _ _ _ _ (one x h.0)
      (Carries-last _ _ _ (send_each-Carries f r one xs h.1) (Parses-return (x ∷ xs)))

first_fits : (a b c : ℕ) → b + a ≤ c → (leb a c ≡ true) × (b ≤ c - a)
first_fits a b c le = (ground arith, omega (arith, le))

-- The elements all fit into the block.
pub recv_into-each :
    {A : Type 0} (r : Reader A) (size room n : ℕ)
    → n * size ≤ room
    → recv_into r size room n ≡ recv_each r n
unfolding recv_into recv_each
recv_into-each r size room zero le = refl
recv_into-each r size room (suc n) le =
    let (fit, rest) = first_fits size (n * size) room (subst (λ x. x ≤ room) (suc-mul n size) le) in
    rw (fit, recv_into-each r size (room - size) n rest) refl

pub fits : (n : ℕ) → n < 2 ^ 32 → n ≤ n % 2 ^ 32
fits n lt = omega (arith, lt)

pub marker_carried : (m : ℤ) → IsInt32 m → Carries (send_int32 m) (recv_marker m) tt
unfolding recv_marker
marker_carried m h =
    Carries-last _ _ _ (send_int32-Carries m h) (rw ((==ℤ_iff m m).1 refl) (Parses-return tt))
