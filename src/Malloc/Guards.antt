-- ===== src/Malloc/Guards.antt =====
-- The loop of malloc_check_guards_ok counts the bytes of the two guards that have changed.
use nspluginwrapper.Prelude.{
  ℕ, zero, suc, ◌+◌, ◌-◌, ◌%◌, ◌^◌, ◌≤◌, ◌<◌, ◌≡◌, refl, ap, sym, ◌∙◌, arith,
}
use nspluginwrapper.Malloc.{guard_mark, one_more, guards_loop}

-- How many of the `n` bytes from `p` on are not the mark.
unfoldable pub changed : (ℕ → ℕ) → ℕ → ℕ → ℕ
changed f p zero = 0
changed f p (suc n) = one_more (f (p + n)) (changed f p n)

pub one_more-add : (b n m : ℕ) → one_more b (n + m) ≡ one_more b n + m
one_more-add b n m = ground arith

pub one_more-swap : (b c n : ℕ) → one_more b (one_more c n) ≡ one_more c (one_more b n)
one_more-swap b c n = ground arith

pub one_more-move : (b n m : ℕ) → one_more b n + m ≡ n + one_more b m
one_more-move b n m = ground arith

pub pair : {a b c d : ℕ} → a ≡ c → b ≡ d → ◌≡◌ {A = ℕ × ℕ} (a, b) (c, d)
pair {b = b} {c = c} p q = ap (λ x. (x, b)) p ∙ ap (λ y. (c, y)) q

pub changed-first :
    (f : ℕ → ℕ) (p n : ℕ) → changed f p (suc n) ≡ one_more (f p) (changed f (p + 1) n)
unfolding changed
changed-first f p zero = ap (λ a. one_more (f a) 0) (omega arith)
changed-first f p (suc n) =
    ap (λ c. one_more (f (p + suc n)) c) (changed-first f p n)
    ∙ one_more-swap (f (p + suc n)) (f p) (changed f (p + 1) n)
    ∙ ap (λ a. one_more (f p) (one_more (f a) (changed f (p + 1) n))) (omega arith)

pub loop-changed :
    (f : ℕ → ℕ) (ptr size n i under over : ℕ)
    → i + n ≤ ptr
    → size + (i + n) ≤ 2 ^ 32
    → guards_loop f ptr size n i under over
      ≡ (under + changed f (ptr - (i + n)) n, over + changed f (ptr + size + i) n)
unfolding guards_loop changed
loop-changed f ptr size zero i under over le small = pair (omega arith) (omega arith)
loop-changed f ptr size (suc n) i under over le small =
    let at : ptr + (size + i) % 2 ^ 32 ≡ ptr + size + i = omega (arith, small) in
    loop-changed f ptr size n (i + 1) _ _ (omega (arith, le)) (omega (arith, small))
    ∙ pair
        (one_more-move (f (ptr - (1 + i))) under (changed f (ptr - (i + 1 + n)) n)
          ∙ ap (λ a. under + one_more (f a) (changed f (ptr - (i + 1 + n)) n)) (omega (arith, le))
          ∙ ap (λ a. under + one_more (f (ptr - (i + suc n) + n)) (changed f a n))
              (omega (arith, le)))
        (ap (λ a. one_more (f a) over + changed f (ptr + size + (i + 1)) n) at
          ∙ one_more-move (f (ptr + size + i)) over (changed f (ptr + size + (i + 1)) n)
          ∙ ap (λ a. over + one_more (f (ptr + size + i)) (changed f a n)) (omega arith)
          ∙ ap (λ c. over + c) (sym (changed-first f (ptr + size + i) n)))

-- All bytes are the mark.
pub changed-none :
    (f : ℕ → ℕ) (p n : ℕ) → ((k : ℕ) → k < n → f (p + k) ≡ guard_mark) → changed f p n ≡ 0
unfolding changed
changed-none f p zero e = refl
changed-none f p (suc n) e =
    let ih = changed-none f p n (λ k lt. e k (omega (arith, lt))) in
    let last = e n (omega arith) in ground arith
