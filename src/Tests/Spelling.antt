-- ===== src/Tests/Spelling.antt =====
-- Numbers that spell a string or an integer.
use nspluginwrapper.Prelude.{
  ℕ, zero, suc, ◌+◌, ◌*◌, ◌/◌, ◌%◌, ◌≤◌, ◌<◌, ◌==◌, Bool, true, false, if◌then◌else◌, if_false,
  List, [], ◌∷◌, length, ℤ, pos, negsuc, ◌≡◌, refl, ap, ◌∙◌, arith,
}
use nspluginwrapper.Identifiers.{Text}

-- Each character as so many ones, then a zero.

abbrev pub spell : ℕ → List Bool → List Bool
spell zero rest = false ∷ rest
spell (suc n) rest = true ∷ spell n rest

unfoldable pub text_bits : Text → List Bool
text_bits [] = []
text_bits (x ∷ s) = spell x (text_bits s)

-- `n` ones have gone before.
unfoldable pub read : ℕ → List Bool → Text
read n [] = []
read n (false ∷ bs) = n ∷ read 0 bs
read n (true ∷ bs) = read (suc n) bs

read-spell : (m n k : ℕ) (bs : List Bool) → k ≡ m + n → read m (spell n bs) ≡ k ∷ read 0 bs
unfolding read
read-spell m zero k bs e = ap (λ i. i ∷ read 0 bs) (omega arith)
read-spell m (suc n) k bs e = read-spell (suc m) n k bs (omega arith)

read-text_bits : (s : Text) → read 0 (text_bits s) ≡ s
unfolding read text_bits
read-text_bits [] = refl
read-text_bits (x ∷ s) =
    read-spell 0 x x (text_bits s) (omega arith) ∙ ap (λ r. x ∷ r) (read-text_bits s)

abbrev pub bit : Bool → ℕ
bit true = 1
bit false = 0

-- Binary, below a leading one.
unfoldable pub number_of_bits : List Bool → ℕ
number_of_bits [] = 1
number_of_bits (b ∷ bs) = 2 * number_of_bits bs + bit b

unfoldable pub bits_of : ℕ → ℕ → List Bool
bits_of zero n = []
bits_of (suc f) n = let rest = bits_of f (n / 2) in if n == 1 then [] else (n % 2 == 1) ∷ rest

pub number_of_bits_pos : (bs : List Bool) → 1 ≤ number_of_bits bs
unfolding number_of_bits
number_of_bits_pos [] = omega arith
number_of_bits_pos (b ∷ bs) = omega (arith, number_of_bits_pos bs)

bit_step :
    (b : Bool) (n : ℕ)
    → 1 ≤ n
    → (((2 * n + bit b) == 1) ≡ false)
      × ((((2 * n + bit b) % 2) == 1) ≡ b)
      × ((2 * n + bit b) / 2 ≡ n)
bit_step true n h = (ground arith, ground arith, omega arith)
bit_step false n h = (ground arith, ground arith, omega arith)

bits_of-number : (bs : List Bool) (f : ℕ) → length bs < f → bits_of f (number_of_bits bs) ≡ bs
unfolding bits_of number_of_bits
bits_of-number [] zero h = absurd (omega arith)
bits_of-number [] (suc f) h = refl
bits_of-number (b ∷ bs) zero h = absurd (omega arith)
bits_of-number (b ∷ bs) (suc f) h =
    let n = number_of_bits bs in
    let (large, low, half) = bit_step b n (number_of_bits_pos bs) in
    if_false ((2 * n + bit b) == 1) []
      (((2 * n + bit b) % 2 == 1) ∷ bits_of f ((2 * n + bit b) / 2)) large
    ∙ ap (λ t. t ∷ bits_of f ((2 * n + bit b) / 2)) low
    ∙ ap (λ m. b ∷ bits_of f m) half
    ∙ ap (λ r. b ∷ r) (bits_of-number bs f (omega arith))

length-number_of_bits : (bs : List Bool) → length bs < number_of_bits bs
unfolding number_of_bits
length-number_of_bits [] = omega arith
length-number_of_bits (b ∷ bs) = omega (arith, length-number_of_bits bs)

unfoldable pub string_code : Text → ℕ
unfolding text_bits number_of_bits
string_code s = 2 * number_of_bits (text_bits s)

unfoldable pub text_of : ℕ → Text
unfolding read bits_of
text_of k = read 0 (bits_of k (k / 2))

pub text_of-string_code : (s : Text) → text_of (string_code s) ≡ s
unfolding text_of string_code
text_of-string_code s =
    let n = number_of_bits (text_bits s) in
    let half : 2 * n / 2 ≡ n = omega arith in
    ap (λ m. read 0 (bits_of (2 * n) m)) half
    ∙ ap (read 0)
        (bits_of-number (text_bits s) (2 * n) (omega (arith, length-number_of_bits (text_bits s))))
    ∙ read-text_bits s

unfoldable pub int_code : ℤ → ℕ
int_code (pos n) = 4 * n + 1
int_code (negsuc n) = 4 * n + 3

unfoldable pub int_of : ℕ → ℤ
int_of k = if k % 4 == 1 then pos (k / 4) else negsuc (k / 4)
