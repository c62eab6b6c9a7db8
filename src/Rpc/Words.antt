-- ===== src/Rpc/Words.antt =====
-- The C types that src/rpc.c puts on the wire, and their bytes.
use nspluginwrapper.Prelude.{
  ℕ, ◌+◌, ◌-◌, ◌*◌, ◌/◌, ◌%◌, ◌^◌, ◌<◌, ◌≡◌, refl, arith, ltb, if◌then◌else◌, List, [], ◌∷◌, length,
  ℤ, pos, negsuc,
}

abbrev pub IsByte : ℕ → Type 0
IsByte b = b < 256

abbrev pub IsU32 : ℕ → Type 0
IsU32 w = w < 2 ^ 32

abbrev pub IsU64 : ℕ → Type 0
IsU64 w = w < 2 ^ 64

abbrev pub IsInt32 : ℤ → Type 0
IsInt32 (pos n) = n < 2 ^ 31
IsInt32 (negsuc n) = n < 2 ^ 31

-- The conversions between `int32_t` and `uint32_t`.
unfoldable pub to_u32 : ℤ → ℕ
to_u32 (pos n) = n % 2 ^ 32
to_u32 (negsuc n) = 2 ^ 32 - 1 - n % 2 ^ 32

unfoldable pub to_i32 : ℕ → ℤ
to_i32 w = if ltb w (2 ^ 31) then pos w else negsuc (2 ^ 32 - 1 - w)

-- The four bytes in memory of `htonl(w)`: network order.
unfoldable pub htonl_bytes : ℕ → List ℕ
htonl_bytes w = (w / 2 ^ 24 % 256) ∷ (w / 2 ^ 16 % 256) ∷ (w / 2 ^ 8 % 256) ∷ (w % 256) ∷ []

-- `ntohl` of the word that stands in four bytes.
unfoldable pub ntohl_bytes : List ℕ → ℕ
ntohl_bytes (a ∷ b ∷ c ∷ d ∷ []) = a * 2 ^ 24 + b * 2 ^ 16 + c * 2 ^ 8 + d
ntohl_bytes _ = 0

-- The fields of `ieee_double_shape_t`: 1, 11, 20 and 32 bits.
pub record Double : Type 0 where
  pub negative : ℕ
  pub exponent : ℕ
  pub mantissa0 : ℕ
  pub mantissa1 : ℕ

pub record IsDouble (d : Double) : Type 0 where
  pub negative : d.negative < 2
  pub exponent : d.exponent < 2 ^ 11
  pub mantissa0 : d.mantissa0 < 2 ^ 20
  pub mantissa1 : d.mantissa1 < 2 ^ 32

pub to_i32-to_u32 : (z : ℤ) → IsInt32 z → to_i32 (to_u32 z) ≡ z
unfolding to_i32 to_u32
to_i32-to_u32 (pos n) h = ground arith
to_i32-to_u32 (negsuc n) h = ground arith

pub to_u32-IsU32 : (z : ℤ) → IsU32 (to_u32 z)
unfolding to_u32
to_u32-IsU32 (pos n) = omega arith
to_u32-IsU32 (negsuc n) = omega arith

pub ntohl_bytes-htonl_bytes : (w : ℕ) → IsU32 w → ntohl_bytes (htonl_bytes w) ≡ w
unfolding ntohl_bytes htonl_bytes
ntohl_bytes-htonl_bytes w h = omega arith

pub length-htonl_bytes : (w : ℕ) → length (htonl_bytes w) ≡ 4
unfolding htonl_bytes
length-htonl_bytes w = refl
