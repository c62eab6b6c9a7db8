-- ===== src/Rpc/Error.antt =====
-- The error codes of src/rpc.h, and the result of a call that may fail.
use nspluginwrapper.Prelude.{◌≡◌, true, ℤ, pos, negsuc, is_neg, refl}

pub data Error : Type 0 where
  generic errno_set no_memory connection_null connection_closed connection_type_mismatch : Error
  message_timeout message_truncated message_type_invalid message_handler_invalid : Error
  message_argument_mismatch message_argument_unknown message_argument_invalid : Error
  message_sync_not_allowed : Error

-- The C value, for the functions that return a plain `int`.
abbrev pub code : Error → ℤ
code generic = negsuc 999
code errno_set = negsuc 1000
code no_memory = negsuc 1001
code connection_null = negsuc 1002
code connection_closed = negsuc 1003
code connection_type_mismatch = negsuc 1004
code message_timeout = negsuc 1005
code message_truncated = negsuc 1006
code message_type_invalid = negsuc 1007
code message_handler_invalid = negsuc 1008
code message_argument_mismatch = negsuc 1009
code message_argument_unknown = negsuc 1010
code message_argument_invalid = negsuc 1011
code message_sync_not_allowed = negsuc 1012

pub is_neg-code : (e : Error) → is_neg (code e) ≡ true
is_neg-code generic = refl
is_neg-code _ = refl

-- RPC_ERROR_NO_ERROR with the value that the call delivers, an error, or the end of the process by
-- `assert` or `abort`.
pub data Result {ℓ} (A : Type ℓ) : Type ℓ where
  ok : A → Result A
  err : Error → Result A
  abort : Result A

-- RPC_ERROR_NO_ERROR
abbrev pub no_error : ℤ
no_error = pos 0
