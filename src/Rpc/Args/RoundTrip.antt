-- ===== src/Rpc/Args/RoundTrip.antt =====
-- What `rpc_message_send_args` sends, `rpc_message_recv_args` receives.
use nspluginwrapper.Prelude.{ℕ, ◌*◌, ◌^◌, ◌<◌, ◌≡◌, ltb, Bool, if◌then◌else◌, All, length, some, ℤ}
use nspluginwrapper.Rpc.Words.{IsDouble, IsByte, IsU32, IsU64, IsInt32}
use nspluginwrapper.Rpc.Reader.{Reader}
use nspluginwrapper.Rpc.Carries.{Carries}
use nspluginwrapper.Rpc.Carries.Strings.{IsSendable}
use nspluginwrapper.Rpc.Args.Types.{
  other_tag, tag_of, Types, Descriptor, Items, chars, booleans, int32s, uint32s, uint64s, doubles,
  strings, users, Arg, char, boolean, int32, uint32, uint64, double, string, array, null_array,
  user, items_type, items_length,
}

module _ {V : Type 0} (malloc : ℕ → Bool) (types : Types V) where
  -- A type that both ends have a marshaler for.
  pub record IsKnown (t : ℤ) : Type 0 where
    pub int32 : IsInt32 t
    pub other : tag_of t ≡ other_tag
    pub descriptor : Descriptor V
    pub known : types t ≡ some descriptor

  -- The marshaler's two callbacks fit together at this value.
  abbrev pub IsMarshalled : {t : ℤ} → IsKnown t → V → Type 0
  IsMarshalled k v = Carries (k.descriptor.send_callback v) k.descriptor.recv_callback v

  abbrev pub IsItems : Items V → Type 0
  IsItems (chars xs) = Unit
  IsItems (booleans xs) = All IsInt32 xs
  IsItems (int32s xs) = All IsInt32 xs
  IsItems (uint32s xs) = All IsU32 xs
  IsItems (uint64s xs) = All IsU64 xs
  IsItems (doubles xs) = All IsDouble xs
  IsItems (strings xs) = All (IsSendable malloc) xs
  IsItems (users t xs) =
      (k : IsKnown t) × (length xs * k.descriptor.size < 2 ^ 32) × All (IsMarshalled k) xs

  abbrev pub IsArg : Arg V → Type 0
  IsArg (char c) = IsByte c
  IsArg (boolean v) = IsInt32 v
  IsArg (int32 v) = IsInt32 v
  IsArg (uint32 v) = IsU32 v
  IsArg (uint64 v) = IsU64 v
  IsArg (double d) = IsDouble d
  IsArg (string s) = IsSendable malloc s
  IsArg (array xs) = (items_length xs < 2 ^ 31) × IsItems xs
  IsArg (null_array t n) = IsInt32 t × IsU32 n
  IsArg (user t v) = (k : IsKnown t) × IsMarshalled k v

  -- An array without elements arrives as NULL, of size 0.
  abbrev pub as_received : Arg V → Arg V
  as_received (char c) = char c
  as_received (boolean v) = boolean v
  as_received (int32 v) = int32 v
  as_received (uint32 v) = uint32 v
  as_received (uint64 v) = uint64 v
  as_received (double d) = double d
  as_received (string s) = string s
  as_received (array xs) =
      if ltb 0 (items_length xs) then array xs else null_array (items_type xs) (items_length xs)
  as_received (null_array t n) = null_array t n
  as_received (user t v) = user t v
