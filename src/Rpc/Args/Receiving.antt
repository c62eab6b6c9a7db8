-- ===== src/Rpc/Args/Receiving.antt =====
-- `rpc_message_recv_args` of src/rpc.c.
use nspluginwrapper.Prelude.{
  ℕ, zero, suc, ◌-◌, ◌*◌, ◌%◌, ◌^◌, ◌==◌, leb, Bool, List, [], ◌∷◌, Option, none, some, ℤ, ◌==ℤ◌,
  if◌then◌else◌,
}
use nspluginwrapper.Rpc.Error.{
  message_truncated, message_argument_mismatch, message_argument_unknown,
}
use nspluginwrapper.Rpc.Action.{return, fail, halt, ◌>>=◌, ◌>>◌}
use nspluginwrapper.Rpc.Socket.Recv.{recv_bytes}
use nspluginwrapper.Rpc.Reader.{
  Reader, recv_char, recv_int32, recv_uint32, recv_uint64, recv_double, recv_string, when_allocated,
}
use nspluginwrapper.Rpc.Args.Types.{
  Tag, char_tag, boolean_tag, int32_tag, uint32_tag, uint64_tag, double_tag, string_tag, array_tag,
  other_tag, tag_of, Types, Descriptor, Items, chars, booleans, int32s, uint32s, uint64s, doubles,
  strings, users, Arg, char, boolean, int32, uint32, uint64, double, string, array, null_array,
  user,
}
use nspluginwrapper.Rpc.Args.Sending.{message_args, message_end}

-- `for (i = 0; i < array_size; i++)` over one reader
unfoldable pub recv_each : {A : Type 0} → Reader A → ℕ → Reader (List A)
recv_each r zero = return []
recv_each r (suc n) = do x ← r; xs ← recv_each r n; return (x ∷ xs)

-- The same loop over elements of `size` bytes that are written into a block of `room` bytes. An
-- element that does not fit is written past the block's end, which is the end here.
unfoldable pub recv_into : {A : Type 0} → Reader A → ℕ → ℕ → ℕ → Reader (List A)
recv_into r size room zero = return []
recv_into r size room (suc n) =
    let rest = recv_into r size (room - size) n in
    if leb size room then (do x ← r; xs ← rest; return (x ∷ xs)) else halt

-- `RPC_MESSAGE_ARGS` or `RPC_MESSAGE_END`, or the message is cut.
unfoldable pub recv_marker : ℤ → Reader (Unit {0})
recv_marker expected = do
  value ← recv_int32
  if value ==ℤ expected then return tt else fail message_truncated

module _ {V : Type 0} (malloc : ℕ → Bool) (types : Types V) where
  -- `array_size * sizeof(*array)` bytes, a product of 64 bits, then the elements.
  unfoldable pub recv_array : {A : Type 0} → ℕ → Reader A → ℕ → (List A → Items V) → Reader (Arg V)
  unfolding when_allocated
  recv_array element_size r array_size make =
      when_allocated malloc (array_size * element_size)
        (do xs ← recv_each r array_size; return (array (make xs)))

  -- `array_size * desc->size` bytes, a product of 32 bits that wraps around, then the elements.
  unfoldable pub recv_users : Option (Descriptor V) → ℤ → ℕ → Reader (Arg V)
  unfolding when_allocated recv_into
  recv_users none t array_size = fail message_argument_unknown
  recv_users (some d) t array_size =
      let block = (array_size * d.size) % 2 ^ 32 in
      when_allocated malloc block
        (do xs ← recv_into d.recv_callback d.size block array_size; return (array (users t xs)))

  -- `switch (array_type)`; pointers are of 8 bytes.
  unfoldable pub recv_items : Tag → ℤ → ℕ → Reader (Arg V)
  unfolding recv_array recv_users
  recv_items char_tag t array_size =
      when_allocated malloc (array_size * 1)
        (do bytes ← recv_bytes array_size; return (array (chars bytes)))
  recv_items boolean_tag t array_size = recv_array 4 recv_int32 array_size booleans
  recv_items int32_tag t array_size = recv_array 4 recv_int32 array_size int32s
  recv_items uint32_tag t array_size = recv_array 4 recv_uint32 array_size uint32s
  recv_items uint64_tag t array_size = recv_array 8 recv_uint64 array_size uint64s
  recv_items double_tag t array_size = recv_array 8 recv_double array_size doubles
  recv_items string_tag t array_size = recv_array 8 (recv_string malloc) array_size strings
  recv_items array_tag t array_size = recv_users (types t) t array_size
  recv_items other_tag t array_size = recv_users (types t) t array_size

  -- The element type that the caller names in its `va_list` is skipped: only the received one counts.
  unfoldable pub recv_array_value : Reader (Arg V)
  recv_array_value = do
    array_type ← recv_int32
    array_size ← recv_uint32
    is_valid_array ← recv_char
    if is_valid_array == 0
        then return (null_array array_type array_size)
        else if array_size == 0
        then halt
        else recv_items (tag_of array_type) array_type array_size

  unfoldable pub recv_user : Option (Descriptor V) → ℤ → Reader (Arg V)
  recv_user none t = fail message_argument_unknown
  recv_user (some d) t = do v ← d.recv_callback; return (user t v)

  -- `switch (type)`
  unfoldable pub recv_value : Tag → ℤ → Reader (Arg V)
  recv_value char_tag t = do c ← recv_char; return (char c)
  recv_value boolean_tag t = do v ← recv_int32; return (boolean v)
  recv_value int32_tag t = do v ← recv_int32; return (int32 v)
  recv_value uint32_tag t = do v ← recv_uint32; return (uint32 v)
  recv_value uint64_tag t = do v ← recv_uint64; return (uint64 v)
  recv_value double_tag t = do v ← recv_double; return (double v)
  recv_value string_tag t = do v ← recv_string malloc; return (string v)
  recv_value array_tag t = recv_array_value
  recv_value other_tag t = recv_user (types t) t

  unfoldable pub recv_arg : ℤ → Reader (Arg V)
  recv_arg expected_type = do
    type ← recv_int32
    if type ==ℤ expected_type then recv_value (tag_of type) type else fail message_argument_mismatch

  unfoldable pub recv_list : List ℤ → Reader (List (Arg V))
  recv_list [] = return []
  recv_list (t ∷ ts) = do a ← recv_arg t; args ← recv_list ts; return (a ∷ args)

  -- The arguments of the expected types, which the caller's `va_list` names.
  unfoldable pub recv_args : List ℤ → Reader (List (Arg V))
  recv_args [] = return []
  recv_args (t ∷ ts) = do
    recv_marker message_args
    args ← recv_list (t ∷ ts)
    recv_marker message_end
    return args
