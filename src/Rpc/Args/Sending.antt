-- ===== src/Rpc/Args/Sending.antt =====
-- `rpc_message_send_args` of src/rpc.c.
use nspluginwrapper.Prelude.{ℕ, ltb, List, [], ◌∷◌, Option, none, some, ℤ, negsuc, if◌then◌else◌}
use nspluginwrapper.Rpc.Error.{message_argument_unknown}
use nspluginwrapper.Rpc.Action.{return, fail, ◌>>◌}
use nspluginwrapper.Rpc.Message.{
  Send, send_bytes, send_char, send_int32, send_uint32, send_uint64, send_double, send_string,
}
use nspluginwrapper.Rpc.Args.Types.{
  Types, Descriptor, Items, chars, booleans, int32s, uint32s, uint64s, doubles, strings, users, Arg,
  char, boolean, int32, uint32, uint64, double, string, array, null_array, user, items_type,
  items_length, arg_type,
}

-- RPC_MESSAGE_ARGS, RPC_MESSAGE_END
abbrev pub message_args : ℤ
message_args = negsuc 3000

abbrev pub message_end : ℤ
message_end = negsuc 3001

-- `for (i = 0; i < array_size; i++) if ((error = …) < 0) break;`
unfoldable pub send_each : {A : Type 0} → (A → Send) → List A → Send
send_each f [] = return tt
send_each f (x ∷ xs) = do f x; send_each f xs

-- The three words before the elements; `is_valid_array` is 0 or 1.
unfoldable pub send_array_header : ℤ → ℕ → ℕ → Send
send_array_header array_type array_size is_valid_array = do
  send_int32 array_type
  send_uint32 array_size
  send_char is_valid_array

module _ {V : Type 0} (types : Types V) where
  abbrev send_user : Option (Descriptor V) → V → Send
  send_user none v = fail message_argument_unknown
  send_user (some d) v = d.send_callback v

  abbrev send_users : Option (Descriptor V) → List V → Send
  send_users none xs = fail message_argument_unknown
  send_users (some d) xs = send_each d.send_callback xs

  unfoldable pub send_items : Items V → Send
  send_items (chars xs) = send_bytes xs
  send_items (booleans xs) = send_each send_int32 xs
  send_items (int32s xs) = send_each send_int32 xs
  send_items (uint32s xs) = send_each send_uint32 xs
  send_items (uint64s xs) = send_each send_uint64 xs
  send_items (doubles xs) = send_each send_double xs
  send_items (strings xs) = send_each send_string xs
  send_items (users t xs) = send_users (types t) xs

  unfoldable pub send_value : Arg V → Send
  send_value (char c) = send_char c
  send_value (boolean v) = send_int32 v
  send_value (int32 v) = send_int32 v
  send_value (uint32 v) = send_uint32 v
  send_value (uint64 v) = send_uint64 v
  send_value (double v) = send_double v
  send_value (string v) = send_string v
  send_value (array xs) =
      if ltb 0 (items_length xs)
      then (do send_array_header (items_type xs) (items_length xs) 1; send_items xs)
      else send_array_header (items_type xs) (items_length xs) 0
  send_value (null_array t n) = send_array_header t n 0
  send_value (user t v) = send_user (types t) v

  unfoldable pub send_arg : Arg V → Send
  send_arg a = do send_int32 (arg_type a); send_value a

  -- The markers are sent if there is an argument.
  unfoldable pub send_args : List (Arg V) → Send
  send_args [] = return tt
  send_args (a ∷ args) = do
    send_int32 message_args
    send_each send_arg (a ∷ args)
    send_int32 message_end
