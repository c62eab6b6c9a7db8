-- ===== src/Rpc/Args/Types.antt =====
-- Argument types of src/rpc.h, their values, and the marshalers that a connection knows.
use nspluginwrapper.Prelude.{ℕ, List, Option, ℤ, negsuc, ◌==ℤ◌, if◌then◌else◌, length}
use nspluginwrapper.Rpc.Words.{Double}
use nspluginwrapper.Rpc.Message.{Send}
use nspluginwrapper.Rpc.Reader.{Reader}

-- The cases of `switch (type)`.
pub data Tag : Type 0 where
  char_tag boolean_tag int32_tag uint32_tag uint64_tag double_tag string_tag array_tag : Tag
  other_tag : Tag

-- RPC_TYPE_*
abbrev pub type_char : ℤ
type_char = negsuc 1999

abbrev pub type_boolean : ℤ
type_boolean = negsuc 2000

abbrev pub type_int32 : ℤ
type_int32 = negsuc 2001

abbrev pub type_uint32 : ℤ
type_uint32 = negsuc 2002

abbrev pub type_uint64 : ℤ
type_uint64 = negsuc 2003

abbrev pub type_double : ℤ
type_double = negsuc 2004

abbrev pub type_string : ℤ
type_string = negsuc 2005

abbrev pub type_array : ℤ
type_array = negsuc 2006

unfoldable pub tag_of : ℤ → Tag
tag_of t =
    if t ==ℤ type_char
    then char_tag
    else if t ==ℤ type_boolean
    then boolean_tag
    else if t ==ℤ type_int32
    then int32_tag
    else if t ==ℤ type_uint32
    then uint32_tag
    else if t ==ℤ type_uint64
    then uint64_tag
    else if t ==ℤ type_double
    then double_tag
    else if t ==ℤ type_string
    then string_tag
    else if t ==ℤ type_array
    then array_tag
    else other_tag

-- `rpc_message_descriptor_t` for values of the type `V`.
pub record Descriptor (V : Type 0) : Type 0 where
  pub id : ℤ
  pub size : ℕ
  pub send_callback : V → Send
  pub recv_callback : Reader V

-- What `rpc_message_descriptor_lookup` answers for the message's connection.
abbrev pub Types : Type 0 → Type 0
Types V = ℤ → Option (Descriptor V)

-- An array that is not NULL, by its element type; its size is the length of the list.
pub data Items (V : Type 0) : Type 0 where
  chars : List ℕ → Items V
  booleans int32s : List ℤ → Items V
  uint32s uint64s : List ℕ → Items V
  doubles : List Double → Items V
  strings : List (Option (List ℕ)) → Items V
  users : ℤ → List V → Items V

-- A type of the `va_list` with its value. `null_array t n` is the array (t, n, NULL).
pub data Arg (V : Type 0) : Type 0 where
  char : ℕ → Arg V
  boolean int32 : ℤ → Arg V
  uint32 uint64 : ℕ → Arg V
  double : Double → Arg V
  string : Option (List ℕ) → Arg V
  array : Items V → Arg V
  null_array : ℤ → ℕ → Arg V
  user : ℤ → V → Arg V

abbrev pub items_type : {V : Type 0} → Items V → ℤ
items_type (chars xs) = type_char
items_type (booleans xs) = type_boolean
items_type (int32s xs) = type_int32
items_type (uint32s xs) = type_uint32
items_type (uint64s xs) = type_uint64
items_type (doubles xs) = type_double
items_type (strings xs) = type_string
items_type (users t xs) = t

abbrev pub items_length : {V : Type 0} → Items V → ℕ
items_length (chars xs) = length xs
items_length (booleans xs) = length xs
items_length (int32s xs) = length xs
items_length (uint32s xs) = length xs
items_length (uint64s xs) = length xs
items_length (doubles xs) = length xs
items_length (strings xs) = length xs
items_length (users t xs) = length xs

abbrev pub arg_type : {V : Type 0} → Arg V → ℤ
arg_type (char c) = type_char
arg_type (boolean v) = type_boolean
arg_type (int32 v) = type_int32
arg_type (uint32 v) = type_uint32
arg_type (uint64 v) = type_uint64
arg_type (double v) = type_double
arg_type (string v) = type_string
arg_type (array xs) = type_array
arg_type (null_array t n) = type_array
arg_type (user t v) = t
