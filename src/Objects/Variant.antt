-- ===== src/Objects/Variant.antt =====
-- `NPVariant`: do_send_NPVariant_helper and do_recv_NPVariant_helper of src/npw-rpc.c. They change
-- the process and the message: an object is exported when it is sent, and imported when it is
-- received.
pub mod Crossing
use nspluginwrapper.Prelude.{
  ℕ, ◌+◌, ◌<◌, ◌^◌, ◌==◌, ℤ, not, Bool, true, false, if◌then◌else◌, List, length, Option, some, ◌≡◌,
  sym, subst, arith,
}
use nspluginwrapper.Rpc.Action.{Action, return, ◌>>=◌, ◌>>◌}
use nspluginwrapper.Rpc.Words.{IsInt32, Double, IsDouble}
use nspluginwrapper.Rpc.Socket.Events.{RecvEvent}
use nspluginwrapper.Glib.{HashTable}
use nspluginwrapper.Rpc.Message.{Message, Send, send_uint32, send_int32, send_double}
use nspluginwrapper.Rpc.Reader.{Reader, recv_uint32, recv_int32, recv_double}
use nspluginwrapper.Rpc.Reader.Parses.{Parses-return}
use nspluginwrapper.Rpc.Carries.{Carries, Carries-bind, Carries-last, Carries-return}
use nspluginwrapper.Rpc.Carries.Scalars.{
  send_uint32-Carries, send_int32-Carries, send_double-Carries,
}
use nspluginwrapper.Npapi.Buffers.{NpString, send_np_string, recv_np_string}
use nspluginwrapper.Npapi.Buffers.RoundTrip.{send_np_string-Carries}
use nspluginwrapper.Objects.Host.{Wire, Host, Process}
use nspluginwrapper.Objects.Exchange.{export_object, import_object, flag, send_wire, recv_wire}
use nspluginwrapper.Objects.Wires.{IsWire, send_wire-Carries}

-- An object is a pointer in a process, and a Wire in a message. The last constructor is for a type
-- that NPVariantType does not have.
pub data Variant (O : Type 0) : Type 0 where
  void null : Variant O
  boolean : Bool → Variant O
  int32 : ℤ → Variant O
  double : Double → Variant O
  string : NpString → Variant O
  object : O → Variant O
  other : ℕ → Variant O

abbrev pub NpVariant : Type 0
NpVariant = Variant (Option ℕ)

abbrev pub WireVariant : Type 0
WireVariant = Variant Wire

-- NPVariantType
abbrev pub variant_type : {O : Type 0} → Variant O → ℕ
variant_type void = 0
variant_type null = 1
variant_type (boolean b) = 2
variant_type (int32 n) = 3
variant_type (double d) = 4
variant_type (string s) = 5
variant_type (object w) = 6
variant_type (other t) = t

-- `switch (variant->type)`, an object being exported.
abbrev pub send_variant_value : Bool → WireVariant → Send
send_variant_value pass_ref (boolean b) = send_uint32 (flag b)
send_variant_value pass_ref (int32 n) = send_int32 n
send_variant_value pass_ref (double d) = send_double d
send_variant_value pass_ref (string s) = send_np_string s
send_variant_value pass_ref (object w) = send_wire pass_ref w
send_variant_value pass_ref _ = return tt

-- All that is written.
unfoldable pub write_variant : Bool → WireVariant → Send
write_variant pass_ref v = do send_uint32 (variant_type v); send_variant_value pass_ref v

-- NPN_ReleaseVariantValue of what is no object leaves a void variant. That it gives back the memory
-- of a string is not in the model.
abbrev pub released : NpVariant → NpVariant
released (object p) = object p
released _ = void

module _ {H S A : Type 0} where
  -- A call on the message or on the stream, and one on the objects of the process.
  abbrev pub on_wire : Action S A → Action (H × S) A
  on_wire act (h, s) = let (r, s') = act s in (r, (h, s'))

  abbrev pub in_host : Action H A → Action (H × S) A
  in_host act (h, s) = let (r, h') = act h in (r, (h', s))

module _ (glib : HashTable) where
  open glib use {Table}

  -- The value as it is written.
  unfoldable pub export_variant : (ℕ → ℕ) → Bool → NpVariant → Process glib WireVariant
  unfolding export_object
  export_variant owner_id pass_ref (object p) = do
    w ← export_object glib owner_id pass_ref p
    return (object w)
  export_variant owner_id pass_ref void = return void
  export_variant owner_id pass_ref null = return null
  export_variant owner_id pass_ref (boolean b) = return (boolean b)
  export_variant owner_id pass_ref (int32 n) = return (int32 n)
  export_variant owner_id pass_ref (double d) = return (double d)
  export_variant owner_id pass_ref (string s) = return (string s)
  export_variant owner_id pass_ref (other t) = return (other t)

  -- The value as it was read; `a` is where an object is allocated.
  unfoldable pub import_variant : ℕ → WireVariant → Process glib NpVariant
  unfolding import_object
  import_variant a (object w) = do p ← import_object glib a w; return (object p)
  import_variant a void = return void
  import_variant a null = return null
  import_variant a (boolean b) = return (boolean b)
  import_variant a (int32 n) = return (int32 n)
  import_variant a (double d) = return (double d)
  import_variant a (string s) = return (string s)
  import_variant a (other t) = return (other t)

  -- It delivers what the sender's variant has become.
  unfoldable pub send_variant : (ℕ → ℕ) → Bool → NpVariant → Action (Host Table × Message) NpVariant
  unfolding export_variant
  send_variant owner_id pass_ref v = do
    on_wire (send_uint32 (variant_type v))
    w ← in_host (export_variant owner_id pass_ref v)
    on_wire (send_variant_value pass_ref w)
    return (if pass_ref then released v else v)

unlike : (k t : ℕ) → 6 < t → k < 7 → (t == k) ≡ false
unlike k t big small = ground arith

module _ (malloc : ℕ → Bool) where
  -- The value of a variant of this type.
  unfoldable pub recv_variant_value : Bool → ℕ → Reader WireVariant
  recv_variant_value pass_ref type =
      if type == 0
      then return void
      else if type == 1
      then return null
      else if type == 2
      then (do b ← recv_uint32; return (boolean (not (b == 0))))
      else if type == 3
      then (do n ← recv_int32; return (int32 n))
      else if type == 4
      then (do d ← recv_double; return (double d))
      else if type == 5
      then (do s ← recv_np_string malloc; return (string s))
      else if type == 6
      then (do w ← recv_wire pass_ref; return (object w))
      else return (other type)

  -- All that is read.
  unfoldable pub read_variant : Bool → Reader WireVariant
  unfolding recv_variant_value
  read_variant pass_ref = do type ← recv_uint32; recv_variant_value pass_ref type

  unfoldable pub recv_variant :
      (glib : HashTable) → ℕ → Bool → Action (Host (glib.Table) × List RecvEvent) NpVariant
  unfolding read_variant import_variant
  recv_variant glib a pass_ref = do
    w ← on_wire (read_variant pass_ref)
    in_host (import_variant glib a w)

  abbrev pub IsVariant : Bool → WireVariant → Type 0
  IsVariant pass_ref (int32 n) = IsInt32 n
  IsVariant pass_ref (double d) = IsDouble d
  IsVariant pass_ref (string s) =
      (bytes : List ℕ) × (s ≡ record { utf8_length = length bytes; utf8_characters = some bytes })
      × (length bytes + 1 < 2 ^ 31)
  IsVariant pass_ref (object w) = IsWire pass_ref w
  IsVariant pass_ref (other t) = (6 < t) × (t < 2 ^ 32)
  IsVariant pass_ref _ = Unit

  module _ (room : (n : ℕ) → malloc n ≡ true) where
    value-Carries :
        (pass_ref : Bool) (v : WireVariant)
        → IsVariant pass_ref v
        → Carries (send_variant_value pass_ref v) (recv_variant_value pass_ref (variant_type v)) v
    unfolding recv_variant_value
    value-Carries pass_ref void h = Carries-return void
    value-Carries pass_ref null h = Carries-return null
    value-Carries pass_ref (boolean true) h =
        Carries-last _ _ _ (send_uint32-Carries 1 (omega arith)) (Parses-return _)
    value-Carries pass_ref (boolean false) h =
        Carries-last _ _ _ (send_uint32-Carries 0 (omega arith)) (Parses-return _)
    value-Carries pass_ref (int32 n) h =
        Carries-last _ _ _ (send_int32-Carries n h) (Parses-return _)
    value-Carries pass_ref (double d) h =
        Carries-last _ _ _ (send_double-Carries d h) (Parses-return _)
    value-Carries pass_ref (string s) (bytes, same, short) =
        subst
          (λ z.
            Carries {A = WireVariant} (send_np_string z)
              (do s' ← recv_np_string malloc; return (string s')) (string z))
          (sym same)
          (Carries-last _ _ _ (send_np_string-Carries malloc room bytes short) (Parses-return _))
    value-Carries pass_ref (object w) h =
        Carries-last _ _ _ (send_wire-Carries pass_ref w h) (Parses-return _)
    value-Carries pass_ref (other t) (big, small) =
        rw
          (
            unlike 0 t big (omega arith),
            unlike 1 t big (omega arith),
            unlike 2 t big (omega arith),
            unlike 3 t big (omega arith),
            unlike 4 t big (omega arith),
            unlike 5 t big (omega arith),
            unlike 6 t big (omega arith),
          )
          (Carries-return (other t))

    -- What is read is what was written.
    pub write_variant-Carries :
        (pass_ref : Bool) (v : WireVariant)
        → IsVariant pass_ref v
        → Carries (write_variant pass_ref v) (read_variant pass_ref) v
    unfolding write_variant read_variant
    write_variant-Carries pass_ref v h =
        Carries-bind _ _ _ _ (send_uint32-Carries (variant_type v) (typed v h))
          (value-Carries pass_ref v h)
      where
        typed : (v : WireVariant) → IsVariant pass_ref v → variant_type v < 2 ^ 32
        typed (other t) (big, small) = small
        typed void h = omega arith
        typed null h = omega arith
        typed (boolean b) h = omega arith
        typed (int32 n) h = omega arith
        typed (double d) h = omega arith
        typed (string s) h = omega arith
        typed (object w) h = omega arith
