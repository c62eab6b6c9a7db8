-- ===== src/Identifiers/Cached.antt =====
-- The identifier functions that the viewer gives the plugin, src/npw-viewer.c: invoke_NPN_*,
-- cached_NPN_* and g_NPN_* of the six functions on identifiers.
use nspluginwrapper.Prelude.{
  ℕ, ◌==◌, not, min, Bool, true, false, if◌then◌else◌, List, [], ◌∷◌, ◌++◌, length, take, drop,
  Option, none, some, ℤ, pos, negsuc,
}
use nspluginwrapper.Rpc.Error.{Error}
use nspluginwrapper.Rpc.Action.{Action, return, halt, ◌>>=◌}
use nspluginwrapper.Glib.{ValueTable}
use nspluginwrapper.Identifiers.{
  Text, Union, string, value, NpIdentifierInfo, Cache, cache_reserve, cache_lookup, cache_add_int,
  cache_add_string, cache_has_int, cache_has_string, cache_get_string_copy,
}

-- How the remote call in an invoke_NPN_* function ends: rpc_method_invoke_possible says no,
-- rpc_method_invoke fails, rpc_method_wait_for_reply fails, or there is a reply.
pub data Outcome (A : Type 0) : Type 0 where
  impossible : Outcome A
  not_invoked no_reply : Error → Outcome A
  replied : A → Outcome A

-- The browser's side at the time of a call: how it answers each request.
pub record Peer : Type 0 where
  pub get_string_identifier : Text → Outcome ℕ
  pub get_string_identifiers : List Text → Outcome (List ℕ)
  pub get_int_identifier : ℤ → Outcome ℕ
  pub identifier_is_string : ℕ → Outcome ℕ
  pub utf8_from_identifier : ℕ → Outcome (Option Text)
  pub int_from_identifier : ℕ → Outcome ℤ

-- The reply, or what the function returns for a failure.
abbrev pub reply_or : {A : Type 0} → A → Outcome A → A
reply_or a impossible = a
reply_or a (not_invoked e) = a
reply_or a (no_reply e) = a
reply_or a (replied b) = b

unfoldable pub invoke_get_string_identifier : Peer → Text → ℕ
invoke_get_string_identifier peer name = reply_or 0 (peer.get_string_identifier name)

-- What is in `identifiers` after the loop over what was replied; `old` was there before.
abbrev pub stored : ℕ → List ℕ → List ℕ → List ℕ
stored name_count idents old = let n = min (length idents) name_count in take n idents ++ drop n old

abbrev pub stored_reply : ℕ → Outcome (List ℕ) → List ℕ → List ℕ
stored_reply name_count (replied idents) old = stored name_count idents old
stored_reply name_count impossible old = old
stored_reply name_count (not_invoked e) old = old
stored_reply name_count (no_reply e) old = old

unfoldable pub invoke_get_string_identifiers : Peer → List Text → List ℕ → List ℕ
invoke_get_string_identifiers peer names old =
    stored_reply (length names) (peer.get_string_identifiers names) old

unfoldable pub invoke_get_int_identifier : Peer → ℤ → ℕ
invoke_get_int_identifier peer intid = reply_or 0 (peer.get_int_identifier intid)

unfoldable pub invoke_identifier_is_string : Peer → ℕ → Bool
invoke_identifier_is_string peer ident = not (reply_or 0 (peer.identifier_is_string ident) == 0)

unfoldable pub invoke_utf8_from_identifier : Peer → ℕ → Option Text
invoke_utf8_from_identifier peer ident = reply_or none (peer.utf8_from_identifier ident)

unfoldable pub invoke_int_from_identifier : Peer → ℕ → ℤ
invoke_int_from_identifier peer ident = reply_or (negsuc 0) (peer.int_from_identifier ident)

abbrev pub is_string : Option NpIdentifierInfo → Peer → ℕ → Bool
is_string (some npi) peer ident = not (npi.string_len == 0)
is_string none peer ident = invoke_identifier_is_string peer ident

module _ (tables : ValueTable NpIdentifierInfo) where
  open tables use {Table}

  -- npidentifier_cache_reserve(1) and npidentifier_cache_add_string
  unfoldable pub reserve_and_add : ℕ → Option Text → Action (Cache Table) (Unit {0})
  unfolding cache_reserve cache_add_string
  reserve_and_add ident str c = cache_add_string tables ident str (cache_reserve tables 1 c)

  abbrev pub ask_string : Option ℕ → Peer → Text → Action (Cache Table) ℕ
  ask_string (some ident) peer name = return ident
  ask_string none peer name =
      let ident = invoke_get_string_identifier peer name in
      reserve_and_add ident (some name) >>= λ _. return ident

  abbrev pub add_name : Option NpIdentifierInfo → ℕ → Text → Action (Cache Table) (Unit {0})
  add_name none ident name = reserve_and_add ident (some name)
  add_name (some npi) ident name = return tt

  -- The loop over the names; `identifiers` is as long as `names`.
  unfoldable pub add_names : List Text → List ℕ → Action (Cache Table) (Unit {0})
  unfolding reserve_and_add cache_lookup return ◌>>=◌
  add_names [] idents = return tt
  add_names (name ∷ names) [] = return tt
  add_names (name ∷ names) (ident ∷ idents) =
      (λ c. add_name (cache_lookup tables ident c) ident name c) >>= λ _. add_names names idents

  abbrev pub ask_int : Option ℕ → Peer → ℤ → Action (Cache Table) ℕ
  ask_int (some ident) peer intid c = return ident c
  ask_int none peer intid c =
      let ident = invoke_get_int_identifier peer intid in
      return ident (cache_add_int tables ident intid (cache_reserve tables 1 c))

  abbrev pub utf8 : Option Text → Peer → ℕ → Action (Cache Table) (Option Text)
  utf8 (some str) peer ident = return (some str)
  utf8 none peer ident =
      let str = invoke_utf8_from_identifier peer ident in
      reserve_and_add ident str >>= λ _. return str

  -- `npi->u.value` after the assert. The member that was written is the string only where its
  -- length has wrapped.
  abbrev pub read_value : ℕ → Union → Action (Cache Table) ℤ
  read_value string_len (value v) = if string_len == 0 then return v else halt
  read_value string_len (string s) = halt

  abbrev pub int_from : Option NpIdentifierInfo → Peer → ℕ → Action (Cache Table) ℤ
  int_from (some npi) peer ident c = read_value npi.string_len npi.u c
  int_from none peer ident c =
      let v = invoke_int_from_identifier peer ident in
      return v (cache_add_int tables ident v (cache_reserve tables 1 c))

-- `use_cache` is npruntime_use_cache().
module _ (tables : ValueTable NpIdentifierInfo) (use_cache : Bool) where
  open tables use {Table}

  -- What it leaves in `identifiers`.
  unfoldable pub cached_get_string_identifiers :
      Peer → List Text → List ℕ → Action (Cache Table) (List ℕ)
  unfolding invoke_get_string_identifiers add_names return ◌>>=◌
  cached_get_string_identifiers peer names old =
      let idents = invoke_get_string_identifiers peer names old in
      if use_cache then (add_names tables names idents >>= λ _. return idents) else return idents

  unfoldable pub cached_identifier_is_string : Peer → ℕ → Action (Cache Table) Bool
  unfolding invoke_identifier_is_string cache_lookup return
  cached_identifier_is_string peer ident c =
      return
        (if use_cache
          then is_string (cache_lookup tables ident c) peer ident
          else invoke_identifier_is_string peer ident)
        c

  unfoldable pub cached_utf8_from_identifier : Peer → ℕ → Action (Cache Table) (Option Text)
  unfolding invoke_utf8_from_identifier cache_get_string_copy reserve_and_add return ◌>>=◌
  cached_utf8_from_identifier peer ident c =
      if use_cache
      then (let (str, c') = cache_get_string_copy tables ident c in utf8 tables str peer ident c')
      else return (invoke_utf8_from_identifier peer ident) c

  unfoldable pub cached_int_from_identifier : Peer → ℕ → Action (Cache Table) ℤ
  unfolding invoke_int_from_identifier cache_lookup cache_add_int cache_reserve return halt
  cached_int_from_identifier peer ident c =
      if use_cache
      then int_from tables (cache_lookup tables ident c) peer ident c
      else return (invoke_int_from_identifier peer ident) c

  -- The first argument of these functions is what thread_check says.
  abbrev pub npn_get_string_identifiers :
      Bool → Peer → Option (List Text) → Option (List ℕ) → Action (Cache Table) (List ℕ)
  npn_get_string_identifiers true peer (some names) (some old) =
      cached_get_string_identifiers peer names old
  npn_get_string_identifiers true peer none (some old) = return old
  npn_get_string_identifiers true peer names none = return []
  npn_get_string_identifiers false peer names (some old) = return old
  npn_get_string_identifiers false peer names none = return []

  abbrev pub npn_identifier_is_string : Bool → Peer → ℕ → Action (Cache Table) Bool
  npn_identifier_is_string true peer ident = cached_identifier_is_string peer ident
  npn_identifier_is_string false peer ident = return false

  abbrev pub npn_utf8_from_identifier : Bool → Peer → ℕ → Action (Cache Table) (Option Text)
  npn_utf8_from_identifier true peer ident = cached_utf8_from_identifier peer ident
  npn_utf8_from_identifier false peer ident = return none

  abbrev pub npn_int_from_identifier : Bool → Peer → ℕ → Action (Cache Table) ℤ
  npn_int_from_identifier true peer ident = cached_int_from_identifier peer ident
  npn_int_from_identifier false peer ident = return (pos 0)

module _ (tables : ValueTable NpIdentifierInfo) (has_find use_cache : Bool) where
  open tables use {Table}

  unfoldable pub cached_get_string_identifier : Peer → Text → Action (Cache Table) ℕ
  unfolding invoke_get_string_identifier reserve_and_add cache_has_string return ◌>>=◌
  cached_get_string_identifier peer name c =
      if use_cache
      then ask_string tables (cache_has_string tables has_find name c) peer name c
      else return (invoke_get_string_identifier peer name) c

  unfoldable pub cached_get_int_identifier : Peer → ℤ → Action (Cache Table) ℕ
  unfolding invoke_get_int_identifier cache_has_int cache_add_int cache_reserve return
  cached_get_int_identifier peer intid c =
      if use_cache
      then ask_int tables (cache_has_int tables has_find intid c) peer intid c
      else return (invoke_get_int_identifier peer intid) c

  abbrev pub npn_get_string_identifier : Bool → Peer → Option Text → Action (Cache Table) ℕ
  npn_get_string_identifier true peer (some name) = cached_get_string_identifier peer name
  npn_get_string_identifier true peer none = return 0
  npn_get_string_identifier false peer name = return 0

  abbrev pub npn_get_int_identifier : Bool → Peer → ℤ → Action (Cache Table) ℕ
  npn_get_int_identifier true peer intid = cached_get_int_identifier peer intid
  npn_get_int_identifier false peer intid = return 0
