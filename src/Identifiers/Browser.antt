-- ===== src/Identifiers/Browser.antt =====
-- The identifiers of the browser, which the viewer's cache of src/npw-viewer.c stands for: what
-- NPAPI says of NPN_GetStringIdentifier and the others, and the plugin's calls of them.
use nspluginwrapper.Prelude.{
  ℕ, Bool, true, false, if◌then◌else◌, List, [], ◌∷◌, map, Option, none, some, ℤ, pos, ◌≡◌, ◌≢◌,
  length, All,
}
use nspluginwrapper.Rpc.Action.{Action, return, ◌>>=◌}
use nspluginwrapper.Glib.{ValueTable}
use nspluginwrapper.Identifiers.{Text, NpIdentifierInfo, Cache}
use nspluginwrapper.Identifiers.Strings.{Fits}
use nspluginwrapper.Identifiers.Cached.{
  replied, Peer, cached_get_string_identifier, cached_get_string_identifiers,
  cached_get_int_identifier, cached_identifier_is_string, cached_utf8_from_identifier,
  cached_int_from_identifier, npn_get_string_identifier, npn_get_string_identifiers,
  npn_get_int_identifier, npn_identifier_is_string, npn_utf8_from_identifier,
  npn_int_from_identifier,
}

-- What an identifier is for.
pub data Meaning : Type 0 where
  name : Text → Meaning
  number : ℤ → Meaning
  unknown : Meaning

-- A browser has one identifier for each string and each integer, and it is not NULL.
pub record Browser : Type 0 where
  pub string_identifier : Text → ℕ
  pub int_identifier : ℤ → ℕ
  pub meaning : ℕ → Meaning
  pub string_identifier-meaning : (s : Text) → meaning (string_identifier s) ≡ name s
  pub int_identifier-meaning : (v : ℤ) → meaning (int_identifier v) ≡ number v
  pub name_unique : (k : ℕ) (s : Text) → meaning k ≡ name s → k ≡ string_identifier s
  pub number_unique : (k : ℕ) (v : ℤ) → meaning k ≡ number v → k ≡ int_identifier v
  pub string_identifier_non_null : (s : Text) → string_identifier s ≢ 0
  pub int_identifier_non_null : (v : ℤ) → int_identifier v ≢ 0

-- The calls of the plugin, and what they return. The array of NPN_GetStringIdentifiers has its old
-- contents.
pub data Call : Type 0 where
  get_string_identifier : Text → Call
  get_string_identifiers : List Text → List ℕ → Call
  get_int_identifier : ℤ → Call
  identifier_is_string : ℕ → Call
  utf8_from_identifier : ℕ → Call
  int_from_identifier : ℕ → Call

pub data Answer : Type 0 where
  identifier : ℕ → Answer
  identifiers : List ℕ → Answer
  truth : Bool → Answer
  text : Option Text → Answer
  integer : ℤ → Answer

abbrev pub is_name : Meaning → Bool
is_name (name s) = true
is_name (number v) = false
is_name unknown = false

abbrev pub name_of : Meaning → Option Text
name_of (name s) = some s
name_of (number v) = none
name_of unknown = none

abbrev pub number_of : Meaning → ℤ
number_of (number v) = v
number_of (name s) = pos 0
number_of unknown = pos 0

module _ (b : Browser) where
  open b use {string_identifier, int_identifier, meaning}

  -- The browser answers every request.
  abbrev pub serving : Peer
  serving = record {
    get_string_identifier = λ s. replied (string_identifier s);
    get_string_identifiers = λ ss. replied (map string_identifier ss);
    get_int_identifier = λ v. replied (int_identifier v);
    identifier_is_string = λ k. replied (if is_name (meaning k) then 1 else 0);
    utf8_from_identifier = λ k. replied (name_of (meaning k));
    int_from_identifier = λ k. replied (number_of (meaning k));
  }

  -- What the call returns without a cache.
  unfoldable pub answer : Call → Answer
  answer (get_string_identifier s) = identifier (string_identifier s)
  answer (get_string_identifiers ss old) = identifiers (map string_identifier ss)
  answer (get_int_identifier v) = identifier (int_identifier v)
  answer (identifier_is_string k) = truth (is_name (meaning k))
  answer (utf8_from_identifier k) = text (name_of (meaning k))
  answer (int_from_identifier k) = integer (number_of (meaning k))

  -- NPAPI leaves undefined what NPN_UTF8FromIdentifier and NPN_IntFromIdentifier make of the other
  -- identifiers. The array is as long as the list of names.
  abbrev pub IsDefined : Call → Type 0
  IsDefined (get_string_identifier s) = Fits s
  IsDefined (get_string_identifiers ss old) = All Fits ss × (length old ≡ length ss)
  IsDefined (get_int_identifier v) = Unit {0}
  IsDefined (identifier_is_string k) = Unit {0}
  IsDefined (utf8_from_identifier k) = (s : Text) × (meaning k ≡ name s) × Fits s
  IsDefined (int_from_identifier k) = (v : ℤ) × (meaning k ≡ number v)

module _ (tables : ValueTable NpIdentifierInfo) (has_find use_cache : Bool) where
  open tables use {Table}

  -- On the main thread.
  unfoldable pub perform : Peer → Call → Action (Cache Table) Answer
  unfolding ◌>>=◌ return cached_get_string_identifier cached_get_string_identifiers
      cached_get_int_identifier cached_identifier_is_string cached_utf8_from_identifier
      cached_int_from_identifier
  perform peer (get_string_identifier s) =
      npn_get_string_identifier tables has_find use_cache true peer (some s) >>= λ k.
      return (identifier k)
  perform peer (get_string_identifiers ss old) =
      npn_get_string_identifiers tables use_cache true peer (some ss) (some old) >>= λ ks.
      return (identifiers ks)
  perform peer (get_int_identifier v) =
      npn_get_int_identifier tables has_find use_cache true peer v >>= λ k. return (identifier k)
  perform peer (identifier_is_string k) =
      npn_identifier_is_string tables use_cache true peer k >>= λ t. return (truth t)
  perform peer (utf8_from_identifier k) =
      npn_utf8_from_identifier tables use_cache true peer k >>= λ s. return (text s)
  perform peer (int_from_identifier k) =
      npn_int_from_identifier tables use_cache true peer k >>= λ v. return (integer v)

  unfoldable pub perform_all : Peer → List Call → Action (Cache Table) (List Answer)
  unfolding ◌>>=◌ return perform
  perform_all peer [] = return []
  perform_all peer (call ∷ calls) =
      perform peer call >>= λ a. perform_all peer calls >>= λ rest. return (a ∷ rest)
