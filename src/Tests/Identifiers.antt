-- ===== src/Tests/Identifiers.antt =====
-- The identifier cache of the viewer, on an association list and for a browser that spells.
use nspluginwrapper.Prelude.{
  ℕ, true, false, List, [], ◌∷◌, map, none, some, pos, negsuc, ◌≡◌, refl, sym, ap, ◌∙◌, inl, inr,
  ◌==◌, ==_iff, Bool-cases, if_true, if_false, arith,
}
use nspluginwrapper.Rpc.Error.{ok}
use nspluginwrapper.Identifiers.{NpIdentifierInfo, Cache, cache_lookup}
use nspluginwrapper.Identifiers.Strings.{sought}
use nspluginwrapper.Identifiers.Cached.{
  Peer, impossible, cached_get_string_identifier, cached_int_from_identifier,
  invoke_int_from_identifier,
}
use nspluginwrapper.Identifiers.Browser.{
  Call, get_string_identifier, get_string_identifiers, get_int_identifier, identifier_is_string,
  utf8_from_identifier, int_from_identifier, answer, serving, perform, perform_all,
}
use nspluginwrapper.Identifiers.Coherent.{Coherent, Returned, tells_name}
use nspluginwrapper.Identifiers.Refinement.{perform_all-answers}
use nspluginwrapper.Identifiers.Size.{IsBounded}
use nspluginwrapper.Identifiers.Limit.{perform-IsBounded}
use nspluginwrapper.Identifiers.Again.{get_string_identifier-cached, int_from_identifier-again}
use nspluginwrapper.Tests.Tables.{Log, value_at, tables}
use nspluginwrapper.Tests.Spelling.{string_code, int_code}
use nspluginwrapper.Tests.Browser.{meaning_of, string_code-meaning, int_code-meaning, browser}

abbrev pub name_cache : Cache (Log NpIdentifierInfo)
name_cache = record { table = none; memory = [] }

-- "ab"
abbrev pub ab : List ℕ
ab = 97 ∷ 98 ∷ []

abbrev pub calls : List Call
calls =
    get_string_identifier ab
    ∷ get_int_identifier (negsuc 4)
    ∷ get_string_identifier ab
    ∷ identifier_is_string (string_code ab)
    ∷ utf8_from_identifier (string_code ab)
    ∷ int_from_identifier (int_code (negsuc 4))
    ∷ get_string_identifiers ((98 ∷ []) ∷ ab ∷ []) (0 ∷ 0 ∷ [])
    ∷ []

perform_all-answers_example :
    Returned
      (tables NpIdentifierInfo)
      browser
      (map (answer browser) calls)
      (perform_all (tables NpIdentifierInfo) false true (serving browser) calls name_cache)
perform_all-answers_example =
    perform_all-answers (tables NpIdentifierInfo) false true browser calls name_cache tt (
      omega arith,
      (
        tt,
        (
          omega arith,
          (
            tt,
            (
              (ab, string_code-meaning ab, omega arith),
              (
                (negsuc 4, int_code-meaning (negsuc 4)),
                (((omega arith, (omega arith, tt)), refl), tt),
              ),
            ),
          ),
        ),
      ),
    )

-- No call can be made.
abbrev pub cut_off : Peer
cut_off = record {
  get_string_identifier = λ s. impossible;
  get_string_identifiers = λ ss. impossible;
  get_int_identifier = λ v. impossible;
  identifier_is_string = λ k. impossible;
  utf8_from_identifier = λ k. impossible;
  int_from_identifier = λ k. impossible;
}

perform-IsBounded_example :
    IsBounded
      (tables NpIdentifierInfo)
      (perform
        (tables NpIdentifierInfo)
        true
        true
        cut_off
        (get_int_identifier (pos 3))
        name_cache).1
perform-IsBounded_example =
    perform-IsBounded (tables NpIdentifierInfo) true true cut_off (get_int_identifier (pos 3))
      name_cache tt

-- The browser is cut off, and then it is there.
int_from_identifier-again_example :
    cached_int_from_identifier
      (tables NpIdentifierInfo)
      true
      (serving browser)
      13
      (cached_int_from_identifier (tables NpIdentifierInfo) true cut_off 13 name_cache).1
    ≡ (
      ok (invoke_int_from_identifier cut_off 13),
      (cached_int_from_identifier (tables NpIdentifierInfo) true cut_off 13 name_cache).1,
    )
unfolding cache_lookup
int_from_identifier-again_example =
    int_from_identifier-again (tables NpIdentifierInfo) cut_off (serving browser) 13 name_cache refl
      refl

abbrev pub known_cache : Cache (Log NpIdentifierInfo)
known_cache = record { table = some ((string_code ab, sought ab) ∷ []); memory = [] }

known_cache-Coherent : Coherent (tables NpIdentifierInfo) browser known_cache
unfolding value_at
known_cache-Coherent k npi e = elim (Bool-cases (string_code ab == k)) [
  | inl same ↦
      let key : string_code ab ≡ k = (==_iff (string_code ab) k).0 same in
      let entry : some (sought ab) ≡ some npi =
        sym (if_true (string_code ab == k) (some (sought ab)) none same) ∙ e in
      let info : npi ≡ sought ab = cc in
      tells_name ab info (ap meaning_of (sym key) ∙ string_code-meaning ab) (omega arith)
  | inr other ↦
      let bad : none ≡ some npi =
        sym (if_false (string_code ab == k) (some (sought ab)) none other) ∙ e in
      cc
]

get_string_identifier-cached_example :
    cached_get_string_identifier (tables NpIdentifierInfo) false true cut_off ab known_cache
    ≡ (ok (string_code ab), known_cache)
unfolding cache_lookup value_at
get_string_identifier-cached_example =
    get_string_identifier-cached (tables NpIdentifierInfo) false browser cut_off ab (sought ab)
      known_cache known_cache-Coherent (omega arith)
      (if_true (string_code ab == string_code ab) (some (sought ab)) none
        ((==_iff (string_code ab) (string_code ab)).1 refl))
