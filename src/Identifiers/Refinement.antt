-- ===== src/Identifiers/Refinement.antt =====
-- The identifier functions of src/npw-viewer.c, with their cache, implement those of the browser.
use nspluginwrapper.Prelude.{
  ℕ, ℤ, length, Bool, if_both, List, [], ◌∷◌, map, All, none, ◌≡◌, refl, ap,
}
use nspluginwrapper.Rpc.Error.{Result, ok}
use nspluginwrapper.Rpc.Action.{Action, return, ◌>>=◌}
use nspluginwrapper.Glib.{ValueTable}
use nspluginwrapper.Identifiers.{
  Text, NpIdentifierInfo, Cache, get_copy, cache_lookup, cache_has_int, cache_has_string,
  cache_get_string_copy,
}
use nspluginwrapper.Identifiers.Strings.{Fits}
use nspluginwrapper.Identifiers.Cached.{
  invoke_get_string_identifier, invoke_get_int_identifier, invoke_identifier_is_string,
  invoke_utf8_from_identifier, invoke_int_from_identifier, invoke_get_string_identifiers, add_names,
  is_string, ask_string, ask_int, utf8, int_from, cached_get_string_identifier,
  cached_get_string_identifiers, cached_get_int_identifier, cached_identifier_is_string,
  cached_utf8_from_identifier, cached_int_from_identifier,
}
use nspluginwrapper.Identifiers.Browser.{
  name, number, Browser, Call, get_string_identifier, get_string_identifiers, get_int_identifier,
  identifier_is_string, utf8_from_identifier, int_from_identifier, Answer, identifier, identifiers,
  name_of, number_of, is_name, truth, text, integer, serving, answer, IsDefined, perform,
  perform_all,
}
use nspluginwrapper.Identifiers.Coherent.{Coherent, Returned, Returned-bind, Tells-lookup}
use nspluginwrapper.Identifiers.Found.{has_string-name, has_int-number}
use nspluginwrapper.Identifiers.Answers.{
  Returned-ask_string, Returned-ask_int, Returned-int_from, is_string-answer, Utf8Right-get_copy,
  Returned-add_names, stored_all,
}

module _ (tables : ValueTable NpIdentifierInfo) (has_find use_cache : Bool) (b : Browser) where
  open tables use {Table}

  abbrev Right : {A : Type 0} → A → Result A × Cache Table → Type 0
  Right a r = Returned tables b a r

  Right-named :
      {A : Type 0} (m : Action (Cache Table) A) (f : A → Answer) (a : A) (c : Cache Table)
      → Right a (m c)
      → Right (f a) ((m >>= λ x. return (f x)) c)
  unfolding return
  Right-named m f a c h =
      Returned-bind tables b m (λ x. return (f x)) c a (f a) h (λ c' h'. (refl, h'))

  Right-string_identifier :
      (s : Text) (c : Cache Table)
      → Coherent tables b c
      → Fits s
      → Right
          (b.string_identifier s)
          (cached_get_string_identifier tables has_find use_cache (serving b) s c)
  unfolding cached_get_string_identifier invoke_get_string_identifier return
  Right-string_identifier s c h f =
      let found = cache_has_string tables has_find s c in
      if_both (Right (b.string_identifier s)) use_cache (ask_string tables found (serving b) s c)
        (ok (b.string_identifier s), c)
        (Returned-ask_string tables b found s c h f
          (λ k e. has_string-name tables has_find b s k c f h e))
        (refl, h)

  Right-string_identifiers :
      (ss : List Text) (old : List ℕ) (c : Cache Table)
      → Coherent tables b c
      → All Fits ss
      → length old ≡ length ss
      → Right
          (map b.string_identifier ss)
          (cached_get_string_identifiers tables use_cache (serving b) ss old c)
  unfolding cached_get_string_identifiers invoke_get_string_identifiers return
  Right-string_identifiers ss old c h f e =
      let ids = map b.string_identifier ss in
      rw (stored_all b ss old e) (
        if_both (λ m. Right ids (m c)) use_cache (add_names tables ss ids >>= λ _. return ids)
          (return ids)
          (Returned-bind tables b (add_names tables ss ids) (λ _. return ids) c tt ids
            (Returned-add_names tables b ss c h f) (λ c' h'. (refl, h')))
          (refl, h))

  Right-int_identifier :
      (v : ℤ) (c : Cache Table)
      → Coherent tables b c
      → Right
          (b.int_identifier v)
          (cached_get_int_identifier tables has_find use_cache (serving b) v c)
  unfolding cached_get_int_identifier invoke_get_int_identifier return
  Right-int_identifier v c h =
      let found = cache_has_int tables has_find v c in
      if_both (Right (b.int_identifier v)) use_cache (ask_int tables found (serving b) v c)
        (ok (b.int_identifier v), c)
        (Returned-ask_int tables b found v c h (λ k e. has_int-number tables has_find b v k c h e))
        (refl, h)

  Right-is_string :
      (k : ℕ) (c : Cache Table)
      → Coherent tables b c
      → Right (is_name (b.meaning k)) (cached_identifier_is_string tables use_cache (serving b) k c)
  unfolding cached_identifier_is_string return
  Right-is_string k c h =
      let looked = cache_lookup tables k c in
      (
        ap ok (
            if_both (λ t. t ≡ is_name (b.meaning k)) use_cache (is_string looked (serving b) k)
              (invoke_identifier_is_string (serving b) k)
              (is_string-answer tables b looked k (λ npi e. Tells-lookup tables b k npi c h e))
              (is_string-answer tables b none k (λ npi e. cc))),
        h,
      )

  Right-utf8 :
      (k : ℕ) (s : Text) (c : Cache Table)
      → Coherent tables b c
      → b.meaning k ≡ name s
      → Fits s
      → Right (name_of (b.meaning k)) (cached_utf8_from_identifier tables use_cache (serving b) k c)
  unfolding cached_utf8_from_identifier cache_get_string_copy invoke_utf8_from_identifier return
  Right-utf8 k s c h m f =
      let looked = cache_lookup tables k c in
      let copied = get_copy tables looked c in
      if_both (Right (name_of (b.meaning k))) use_cache
        (utf8 tables copied.0 (serving b) k copied.1) (ok (name_of (b.meaning k)), c)
        (Utf8Right-get_copy tables b looked k s c h m f
          (λ npi e. Tells-lookup tables b k npi c h e))
        (refl, h)

  Right-int_from :
      (k : ℕ) (v : ℤ) (c : Cache Table)
      → Coherent tables b c
      → b.meaning k ≡ number v
      → Right
          (number_of (b.meaning k))
          (cached_int_from_identifier tables use_cache (serving b) k c)
  unfolding cached_int_from_identifier invoke_int_from_identifier return
  Right-int_from k v c h m =
      let looked = cache_lookup tables k c in
      if_both (Right (number_of (b.meaning k))) use_cache (int_from tables looked (serving b) k c)
        (ok (number_of (b.meaning k)), c)
        (Returned-int_from tables b looked k v c h m (λ npi e. Tells-lookup tables b k npi c h e))
        (refl, h)

  -- A call that NPAPI defines returns what the browser would, and the cache still tells the truth.
  perform-answer :
      (call : Call) (c : Cache Table)
      → Coherent tables b c
      → IsDefined b call
      → Right (answer b call) (perform tables has_find use_cache (serving b) call c)
  unfolding perform answer
  perform-answer (get_string_identifier s) c h f =
      Right-named (cached_get_string_identifier tables has_find use_cache (serving b) s) identifier
        (b.string_identifier s) c (Right-string_identifier s c h f)
  perform-answer (get_string_identifiers ss old) c h f =
      Right-named (cached_get_string_identifiers tables use_cache (serving b) ss old) identifiers
        (map b.string_identifier ss) c (Right-string_identifiers ss old c h f.0 f.1)
  perform-answer (get_int_identifier v) c h f =
      Right-named (cached_get_int_identifier tables has_find use_cache (serving b) v) identifier
        (b.int_identifier v) c (Right-int_identifier v c h)
  perform-answer (identifier_is_string k) c h f =
      Right-named (cached_identifier_is_string tables use_cache (serving b) k) truth
        (is_name (b.meaning k)) c (Right-is_string k c h)
  perform-answer (utf8_from_identifier k) c h (s, m, f) =
      Right-named (cached_utf8_from_identifier tables use_cache (serving b) k) text
        (name_of (b.meaning k)) c (Right-utf8 k s c h m f)
  perform-answer (int_from_identifier k) c h (v, m) =
      Right-named (cached_int_from_identifier tables use_cache (serving b) k) integer
        (number_of (b.meaning k)) c (Right-int_from k v c h m)

  -- A row of calls of the plugin for identifiers returns, with the cache or without it and in both
  -- builds of the search, what a browser that answers every request would give without a cache, and
  -- the cache holds nothing but the truth after it. It is so if it did before, if NPAPI defines each
  -- call, and if each string is shorter than 2^32 - 1 bytes. Memory may fail at any time, and
  -- entries may be given up.
  pub perform_all-answers :
      (calls : List Call) (c : Cache Table)
      → Coherent tables b c
      → All (IsDefined b) calls
      → Returned tables b
          (map (answer b) calls)
          (perform_all tables has_find use_cache (serving b) calls c)
  unfolding perform_all return
  perform_all-answers [] c h f = (refl, h)
  perform_all-answers (call ∷ calls) c h f =
      Returned-bind tables b (perform tables has_find use_cache (serving b) call)
        (λ a. perform_all tables has_find use_cache (serving b) calls >>= λ rest. return (a ∷ rest))
        c (answer b call) (map (answer b) (call ∷ calls)) (perform-answer call c h f.0)
        (λ c' h'.
          Returned-bind tables b (perform_all tables has_find use_cache (serving b) calls)
            (λ rest. return (answer b call ∷ rest)) c' (map (answer b) calls)
            (map (answer b) (call ∷ calls)) (perform_all-answers calls c' h' f.1)
            (λ c'' h''. (refl, h'')))
