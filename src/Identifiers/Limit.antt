-- ===== src/Identifiers/Limit.antt =====
-- The plugin's calls keep the identifier cache of src/npw-viewer.c within its bound.
use nspluginwrapper.Prelude.{Bool, if_both}
use nspluginwrapper.Rpc.Error.{ok}
use nspluginwrapper.Rpc.Action.{Action, return, ◌>>=◌}
use nspluginwrapper.Glib.{ValueTable}
use nspluginwrapper.Identifiers.{
  NpIdentifierInfo, Cache, get_copy, cache_get_string_copy, cache_lookup, cache_has_int,
  cache_has_string,
}
use nspluginwrapper.Identifiers.Cached.{
  Peer, ask_string, add_names, ask_int, utf8, invoke_get_string_identifier,
  invoke_get_string_identifiers, invoke_get_int_identifier, invoke_utf8_from_identifier,
  invoke_int_from_identifier, int_from, cached_get_string_identifier, cached_get_string_identifiers,
  cached_get_int_identifier, cached_identifier_is_string, cached_utf8_from_identifier,
  cached_int_from_identifier,
}
use nspluginwrapper.Identifiers.Browser.{
  Call, get_string_identifier, get_string_identifiers, get_int_identifier, identifier_is_string,
  utf8_from_identifier, int_from_identifier, Answer, identifier, identifiers, truth, text, integer,
  perform,
}
use nspluginwrapper.Identifiers.Size.{
  IsBounded, Bounds, Bounds-bind, Bounds-return, Bounds-ask_string, Bounds-ask_int,
  Bounds-add_names, Bounds-utf8, Bounds-int_from, get_copy-IsBounded,
}

module _ (tables : ValueTable NpIdentifierInfo) (has_find use_cache : Bool) where
  open tables use {Table}

  Bounds-named :
      {A : Type 0} (m : Action (Cache Table) A) (f : A → Answer)
      → Bounds tables m
      → Bounds tables (m >>= λ a. return (f a))
  Bounds-named m f h = Bounds-bind tables m (λ a. return (f a)) h (λ a. Bounds-return tables (f a))

  Bounds-perform :
      (peer : Peer) (call : Call) → Bounds tables (perform tables has_find use_cache peer call)
  unfolding perform
  Bounds-perform peer (get_string_identifier s) =
      Bounds-named (cached_get_string_identifier tables has_find use_cache peer s) identifier (
        unfold cached_get_string_identifier return in
        λ c h.
          if_both (λ r. IsBounded tables r.1) use_cache
            (ask_string tables (cache_has_string tables has_find s c) peer s c)
            (ok (invoke_get_string_identifier peer s), c)
            (Bounds-ask_string tables (cache_has_string tables has_find s c) peer s c h) h)
  Bounds-perform peer (get_string_identifiers ss old) =
      Bounds-named (cached_get_string_identifiers tables use_cache peer ss old) identifiers (
        unfold cached_get_string_identifiers return in
        let ids = invoke_get_string_identifiers peer ss old in
        if_both (Bounds tables) use_cache (add_names tables ss ids >>= λ _. return ids) (return ids)
          (Bounds-bind tables (add_names tables ss ids) (λ _. return ids)
            (Bounds-add_names tables ss ids) (λ _. Bounds-return tables ids))
          (Bounds-return tables ids))
  Bounds-perform peer (get_int_identifier v) =
      Bounds-named (cached_get_int_identifier tables has_find use_cache peer v) identifier (
        unfold cached_get_int_identifier return in
        λ c h.
          if_both (λ r. IsBounded tables r.1) use_cache
            (ask_int tables (cache_has_int tables has_find v c) peer v c)
            (ok (invoke_get_int_identifier peer v), c)
            (Bounds-ask_int tables (cache_has_int tables has_find v c) peer v c h) h)
  Bounds-perform peer (identifier_is_string k) =
      Bounds-named (cached_identifier_is_string tables use_cache peer k) truth
        (unfold cached_identifier_is_string return in λ c h. h)
  Bounds-perform peer (utf8_from_identifier k) =
      Bounds-named (cached_utf8_from_identifier tables use_cache peer k) text (
        unfold cached_utf8_from_identifier cache_get_string_copy return in
        λ c h.
          let copied = get_copy tables (cache_lookup tables k c) c in
          if_both (λ r. IsBounded tables r.1) use_cache (utf8 tables copied.0 peer k copied.1)
            (ok (invoke_utf8_from_identifier peer k), c)
            (Bounds-utf8 tables copied.0 peer k copied.1
              (get_copy-IsBounded tables (cache_lookup tables k c) c h))
            h)
  Bounds-perform peer (int_from_identifier k) =
      Bounds-named (cached_int_from_identifier tables use_cache peer k) integer (
        unfold cached_int_from_identifier return in
        λ c h.
          if_both (λ r. IsBounded tables r.1) use_cache
            (int_from tables (cache_lookup tables k c) peer k c)
            (ok (invoke_int_from_identifier peer k), c)
            (Bounds-int_from tables (cache_lookup tables k c) peer k c h) h)

  -- A call of the plugin for an identifier, of any of the six kinds and on the main thread, leaves
  -- at most NPIDENTIFIER_CACHE_SIZE entries in a cache that has no more, whatever the browser
  -- replies or fails to reply, whatever memory there is, and even if the call ends the process.
  pub perform-IsBounded :
      (peer : Peer) (call : Call) (c : Cache Table)
      → IsBounded tables c
      → IsBounded tables (perform tables has_find use_cache peer call c).1
  perform-IsBounded peer call c h = Bounds-perform peer call c h
