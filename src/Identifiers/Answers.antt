-- ===== src/Identifiers/Answers.antt =====
-- The cached calls of src/npw-viewer.c against the browser that they stand for.
use nspluginwrapper.Prelude.{
  ℕ, suc, ◌+◌, ◌==◌, min, if◌then◌else◌, if_both, List, [], ◌∷◌, map, append-nil, length, take_all,
  drop_all, All, Option, none, some, ℤ, ◌≡◌, refl, sym, ap, subst, ◌∙◌, arith,
}
use nspluginwrapper.Rpc.Error.{ok}
use nspluginwrapper.Rpc.Action.{return, halt, ◌>>=◌}
use nspluginwrapper.Glib.{ValueTable}
use nspluginwrapper.Identifiers.{
  Text, NpIdentifierInfo, Cache, allocates, cache_reserve, cache_lookup, get_copy, copy_of,
  allocated,
}
use nspluginwrapper.Identifiers.Strings.{Fits, sought, before_last-terminated}
use nspluginwrapper.Identifiers.Cached.{
  invoke_get_string_identifier, invoke_get_int_identifier, invoke_identifier_is_string,
  invoke_utf8_from_identifier, invoke_int_from_identifier, stored, reserve_and_add, ask_string,
  add_name, add_names, ask_int, is_string, utf8, int_from, read_value,
}
use nspluginwrapper.Identifiers.Browser.{
  name, number, Browser, is_name, name_of, number_of, serving,
}
use nspluginwrapper.Identifiers.Coherent.{
  Tells, tells_name, tells_number, Coherent, Coherent-reserve, Coherent-add_int, Returned,
  Returned-bind, Returned-add_string,
}

module _ (tables : ValueTable NpIdentifierInfo) (b : Browser) where
  open tables use {Table}

  pub Returned-reserve_and_add :
      (k : ℕ) (s : Text) (c : Cache Table)
      → Coherent tables b c
      → b.meaning k ≡ name s
      → Fits s
      → Returned tables b tt (reserve_and_add tables k (some s) c)
  unfolding reserve_and_add
  Returned-reserve_and_add k s c h e f =
      Returned-add_string tables b k s (cache_reserve tables 1 c) (Coherent-reserve tables b 1 c h)
        e f

  pub Returned-ask_string :
      (o : Option ℕ) (s : Text) (c : Cache Table)
      → Coherent tables b c
      → Fits s
      → ((k : ℕ) → o ≡ some k → b.meaning k ≡ name s)
      → Returned tables b (b.string_identifier s) (ask_string tables o (serving b) s c)
  unfolding return invoke_get_string_identifier
  Returned-ask_string (some k) s c h f right = (ap ok (b.name_unique k s (right k refl)), h)
  Returned-ask_string none s c h f right =
      Returned-bind tables b (reserve_and_add tables (b.string_identifier s) (some s))
        (λ _. return (b.string_identifier s)) c tt (b.string_identifier s)
        (Returned-reserve_and_add (b.string_identifier s) s c h (b.string_identifier-meaning s) f)
        (λ c' h'. (refl, h'))

  pub Returned-ask_int :
      (o : Option ℕ) (v : ℤ) (c : Cache Table)
      → Coherent tables b c
      → ((k : ℕ) → o ≡ some k → b.meaning k ≡ number v)
      → Returned tables b (b.int_identifier v) (ask_int tables o (serving b) v c)
  unfolding return invoke_get_int_identifier
  Returned-ask_int (some k) v c h right = (ap ok (b.number_unique k v (right k refl)), h)
  Returned-ask_int none v c h right = (
    refl,
    Coherent-add_int tables b (b.int_identifier v) v (cache_reserve tables 1 c)
        (Coherent-reserve tables b 1 c h) (b.int_identifier-meaning v),
  )

  pub Returned-int_from :
      (o : Option NpIdentifierInfo) (k : ℕ) (v : ℤ) (c : Cache Table)
      → Coherent tables b c
      → b.meaning k ≡ number v
      → ((npi : NpIdentifierInfo) → o ≡ some npi → Tells b k npi)
      → Returned tables b (number_of (b.meaning k)) (int_from tables o (serving b) k c)
  unfolding return halt invoke_int_from_identifier
  Returned-int_from none k v c h m told = (
    refl,
    Coherent-add_int tables b k (number_of (b.meaning k)) (cache_reserve tables 1 c)
        (Coherent-reserve tables b 1 c h) (m ∙ ap number (sym (ap number_of m))),
  )
  Returned-int_from (some npi) k v c h m told = elim (told npi refl) [
    | tells_name s e n f ↦ let other : name s ≡ number v = sym n ∙ m in cc
    | tells_number w e n ↦
        subst
          (λ (z : NpIdentifierInfo).
            Returned tables b (number_of (b.meaning k)) (read_value tables z.string_len z.u c))
          (sym e) (ap ok (sym (ap number_of n)), h)
  ]

  pub is_string-answer :
      (o : Option NpIdentifierInfo) (k : ℕ)
      → ((npi : NpIdentifierInfo) → o ≡ some npi → Tells b k npi)
      → is_string o (serving b) k ≡ is_name (b.meaning k)
  unfolding invoke_identifier_is_string
  is_string-answer none k told = ground arith
  is_string-answer (some npi) k told = elim (told npi refl) [
    | tells_name s e n f ↦
        let sized : npi.string_len ≡ length s + 1 = ap (λ z. z.string_len) e ∙ omega arith in
        rw n (ground arith)
    | tells_number w e n ↦
        let sized : npi.string_len ≡ 0 = ap (λ z. z.string_len) e in rw n (ground arith)
  ]

  Returned-fresh_utf8 :
      (k : ℕ) (s : Text) (c : Cache Table)
      → Coherent tables b c
      → b.meaning k ≡ name s
      → Fits s
      → Returned tables b (name_of (b.meaning k)) (utf8 tables none (serving b) k c)
  unfolding return invoke_utf8_from_identifier
  Returned-fresh_utf8 k s c h m f =
      let known : name_of (b.meaning k) ≡ some s = ap name_of m in
      subst (λ o. Returned tables b o ((reserve_and_add tables k o >>= λ _. return o) c))
        (sym known)
        (Returned-bind tables b (reserve_and_add tables k (some s)) (λ _. return (some s)) c tt
          (some s) (Returned-reserve_and_add k s c h m f) (λ c' h'. (refl, h')))

  Returned-copied_utf8 :
      (npi : NpIdentifierInfo) (k : ℕ) (s : Text) (c : Cache Table)
      → Coherent tables b c
      → b.meaning k ≡ name s
      → Fits s
      → npi ≡ sought s
      → Returned tables b (name_of (b.meaning k)) (utf8 tables (copy_of npi.u) (serving b) k c)
  unfolding return
  Returned-copied_utf8 npi k s c h m f e =
      let copied : copy_of npi.u ≡ some s =
        ap (λ (z : NpIdentifierInfo). copy_of z.u) e ∙ ap some (before_last-terminated s) in
      subst (λ o. Returned tables b (name_of (b.meaning k)) (utf8 tables o (serving b) k c))
        (sym copied) (ap ok (sym (ap name_of m)), h)

  -- What cached_NPN_UTF8FromIdentifier makes of a copy, or of none.
  abbrev pub Utf8Right : ℕ → Option Text × Cache Table → Type 0
  Utf8Right k (o, c) = Returned tables b (name_of (b.meaning k)) (utf8 tables o (serving b) k c)

  pub Utf8Right-get_copy :
      (o : Option NpIdentifierInfo) (k : ℕ) (s : Text) (c : Cache Table)
      → Coherent tables b c
      → b.meaning k ≡ name s
      → Fits s
      → ((npi : NpIdentifierInfo) → o ≡ some npi → Tells b k npi)
      → Utf8Right k (get_copy tables o c)
  Utf8Right-get_copy none k s c h m f told = Returned-fresh_utf8 k s c h m f
  Utf8Right-get_copy (some npi) k s c h m f told =
      let fresh =
        λ (c' : Cache Table) (h' : Coherent tables b c'). Returned-fresh_utf8 k s c' h' m f in
      if_both (Utf8Right k) (npi.string_len == 0) (none, c)
        (if allocates c.memory
          then (copy_of npi.u, allocated tables c)
          else (none, allocated tables c))
        (fresh c h)
        (if_both (Utf8Right k) (allocates c.memory) (copy_of npi.u, allocated tables c)
          (none, allocated tables c)
          (elim (told npi refl) [
            | tells_name r e n g ↦ Returned-copied_utf8 npi k r (allocated tables c) h n g e
            | tells_number w e n ↦ let other : name s ≡ number w = sym m ∙ n in cc
          ])
          (fresh (allocated tables c) h))

  -- The loop of cached_NPN_GetStringIdentifiers.
  Returned-add_name :
      (o : Option NpIdentifierInfo) (k : ℕ) (s : Text) (c : Cache Table)
      → Coherent tables b c
      → b.meaning k ≡ name s
      → Fits s
      → Returned tables b tt (add_name tables o k s c)
  unfolding return
  Returned-add_name none k s c h m f = Returned-reserve_and_add k s c h m f
  Returned-add_name (some npi) k s c h m f = (refl, h)

  pub Returned-add_names :
      (ss : List Text) (c : Cache Table)
      → Coherent tables b c
      → All Fits ss
      → Returned tables b tt (add_names tables ss (map b.string_identifier ss) c)
  unfolding add_names return
  Returned-add_names [] c h f = (refl, h)
  Returned-add_names (s ∷ ss) c h f =
      Returned-bind tables b
        (λ c.
          add_name tables (cache_lookup tables (b.string_identifier s) c) (b.string_identifier s) s
            c)
        (λ _. add_names tables ss (map b.string_identifier ss)) c tt tt
        (Returned-add_name (cache_lookup tables (b.string_identifier s) c) (b.string_identifier s) s
          c h (b.string_identifier-meaning s) f.0)
        (λ c' h'. Returned-add_names ss c' h' f.1)

length-map : (b : Browser) (ss : List Text) → length (map b.string_identifier ss) ≡ length ss
length-map b [] = refl
length-map b (s ∷ ss) = ap suc (length-map b ss)

-- Where the browser gives an identifier for each name, the array holds them and nothing else.
pub stored_all :
    (b : Browser) (ss : List Text) (old : List ℕ)
    → length old ≡ length ss
    → stored (length ss) (map b.string_identifier ss) old ≡ map b.string_identifier ss
stored_all b ss old h =
    let ids = map b.string_identifier ss in
    let n : min (length ids) (length ss) ≡ length ss = omega (arith, length-map b ss) in
    rw
      (
        n,
        take_all (length ss) ids (omega (arith, length-map b ss)),
        drop_all (length ss) old (omega arith),
      )
      (append-nil ids)
