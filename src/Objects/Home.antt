-- ===== src/Objects/Home.antt =====
-- An object goes to the other process and comes back.
use nspluginwrapper.Prelude.{
  ℕ, ◌+◌, ◌%◌, ◌<◌, ◌^◌, ◌==◌, Bool, true, false, if◌then◌else◌, none, some, ◌≡◌, refl, ap, ◌∙◌,
  arith,
}
use nspluginwrapper.Rpc.Error.{Result, ok, abort}
use nspluginwrapper.Rpc.Action.{return, ◌>>=◌, bind_first}
use nspluginwrapper.Glib.{HashTable}
use nspluginwrapper.Objects.Host.{
  own, proxy, NpObject, Wire, Host, Process, put_object, set_object, retain, retained, with_object,
  create_stub, create_proxy,
}
use nspluginwrapper.Objects.Exchange.{
  export_object, own_wire, export_own, export_proxy, export_kind, import_object, import_stub,
  import_local, sender_owned, stub_wire,
}

module _ (glib : HashTable) where
  open glib use {Table, insert, lookup, lookup-insert}

  pub with_some :
      {A : Type 0} (a : ℕ) (o : NpObject) (f : NpObject → Process glib A) (h : Host Table)
      → h.objects a ≡ some o
      → with_object glib a f h ≡ f o h
  unfolding with_object
  with_some {A} a o f h e =
      ap (λ v. elim v as (λ _. Result A × Host Table) [ none ↦ (abort, h) | some p ↦ f p h ]) e

  -- The process after it has made a stub with the next id.
  abbrev pub with_stub : ℕ → NpObject → Host Table → Host Table
  with_stub a o h =
      let n = (h.next_id + 1) % 2 ^ 32 in
      record h {
        objects = put_object a (some (retained glib o)) h.objects;
        next_id = n;
        stubs = insert n a h.stubs;
      }

  pub create_stub_ok :
      (a : ℕ) (o : NpObject) (h : Host Table)
      → h.objects a ≡ some o
      → create_stub glib a h ≡ (ok ((h.next_id + 1) % 2 ^ 32), with_stub a o h)
  unfolding create_stub ◌>>=◌ return retain
  create_stub_ok a o h e =
      let h' : Host Table = record h { next_id = (h.next_id + 1) % 2 ^ 32 } in
      bind_first (retain glib a) (λ s. (ok tt, set_object glib a (some (retained glib o)) s)) _ h'
        (with_some a o (λ p s. (ok tt, set_object glib a (some (retained glib p)) s)) h' e)

  pub same : (id : ℕ) → (id == id) ≡ true
  same id = ground arith

  pub some_id : (n : ℕ) → n + 1 < 2 ^ 32 → ((n + 1) % 2 ^ 32 == 0) ≡ false
  some_id n lt = ground arith

  module _ (owner_id : ℕ → ℕ) where
    abbrev pub owned_wire : ℕ → Host Table → Wire
    owned_wire a h = record {
      type = sender_owned;
      plugin = owner_id a;
      id = (h.next_id + 1) % 2 ^ 32;
      release_stub = false;
    }

    pub export_own_ok :
        (a : ℕ) (o : NpObject) (h : Host Table)
        → h.objects a ≡ some o
        → o.kind ≡ own
        → h.next_id + 1 < 2 ^ 32
        → export_object glib owner_id false (some a) h ≡ (ok (owned_wire a h), with_stub a o h)
    unfolding export_object export_own ◌>>=◌ return
    export_own_ok a o h e k lt =
        with_some a o (λ p. export_kind glib owner_id false a p.kind p.reference_count) h e
        ∙ ap (λ kind. export_kind glib owner_id false a kind o.reference_count h) k
        ∙ bind_first (create_stub glib a) (λ s. (ok ((s.next_id + 1) % 2 ^ 32), with_stub a o s)) _
            h (create_stub_ok a o h e)
        ∙ ap (λ b. own_wire glib owner_id a ((h.next_id + 1) % 2 ^ 32) b (with_stub a o h))
            (some_id h.next_id lt)

    pub export_proxy_ok :
        (a j c : ℕ) (v : Bool) (h : Host Table)
        → (j == 0) ≡ false
        → h.objects a ≡ some (record { kind = proxy j v; reference_count = c })
        → export_object glib owner_id false (some a) h ≡ (ok (stub_wire j false), h)
    unfolding export_object export_proxy
    export_proxy_ok a j c v h n e =
        with_some a (record { kind = proxy j v; reference_count = c })
          (λ p. export_kind glib owner_id false a p.kind p.reference_count) h e
        ∙ ap
            (λ b.
              (if b
                  then export_own glib owner_id false a
                  else export_proxy glib owner_id false a j v c)
                h)
            n

    pub import_stub_ok :
        (j a b : ℕ) (o : NpObject) (h : Host Table)
        → lookup j h.stubs ≡ some b
        → h.objects b ≡ some o
        → import_object glib a (stub_wire j false) h
          ≡ (ok (some b), set_object glib b (some (retained glib o)) h)
    unfolding import_object import_stub ◌>>=◌ return retain
    import_stub_ok j a b o h e q =
        ap (λ l. import_local glib (stub_wire j false) l h) e
        ∙ bind_first (retain glib b) (λ s. (ok tt, set_object glib b (some (retained glib o)) s)) _
            h (with_some b o (λ p s. (ok tt, set_object glib b (some (retained glib p)) s)) h q)

    -- An object of a process's own that is sent without its reference is a new proxy in the other
    -- process, with one reference; when the proxy is sent back without its reference, the first
    -- process receives the object that it sent. `next_id` has not come round.
    pub comes_home :
        (o a b : ℕ) (obj : NpObject) (x y : Host Table)
        → x.objects o ≡ some obj
        → obj.kind ≡ own
        → x.next_id + 1 < 2 ^ 32
        → (w : Wire) × (back : Wire) × (x' : Host Table) × (y' : Host Table) × (x'' : Host Table)
          × export_object glib owner_id false (some o) x ≡ (ok w, x')
          × import_object glib a w y ≡ (ok (some a), y')
          × y'.objects a ≡ some (record { kind = proxy w.id true; reference_count = 1 })
          × export_object glib owner_id false (some a) y' ≡ (ok back, y')
          × import_object glib b back x' ≡ (ok (some o), x'')
    unfolding import_object create_proxy
    comes_home o a b obj x y e k lt =
        let x' = with_stub o obj x in
        let id = (x.next_id + 1) % 2 ^ 32 in
        let y' = create_proxy glib id a y in
        let home : x'.objects o ≡ some (retained glib obj) =
          ap (λ t. if t then some (retained glib obj) else x.objects o) (same o) in
        let there : y'.objects a ≡ some (record { kind = proxy id true; reference_count = 1 }) =
          ap
            (λ t.
              if t
              then some (record { kind = proxy id true; reference_count = 1 })
              else y.objects a)
            (same a) in
        let found : lookup id x'.stubs ≡ some o =
          lookup-insert id id o x.stubs
          ∙ ap (λ t. if t then some o else lookup id x.stubs) (same id) in
        (
          owned_wire o x,
          stub_wire id false,
          x',
          y',
          _,
          export_own_ok o obj x e k lt,
          refl,
          there,
          export_proxy_ok a id 1 true y' (some_id x.next_id lt) there,
          import_stub_ok id b o (retained glib obj) x' found home,
        )
