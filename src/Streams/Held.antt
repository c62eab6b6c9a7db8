-- ===== src/Streams/Held.antt =====
-- A stream that a process holds under an id: it is sent as the id, and the id is received as it.
use nspluginwrapper.Prelude.{
  ℕ, ◌==◌, ==_iff, Bool, false, if_true, if_false, none, some, ◌≡◌, ◌≢◌, refl, sym, ap, ◌∙◌, arith,
}
use nspluginwrapper.Rpc.Error.{ok, abort}
use nspluginwrapper.Glib.{HashTable}
use nspluginwrapper.Ids.{Ids, id_create, id_link}
use nspluginwrapper.Streams.{
  StreamInstance, Side, set, stored_stream, create_stream, link_stream, points, sent_instance,
  sent_private, send_stream, received_instance, received, recv_stream,
}

pub apart : (k j : ℕ) → k ≢ j → (k == j) ≡ false
apart k j n = ground arith

pub set_other : {A : Type 0} (k j : ℕ) (a : A) (f : ℕ → A) → k ≢ j → set k a f j ≡ f j
set_other k j a f n = if_false (k == j) a (f j) (apart k j n)

pub set_same : {A : Type 0} (k : ℕ) (a : A) (f : ℕ → A) → set k a f k ≡ a
set_same k a f = if_true (k == k) a (f k) ((==_iff k k).1 refl)

module _ (glib : HashTable) where
  open glib use {Table, lookup}

  pub record Held (x : Side Table) (id s : ℕ) : Type 0 where
    pub at : ℕ
    pub instance_of : StreamInstance
    pub owned : x.private s ≡ points at
    pub there : x.instances at ≡ some instance_of
    pub stream_of : instance_of.stream ≡ s
    pub id_of : instance_of.stream_id ≡ id
    pub linked : lookup id x.ids.table ≡ some at

  pub send-Held : (x : Side Table) (id s : ℕ) → Held x id s → send_stream glib (some s) x ≡ ok id
  unfolding send_stream
  send-Held x id s h =
      ap (λ o. sent_private glib s o x) h.owned
      ∙ ap (sent_instance glib s) h.there
      ∙ if_true (h.instance_of.stream == s) (ok h.instance_of.stream_id) abort
          ((==_iff h.instance_of.stream s).1 h.stream_of)
      ∙ ap ok h.id_of

  pub recv-Held : (x : Side Table) (id s : ℕ) → Held x id s → recv_stream glib id x ≡ ok (some s)
  unfolding recv_stream
  recv-Held x id s h =
      ap (λ o. received glib o x) h.linked
      ∙ ap (received_instance glib) h.there
      ∙ ap (λ z. ok (some z)) h.stream_of

  -- Nothing is there yet under the id, at the address, or for the stream.
  pub record Unused (x : Side Table) (id d s : ℕ) : Type 0 where
    pub no_id : lookup id x.ids.table ≡ none
    pub no_instance : x.instances d ≡ none
    pub no_private : (a : ℕ) → x.private s ≢ points a

  pub Held-linked :
      (x : Side Table) (id d s : ℕ) (b : Bool) → Held (link_stream glib id d s b x) id s
  unfolding link_stream stored_stream id_link
  Held-linked x id d s b = record {
    at = d;
    instance_of = record { stream = s; stream_id = id; is_plugin_stream = b };
    owned = set_same s (points d) x.private;
    there = set_same d _ x.instances;
    stream_of = refl;
    id_of = refl;
    linked =
        glib.lookup-insert id id d x.ids.table
        ∙ if_true (id == id) (some d) _ ((==_iff id id).1 refl);
  }

  -- The streams that were held stay so.
  pub Held-link :
      (x : Side Table) (id d s : ℕ) (b : Bool) (id' s' : ℕ)
      → Unused x id d s
      → Held x id' s'
      → Held (link_stream glib id d s b x) id' s'
  unfolding link_stream stored_stream id_link
  Held-link x id d s b id' s' u h = record {
    at = h.at;
    instance_of = h.instance_of;
    owned =
        set_other s s' (points d) x.private (λ e. u.no_private h.at (ap x.private e ∙ h.owned))
        ∙ h.owned;
    there =
        set_other d h.at _ x.instances (λ e.
          let bad : none ≡ some h.instance_of = sym u.no_instance ∙ ap x.instances e ∙ h.there in
          cc)
        ∙ h.there;
    stream_of = h.stream_of;
    id_of = h.id_of;
    linked =
        glib.lookup-insert id id' d x.ids.table
        ∙ if_false (id == id') (some d) _ (
            apart id id' (λ e.
              let bad : none ≡ some h.at =
                sym u.no_id ∙ ap (λ z. lookup z x.ids.table) e ∙ h.linked in
              cc))
        ∙ h.linked;
  }

  -- What only changes the table elsewhere leaves the streams alone.
  pub Held-table :
      (x : Side Table) (ids : Ids Table) (id s : ℕ)
      → lookup id ids.table ≡ lookup id x.ids.table
      → Held x id s
      → Held (record x { ids = ids }) id s
  Held-table x ids id s e h = record {
    at = h.at;
    instance_of = h.instance_of;
    owned = h.owned;
    there = h.there;
    stream_of = h.stream_of;
    id_of = h.id_of;
    linked = e ∙ h.linked;
  }

  -- As Held-linked and Held-link, for the wrapper, whose counter of ids goes on.
  pub Held-created :
      (x : Side Table) (d s : ℕ) (b : Bool)
      → Held (create_stream glib d s b x).1 (create_stream glib d s b x).0 s
  unfolding create_stream link_stream stored_stream id_create id_link
  Held-created x d s b =
      let id = (create_stream glib d s b x).0 in
      Held-linked (record x { ids = record (x.ids) { last_id = id } }) id d s b

  pub Held-create :
      (x : Side Table) (d s : ℕ) (b : Bool) (id' s' : ℕ)
      → Unused x (create_stream glib d s b x).0 d s
      → Held x id' s'
      → Held (create_stream glib d s b x).1 id' s'
  unfolding create_stream link_stream stored_stream id_create id_link
  Held-create x d s b id' s' u h =
      let id = (create_stream glib d s b x).0 in
      let counted = record (x.ids) { last_id = id } in
      Held-link (record x { ids = counted }) id d s b id' s'
        (record { no_id = u.no_id; no_instance = u.no_instance; no_private = u.no_private })
        (Held-table x counted id' s' refl h)
