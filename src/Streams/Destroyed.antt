-- ===== src/Streams/Destroyed.antt =====
-- A stream that is destroyed: what becomes of it, and that the others stay.
use nspluginwrapper.Prelude.{
  ℕ, ◌==◌, ==_iff, true, if_true, if_false, none, some, ◌≡◌, ◌≢◌, refl, sym, ap, ◌∙◌,
}
use nspluginwrapper.Rpc.Error.{Result, ok}
use nspluginwrapper.Glib.{HashTable}
use nspluginwrapper.Ids.{id_remove}
use nspluginwrapper.Streams.{
  StreamInstance, Side, set, release_instance, release_private, destroy_stream, npn_destroy_stream,
  npn_destroy_private, destroy_if_plugin, Private, null, freed, points, viewer_release,
  viewer_destroy_stream, viewer_npn_destroy_stream, sent_private, send_stream, received,
  recv_stream,
}
use nspluginwrapper.Streams.Held.{Held, apart, set_other, set_same}

module _ (glib : HashTable) where
  open glib use {Table, lookup}

  -- What is left after a stream has been destroyed.
  abbrev pub without_stream : Private → ℕ → ℕ → ℕ → Side Table → Side Table
  without_stream left id d s x = record x {
    ids = id_remove glib id x.ids;
    instances = set d none x.instances;
    private = set s left x.private;
  }

  pub destroy-Held :
      (x : Side Table) (id s : ℕ) (h : Held glib x id s)
      → destroy_stream glib s x ≡ (ok tt, without_stream null id h.at s x)
  unfolding destroy_stream
  destroy-Held x id s h =
      ap (λ o. release_private glib s o x) h.owned
      ∙ ap (λ o. release_instance glib null s h.at o x) h.there
      ∙ ap (λ i. (ok tt, without_stream null i h.at s x)) h.id_of

  pub viewer_destroy-Held :
      (x : Side Table) (id s : ℕ) (h : Held glib x id s)
      → viewer_destroy_stream glib s x ≡ (ok tt, without_stream freed id h.at s x)
  unfolding viewer_destroy_stream
  viewer_destroy-Held x id s h =
      ap (λ o. viewer_release glib s o x) h.owned
      ∙ ap (λ o. release_instance glib freed s h.at o x) h.there
      ∙ ap (λ i. (ok tt, without_stream freed i h.at s x)) h.id_of

  -- Another stream stays.
  pub Held-without :
      (left : Private) (x : Side Table) (id s id' s' : ℕ) (h : Held glib x id s)
      → Held glib x id' s'
      → id ≢ id'
      → Held glib (without_stream left id h.at s x) id' s'
  unfolding id_remove
  Held-without left x id s id' s' h g n =
      let other_at : h.at ≢ g.at = λ e.
        let same : some h.instance_of ≡ some g.instance_of =
          sym h.there ∙ ap x.instances e ∙ g.there in
        let one : h.instance_of ≡ g.instance_of = cc in
        n (sym h.id_of ∙ ap (λ i. i.stream_id) one ∙ g.id_of) in
      record {
        at = g.at;
        instance_of = g.instance_of;
        owned =
            set_other s s' left x.private (λ e.
              let same : points h.at ≡ points g.at = sym h.owned ∙ ap x.private e ∙ g.owned in
              let one : h.at ≡ g.at = cc in other_at one)
            ∙ g.owned;
        there = set_other h.at g.at none x.instances other_at ∙ g.there;
        stream_of = g.stream_of;
        id_of = g.id_of;
        linked =
            glib.lookup-remove id id' x.ids.table
            ∙ if_false (id == id') none (lookup id' x.ids.table) (apart id id' n)
            ∙ g.linked;
      }

  -- Its id is received as NULL, and its NPStream is sent by what is left of the pointer.
  pub recv-without :
      (left : Private) (x : Side Table) (id s d : ℕ)
      → recv_stream glib id (without_stream left id d s x) ≡ ok none
  unfolding recv_stream id_remove
  recv-without left x id s d =
      ap (λ o. received glib o (without_stream left id d s x))
        (glib.lookup-remove id id x.ids.table
          ∙ if_true (id == id) none (lookup id x.ids.table) ((==_iff id id).1 refl))

  pub send-without :
      (x : Side Table) (id s d : ℕ)
      → send_stream glib (some s) (without_stream null id d s x) ≡ ok 0
  unfolding send_stream
  send-without x id s d =
      ap (λ o. sent_private glib s o (without_stream null id d s x)) (set_same s null x.private)

  -- A stream that the plugin has made with NPN_NewStream.
  pub record IsPluginStream (x : Side Table) (s : ℕ) : Type 0 where
    pub address : ℕ
    pub structure : StreamInstance
    pub has_private : x.private s ≡ points address
    pub has_instance : x.instances address ≡ some structure
    pub flag : structure.is_plugin_stream ≡ true

  -- NPN_DestroyStream then does what NPP_DestroyStream does.
  npn_destroy_private-plugin :
      (destroy : Side Table → Result (Unit {0}) × Side Table) (x : Side Table) (s : ℕ)
      → IsPluginStream x s
      → npn_destroy_private glib destroy (x.private s) x ≡ destroy x
  npn_destroy_private-plugin destroy x s h =
      ap (λ o. npn_destroy_private glib destroy o x) h.has_private
      ∙ ap (λ o. destroy_if_plugin glib destroy o x) h.has_instance
      ∙ if_true h.structure.is_plugin_stream (destroy x) (ok tt, x) h.flag

  pub npn_destroy-destroy :
      (x : Side Table) (s : ℕ)
      → IsPluginStream x s
      → npn_destroy_stream glib s x ≡ destroy_stream glib s x
  unfolding npn_destroy_stream
  npn_destroy-destroy x s h = npn_destroy_private-plugin (destroy_stream glib s) x s h

  pub viewer_npn_destroy-destroy :
      (x : Side Table) (s : ℕ)
      → IsPluginStream x s
      → viewer_npn_destroy_stream glib s x ≡ viewer_destroy_stream glib s x
  unfolding viewer_npn_destroy_stream
  viewer_npn_destroy-destroy x s h = npn_destroy_private-plugin (viewer_destroy_stream glib s) x s h
