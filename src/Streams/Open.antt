-- ===== src/Streams/Open.antt =====
-- The streams of the two processes of nspluginwrapper, opened and closed one call after another,
-- while the ids of other things come and go in the same tables.
use mathlib.Core.List.{Memᴰ}
use nspluginwrapper.Prelude.{
  ℕ, ◌==◌, ==_iff, Bool, Bool-cases, if◌then◌else◌, if_true, if_false, List, [], ◌∷◌, All, none,
  some, ◌≡◌, ◌≢◌, sym, ap, subst, inl, inr,
}
use nspluginwrapper.Rpc.Error.{ok}
use nspluginwrapper.Glib.{HashTable}
use nspluginwrapper.Ids.{Ids}
use nspluginwrapper.Streams.{
  Side, null, freed, viewer_destroy_stream, viewer_npn_destroy_stream, create_stream, link_stream,
  destroy_stream, npn_destroy_stream, send_stream, recv_stream,
}
use nspluginwrapper.Streams.Held.{
  Held, Unused, Held-linked, Held-link, Held-table, send-Held, recv-Held, Held-created, Held-create,
}
use nspluginwrapper.Streams.Destroyed.{
  Held-without, destroy-Held, viewer_destroy-Held, IsPluginStream, npn_destroy-destroy,
  viewer_npn_destroy-destroy,
}

-- A stream that is open: its id, and its NPStream in the wrapper and in the viewer.
pub record Stream : Type 0 where
  pub id : ℕ
  pub wrapper : ℕ
  pub viewer : ℕ

-- The streams but the one with an id.
unfoldable pub closed : ℕ → List Stream → List Stream
closed id [] = []
closed id (p ∷ ps) = let rest = closed id ps in if id == p.id then rest else p ∷ rest

All-closed :
    (P Q : Stream → Type 0) (id : ℕ) (ps : List Stream)
    → ((p : Stream) → id ≢ p.id → P p → Q p)
    → All P ps
    → All Q (closed id ps)
unfolding closed
All-closed P Q id [] f h = tt
All-closed P Q id (p ∷ ps) f h = elim (Bool-cases (id == p.id)) [
  | inl same ↦
      subst (All Q) (sym (if_true (id == p.id) (closed id ps) (p ∷ closed id ps) same))
        (All-closed P Q id ps f h.1)
  | inr other ↦
      subst (All Q) (sym (if_false (id == p.id) (closed id ps) (p ∷ closed id ps) other))
        (f p (λ e. let same = (==_iff id p.id).1 e in cc) h.0, All-closed P Q id ps f h.1)
]

All-map :
    (P Q : Stream → Type 0) (ps : List Stream) → ((p : Stream) → P p → Q p) → All P ps → All Q ps
All-map P Q [] f h = tt
All-map P Q (p ∷ ps) f h = (f p h.0, All-map P Q ps f h.1)

All-member : (P : Stream → Type 0) (p : Stream) (ps : List Stream) → Memᴰ p ps → All P ps → P p
All-member P p [] m h = elim m [ ]
All-member P p (q ∷ ps) (Memᴰ.head e) h = subst P (sym e) h.0
All-member P p (q ∷ ps) (Memᴰ.tail m) h = All-member P p ps m h.1

All-both :
    (P Q R S : Stream → Type 0) (ps : List Stream)
    → ((p : Stream) → P p → Q p → R p → S p)
    → All P ps
    → All Q ps
    → All R ps
    → All S ps
All-both P Q R S [] f a b c = tt
All-both P Q R S (p ∷ ps) f a b c = (f p a.0 b.0 c.0, All-both P Q R S ps f a.1 b.1 c.1)

module _ (glib : HashTable) where
  open glib use {Table, lookup}

  -- Both processes hold it under its id.
  abbrev pub BothHold : Side Table → Side Table → Stream → Type 0
  BothHold w v p = Held glib w p.id p.wrapper × Held glib v p.id p.viewer

  -- Calls that return, with the wrapper, the viewer and the streams that are open.
  pub data Calls : Side Table → Side Table → List Stream → Type 0 where
    -- No streams yet.
    none_open : (w v : Side Table) → Calls w v []
    -- NPP_NewStream or NPN_NewStream: the wrapper makes the id, and the viewer links it. The
    -- structures are new, and so is the id.
    opens :
        (w v : Side Table) (ps : List Stream) (d s d' s' : ℕ) (b : Bool)
        → Calls w v ps
        → Unused glib w (create_stream glib d s b w).0 d s
        → Unused glib v (create_stream glib d s b w).0 d' s'
        → Calls
            (create_stream glib d s b w).1
            (link_stream glib (create_stream glib d s b w).0 d' s' b v)
            (record { id = (create_stream glib d s b w).0; wrapper = s; viewer = s' } ∷ ps)
    -- NPP_DestroyStream
    closes :
        (w v : Side Table) (ps : List Stream) (p : Stream)
        → Calls w v ps
        → Memᴰ p ps
        → Calls
            (destroy_stream glib p.wrapper w).1
            (viewer_destroy_stream glib p.viewer v).1
            (closed p.id ps)
    -- NPN_DestroyStream of a stream that the plugin has made: the wrapper goes first.
    plugin_closes :
        (w v : Side Table) (ps : List Stream) (p : Stream)
        → Calls w v ps
        → Memᴰ p ps
        → IsPluginStream glib w p.wrapper
        → IsPluginStream glib v p.viewer
        → Calls
            (npn_destroy_stream glib p.wrapper w).1
            (viewer_npn_destroy_stream glib p.viewer v).1
            (closed p.id ps)
    -- Another part of a process changes the table, but not where a stream is.
    elsewhere :
        (w v : Side Table) (ps : List Stream) (a c : Ids Table)
        → Calls w v ps
        → All (λ p. lookup p.id a.table ≡ lookup p.id w.ids.table) ps
        → All (λ p. lookup p.id c.table ≡ lookup p.id v.ids.table) ps
        → Calls (record w { ids = a }) (record v { ids = c }) ps

  abbrev pub IsGone : ℕ → ℕ → Side Table → Type 0
  IsGone id s x = (send_stream glib (some s) x ≡ ok 0) × (recv_stream glib id x ≡ ok none)

  closes-BothHold :
      (w v : Side Table) (ps : List Stream) (p : Stream)
      → All (BothHold w v) ps
      → Memᴰ p ps
      → All
          (BothHold (destroy_stream glib p.wrapper w).1 (viewer_destroy_stream glib p.viewer v).1)
          (closed p.id ps)
  closes-BothHold w' v' ps' p held m =
      let mine = All-member (BothHold w' v') p ps' m held in
      All-closed (BothHold w' v')
        (BothHold (destroy_stream glib p.wrapper w').1 (viewer_destroy_stream glib p.viewer v').1)
        p.id ps'
        (λ q n g. (
          subst (λ x. Held glib x q.id q.wrapper)
              (sym (ap (λ r. r.1) (destroy-Held glib w' p.id p.wrapper mine.0)))
              (Held-without glib null w' p.id p.wrapper q.id q.wrapper mine.0 g.0 n),
          subst (λ x. Held glib x q.id q.viewer)
              (sym (ap (λ r. r.1) (viewer_destroy-Held glib v' p.id p.viewer mine.1)))
              (Held-without glib freed v' p.id p.viewer q.id q.viewer mine.1 g.1 n),
        ))
        held

  Calls-BothHold : (w v : Side Table) (ps : List Stream) → Calls w v ps → All (BothHold w v) ps
  Calls-BothHold w v ps (none_open w' v') = tt
  Calls-BothHold w v ps (opens w' v' ps' d s d' s' b h u u') =
      let id = (create_stream glib d s b w').0 in
      (
        (Held-created glib w' d s b, Held-linked glib v' id d' s' b),
        All-map (BothHold w' v')
            (BothHold (create_stream glib d s b w').1 (link_stream glib id d' s' b v')) ps'
            (λ p g. (
              Held-create glib w' d s b p.id p.wrapper u g.0,
              Held-link glib v' id d' s' b p.id p.viewer u' g.1,
            ))
            (Calls-BothHold w' v' ps' h),
      )
  Calls-BothHold w v ps (closes w' v' ps' p h m) =
      closes-BothHold w' v' ps' p (Calls-BothHold w' v' ps' h) m
  Calls-BothHold w v ps (plugin_closes w' v' ps' p h m in_w in_v) =
      subst (λ x. All (BothHold x (viewer_npn_destroy_stream glib p.viewer v').1) (closed p.id ps'))
        (sym (ap (λ r. r.1) (npn_destroy-destroy glib w' p.wrapper in_w)))
        (subst (λ x. All (BothHold (destroy_stream glib p.wrapper w').1 x) (closed p.id ps'))
          (sym (ap (λ r. r.1) (viewer_npn_destroy-destroy glib v' p.viewer in_v)))
          (closes-BothHold w' v' ps' p (Calls-BothHold w' v' ps' h) m))
  Calls-BothHold w v ps (elsewhere w' v' ps' a c h ea ec) =
      All-both (BothHold w' v') (λ p. lookup p.id a.table ≡ lookup p.id w'.ids.table)
        (λ p. lookup p.id c.table ≡ lookup p.id v'.ids.table)
        (BothHold (record w' { ids = a }) (record v' { ids = c })) ps'
        (λ p g e f.
          (Held-table glib w' a p.id p.wrapper e g.0, Held-table glib v' c p.id p.viewer f g.1))
        (Calls-BothHold w' v' ps' h) ea ec

  -- Each stream that is open comes to the other process as its own: the viewer receives its
  -- NPStream where the wrapper has sent the wrapper's, and the other way round. This holds after any
  -- row of calls that open and close streams, of the browser and of the plugin, while other ids come
  -- and go, if a new stream has structures, and an id, that are not in use.
  pub streams_correspond :
      (w v : Side Table) (ps : List Stream) (p : Stream)
      → Calls w v ps
      → Memᴰ p ps
      → (send_stream glib (some p.wrapper) w ≡ ok p.id)
        × (recv_stream glib p.id v ≡ ok (some p.viewer))
        × (send_stream glib (some p.viewer) v ≡ ok p.id)
        × (recv_stream glib p.id w ≡ ok (some p.wrapper))
  streams_correspond w v ps p h m =
      let (in_w, in_v) = All-member (BothHold w v) p ps m (Calls-BothHold w v ps h) in
      (
        send-Held glib w p.id p.wrapper in_w,
        recv-Held glib v p.id p.viewer in_v,
        send-Held glib v p.id p.viewer in_v,
        recv-Held glib w p.id p.wrapper in_w,
      )
