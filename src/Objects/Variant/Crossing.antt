-- ===== src/Objects/Variant/Crossing.antt =====
-- A variant goes from a process to the other one.
use nspluginwrapper.Prelude.{ℕ, Bool, true, if◌then◌else◌, List, ◌++◌, ◌≡◌, refl, ap, sym, ◌∙◌}
use nspluginwrapper.Rpc.Error.{ok}
use nspluginwrapper.Rpc.Action.{Action, return, ◌>>=◌, bind_ok}
use nspluginwrapper.Rpc.Socket.Events.{RecvEvent}
use nspluginwrapper.Rpc.Socket.Recv.{stream}
use nspluginwrapper.Rpc.Message.{Message, send_uint32}
use mathlib.Core.List.{append_cancel_left}
use nspluginwrapper.Rpc.Message.Emits.{written, IsReady}
use nspluginwrapper.Glib.{HashTable}
use nspluginwrapper.Objects.Host.{Host}
use nspluginwrapper.Objects.Exchange.{export_object}
use nspluginwrapper.Objects.Variant.{
  NpVariant, WireVariant, void, null, boolean, int32, double, string, object, other, variant_type,
  send_variant_value, write_variant, read_variant, released, on_wire, in_host, export_variant,
  import_variant, send_variant, recv_variant, IsVariant, write_variant-Carries,
}

module _ {H S A B : Type 0} where
  -- A first call that succeeds, on either part of the state.
  then_on_wire :
      (act : Action S A) (f : A → Action (H × S) B) (h : H) (s s' : S) (a : A)
      → act s ≡ (ok a, s')
      → (on_wire act >>= f) (h, s) ≡ f a (h, s')
  unfolding ◌>>=◌
  then_on_wire act f h s s' a e = rw e refl

  then_in_host :
      (act : Action H A) (f : A → Action (H × S) B) (h h' : H) (s : S) (a : A)
      → act h ≡ (ok a, h')
      → (in_host act >>= f) (h, s) ≡ f a (h', s)
  unfolding ◌>>=◌
  then_in_host act f h h' s a e = rw e refl

module _ (glib : HashTable) (owner_id : ℕ → ℕ) (pass_ref : Bool) where
  open glib use {Table}

  -- What is written has the type of what is sent.
  exported_type :
      (v : NpVariant) (w : WireVariant) (h h' : Host Table)
      → export_variant glib owner_id pass_ref v h ≡ (ok w, h')
      → variant_type w ≡ variant_type v
  unfolding export_variant return
  exported_type (object p) w h h' e =
      let (x, h'', _, q) =
        bind_ok (export_object glib owner_id pass_ref p) (λ x. return (object x)) h h' w e in
      let same : object x ≡ w = cc in ap variant_type (sym same)
  exported_type void w h h' e = let same : void ≡ w = cc in ap variant_type (sym same)
  exported_type null w h h' e = let same : null ≡ w = cc in ap variant_type (sym same)
  exported_type (boolean b) w h h' e = let same : boolean b ≡ w = cc in ap variant_type (sym same)
  exported_type (int32 n) w h h' e = let same : int32 n ≡ w = cc in ap variant_type (sym same)
  exported_type (double d) w h h' e = let same : double d ≡ w = cc in ap variant_type (sym same)
  exported_type (string s) w h h' e = let same : string s ≡ w = cc in ap variant_type (sym same)
  exported_type (other t) w h h' e = let same : other t ≡ w = cc in ap variant_type (sym same)

  -- What the sender's variant has become.
  abbrev pub sent : NpVariant → NpVariant
  sent v = if pass_ref then released v else v

  send-exported :
      (v : NpVariant) (w : WireVariant) (h h' : Host Table) (m m' : Message)
      → export_variant glib owner_id pass_ref v h ≡ (ok w, h')
      → write_variant pass_ref w m ≡ (ok tt, m')
      → send_variant glib owner_id pass_ref v (h, m) ≡ (ok (sent v), (h', m'))
  unfolding send_variant write_variant return
  send-exported v w h h' m m' e t =
      let (_, m1, first, last) =
        bind_ok (send_uint32 (variant_type w)) (λ _. send_variant_value pass_ref w) m m' tt t in
      let typed : send_uint32 (variant_type v) m ≡ (ok tt, m1) =
        ap (λ n. send_uint32 n m) (sym (exported_type v w h h' e)) ∙ first in
      then_on_wire (send_uint32 (variant_type v)) _ h m m1 tt typed
      ∙ then_in_host (export_variant glib owner_id pass_ref v) _ h h' m1 w e
      ∙ then_on_wire (send_variant_value pass_ref w) _ h' m1 m' tt last

  module _ (malloc : ℕ → Bool) (room : (n : ℕ) → malloc n ≡ true) (a : ℕ) where
    recv-read :
        (w : WireVariant) (k : Host Table) (evs evs' : List RecvEvent)
        → read_variant malloc pass_ref evs ≡ (ok w, evs')
        → recv_variant malloc glib a pass_ref (k, evs) ≡ in_host (import_variant glib a w) (k, evs')
    unfolding recv_variant
    recv-read w k evs evs' e = then_on_wire (read_variant malloc pass_ref) _ k evs evs' w e

    -- A process sends a variant that it can export, and the other process, which finds the bytes on
    -- its stream, receives it. The send succeeds and leaves the sender's objects as the export does;
    -- its variant stays as it is, or is void where the reference is passed on, unless it is an
    -- object. The receiver delivers what import_variant makes of the exported variant, in the state
    -- that this leaves, with the rest on its stream. The sender's socket works, the receiver has the
    -- memory, and in the exported variant numbers are within their widths, a string has its bytes,
    -- fewer than 2^31 - 1, and an object is well-formed.
    pub send_variant-IsImported :
        (v : NpVariant) (w : WireVariant) (h h' k : Host Table) (m : Message) (bytes rest : List ℕ)
        (evs : List RecvEvent)
        → export_variant glib owner_id pass_ref v h ≡ (ok w, h')
        → IsVariant malloc pass_ref w
        → IsReady m
        → written (send_variant glib owner_id pass_ref v (h, m)).1.1 ≡ written m ++ bytes
        → stream evs ≡ bytes ++ rest
        → ((send_variant glib owner_id pass_ref v (h, m)).0 ≡ ok (sent v))
          × ((send_variant glib owner_id pass_ref v (h, m)).1.0 ≡ h')
          × (evs' : List RecvEvent) × (stream evs' ≡ rest)
          × (recv_variant malloc glib a pass_ref (k, evs)
              ≡ in_host (import_variant glib a w) (k, evs'))
    send_variant-IsImported v w h h' k m bytes rest evs e good ready put found =
        let c = write_variant-Carries malloc room pass_ref w good in
        let out = c.emits.run m ready in
        let run = send-exported v w h h' m out.message e out.result in
        let same : c.bytes ≡ bytes =
          append_cancel_left (written m) c.bytes bytes
            (sym out.output ∙ ap (λ r. written r.1.1) (sym run) ∙ put) in
        let back = c.parses.run evs rest (found ∙ ap (λ ys. ys ++ rest) (sym same)) in
        (
          ap (λ r. r.0) run,
          ap (λ r. r.1.0) run,
          back.events,
          back.remains,
          recv-read w k evs back.events back.result,
        )
