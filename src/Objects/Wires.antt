-- ===== src/Objects/Wires.antt =====
-- An object on the wire: what do_send_NPObject_helper writes, do_recv_NPObject_helper reads.
use nspluginwrapper.Prelude.{ℕ, ◌<◌, ◌^◌, ◌==◌, not, Bool, true, false, [], ◌≡◌, refl, arith}
use nspluginwrapper.Rpc.Action.{return, ◌>>=◌, ◌>>◌}
use nspluginwrapper.Rpc.Message.{Send, send_uint32}
use nspluginwrapper.Rpc.Reader.{Reader, recv_uint32}
use nspluginwrapper.Rpc.Carries.{Carries, Carries-bind, Carries-last}
use nspluginwrapper.Rpc.Message.Emits.{Emits-return}
use nspluginwrapper.Rpc.Reader.Parses.{Parses-bind, Parses-return}
use nspluginwrapper.Rpc.Carries.Scalars.{send_uint32-Carries}
use nspluginwrapper.Objects.Host.{Wire}
use nspluginwrapper.Objects.Exchange.{flag, send_wire, recv_wire}

pub record IsWire (pass_ref : Bool) (w : Wire) : Type 0 where
  pub type : w.type < 2 ^ 32
  pub plugin : w.plugin < 2 ^ 32
  pub id : w.id < 2 ^ 32
  -- Without `pass_ref`, no stub is to be released.
  pub release_stub : pass_ref ≡ false → w.release_stub ≡ false

flagged :
    (t p i : ℕ) (b : Bool)
    → Carries {A = Wire}
        (send_uint32 (flag b))
        (recv_uint32 >>= λ f.
          return (record { type = t; plugin = p; id = i; release_stub = not (f == 0) }))
        (record { type = t; plugin = p; id = i; release_stub = b })
flagged t p i true = Carries-last _ _ _ (send_uint32-Carries 1 (omega arith)) (Parses-return _)
flagged t p i false = Carries-last _ _ _ (send_uint32-Carries 0 (omega arith)) (Parses-return _)

-- Three words, then the rest.
three :
    (t p i : ℕ) (s : Send) (r : ℕ → ℕ → ℕ → Reader Wire) (w : Wire)
    → t < 2 ^ 32
    → p < 2 ^ 32
    → i < 2 ^ 32
    → Carries s (r t p i) w
    → Carries
        (send_uint32 t >> (send_uint32 p >> (send_uint32 i >> s)))
        (recv_uint32 >>= λ t'. recv_uint32 >>= λ p'. recv_uint32 >>= λ i'. r t' p' i')
        w
three t p i s r w ht hp hi c = Carries-bind _ _ _ _ (send_uint32-Carries t ht) (
    Carries-bind _ _ _ _ (send_uint32-Carries p hp)
      (Carries-bind _ _ _ _ (send_uint32-Carries i hi) c))

-- An object whose numbers are 32-bit words, and whose stub is released only where references are
-- passed, arrives as it was sent.
pub send_wire-Carries :
    (pass_ref : Bool) (w : Wire)
    → IsWire pass_ref w
    → Carries (send_wire pass_ref w) (recv_wire pass_ref) w
unfolding send_wire recv_wire
send_wire-Carries pass_ref w h =
    go pass_ref w.release_stub w.type w.plugin w.id h.type h.plugin h.id h.release_stub
  where
    go :
        (pass_ref b : Bool) (t p i : ℕ)
        → t < 2 ^ 32
        → p < 2 ^ 32
        → i < 2 ^ 32
        → (pass_ref ≡ false → b ≡ false)
        → (let v : Wire = record { type = t; plugin = p; id = i; release_stub = b } in
            Carries (send_wire pass_ref v) (recv_wire pass_ref) v)
    go true b t p i ht hp hi r = three t p i (send_uint32 (flag b)) _ _ ht hp hi (flagged t p i b)
    go false true t p i ht hp hi r = let bad = r refl in cc
    go false false t p i ht hp hi r = three t p i (return tt) _ _ ht hp hi (record {
      bytes = [];
      emits = Emits-return;
      parses = Parses-bind {A = ℕ} (return 0) _ (Parses-return 0) (Parses-return _);
    })
