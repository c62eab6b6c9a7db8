-- ===== src/Rpc/Message/Emits.antt =====
-- What the sending functions put on the wire, whatever the buffer holds and however the kernel
-- cuts it up.
use nspluginwrapper.Prelude.{
  ℕ, ◌+◌, ◌<◌, ◌≡◌, refl, sym, ◌∙◌, arith, leb, Bool-cases, inl, inr, List, [], ◌++◌, append-nil,
  append_assoc, length, length-append,
}
use nspluginwrapper.Rpc.Error.{Result, ok}
use nspluginwrapper.Rpc.Action.{return, ◌>>=◌, ◌>>◌}
use nspluginwrapper.Rpc.Socket.Send.Progress.{IsLive, raw_send-IsLive}
use nspluginwrapper.Rpc.Message.{Message, Send, send_raw, flush, send_bytes}

-- All that was handed to the message so far: on the wire, or still in the buffer.
abbrev pub written : Message → List ℕ
written m = m.socket.wire ++ m.buffer

-- `offset < sizeof(buffer)`, and the socket works.
pub record IsReady (m : Message) : Type 0 where
  pub fits : length m.buffer < m.capacity
  pub live : IsLive m.socket.sends

-- The call succeeds and appends `xs` to what is written; it reads nothing.
pub record Emitted (m : Message) (xs : List ℕ) (r : Result (Unit {0}) × Message) : Type 0 where
  pub message : Message
  pub result : r ≡ (ok tt, message)
  pub output : written message ≡ written m ++ xs
  pub input : message.socket.recvs ≡ m.socket.recvs
  pub is_ready : IsReady message

pub record Emits (act : Send) (xs : List ℕ) : Type 0 where
  pub run : (m : Message) → IsReady m → Emitted m xs (act m)

pub Emits-return : Emits (return tt) []
unfolding return
Emits-return = record {
  run = λ m h. record {
    message = m;
    result = refl;
    output = sym (append-nil _);
    input = refl;
    is_ready = h;
  };
}

module _ {xs ys : List ℕ} where
  pub bind-Emitted :
      (act next : Send) (m : Message)
      → Emitted m xs (act m)
      → Emits next ys
      → Emitted m (xs ++ ys) ((act >> next) m)
  unfolding ◌>>=◌
  bind-Emitted act next m a b =
      let c = b.run a.message a.is_ready in
      record {
        message = c.message;
        result = rw a.result c.result;
        output = c.output ∙ rw a.output (append_assoc (written m) xs ys);
        input = c.input ∙ a.input;
        is_ready = c.is_ready;
      }

  pub Emits-bind : (act next : Send) → Emits act xs → Emits next ys → Emits (act >> next) (xs ++ ys)
  Emits-bind act next a b = record { run = λ m h. bind-Emitted act next m (a.run m h) b }

wire_of_empty :
    (wire bytes : List ℕ) {buffer : List ℕ}
    → buffer ≡ []
    → (wire ++ bytes) ++ buffer ≡ (wire ++ buffer) ++ bytes
wire_of_empty wire bytes e = simp (e, append-nil)

-- Sending straight from an empty buffer.
send_raw-Emitted :
    (bytes : List ℕ) (m : Message) → IsReady m → m.buffer ≡ [] → Emitted m bytes (send_raw bytes m)
unfolding send_raw
send_raw-Emitted bytes m h e =
    let (evs, p, l) = raw_send-IsLive bytes m.socket h.live in
    record {
      message = record m {
        socket = record m.socket { sends = evs; wire = m.socket.wire ++ bytes };
      };
      result = rw p refl;
      output = wire_of_empty m.socket.wire bytes e;
      input = refl;
      is_ready = record { fits = h.fits; live = l };
    }

pub flush-Emitted :
    (m : Message) → IsReady m → (b : Emitted m [] (flush m)) × (b.message.buffer ≡ [])
unfolding flush
flush-Emitted m h =
    let (evs, p, l) = raw_send-IsLive m.buffer m.socket h.live in
    let b : Message = record m {
      buffer = [];
      socket = record m.socket { sends = evs; wire = m.socket.wire ++ m.buffer };
    } in
    (
      record {
        message = b;
        result = rw p refl;
        output = refl;
        input = refl;
        is_ready = record { fits = omega (arith, h.fits); live = l };
      },
      refl,
    )

overflow-Emitted :
    (bytes : List ℕ) (m : Message) → IsReady m → Emitted m bytes ((flush >> send_raw bytes) m)
unfolding ◌>>=◌
overflow-Emitted bytes m h =
    let (a, empty) = flush-Emitted m h in
    let c = send_raw-Emitted bytes a.message a.is_ready empty in
    record {
      message = c.message;
      result = rw a.result c.result;
      output = c.output ∙ rw (a.output, append-nil) refl;
      input = c.input ∙ a.input;
      is_ready = c.is_ready;
    }

-- `rpc_message_send_bytes` on a working socket: the bytes follow, in order, all that was written
-- before, and the buffer keeps room, whether the bytes are stored or flushed and sent at once.
pub send_bytes-Emits : (bytes : List ℕ) → Emits (send_bytes bytes) bytes
unfolding send_bytes
send_bytes-Emits bytes = record {
  run = λ m h. elim (Bool-cases (leb m.capacity (length m.buffer + length bytes))) [
    | inl e ↦ rw e (overflow-Emitted bytes m h)
    | inr e ↦ rw e (record {
      message = record m { buffer = m.buffer ++ bytes };
      result = refl;
      output = sym (append_assoc m.socket.wire m.buffer bytes);
      input = refl;
      is_ready = record { fits = rw length-append (ground arith); live = h.live };
    })
  ];
}
