-- ===== src/Npapi/Buffers/Ranges.antt =====
-- `NPByteRange` lists: the loop of the receiver ends, and the list arrives as it was sent.
use nspluginwrapper.Prelude.{
  ℤ, ℕ, zero, suc, ◌+◌, ◌<◌, ◌≡◌, arith, ◌==◌, Bool, true, Bool-cases, inl, inr, List, [], ◌∷◌,
  ◌++◌, length, append-nil, All,
}
use nspluginwrapper.Rpc.Error.{ok}
use nspluginwrapper.Rpc.Action.{bind_cong, bind_first}
use nspluginwrapper.Rpc.Words.{IsU32, IsInt32}
use nspluginwrapper.Rpc.Socket.Events.{RecvEvent}
use nspluginwrapper.Rpc.Socket.Recv.{stream}
use nspluginwrapper.Rpc.Reader.{recv_int32, recv_uint32, when_allocated}
use nspluginwrapper.Rpc.Reader.Consumes.{recv_uint32-Consumes, recv_int32-Consumes}
use nspluginwrapper.Rpc.Message.Emits.{Emits, Emits-bind}
use nspluginwrapper.Rpc.Reader.Parses.{Parses, Parsed, Parses-return, Parses-bind}
use nspluginwrapper.Rpc.Carries.{Carries}
use nspluginwrapper.Rpc.Carries.Scalars.{send_int32-Carries, send_uint32-Carries}
use nspluginwrapper.Npapi.Buffers.{
  ByteRange, send_byte_range, recv_ranges, recv_byte_range, byte_range_size,
}

pub record IsByteRange (r : ByteRange) : Type 0 where
  pub offset : IsInt32 r.offset
  pub length : IsU32 r.length

-- One round of the loop takes bytes off the stream.
taken :
    (evs evs₁ : List RecvEvent) (cont : ℕ) (evs₂ : List RecvEvent) (offset : ℤ)
    (evs₃ : List RecvEvent) (len : ℕ)
    → recv_uint32 evs ≡ (ok cont, evs₁)
    → recv_int32 evs₁ ≡ (ok offset, evs₂)
    → recv_uint32 evs₂ ≡ (ok len, evs₃)
    → length (stream evs₃) < length (stream evs)
taken evs evs₁ cont evs₂ offset evs₃ len e₁ e₂ e₃ = omega (
  arith,
  recv_uint32-Consumes evs evs₁ cont e₁,
  recv_int32-Consumes evs₁ evs₂ offset e₂,
  recv_uint32-Consumes evs₂ evs₃ len e₃,
)

module _ (malloc : ℕ → Bool) where
  -- With more fuel than there are bytes on the stream, the amount of fuel does not matter to the
  -- loop of `do_recv_NPByteRange`.
  pub recv_ranges_fuel :
      (f g : ℕ) (evs : List RecvEvent)
      → length (stream evs) < f
      → length (stream evs) < g
      → recv_ranges malloc f evs ≡ recv_ranges malloc g evs
  unfolding recv_ranges when_allocated
  recv_ranges_fuel zero g evs hf hg = absurd (omega arith)
  recv_ranges_fuel (suc f) zero evs hf hg = absurd (omega arith)
  recv_ranges_fuel (suc f) (suc g) evs hf hg = bind_cong _ _ _ evs λ cont evs₁ e₁.
      elim (Bool-cases (cont == 0)) [
        | inl done ↦ rw done
        | inr more ↦ rw more (elim (Bool-cases (malloc byte_range_size)) [
          | inr full ↦ rw full
          | inl room ↦ rw room (
              bind_cong _ _ _ evs₁ λ offset evs₂ e₂. bind_cong _ _ _ evs₂ λ len evs₃ e₃.
                bind_first _ _ _ evs₃ (
                  recv_ranges_fuel f g evs₃
                    (omega (arith, taken evs evs₁ cont evs₂ offset evs₃ len e₁ e₂ e₃))
                    (omega (arith, taken evs evs₁ cont evs₂ offset evs₃ len e₁ e₂ e₃))))
        ])
      ]

  -- The bytes of a list, which any fuel above its length reads.
  record RangesCarried (rs : List ByteRange) : Type 0 where
    bytes : List ℕ
    emits : Emits (send_byte_range rs) bytes
    parses : (fuel : ℕ) → length rs < fuel → Parses (recv_ranges malloc fuel) bytes rs

  nil_carried : RangesCarried []
  unfolding send_byte_range recv_ranges when_allocated
  nil_carried =
      let c = send_uint32-Carries 0 (omega arith) in
      record {
        bytes = c.bytes ++ [];
        emits = rw append-nil c.emits;
        parses = λ fuel h. nil_parsed fuel h c.bytes c.parses;
      }
    where
      nil_parsed :
          (fuel : ℕ)
          → 0 < fuel
          → (xs : List ℕ) → Parses recv_uint32 xs 0
          → Parses (recv_ranges malloc fuel) (xs ++ []) []
      nil_parsed zero h xs p = absurd (omega arith)
      nil_parsed (suc fuel) h xs p = Parses-bind _ _ p (Parses-return [])

  -- A round of the loop reads a range, and the others with less fuel.
  round :
      (r : ByteRange) (rs : List ByteRange)
      → malloc byte_range_size ≡ true
      → (xs : List ℕ) → ((fuel : ℕ) → length rs < fuel → Parses (recv_ranges malloc fuel) xs rs)
      → (a b c : List ℕ) → Parses recv_uint32 a 1
      → Parses recv_int32 b r.offset
      → Parses recv_uint32 c r.length
      → (fuel : ℕ) → length (r ∷ rs) < fuel
      → Parses (recv_ranges malloc fuel) (a ++ (b ++ (c ++ (xs ++ [])))) (r ∷ rs)
  unfolding recv_ranges when_allocated
  round r rs room xs k a b c pa pb pc zero h = absurd (omega arith)
  round r rs room xs k a b c pa pb pc (suc fuel) h = Parses-bind _ _ pa (
      rw room (
        Parses-bind _ _ pb
          (Parses-bind _ _ pc (Parses-bind _ _ (k fuel (omega arith)) (Parses-return (r ∷ rs))))))

  cons_carried :
      (r : ByteRange) (rs : List ByteRange)
      → IsByteRange r
      → malloc byte_range_size ≡ true
      → RangesCarried rs
      → RangesCarried (r ∷ rs)
  unfolding send_byte_range recv_ranges when_allocated
  cons_carried r rs h room c =
      let one = send_uint32-Carries 1 (omega arith) in
      let off = send_int32-Carries r.offset h.offset in
      let len = send_uint32-Carries r.length h.length in
      record {
        bytes = one.bytes ++ (off.bytes ++ (len.bytes ++ (c.bytes ++ [])));
        emits = rw append-nil (
            Emits-bind _ _ one.emits (Emits-bind _ _ off.emits (Emits-bind _ _ len.emits c.emits)));
        parses =
            round r rs room c.bytes c.parses one.bytes off.bytes len.bytes one.parses off.parses
              len.parses;
      }

  fueled-Parsed :
      (rs : List ByteRange) (evs : List RecvEvent) (rest : List ℕ)
      → Parsed rs rest (recv_ranges malloc (suc (length (stream evs) + length rs)) evs)
      → Parsed rs rest (recv_byte_range malloc evs)
  unfolding recv_byte_range
  fueled-Parsed rs evs rest p =
      rw
        (recv_ranges_fuel (suc (length (stream evs))) (suc (length (stream evs) + length rs)) evs
          (omega arith) (omega arith))
        p

  list_carried :
      (rs : List ByteRange) → All IsByteRange rs → malloc byte_range_size ≡ true → RangesCarried rs
  list_carried [] h room = nil_carried
  list_carried (r ∷ rs) h room = cons_carried r rs h.0 room (list_carried rs h.1 room)

  -- A list of byte ranges, of any length, whose fields fit their C types arrives as it was sent,
  -- if the receiver has the memory for each range.
  pub send_byte_range-Carries :
      (rs : List ByteRange)
      → All IsByteRange rs
      → malloc byte_range_size ≡ true
      → Carries (send_byte_range rs) (recv_byte_range malloc) rs
  send_byte_range-Carries rs h room =
      let c = list_carried rs h room in
      record {
        bytes = c.bytes;
        emits = c.emits;
        parses = record {
          run = λ evs rest e.
              fueled-Parsed rs evs rest
                ((c.parses (suc (length (stream evs) + length rs)) (omega arith)).run evs rest e);
        };
      }
