-- ===== src/Tests/Malloc.antt =====
-- Blocks of memory at concrete inputs: the header has 24 bytes, and the checks are enabled.
use nspluginwrapper.Prelude.{
  ℕ, ◌++◌, [], ◌∷◌, Option, some, true, false, if◌then◌else◌, ◌≡◌, refl, ap, arith,
}
use nspluginwrapper.Malloc.{
  MemBlock, Heap, within, memset, do_mem_alloc, mem_free, prepare, block_size,
}
use nspluginwrapper.Malloc.Guards.{changed}
use nspluginwrapper.Malloc.Check.{block, with_bytes, complaints, found}
use nspluginwrapper.Malloc.Blocks.{free-reports, free-silent}

abbrev no_block : MemBlock
no_block = record { magic = 0; real_size = 0; alloc_size = 0; alloc_lineno = 0; alloc_file = 0 }

abbrev fresh : Heap
fresh = record {
  bytes = λ a. 0;
  headers = λ a. no_block;
  freed = [];
  libc_freed = [];
  printed = [];
}

abbrev at_1000 : ℕ → Option ℕ
at_1000 n = some 1000

-- Four bytes at 1040.
abbrev used : Heap
used = (do_mem_alloc 24 true at_1000 4 0 7 fresh).1

-- Six bytes are written there.
abbrev overrun : ℕ → ℕ
overrun = memset 1040 1 6 used.bytes

-- Four are.
abbrev filled : ℕ → ℕ
filled = memset 1040 1 4 used.bytes

overrun-found : found 24 true overrun 1040 4 ≡ (0, 2)
unfolding changed do_mem_alloc prepare
overrun-found = refl

free-reports_example :
    ((mem_free 24 true (some 1040) (with_bytes 24 true overrun used)).printed
      ≡ used.printed ++ complaints 24 true (found 24 true overrun 1040 4) (block 24 true 4 0 7))
    × ((mem_free 24 true (some 1040) (with_bytes 24 true overrun used)).libc_freed
        ≡ used.libc_freed)
    × ((mem : ℕ) × (at_1000 (block_size 24 true 4) ≡ some mem)
        × ((mem_free 24 true (some 1040) (with_bytes 24 true overrun used)).freed
            ≡ used.freed ++ (mem, block_size 24 true 4) ∷ []))
unfolding do_mem_alloc
free-reports_example = free-reports 24 true at_1000 4 0 7 1040 fresh used overrun (omega arith) refl

data_only : (a : ℕ) → within 1040 4 a ≡ false → filled a ≡ used.bytes a
data_only a out = ap (λ t. if t then 1 else used.bytes a) out

free-silent_example :
    (mem_free 24 true (some 1040) (with_bytes 24 true filled used)).printed ≡ used.printed
unfolding do_mem_alloc
free-silent_example =
    free-silent 24 true at_1000 4 0 7 1040 fresh used filled (omega arith) refl data_only
