-- ===== src/Malloc/Check.antt =====
-- What npw_mem_free finds in a block that npw_do_mem_alloc has made, and where the two write.
use nspluginwrapper.Prelude.{
  ℕ, ◌+◌, ◌-◌, ◌^◌, ◌≤◌, ◌==◌, Bool, true, false, if◌then◌else◌, List, ◌++◌, Option, none, some,
  ◌≡◌, refl, ap, ◌∙◌, arith,
}
use nspluginwrapper.Malloc.{
  magic_number, MemBlock, Report, underflow, overflow, Heap, guards_size, guards_loop,
  guards_changed, report_if, block_size, prepare, do_mem_alloc, mem_free, free_block,
  free_by_header, release_block,
}
use nspluginwrapper.Malloc.Guards.{changed, pair, loop-changed}

module _ (header_size : ℕ) (check : Bool) where
  -- The allocator has found a block, and the block is prepared.
  pub alloc_ok :
      (mem_alloc : ℕ → Option ℕ) (size file lineno p : ℕ) (h h' : Heap)
      → do_mem_alloc header_size check mem_alloc size file lineno h ≡ (some p, h')
      → (mem : ℕ) × (mem_alloc (block_size header_size check size) ≡ some mem)
        × (p ≡ mem + header_size + guards_size check)
        × (h' ≡ prepare header_size check mem size file lineno h)
  unfolding do_mem_alloc
  alloc_ok mem_alloc size file lineno p h h' = go (mem_alloc (block_size header_size check size))
    where
      go :
          (o : Option ℕ)
          → elim o as (λ _. Option ℕ × Heap) [
            | none ↦ (none, h)
            | some mem ↦ (
              some (mem + header_size + guards_size check),
              prepare header_size check mem size file lineno h,
            )
          ]
            ≡ (some p, h')
          → (mem : ℕ) × (o ≡ some mem)
            × (p ≡ mem + header_size + guards_size check)
            × (h' ≡ prepare header_size check mem size file lineno h)
      go none e = cc
      go (some mem) e = (mem, refl, cc, cc)

  abbrev pub found : (ℕ → ℕ) → ℕ → ℕ → ℕ × ℕ
  found f p size = if check then (changed f (p - 16) 16, changed f (p + size) 16) else (0, 0)

  -- What is printed of a block.
  abbrev pub complaints : ℕ × ℕ → MemBlock → List Report
  complaints n b = report_if n.0 (underflow n.0 b) ++ report_if n.1 (overflow n.1 b)

  abbrev pub block : ℕ → ℕ → ℕ → MemBlock
  block size file lineno = record {
    magic = magic_number;
    real_size = block_size header_size check size;
    alloc_size = size;
    alloc_lineno = lineno;
    alloc_file = file;
  }

  abbrev pub with_bytes : (ℕ → ℕ) → Heap → Heap
  with_bytes f h = record h { bytes = f }

  none_more : (n : ℕ) → 0 + n ≡ n
  none_more n = omega arith

  last_address : (p size : ℕ) → p + size + 0 ≡ p + size
  last_address p size = omega arith

  pub guards_changed-found :
      (f : ℕ → ℕ) (p size : ℕ)
      → guards_size check ≤ p
      → size + guards_size check ≤ 2 ^ 32
      → guards_changed check f p size ≡ found f p size
  unfolding guards_changed
  guards_changed-found f p size = go check
    where
      go :
          (c : Bool)
          → guards_size c ≤ p
          → size + guards_size c ≤ 2 ^ 32
          → (if c then guards_loop f p size (guards_size c) 0 0 0 else (0, 0))
            ≡ (if◌then◌else◌ {A = ℕ × ℕ} c (changed f (p - 16) 16, changed f (p + size) 16) (0, 0))
      go true le small =
          loop-changed f p size 16 0 0 0 le small
          ∙ pair (none_more _) (none_more _ ∙ ap (λ a. changed f a 16) (last_address p size))
      go false le small = refl

  pub before_block : (mem s g : ℕ) → mem + s + g - (s + g) ≡ mem
  before_block mem s g = omega arith

  pub guards_before : (mem s g : ℕ) → g ≤ mem + s + g
  guards_before mem s g = omega arith

  -- npw_mem_free of a block at `mem` that npw_do_mem_alloc has prepared.
  pub free-prepared :
      (mem size file lineno : ℕ) (h : Heap) (f : ℕ → ℕ)
      → size + guards_size check ≤ 2 ^ 32
      → (let p = mem + header_size + guards_size check in
          mem_free header_size check
            (some p)
            (with_bytes f (prepare header_size check mem size file lineno h)))
        ≡ release_block header_size check mem
            (block size file lineno)
            (found f (mem + header_size + guards_size check) size)
            (with_bytes f (prepare header_size check mem size file lineno h))
  unfolding mem_free free_block prepare
  free-prepared mem size file lineno h f small =
      let p = mem + header_size + guards_size check in
      let x : Heap = with_bytes f (prepare header_size check mem size file lineno h) in
      let b = block size file lineno in
      let same : (mem == mem) ≡ true = ground arith in
      ap (λ m. free_by_header header_size check p m (x.headers m) x)
        (before_block mem header_size (guards_size check))
      ∙ ap (λ t. free_by_header header_size check p mem (if t then b else h.headers mem) x) same
      ∙ ap (λ n. release_block header_size check mem b n x)
          (guards_changed-found f p size (guards_before mem header_size (guards_size check)) small)
