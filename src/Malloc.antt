-- ===== src/Malloc.antt =====
-- src/npw-malloc.c: the blocks of memory with a header, and with guards before and after the data
-- where the checks are enabled.
pub mod Guards
pub mod Check
pub mod Blocks
use nspluginwrapper.Prelude.{
  ℕ, zero, suc, ◌+◌, ◌-◌, ◌*◌, ◌%◌, ◌^◌, ◌==◌, ltb, leb, ◌&&◌, Bool, true, false, if◌then◌else◌,
  List, [], ◌∷◌, ◌++◌, Option, none, some,
}

-- NPW_MALLOC_MAGIC
abbrev pub magic_number : ℕ
magic_number = 1313888077

-- MALLOC_CHECK_GUARD_MARK
abbrev pub guard_mark : ℕ
guard_mark = 69

pub record MemBlock : Type 0 where
  pub magic : ℕ
  pub real_size : ℕ
  pub alloc_size : ℕ
  pub alloc_lineno : ℕ
  -- The address of the file's name, 0 for NULL.
  pub alloc_file : ℕ

-- What is printed.
pub data Report : Type 0 where
  underflow : ℕ → MemBlock → Report
  overflow : ℕ → MemBlock → Report
  foreign : ℕ → Report

-- The bytes of the data and of the guards, the headers by their addresses, what was given back to
-- the allocator, with its size, what was handed to libc's `free`, and what was printed. That a byte
-- is written over a header is not in the model.
pub record Heap : Type 0 where
  pub bytes : ℕ → ℕ
  pub headers : ℕ → MemBlock
  pub freed : List (ℕ × ℕ)
  pub libc_freed : List ℕ
  pub printed : List Report

abbrev pub within : ℕ → ℕ → ℕ → Bool
within p n a = leb p a && ltb a (p + n)

abbrev pub memset : ℕ → ℕ → ℕ → (ℕ → ℕ) → ℕ → ℕ
memset p c n f a = if within p n a then c else f a

abbrev pub memcpy : ℕ → ℕ → ℕ → (ℕ → ℕ) → ℕ → ℕ
memcpy p src n f a = if within p n a then f (src + (a - p)) else f a

-- malloc_check_guards_size
abbrev pub guards_size : Bool → ℕ
guards_size check = if check then 16 else 0

-- malloc_check_guards_init
unfoldable pub guards_init : Bool → ℕ → ℕ → (ℕ → ℕ) → ℕ → ℕ
guards_init check ptr size f =
    if check
    then memset (ptr + size) guard_mark (guards_size check)
        (memset (ptr - guards_size check) guard_mark (guards_size check) f)
    else f

abbrev pub one_more : ℕ → ℕ → ℕ
one_more byte n = if byte == guard_mark then n else n + 1

-- The loop of malloc_check_guards_ok, from index `i` on, with `n` to go. The index `size + i` is
-- an uint32_t and wraps around.
unfoldable pub guards_loop : (ℕ → ℕ) → ℕ → ℕ → ℕ → ℕ → ℕ → ℕ → ℕ × ℕ
guards_loop f ptr size zero i under over = (under, over)
guards_loop f ptr size (suc n) i under over =
    guards_loop f ptr size n (i + 1) (one_more (f (ptr - (1 + i))) under)
      (one_more (f (ptr + (size + i) % 2 ^ 32)) over)

-- malloc_check_guards_ok: how many bytes have changed before and after the data, which it
-- delivers where the checks are enabled.
unfoldable pub guards_changed : Bool → (ℕ → ℕ) → ℕ → ℕ → ℕ × ℕ
unfolding guards_loop
guards_changed check f ptr size =
    if check then guards_loop f ptr size (guards_size check) 0 0 0 else (0, 0)

abbrev pub report_if : ℕ → Report → List Report
report_if n r = if n == 0 then [] else r ∷ []

-- `header_size` is sizeof(NPW_MemBlock), `check` whether the checks are enabled.
module _ (header_size : ℕ) (check : Bool) where
  abbrev pub block_size : ℕ → ℕ
  block_size size = (header_size + size + 2 * guards_size check) % 2 ^ 32

  abbrev pub put_header : ℕ → MemBlock → (ℕ → MemBlock) → ℕ → MemBlock
  put_header mem b f a = if a == mem then b else f a

  -- What npw_do_mem_alloc does with a block that the allocator has found at `mem`.
  unfoldable pub prepare : ℕ → ℕ → ℕ → ℕ → Heap → Heap
  unfolding guards_init
  prepare mem size file lineno h =
      let b : MemBlock = record {
        magic = magic_number;
        real_size = block_size size;
        alloc_size = size;
        alloc_lineno = lineno;
        alloc_file = file;
      } in
      record h {
        bytes = guards_init check (mem + header_size + guards_size check) size h.bytes;
        headers = put_header mem b h.headers;
      }

  -- npw_do_mem_alloc; `mem_alloc` is the allocator's function, `memalloc` or `memalloc0`.
  unfoldable pub do_mem_alloc : (ℕ → Option ℕ) → ℕ → ℕ → ℕ → Heap → Option ℕ × Heap
  unfolding prepare
  do_mem_alloc mem_alloc size file lineno h = elim (mem_alloc (block_size size)) [
    | none ↦ (none, h)
    | some mem ↦ (some (mem + header_size + guards_size check), prepare mem size file lineno h)
  ]

  -- npw_mem_alloc_copy
  unfoldable pub mem_alloc_copy : (ℕ → Option ℕ) → ℕ → ℕ → ℕ → ℕ → Heap → Option ℕ × Heap
  unfolding do_mem_alloc
  mem_alloc_copy mem_alloc size src file lineno h =
      let (ptr, h') = do_mem_alloc mem_alloc size file lineno h in
      elim ptr [
        | none ↦ (none, h')
        | some p ↦ (some p, record h' { bytes = memcpy p src size h'.bytes })
      ]

  -- The end of npw_mem_free, for a block of its own of which so many bytes have changed.
  abbrev pub release_block : ℕ → MemBlock → ℕ × ℕ → Heap → Heap
  release_block mem b n h = record h {
    printed = h.printed ++ (report_if n.0 (underflow n.0 b) ++ report_if n.1 (overflow n.1 b));
    freed = h.freed ++ (mem, b.real_size) ∷ [];
  }

  -- npw_mem_free, of a pointer that is not NULL, by the header before it
  abbrev pub free_by_header : ℕ → ℕ → MemBlock → Heap → Heap
  free_by_header ptr mem b h =
      if b.magic == magic_number
      then release_block mem b (guards_changed check h.bytes ptr b.alloc_size) h
      else record h {
        printed = h.printed ++ foreign ptr ∷ [];
        libc_freed = h.libc_freed ++ ptr ∷ [];
      }

  unfoldable pub free_block : ℕ → Heap → Heap
  unfolding guards_changed
  free_block ptr h =
      let mem = ptr - (header_size + guards_size check) in free_by_header ptr mem (h.headers mem) h

  -- npw_mem_free
  unfoldable pub mem_free : Option ℕ → Heap → Heap
  unfolding free_block
  mem_free none h = h
  mem_free (some ptr) h = free_block ptr h
