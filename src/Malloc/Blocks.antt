-- ===== src/Malloc/Blocks.antt =====
-- The blocks of src/npw-malloc.c from npw_do_mem_alloc to npw_mem_free.
use nspluginwrapper.Prelude.{
  ℕ, ◌+◌, ◌-◌, ◌*◌, ◌^◌, ◌≤◌, ◌<◌, Bool, true, false, [], ◌∷◌, ◌++◌, Option, some, ◌≡◌, refl, ap,
  sym, ◌∙◌, subst, append-nil, arith,
}
use nspluginwrapper.Malloc.{
  guard_mark, Heap, within, guards_size, guards_init, block_size, prepare, do_mem_alloc, mem_free,
  release_block,
}
use nspluginwrapper.Malloc.Guards.{changed-none, pair}
use nspluginwrapper.Malloc.Check.{alloc_ok, found, complaints, block, with_bytes, free-prepared}

module _ (header_size : ℕ) (check : Bool) where
  -- A block comes from npw_do_mem_alloc, and the bytes in memory become any others, the headers
  -- staying as they are. npw_mem_free then prints one line for each guard with a changed byte,
  -- with the number of its changed bytes (none where the checks are off), and gives the allocator
  -- its block back with the size that was asked for. The header, the data and the guards take
  -- less than 2^32 bytes together.
  pub free-reports :
      (mem_alloc : ℕ → Option ℕ) (size file lineno p : ℕ) (h h' : Heap) (f : ℕ → ℕ)
      → header_size + size + 2 * guards_size check < 2 ^ 32
      → do_mem_alloc header_size check mem_alloc size file lineno h ≡ (some p, h')
      → (let g = mem_free header_size check (some p) (with_bytes header_size check f h') in
          (g.printed
            ≡ h'.printed
              ++ complaints header_size check
                  (found header_size check f p size)
                  (block header_size check size file lineno))
          × (g.libc_freed ≡ h'.libc_freed)
          × ((mem : ℕ) × (mem_alloc (block_size header_size check size) ≡ some mem)
              × (g.freed ≡ h'.freed ++ (mem, block_size header_size check size) ∷ [])))
  free-reports mem_alloc size file lineno p h h' f small e =
      let (mem, from, at, made) = alloc_ok header_size check mem_alloc size file lineno p h h' e in
      let key =
        subst
          (λ z.
            mem_free header_size check (some p) (with_bytes header_size check f z)
            ≡ release_block header_size check mem (block header_size check size file lineno)
                (found header_size check f p size) (with_bytes header_size check f z))
          (sym made)
          (subst
            (λ z.
              mem_free header_size check (some z)
                (with_bytes header_size check f (prepare header_size check mem size file lineno h))
              ≡ release_block header_size check mem (block header_size check size file lineno)
                  (found header_size check f z size)
                  (with_bytes header_size check f
                    (prepare header_size check mem size file lineno h)))
            (sym at)
            (free-prepared header_size check mem size file lineno h f (omega (arith, small)))) in
      (ap (λ g. g.printed) key, ap (λ g. g.libc_freed) key, (mem, from, ap (λ g. g.freed) key))

  -- The guards of a block that has just been made.
  pub guards_marked :
      (ptr size k : ℕ) (f : ℕ → ℕ)
      → 16 ≤ ptr
      → k < 16
      → (guards_init true ptr size f (ptr - 16 + k) ≡ guard_mark)
        × (guards_init true ptr size f (ptr + size + k) ≡ guard_mark)
  unfolding guards_init
  guards_marked ptr size k f le lt = (ground arith, ground arith)

  pub not_within :
      (ptr size k : ℕ)
      → 16 ≤ ptr
      → k < 16
      → (within ptr size (ptr - 16 + k) ≡ false) × (within ptr size (ptr + size + k) ≡ false)
  not_within ptr size k le lt = (ground arith, ground arith)

  -- No byte of the guards has changed where only the data were written.
  pub found-none :
      (c : Bool) (p size : ℕ) (f b : ℕ → ℕ)
      → guards_size c ≤ p
      → ((a : ℕ) → within p size a ≡ false → f a ≡ guards_init c p size b a)
      → found header_size c f p size ≡ (0, 0)
  found-none false p size f b le e = refl
  found-none true p size f b le e =
      pair
        (changed-none f (p - 16) 16
          λ k lt. e _ (not_within p size k le lt).0 ∙ (guards_marked p size k b le lt).0)
        (changed-none f (p + size) 16
          λ k lt. e _ (not_within p size k le lt).1 ∙ (guards_marked p size k b le lt).1)

  -- A block comes from npw_do_mem_alloc, and only bytes of its data are written. npw_mem_free then
  -- prints nothing. The header, the data and the guards take less than 2^32 bytes together.
  pub free-silent :
      (mem_alloc : ℕ → Option ℕ) (size file lineno p : ℕ) (h h' : Heap) (f : ℕ → ℕ)
      → header_size + size + 2 * guards_size check < 2 ^ 32
      → do_mem_alloc header_size check mem_alloc size file lineno h ≡ (some p, h')
      → ((a : ℕ) → within p size a ≡ false → f a ≡ h'.bytes a)
      → (mem_free header_size check (some p) (with_bytes header_size check f h')).printed
        ≡ h'.printed
  unfolding prepare
  free-silent mem_alloc size file lineno p h h' f small e same =
      let (mem, from, at, made) = alloc_ok header_size check mem_alloc size file lineno p h h' e in
      let bytes : h'.bytes ≡ guards_init check p size h.bytes =
        ap (λ z. z.bytes) made ∙ ap (λ q. guards_init check q size h.bytes) (sym at) in
      let none =
        found-none check p size f h.bytes
          (subst (λ q. guards_size check ≤ q) (sym at) (omega arith))
          (λ a out. same a out ∙ ap (λ g. g a) bytes) in
      (free-reports mem_alloc size file lineno p h h' f small e).0
      ∙ ap
          (λ n.
            h'.printed ++ complaints header_size check n (block header_size check size file lineno))
          none
      ∙ append-nil h'.printed

  pub guards_init-outside :
      (c : Bool) (start p size total a : ℕ) (f : ℕ → ℕ)
      → start + guards_size c ≤ p
      → p + size + guards_size c ≤ start + total
      → within start total a ≡ false
      → guards_init c p size f a ≡ f a
  unfolding guards_init
  guards_init-outside false start p size total a f le room out = refl
  guards_init-outside true start p size total a f le room out = ground arith

  -- Where the header, the data and the guards take less than 2^32 bytes together, npw_do_mem_alloc
  -- writes no byte before the end of the header or past the end of the block that it has asked for;
  -- and the data and the guard after them end where the block ends.
  pub prepare-bounds :
      (mem size file lineno a : ℕ) (h : Heap)
      → header_size + size + 2 * guards_size check < 2 ^ 32
      → within (mem + header_size) (block_size header_size check size - header_size) a ≡ false
      → ((prepare header_size check mem size file lineno h).bytes a ≡ h.bytes a)
        × (mem + header_size + guards_size check + size + guards_size check
            ≡ mem + block_size header_size check size)
  unfolding prepare
  prepare-bounds mem size file lineno a h lt out = (
    guards_init-outside check (mem + header_size) (mem + header_size + guards_size check) size
        (block_size header_size check size - header_size) a h.bytes (omega arith)
        (omega (arith, lt)) out,
    omega (arith, lt),
  )
