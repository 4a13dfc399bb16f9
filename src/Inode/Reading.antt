-- ===== src/Inode/Reading.antt =====
-- src/filesys/inode.c: what `inode_read_at` reads.
use cs.Common.{
  ℕ, zero, suc, ◌+◌, ◌-◌, ◌/◌, ◌%◌, ◌^◌, ◌<◌, ◌≤◌, ◌≡◌, refl, ap, sym, ◌∙◌, inl, inr, true, some,
  ltb, leb, ◌==◌, Bool-cases, arith, lt→ltb,
}
use cs.Inode.{
  BlockCache, Inode, block_sector_size, byte_to_sector, inode_length, lesser, chunk, fill_buffer,
  read_loop, inode_read_at,
}

-- The file's sectors have numbers that fit in 32 bits.
abbrev pub FitsDevice : Inode → Type 0
FitsDevice inode = inode.disk.start + inode.disk.length / block_sector_size < 2 ^ 32

-- A chunk ends with its sector, and with the file.
pub chunk_bounds :
    (inode : Inode) (size offset : ℕ)
    → (chunk inode size offset ≤ size)
      × (chunk inode size offset ≤ inode.disk.length - offset)
      × (offset % block_sector_size + chunk inode size offset ≤ block_sector_size)
unfolding chunk inode_length
chunk_bounds inode size offset = ground arith

pub chunk_zero :
    (inode : Inode) (size offset : ℕ)
    → chunk inode size offset ≡ 0
    → lesser size (inode.disk.length - offset) ≡ 0
unfolding chunk inode_length
chunk_zero inode size offset h = ground arith

pub lesser_step :
    (c n size length offset : ℕ)
    → c ≤ size
    → c ≤ length - offset
    → n + c + lesser (size - c) (length - (offset + c)) ≡ n + lesser size (length - offset)
lesser_step c n size length offset h k = ground arith

filled :
    (buffer : ℕ → ℕ) (at cnt : ℕ) (from : ℕ → ℕ) (j : ℕ)
    → j < cnt
    → fill_buffer buffer at cnt from (at + j) ≡ from j
unfolding fill_buffer
filled buffer at cnt from j h =
    let (below, inside, back) : (leb at (at + j) ≡ true)
        × (ltb (at + j) (at + cnt) ≡ true)
        × (at + j - at ≡ j) =
      (ground arith, ground arith, omega arith) in
    rw below (rw inside (ap from back))

unfilled :
    (buffer : ℕ → ℕ) (at cnt : ℕ) (from : ℕ → ℕ) (j : ℕ)
    → j < at
    → fill_buffer buffer at cnt from j ≡ buffer j
unfolding fill_buffer
unfilled buffer at cnt from j h = ground arith

-- Inside the file a position's sector is the file's first and the whole sectors before it.
pub sector_at :
    (inode : Inode) (offset p : ℕ)
    → FitsDevice inode
    → offset < inode.disk.length
    → p / block_sector_size ≡ offset / block_sector_size
    → inode.disk.start + p / block_sector_size ≡ byte_to_sector inode offset
unfolding byte_to_sector
sector_at inode offset p f h e = rw (lt→ltb offset inode.disk.length h) (omega arith)

module _ (cache : BlockCache) where
  -- Byte `p` of the file.
  unfoldable pub content : cache.Store → Inode → ℕ → ℕ
  content s inode p =
      cache.byte s (inode.disk.start + p / block_sector_size) (p % block_sector_size)

  -- A byte of the chunk at `offset` lies in the sector of `offset`.
  pub in_chunk :
      (s : cache.Store) (inode : Inode) (size offset j : ℕ)
      → FitsDevice inode
      → j < chunk inode size offset
      → content s inode (offset + j)
        ≡ cache.byte s (byte_to_sector inode offset) (offset % block_sector_size + j)
  unfolding content
  in_chunk s inode size offset j f h =
      let (_, b, c) = chunk_bounds inode size offset in
      let (low, high) : ((offset + j) % 512 ≡ offset % 512 + j)
          × ((offset + j) / 512 ≡ offset / 512) =
        (omega arith, omega arith) in
      let place : inode.disk.start + (offset + j) / 512 ≡ byte_to_sector inode offset =
        sector_at inode offset (offset + j) f (omega arith) high in
      ap (λ k. cache.byte s k ((offset + j) % 512)) place
      ∙ ap (λ o. cache.byte s (byte_to_sector inode offset) o) low

  read_loop_lem :
      (fuel : ℕ) (s : cache.Store) (inode : Inode) (buffer : ℕ → ℕ) (size offset bytes_read : ℕ)
      → FitsDevice inode
      → size < fuel
      → (b : ℕ → ℕ) × (read_loop cache fuel s inode buffer size offset bytes_read
          ≡ some (bytes_read + lesser size (inode.disk.length - offset), b))
        × ((j : ℕ) → j < bytes_read → b j ≡ buffer j)
        × ((j : ℕ)
            → j < lesser size (inode.disk.length - offset)
            → b (bytes_read + j) ≡ content s inode (offset + j))
  unfolding read_loop
  read_loop_lem zero s inode buffer size offset bytes_read f h = absurd (omega arith)
  read_loop_lem (suc fuel) s inode buffer size offset bytes_read f h =
      let c = chunk inode size offset in
      let (small, left, within) = chunk_bounds inode size offset in
      let got =
        cache.cached_read s (byte_to_sector inode offset) (offset % block_sector_size)
          (offset % block_sector_size + c) in
      elim (Bool-cases (c == 0)) [
        | inl e ↦
            let none_left : lesser size (inode.disk.length - offset) ≡ 0 =
              chunk_zero inode size offset (ground arith) in
            (
              buffer,
              rw e (rw none_left (ap (λ n. some (n, buffer)) (omega arith))),
              λ j l. refl,
              λ j l. absurd (omega (arith, none_left)),
            )
        | inr e ↦
            let moves : 0 < c = ground arith in
            let (b, run, before, after) =
              read_loop_lem fuel s inode (fill_buffer buffer bytes_read c got) (size - c)
                (offset + c) (bytes_read + c) f (omega arith) in
            let sum : bytes_read + c + lesser (size - c) (inode.disk.length - (offset + c))
                ≡ bytes_read + lesser size (inode.disk.length - offset) =
              lesser_step c bytes_read size inode.disk.length offset small left in
            (
              b,
              rw e (run ∙ ap (λ n. some (n, b)) sum),
              λ j l. before j (omega arith) ∙ unfilled buffer bytes_read c got j l,
              λ j l. elim (Bool-cases (ltb j c)) [
                | inl near ↦
                    let now : j < c = ground arith in
                    before (bytes_read + j) (omega arith)
                    ∙ (filled buffer bytes_read c got j now
                        ∙ (cache.byte-cached_read s (byte_to_sector inode offset)
                              (offset % block_sector_size) (offset % block_sector_size + c) j
                              (omega arith) within
                            ∙ sym (in_chunk s inode size offset j f now)))
                | inr past ↦
                    let later : c ≤ j = ground arith in
                    let (p, q) : (bytes_read + j ≡ bytes_read + c + (j - c))
                        × (offset + j ≡ offset + c + (j - c)) =
                      (omega arith, omega arith) in
                    rw p (rw q (after (j - c) (omega (arith, sum))))
              ],
            )
      ]

  -- With the file's sectors on the device, `inode_read_at` returns, and it has read the bytes that
  -- the file has from the offset on, at most `size` of them, into the buffer.
  pub inode_read_at-content :
      (s : cache.Store) (inode : Inode) (buffer : ℕ → ℕ) (size offset : ℕ)
      → FitsDevice inode
      → (b : ℕ → ℕ) × (inode_read_at cache s inode buffer size offset
          ≡ some (lesser size (inode.disk.length - offset), b))
        × ((j : ℕ)
            → j < lesser size (inode.disk.length - offset)
            → b j ≡ content s inode (offset + j))
  unfolding inode_read_at
  inode_read_at-content s inode buffer size offset f =
      let (b, run, before, after) =
        read_loop_lem (suc size) s inode buffer size offset 0 f (omega arith) in
      let from_0 : (j : ℕ) → b (0 + j) ≡ b j = λ j. ap b (omega arith) in
      (b, run ∙ ap (λ n. some (n, b)) (omega arith), λ j l. sym (from_0 j) ∙ after j l)
