-- ===== src/Inode/Writing.antt =====
-- src/filesys/inode.c: what `inode_write_at` writes.
use cs.Common.{
  ℕ, zero, suc, ◌+◌, ◌-◌, ◌/◌, ◌%◌, ◌<◌, ◌≤◌, ◌≡◌, refl, ap, ◌∙◌, ◌⊎◌, inl, inr, true, some, ltb,
  ◌==◌, Bool-cases, arith,
}
use cs.Inode.{
  BlockCache, Inode, block_sector_size, byte_to_sector, lesser, chunk, write_loop, inode_write_at,
  inode_read_at,
}
use mathlib.Core.Path.{subst}
use cs.Inode.Reading.{
  FitsDevice, chunk_bounds, chunk_zero, content, in_chunk, sector_at, lesser_step,
  inode_read_at-content,
}

-- The file after `cnt` bytes of the buffer, from place `at` on, have been written at `offset`.
pub record IsWritten (cache : BlockCache) (s s' : cache.Store) (inode : Inode) (buffer : ℕ → ℕ)
    (at offset cnt : ℕ) : Type 0 where
  pub written : (j : ℕ) → j < cnt → content cache s' inode (offset + j) ≡ buffer (at + j)
  pub kept :
      (p : ℕ)
      → (p < offset) ⊎ (offset + cnt ≤ p)
      → content cache s' inode p ≡ content cache s inode p

module _ (cache : BlockCache) where
  kept_chunk :
      (s : cache.Store) (inode : Inode) (buffer : ℕ → ℕ) (offset cnt p : ℕ)
      → FitsDevice inode
      → offset < inode.disk.length
      → (p < offset) ⊎ (offset + cnt ≤ p)
      → content cache
          (cache.cached_write s
            (byte_to_sector inode offset)
            (offset % block_sector_size)
            (offset % block_sector_size + cnt)
            buffer)
          inode
          p
        ≡ content cache s inode p
  unfolding content
  kept_chunk s inode buffer offset cnt p f h o =
      let k : inode.disk.start + offset / block_sector_size ≡ byte_to_sector inode offset =
        sector_at inode offset offset f h refl in
      cache.byte-cached_write_other s (byte_to_sector inode offset) (offset % block_sector_size)
        (offset % block_sector_size + cnt) buffer (inode.disk.start + p / block_sector_size)
        (p % block_sector_size)
        (apart inode.disk.start (byte_to_sector inode offset) offset cnt p k o)
    where
      apart :
          (start k offset cnt p : ℕ)
          → start + offset / 512 ≡ k
          → (p < offset) ⊎ (offset + cnt ≤ p)
          → (start + p / 512 < k)
            ⊎ (k < start + p / 512)
            ⊎ (p % 512 < offset % 512)
            ⊎ (offset % 512 + cnt ≤ p % 512)
      apart start k offset cnt p e (inl h) = elim (Bool-cases (ltb (p / 512) (offset / 512))) [
        | inl t ↦ let u : p / 512 < offset / 512 = ground arith in inl (omega arith)
        | inr t ↦ let u : offset / 512 ≤ p / 512 = ground arith in inr (inr (inl (omega arith)))
      ]
      apart start k offset cnt p e (inr h) = elim (Bool-cases (ltb (offset / 512) (p / 512))) [
        | inl t ↦ let u : offset / 512 < p / 512 = ground arith in inr (inl (omega arith))
        | inr t ↦ let u : p / 512 ≤ offset / 512 = ground arith in inr (inr (inr (omega arith)))
      ]

  chunk-IsWritten :
      (s : cache.Store) (inode : Inode) (buffer : ℕ → ℕ) (size offset : ℕ)
      → FitsDevice inode
      → 0 < chunk inode size offset
      → IsWritten cache s
          (cache.cached_write s
            (byte_to_sector inode offset)
            (offset % block_sector_size)
            (offset % block_sector_size + chunk inode size offset)
            buffer)
          inode
          buffer
          0
          offset
          (chunk inode size offset)
  chunk-IsWritten s inode buffer size offset f h =
      let (_, left, within) = chunk_bounds inode size offset in
      let c = chunk inode size offset in
      let k = byte_to_sector inode offset in
      let from = offset % block_sector_size in
      record {
        written = λ j l.
            in_chunk cache (cache.cached_write s k from (from + c) buffer) inode size offset j f l
            ∙ (cache.byte-cached_write s k from (from + c) buffer j (omega arith) within
                ∙ ap buffer (omega arith));
        kept = λ p o. kept_chunk s inode buffer offset c p f (omega arith) o;
      }

  -- One chunk and the rest of the loop.
  IsWritten-trans :
      (s s₁ s₂ : cache.Store) (inode : Inode) (buffer : ℕ → ℕ) (at offset c d : ℕ)
      → IsWritten cache s s₁ inode (λ j. buffer (at + j)) 0 offset c
      → IsWritten cache s₁ s₂ inode buffer (at + c) (offset + c) d
      → IsWritten cache s s₂ inode buffer at offset (c + d)
  IsWritten-trans s s₁ s₂ inode buffer at offset c d one more = record {
    written = λ j l. elim (Bool-cases (ltb j c)) [
      | inl near ↦
          let now : j < c = ground arith in
          more.kept (offset + j) (inl (omega arith))
          ∙ (one.written j now ∙ ap (λ n. buffer (at + n)) (omega arith))
      | inr past ↦
          let later : c ≤ j = ground arith in
          ap (content cache s₂ inode) (omega arith)
          ∙ (more.written (j - c) (omega arith) ∙ ap buffer (omega arith))
    ];
    kept = λ p o. more.kept p (outside offset c d p o) ∙ one.kept p (before offset c d p o);
  }
    where
      outside :
          (offset c d p : ℕ)
          → (p < offset) ⊎ (offset + (c + d) ≤ p)
          → (p < offset + c) ⊎ (offset + c + d ≤ p)
      outside offset c d p (inl h) = inl (omega arith)
      outside offset c d p (inr h) = inr (omega arith)

      before :
          (offset c d p : ℕ)
          → (p < offset) ⊎ (offset + (c + d) ≤ p)
          → (p < offset) ⊎ (offset + c ≤ p)
      before offset c d p (inl h) = inl h
      before offset c d p (inr h) = inr (omega arith)

  write_loop-IsWritten :
      (fuel : ℕ) (s : cache.Store) (inode : Inode) (buffer : ℕ → ℕ) (size offset at : ℕ)
      → FitsDevice inode
      → size < fuel
      → (s' : cache.Store) × (write_loop cache fuel s inode buffer size offset at
          ≡ some (at + lesser size (inode.disk.length - offset), s'))
        × IsWritten cache s s' inode buffer at offset (lesser size (inode.disk.length - offset))
  unfolding write_loop
  write_loop-IsWritten zero s inode buffer size offset at f h = absurd (omega arith)
  write_loop-IsWritten (suc fuel) s inode buffer size offset at f h =
      let c = chunk inode size offset in
      let (small, left, within) = chunk_bounds inode size offset in
      let s₁ =
        cache.cached_write s (byte_to_sector inode offset) (offset % block_sector_size)
          (offset % block_sector_size + c) (λ j. buffer (at + j)) in
      elim (Bool-cases (c == 0)) [
        | inl e ↦
            let none_left : lesser size (inode.disk.length - offset) ≡ 0 =
              chunk_zero inode size offset (ground arith) in
            (
              s,
              rw e (ap (λ n. some (n, s)) (omega (arith, none_left))),
              record { written = λ j l. absurd (omega (arith, none_left)); kept = λ p o. refl },
            )
        | inr e ↦
            let moves : 0 < c = ground arith in
            let (s₂, run, more) =
              write_loop-IsWritten fuel s₁ inode buffer (size - c) (offset + c) (at + c) f
                (omega arith) in
            let sum = lesser_step c at size inode.disk.length offset small left in
            let total : c + lesser (size - c) (inode.disk.length - (offset + c))
                ≡ lesser size (inode.disk.length - offset) =
              omega (arith, sum) in
            (
              s₂,
              rw e (run ∙ ap (λ n. some (n, s₂)) sum),
              subst (IsWritten cache s s₂ inode buffer at offset) total (
                  IsWritten-trans s s₁ s₂ inode buffer at offset c
                    (lesser (size - c) (inode.disk.length - (offset + c)))
                    (chunk-IsWritten s inode (λ j. buffer (at + j)) size offset f moves) more),
            )
      ]

  -- With the file's sectors on the device and no writer denied, `inode_write_at` returns the number
  -- of bytes that the file has from the offset on, at most `size`; it has put that many bytes of the
  -- buffer at the offset and left the file's other bytes as they were.
  pub inode_write_at-IsWritten :
      (s : cache.Store) (inode : Inode) (buffer : ℕ → ℕ) (size offset : ℕ)
      → FitsDevice inode
      → inode.deny_write_cnt ≡ 0
      → (s' : cache.Store) × (inode_write_at cache s inode buffer size offset
          ≡ some (lesser size (inode.disk.length - offset), s'))
        × IsWritten cache s s' inode buffer 0 offset (lesser size (inode.disk.length - offset))
  unfolding inode_write_at
  inode_write_at-IsWritten s inode buffer size offset f d =
      let (s', run, w) =
        write_loop-IsWritten (suc size) s inode buffer size offset 0 f (omega arith) in
      let allowed : (inode.deny_write_cnt == 0) ≡ true = ground arith in
      (s', rw allowed (run ∙ ap (λ n. some (n, s')) (omega arith)), w)

  -- With the file's sectors on the device and no writer denied, reading a range just after writing it
  -- returns as many bytes as were written, and they are the bytes of the buffer.
  pub inode_read_at-inode_write_at :
      (s : cache.Store) (inode : Inode) (buffer buffer' : ℕ → ℕ) (size offset : ℕ)
      → FitsDevice inode
      → inode.deny_write_cnt ≡ 0
      → (n : ℕ) × (s' : cache.Store) × (b : ℕ → ℕ) × (inode_write_at cache s inode buffer size
            offset
          ≡ some (n, s'))
        × (inode_read_at cache s' inode buffer' size offset ≡ some (n, b))
        × ((j : ℕ) → j < n → b j ≡ buffer j)
  inode_read_at-inode_write_at s inode buffer buffer' size offset f d =
      let (s', wrote, w) = inode_write_at-IsWritten s inode buffer size offset f d in
      let (b, read, same) = inode_read_at-content cache s' inode buffer' size offset f in
      (
        lesser size (inode.disk.length - offset),
        s',
        b,
        wrote,
        read,
        λ j l. same j l ∙ (w.written j l ∙ ap buffer (omega arith)),
      )
