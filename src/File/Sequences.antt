-- ===== src/File/Sequences.antt =====
-- src/filesys/file.c: reading and writing in parts.
use cs.Common.{ℕ, ◌+◌, ◌-◌, ◌<◌, ◌≤◌, ◌≡◌, ap, ◌∙◌, inl, some, arith}
use cs.Inode.{BlockCache, OpenInodes, lesser}
use cs.Inode.Reading.{FitsDevice, content, inode_read_at-content}
use cs.Inode.Writing.{inode_write_at-IsWritten}
use cs.File.{File, file_seek, file_tell, file_read, file_write}

module _ (cache : BlockCache) (t : OpenInodes) where
  -- A write that fits in the file.
  file_write-whole :
      (s : cache.Store) (file : File) (buffer : ℕ → ℕ) (n : ℕ)
      → FitsDevice (t.inodes file.inode)
      → (t.inodes file.inode).deny_write_cnt ≡ 0
      → file.at + n ≤ (t.inodes file.inode).disk.length
      → (s' : cache.Store) × (file_write cache s t file buffer n
          ≡ some (n, s', file_seek file (file.at + n)))
        × ((j : ℕ) → j < n → content cache s' (t.inodes file.inode) (file.at + j) ≡ buffer j)
        × ((p : ℕ)
            → p < file.at
            → content cache s' (t.inodes file.inode) p ≡ content cache s (t.inodes file.inode) p)
  unfolding file_write
  file_write-whole s file buffer n f free fits =
      let i = t.inodes file.inode in
      let (s', run, w) = inode_write_at-IsWritten cache s i buffer n file.at f free in
      let all : lesser n (i.disk.length - file.at) ≡ n = ground arith in
      (
        s',
        rw (run, all),
        λ j l. w.written j (rw all l) ∙ ap buffer (omega arith),
        λ p l. w.kept p (inl l),
      )

  -- Two writes one after the other that fit in the file, then a seek to where the first began, and a
  -- read of as many bytes: the file's sectors being on the device and writes not denied, all of them
  -- are done in full, and the bytes read are those of the first buffer and then of the second.
  pub file_read-file_write :
      (s : cache.Store) (file : File) (first second buffer : ℕ → ℕ) (n k : ℕ)
      → FitsDevice (t.inodes file.inode)
      → (t.inodes file.inode).deny_write_cnt ≡ 0
      → file.at + n + k ≤ (t.inodes file.inode).disk.length
      → (s₁ s₂ : cache.Store) × (f₁ f₂ f₃ : File) × (b : ℕ → ℕ) × (file_write cache s t file first n
          ≡ some (n, s₁, f₁))
        × (file_write cache s₁ t f₁ second k ≡ some (k, s₂, f₂))
        × (file_read cache s₂ t (file_seek f₂ file.at) buffer (n + k) ≡ some (n + k, b, f₃))
        × ((j : ℕ) → j < n → b j ≡ first j)
        × ((j : ℕ) → j < k → b (n + j) ≡ second j)
        × (file_tell f₃ ≡ file_tell f₂)
  unfolding file_seek file_read file_tell
  file_read-file_write s file first second buffer n k f free fits =
      let i = t.inodes file.inode in
      let f₁ = file_seek file (file.at + n) in
      let f₂ = file_seek f₁ (f₁.at + k) in
      let (s₁, run₁, put₁, kept₁) = file_write-whole s file first n f free (omega (arith, fits)) in
      let (s₂, run₂, put₂, kept₂) = file_write-whole s₁ f₁ second k f free (omega (arith, fits)) in
      let (b, run₃, got) = inode_read_at-content cache s₂ i buffer (n + k) file.at f in
      let all : lesser (n + k) (i.disk.length - file.at) ≡ n + k = ground (arith, fits) in
      (
        s₁,
        s₂,
        f₁,
        f₂,
        file_seek f₂ (file.at + (n + k)),
        b,
        run₁,
        run₂,
        rw (run₃, all),
        λ j l. got j (rw all (omega arith)) ∙ (kept₂ (file.at + j) (omega arith) ∙ put₁ j l),
        λ j l.
            got (n + j) (rw all (omega arith)) ∙ (ap (content cache s₂ i) (omega arith) ∙ put₂ j l),
        omega arith,
      )
