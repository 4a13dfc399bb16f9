-- ===== src/Tests/Files.antt =====
-- The theorems about src/filesys/inode.c on a block cache that is an array of sectors.
use cs.Common.{
  ℕ, ap, ◌+◌, ◌-◌, ◌<◌, ◌≤◌, ◌≡◌, ◌⊎◌, refl, inl, inr, true, false, ◌&&◌, [], ◌∷◌, some, leb, ltb,
  ◌==◌, if◌then◌else◌, arith,
}
use cs.Inode.{BlockCache, Inode, OpenInodes, inode_read_at, inode_write_at, inode_open}
use cs.Inode.Reading.{content, inode_read_at-content}
use cs.Inode.Writing.{IsWritten, inode_write_at-IsWritten}
use cs.Inode.Table.{IsTable, IsOpened, inode_open-IsOpened}

abbrev pub Sectors : Type 0
Sectors = ℕ → ℕ → ℕ

abbrev pub write_sector : Sectors → ℕ → ℕ → ℕ → (ℕ → ℕ) → Sectors
write_sector s k from to buffer k' o =
    if (k' == k) && (leb from o && ltb o to) then buffer (o - from) else s k' o

pub write_sector-same :
    (s : Sectors) (k from to : ℕ) (buffer : ℕ → ℕ) (j : ℕ)
    → from + j < to
    → write_sector s k from to buffer k (from + j) ≡ buffer j
write_sector-same s k from to buffer j h =
    let (a, b, c) : ((k == k) ≡ true) × (leb from (from + j) ≡ true) × (ltb (from + j) to ≡ true) =
      (ground arith, ground arith, ground arith) in
    rw a (rw b (rw c (ap buffer (omega arith))))

pub write_sector-other :
    (s : Sectors) (k from to : ℕ) (buffer : ℕ → ℕ) (k' o : ℕ)
    → (k' < k) ⊎ (k < k') ⊎ (o < from) ⊎ (to ≤ o)
    → write_sector s k from to buffer k' o ≡ s k' o
write_sector-other s k from to buffer k' o (inl h) = ground arith
write_sector-other s k from to buffer k' o (inr (inl h)) = ground arith
write_sector-other s k from to buffer k' o (inr (inr (inl h))) = ground arith
write_sector-other s k from to buffer k' o (inr (inr (inr h))) = ground arith

abbrev pub sectors : BlockCache
sectors = record {
  Store = Sectors;
  cached_read = λ s k from to j. s k (from + j);
  cached_write = write_sector;
  byte = λ s. s;
  byte-cached_read = λ s k from to j h r. refl;
  byte-cached_write = λ s k from to buffer j h r. write_sector-same s k from to buffer j h;
  byte-cached_write_other = write_sector-other;
}

-- A file of 1000 bytes in sectors 20 and 21.
abbrev pub file : Inode
file = record {
  sector = 3;
  open_cnt = 1;
  removed = false;
  deny_write_cnt = 0;
  disk = record { start = 20; length = 1000; magic = 0 };
}

inode_read_at-content_example :
    (b : ℕ → ℕ) × (inode_read_at sectors (λ k o. k) file (λ j. 0) 600 500 ≡ some (500, b))
    × ((j : ℕ) → j < 500 → b j ≡ content sectors (λ k o. k) file (500 + j))
inode_read_at-content_example =
    inode_read_at-content sectors (λ k o. k) file (λ j. 0) 600 500 (omega arith)

inode_write_at-IsWritten_example :
    (s' : Sectors) × (inode_write_at sectors (λ k o. 0) file (λ j. 7) 600 500 ≡ some (500, s'))
    × IsWritten sectors (λ k o. 0) s' file (λ j. 7) 0 500 500
inode_write_at-IsWritten_example =
    inode_write_at-IsWritten sectors (λ k o. 0) file (λ j. 7) 600 500 (omega arith) refl

-- The file is open at address 60.
abbrev pub one_open : OpenInodes
one_open = record { inodes = λ a. file; open_inodes = 60 ∷ [] }

one_open-IsTable : IsTable one_open
one_open-IsTable = record {
  one_each = λ a b p q e. ground arith;
  opened_once = λ a p. omega arith;
  denied = λ a p. omega arith;
}

inode_open-IsOpened_example :
    (a : ℕ) × (t' : OpenInodes) × (inode_open one_open 5
        (some 61)
        (record { start = 40; length = 10; magic = 0 })
      ≡ (some a, t'))
    × IsOpened one_open t' 5 a
inode_open-IsOpened_example =
    inode_open-IsOpened one_open 5 61 (record { start = 40; length = 10; magic = 0 })
      one_open-IsTable refl
