-- ===== src/FreeMap.antt =====
-- src/filesys/free-map.c, with the file part of src/lib/kernel/bitmap.c and the operations of
-- src/filesys/inode.c that allocate and release sectors.
-- The block cache is the interface of `Inode`. `free_map_file` is the inode of the open file, and
-- `none` before it is open. `none` is a failed `ASSERT`, or an access through the null file.
pub mod Allocation
pub mod Creation
use cs.Common.{
  ℕ, zero, suc, ◌+◌, ◌-◌, ◌*◌, ◌/◌, ◌%◌, ◌^◌, Bool, true, false, not, Option, none, some, List, [],
  ◌∷◌, ltb, leb, ◌==◌, if◌then◌else◌, ◌>>=◌, ◌>>◌, assert, get_or, erase,
}
use cs.Bitmap.{
  Bitmap, byte_cnt, bitmap_create, bitmap_mark, bitmap_all, bitmap_set_multiple,
  bitmap_scan_and_flip,
}
use cs.Inode.{
  BlockCache, InodeDisk, Inode, OpenInodes, block_sector_size, bytes_to_sectors, inode_write_at,
  put,
}

-- Byte `j` of an array of 32-bit words, the lowest byte of a word first.
unfoldable pub word_byte : ℕ → ℕ → ℕ
word_byte word zero = word % 256
word_byte word (suc j) = word_byte (word / 256) j

abbrev pub byte_of : List ℕ → ℕ → ℕ
byte_of words j = word_byte (get_or words (j / 4) 0) (j % 4)

unfoldable pub bitmap_file_size : Bitmap → ℕ
bitmap_file_size b = byte_cnt b.bit_cnt

-- The static variables.
pub record FreeMap : Type 0 where
  pub free_map : Bitmap
  pub free_map_file : Option Inode

-- On a device of `size` sectors: the free map is at sector 0, and the root directory at 1.
unfoldable pub free_map_init : ℕ → List ℕ → Option FreeMap
free_map_init size fresh = bitmap_create size fresh >>= λ b. bitmap_mark b 0 >>= λ b.
    bitmap_mark b 1 >>= λ b. some (record { free_map = b; free_map_file = none })

abbrev pub inode_magic : ℕ
inode_magic = 1229868868

-- A `struct inode_disk` as the bytes of a sector.
unfoldable pub inode_disk_byte : InodeDisk → ℕ → ℕ
inode_disk_byte d = byte_of (d.start ∷ (d.length ∷ (d.magic ∷ [])))

module _ (cache : BlockCache) where
  unfoldable pub bitmap_write : cache.Store → Bitmap → Inode → Option (Bool × cache.Store)
  bitmap_write s b file =
      inode_write_at cache s file (byte_of b.bits) (byte_cnt b.bit_cnt) 0 >>= λ w.
      some (w.0 == byte_cnt b.bit_cnt, w.1)

  -- The sectors found go to the file, if it is open; they are given back if that fails.
  unfoldable pub save_allocation :
      cache.Store → Option Inode → ℕ → ℕ → Bitmap → Option (Option ℕ × Bitmap × cache.Store)
  save_allocation s none sector cnt b = some (some sector, b, s)
  save_allocation s (some file) sector cnt b = bitmap_write s b file >>= λ w.
      let undone = bitmap_set_multiple b sector cnt false >>= λ b. some (none, b, w.1) in
      if w.0 then some (some sector, b, w.1) else undone

  unfoldable pub save_found :
      cache.Store → Option Inode → ℕ → Option ℕ × Bitmap → Option (Option ℕ × Bitmap × cache.Store)
  save_found s file cnt (none, b) = some (none, b, s)
  save_found s file cnt (some sector, b) = save_allocation s file sector cnt b

  unfoldable pub free_map_allocate :
      cache.Store → FreeMap → ℕ → Option (Option ℕ × FreeMap × cache.Store)
  free_map_allocate s f cnt = bitmap_scan_and_flip f.free_map 0 cnt false >>= λ found.
      save_found s f.free_map_file cnt found >>= λ r.
      some (r.0, record { free_map = r.1; free_map_file = f.free_map_file }, r.2)

  -- `bitmap_write` through the null file is a fault.
  unfoldable pub save_release : cache.Store → Option Inode → Bitmap → Option cache.Store
  save_release s none b = none
  save_release s (some file) b = bitmap_write s b file >>= λ w. some (w.1)

  unfoldable pub free_map_release : cache.Store → FreeMap → ℕ → ℕ → Option (FreeMap × cache.Store)
  free_map_release s f sector cnt = bitmap_all f.free_map sector cnt >>= λ all.
      assert all
      >> (bitmap_set_multiple f.free_map sector cnt false >>= λ b.
          save_release s f.free_map_file b >>= λ s.
          some (record { free_map = b; free_map_file = f.free_map_file }, s))

  -- The sectors from `start + i` on, `left` of them, become zeros.
  unfoldable pub zero_sectors : ℕ → ℕ → ℕ → cache.Store → cache.Store
  zero_sectors zero start i s = s
  zero_sectors (suc left) start i s =
      zero_sectors left start (suc i)
        (cache.cached_write s ((start + i) % 2 ^ 32) 0 block_sector_size (λ j. 0))

  -- The new inode at `sector` has its data from `start` on.
  unfoldable pub write_inode :
      ℕ → ℕ → Option ℕ × FreeMap × cache.Store → Bool × FreeMap × cache.Store
  write_inode sector length (none, f, s) = (false, f, s)
  write_inode sector length (some start, f, s) =
      let disk : InodeDisk = record { start = start; length = length; magic = inode_magic } in
      let s' = cache.cached_write s sector 0 block_sector_size (inode_disk_byte disk) in
      (true, f, zero_sectors (bytes_to_sectors length) start 0 s')

  -- `allocated` says whether `calloc` succeeds.
  unfoldable pub inode_create :
      Bool → cache.Store → FreeMap → ℕ → ℕ → Option (Bool × FreeMap × cache.Store)
  inode_create allocated s f sector length =
      let created = free_map_allocate s f (bytes_to_sectors length) >>= λ r.
      some (write_inode sector length r) in
      if allocated then created else some (false, f, s)

  -- The last opener takes the inode off the list and, if it is removed, gives its sectors back.
  unfoldable pub close_last :
      cache.Store → FreeMap → OpenInodes → ℕ → Option (OpenInodes × FreeMap × cache.Store)
  close_last s f t a =
      let i = t.inodes a in
      let t' : OpenInodes = record { inodes = t.inodes; open_inodes = erase a t.open_inodes } in
      let released = free_map_release s f i.sector 1 >>= λ r.
      free_map_release (r.1) (r.0) i.disk.start (bytes_to_sectors i.disk.length) >>= λ r.
      some (t', r.0, r.1) in
      if i.removed then released else some (t', f, s)

  -- On an inode; `inode_close` of a null pointer does nothing.
  unfoldable pub inode_close :
      cache.Store → FreeMap → OpenInodes → ℕ → Option (OpenInodes × FreeMap × cache.Store)
  inode_close s f t a =
      let i = t.inodes a in
      let t' = put t a (record {
        sector = i.sector;
        open_cnt = i.open_cnt - 1;
        removed = i.removed;
        deny_write_cnt = i.deny_write_cnt;
        disk = i.disk;
      }) in
      if i.open_cnt == 1 then close_last s f t' a else some (t', f, s)
