-- ===== src/Inode.antt =====
-- src/filesys/inode.c: files as runs of consecutive sectors, and the table of open inodes.
-- The block cache is an interface: its `cached_read` and `cached_write`, and what they do to the
-- bytes of the sectors. An `off_t` that is not negative is its value; where the source computes a
-- length that can be negative only to leave the loop, the difference stops at 0 and leaves it too.
pub mod Reading
pub mod Writing
pub mod Table
use cs.Common.{
  ℕ, zero, suc, ◌+◌, ◌-◌, ◌/◌, ◌%◌, ◌^◌, ◌<◌, ◌≤◌, ◌≡◌, ◌⊎◌, Bool, true, false, not, Option, none,
  some, List, [], ◌∷◌, ltb, leb, ◌==◌, if◌then◌else◌, ◌>>=◌, ◌>>◌, assert, update, erase,
}

abbrev pub block_sector_size : ℕ
block_sector_size = 512

-- What inodes use of the block cache. Bytes `from <= i < to` of a sector are read to, or written
-- from, a buffer that starts with byte `from`.
pub record BlockCache : Type 1 where
  pub Store : Type 0
  pub cached_read : Store → ℕ → ℕ → ℕ → ℕ → ℕ
  pub cached_write : Store → ℕ → ℕ → ℕ → (ℕ → ℕ) → Store
  pub byte : Store → ℕ → ℕ → ℕ
  pub byte-cached_read :
      (s : Store) (k from to j : ℕ)
      → from + j < to
      → to ≤ block_sector_size
      → cached_read s k from to j ≡ byte s k (from + j)
  pub byte-cached_write :
      (s : Store) (k from to : ℕ) (buffer : ℕ → ℕ) (j : ℕ)
      → from + j < to
      → to ≤ block_sector_size
      → byte (cached_write s k from to buffer) k (from + j) ≡ buffer j
  pub byte-cached_write_other :
      (s : Store) (k from to : ℕ) (buffer : ℕ → ℕ) (k' o : ℕ)
      → (k' < k) ⊎ (k < k') ⊎ (o < from) ⊎ (to ≤ o)
      → byte (cached_write s k from to buffer) k' o ≡ byte s k' o

pub record InodeDisk : Type 0 where
  pub start : ℕ
  pub length : ℕ
  pub magic : ℕ

pub record Inode : Type 0 where
  pub sector : ℕ
  pub open_cnt : ℕ
  pub removed : Bool
  pub deny_write_cnt : ℕ
  pub disk : InodeDisk

-- `DIV_ROUND_UP (size, BLOCK_SECTOR_SIZE)`.
unfoldable pub bytes_to_sectors : ℕ → ℕ
bytes_to_sectors size = (size + block_sector_size - 1) / block_sector_size

-- A `block_sector_t` is an unsigned 32-bit number, and -1 its greatest.
unfoldable pub byte_to_sector : Inode → ℕ → ℕ
byte_to_sector inode pos =
    if ltb pos inode.disk.length
    then (inode.disk.start + pos / block_sector_size) % 2 ^ 32
    else 2 ^ 32 - 1

unfoldable pub inode_length : Inode → ℕ
inode_length inode = inode.disk.length

unfoldable pub inode_get_inumber : Inode → ℕ
inode_get_inumber inode = inode.sector

abbrev pub lesser : ℕ → ℕ → ℕ
lesser a b = if ltb a b then a else b

-- The bytes that one turn of the loops of `inode_read_at` and `inode_write_at` copies.
unfoldable pub chunk : Inode → ℕ → ℕ → ℕ
chunk inode size offset =
    let inode_left = inode_length inode - offset in
    let sector_left = block_sector_size - offset % block_sector_size in
    lesser size (lesser inode_left sector_left)

-- A buffer after `cnt` bytes have been copied to it from place `at` on.
unfoldable pub fill_buffer : (ℕ → ℕ) → ℕ → ℕ → (ℕ → ℕ) → ℕ → ℕ
fill_buffer buffer at cnt from j =
    if leb at j then (if ltb j (at + cnt) then from (j - at) else buffer j) else buffer j

module _ (cache : BlockCache) where
  unfoldable pub read_loop : ℕ → cache.Store → Inode → (ℕ → ℕ) → ℕ → ℕ → ℕ → Option (ℕ × (ℕ → ℕ))
  read_loop zero s inode buffer size offset bytes_read = none
  read_loop (suc fuel) s inode buffer size offset bytes_read =
      let sector_idx = byte_to_sector inode offset in
      let sector_ofs = offset % block_sector_size in
      let chunk_size = chunk inode size offset in
      let got = cache.cached_read s sector_idx sector_ofs (sector_ofs + chunk_size) in
      let rest =
        read_loop fuel s inode (fill_buffer buffer bytes_read chunk_size got) (size - chunk_size)
          (offset + chunk_size) (bytes_read + chunk_size) in
      if chunk_size == 0 then some (bytes_read, buffer) else rest

  -- Every turn lowers `size`, so that `size` turns and the last test are enough.
  unfoldable pub inode_read_at : cache.Store → Inode → (ℕ → ℕ) → ℕ → ℕ → Option (ℕ × (ℕ → ℕ))
  inode_read_at s inode buffer size offset = read_loop (suc size) s inode buffer size offset 0

  unfoldable pub write_loop :
      ℕ → cache.Store → Inode → (ℕ → ℕ) → ℕ → ℕ → ℕ → Option (ℕ × cache.Store)
  write_loop zero s inode buffer size offset bytes_written = none
  write_loop (suc fuel) s inode buffer size offset bytes_written =
      let sector_idx = byte_to_sector inode offset in
      let sector_ofs = offset % block_sector_size in
      let chunk_size = chunk inode size offset in
      let s' =
        cache.cached_write s sector_idx sector_ofs (sector_ofs + chunk_size)
          (λ j. buffer (bytes_written + j)) in
      let rest =
        write_loop fuel s' inode buffer (size - chunk_size) (offset + chunk_size)
          (bytes_written + chunk_size) in
      if chunk_size == 0 then some (bytes_written, s) else rest

  unfoldable pub inode_write_at : cache.Store → Inode → (ℕ → ℕ) → ℕ → ℕ → Option (ℕ × cache.Store)
  inode_write_at s inode buffer size offset =
      let loop = write_loop (suc size) s inode buffer size offset 0 in
      if inode.deny_write_cnt == 0 then loop else some (0, s)

-- The open inodes: the memory that holds them, and the list of their addresses.
pub record OpenInodes : Type 0 where
  pub inodes : ℕ → Inode
  pub open_inodes : List ℕ

unfoldable pub inode_init : (ℕ → Inode) → OpenInodes
inode_init inodes = record { inodes = inodes; open_inodes = [] }

unfoldable pub find_open : (ℕ → Inode) → List ℕ → ℕ → Option ℕ
find_open inodes [] sector = none
find_open inodes (e ∷ es) sector =
    let rest = find_open inodes es sector in if (inodes e).sector == sector then some e else rest

abbrev pub put : OpenInodes → ℕ → Inode → OpenInodes
put t a i = record { inodes = update t.inodes a i; open_inodes = t.open_inodes }

-- On an inode; `inode_reopen` of a null pointer does nothing.
unfoldable pub inode_reopen : OpenInodes → ℕ → OpenInodes
inode_reopen t a =
    let i = t.inodes a in
    put t a (record {
      sector = i.sector;
      open_cnt = suc i.open_cnt;
      removed = i.removed;
      deny_write_cnt = i.deny_write_cnt;
      disk = i.disk;
    })

-- The inode that is open already is opened once more; else a new one is put in front.
unfoldable pub opened : OpenInodes → ℕ → Option ℕ → InodeDisk → Option ℕ → Option ℕ × OpenInodes
opened t sector fresh disk (some a) = (some a, inode_reopen t a)
opened t sector none disk none = (none, t)
opened t sector (some a) disk none = (
  some a,
  record {
    inodes = update t.inodes a (record {
      sector = sector;
      open_cnt = 1;
      removed = false;
      deny_write_cnt = 0;
      disk = disk;
    });
    open_inodes = a ∷ t.open_inodes;
  },
)

-- `fresh` is the memory that `malloc` returns, if it succeeds, and `disk` what is read from the sector.
unfoldable pub inode_open : OpenInodes → ℕ → Option ℕ → InodeDisk → Option ℕ × OpenInodes
inode_open t sector fresh disk =
    opened t sector fresh disk (find_open t.inodes t.open_inodes sector)

unfoldable pub inode_remove : OpenInodes → ℕ → OpenInodes
inode_remove t a =
    let i = t.inodes a in
    put t a (record {
      sector = i.sector;
      open_cnt = i.open_cnt;
      removed = true;
      deny_write_cnt = i.deny_write_cnt;
      disk = i.disk;
    })

abbrev pub with_deny : Inode → ℕ → Inode
with_deny i n = record {
  sector = i.sector;
  open_cnt = i.open_cnt;
  removed = i.removed;
  deny_write_cnt = n;
  disk = i.disk;
}

unfoldable pub inode_deny_write : OpenInodes → ℕ → Option OpenInodes
inode_deny_write t a =
    let i = t.inodes a in
    assert (leb (suc i.deny_write_cnt) i.open_cnt)
    >> some (put t a (with_deny i (suc i.deny_write_cnt)))

unfoldable pub inode_allow_write : OpenInodes → ℕ → Option OpenInodes
inode_allow_write t a =
    let i = t.inodes a in
    assert (ltb 0 i.deny_write_cnt)
    >> (assert (leb i.deny_write_cnt i.open_cnt)
        >> some (put t a (with_deny i (i.deny_write_cnt - 1))))
