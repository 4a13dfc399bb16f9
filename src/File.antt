-- ===== src/File.antt =====
-- src/filesys/file.c: open files, on inodes.
-- A `struct file` is a value, and `memory` says whether `calloc` succeeds. The inode of a file is at an
-- address of the table of open inodes. A buffer is a function from the places in it.
pub mod Sequences
use cs.Common.{
  ℕ, ◌+◌, ◌%◌, ◌^◌, Bool, true, false, not, Option, none, some, ltb, ◌==◌, if◌then◌else◌, ◌>>=◌,
  ◌>>◌, assert,
}
use cs.Inode.{
  BlockCache, OpenInodes, inode_read_at, inode_write_at, inode_length, inode_reopen,
  inode_deny_write, inode_allow_write,
}
use cs.FreeMap.{FreeMap, inode_close}

-- struct file
pub record File : Type 0 where
  pub inode : ℕ
  pub at : ℕ
  pub deny_write : Bool

unfoldable pub file_get_inode : File → ℕ
file_get_inode file = file.inode

unfoldable pub file_length : OpenInodes → File → ℕ
file_length t file = inode_length (t.inodes file.inode)

-- `off_t` is `int32_t`: a position that is not negative.
unfoldable pub file_seek : File → ℕ → File
file_seek file new_pos = record { inode = file.inode; at = new_pos; deny_write = file.deny_write }

unfoldable pub file_tell : File → ℕ
file_tell file = file.at

unfoldable pub file_deny_write : OpenInodes → File → Option (File × OpenInodes)
file_deny_write t file =
    let denied : File = record { inode = file.inode; at = file.at; deny_write = true } in
    let deny = inode_deny_write t file.inode >>= λ t. some (denied, t) in
    if not file.deny_write then deny else some (file, t)

unfoldable pub file_allow_write : OpenInodes → File → Option (File × OpenInodes)
file_allow_write t file =
    let allowed : File = record { inode = file.inode; at = file.at; deny_write = false } in
    let allow = inode_allow_write t file.inode >>= λ t. some (allowed, t) in
    if file.deny_write then allow else some (file, t)

module _ (cache : BlockCache) where
  -- On an inode; without memory the inode is closed.
  unfoldable pub file_open :
      Bool
      → cache.Store
      → FreeMap
      → OpenInodes
      → ℕ
      → Option (Option File × OpenInodes × FreeMap × cache.Store)
  file_open memory s f t inode =
      let file : File = record { inode = inode; at = 0; deny_write = false } in
      let closed = inode_close cache s f t inode >>= λ r. some (none, r.0, r.1, r.2) in
      if memory then some (some file, t, f, s) else closed

  unfoldable pub file_reopen :
      Bool
      → cache.Store
      → FreeMap
      → OpenInodes
      → File
      → Option (Option File × OpenInodes × FreeMap × cache.Store)
  file_reopen memory s f t file = file_open memory s f (inode_reopen t file.inode) file.inode

  unfoldable pub file_close :
      cache.Store → FreeMap → OpenInodes → File → Option (OpenInodes × FreeMap × cache.Store)
  file_close s f t file = file_allow_write t file >>= λ r. inode_close cache s f (r.1) file.inode

  unfoldable pub file_read_at :
      cache.Store → OpenInodes → File → (ℕ → ℕ) → ℕ → ℕ → Option (ℕ × (ℕ → ℕ))
  file_read_at s t file buffer size file_ofs =
      inode_read_at cache s (t.inodes file.inode) buffer size file_ofs

  unfoldable pub file_read :
      cache.Store → OpenInodes → File → (ℕ → ℕ) → ℕ → Option (ℕ × (ℕ → ℕ) × File)
  file_read s t file buffer size =
      inode_read_at cache s (t.inodes file.inode) buffer size file.at >>= λ r.
      some (r.0, r.1, file_seek file (file.at + r.0))

  unfoldable pub file_write_at :
      cache.Store → OpenInodes → File → (ℕ → ℕ) → ℕ → ℕ → Option (ℕ × cache.Store)
  file_write_at s t file buffer size file_ofs =
      inode_write_at cache s (t.inodes file.inode) buffer size file_ofs

  unfoldable pub file_write :
      cache.Store → OpenInodes → File → (ℕ → ℕ) → ℕ → Option (ℕ × cache.Store × File)
  file_write s t file buffer size =
      inode_write_at cache s (t.inodes file.inode) buffer size file.at >>= λ r.
      some (r.0, r.1, file_seek file (file.at + r.0))
