-- ===== src/Filesys.antt =====
-- src/filesys/filesys.c, and the opening and closing of directories in src/filesys/directory.c.
-- The state is the table of open inodes, the free map and the store of the block cache. `read_inode`
-- is what is on the device for the inode of a sector. What `malloc` and `calloc` return is a
-- parameter of each call. `none` is a failed `ASSERT` or a fault.
use cs.Common.{
  ℕ, ◌*◌, ◌%◌, ◌^◌, Bool, false, Option, none, some, ltb, ◌==◌, if◌then◌else◌, ◌>>=◌, ◌>>◌, assert,
}
use cs.Strings.{Memory}
use cs.Inode.{BlockCache, InodeDisk, OpenInodes, inode_open, inode_reopen}
use cs.FreeMap.{FreeMap, free_map_allocate, free_map_release, inode_create, inode_close}
use cs.File.{File, file_open}
use cs.Directory.{Dir, entry_size, dir_lookup, dir_add, dir_remove}

abbrev pub root_dir_sector : ℕ
root_dir_sector = 1

-- The memory that the calls get: for a `struct inode`, a `struct dir`, a `struct inode_disk` and a
-- `struct file`.
pub record Memories : Type 0 where
  pub fresh_inode : Option ℕ
  pub fresh_entry_inode : Option ℕ
  pub dir_allocated : Bool
  pub disk_allocated : Bool
  pub file_allocated : Bool

module _ (cache : BlockCache) where
  abbrev pub System : Type 0
  System = OpenInodes × FreeMap × cache.Store

  unfoldable pub dir_create : Bool → System → ℕ → ℕ → Option (Bool × System)
  dir_create allocated (t, f, s) sector entry_cnt =
      let length = (entry_cnt * entry_size) % 2 ^ 32 in
      assert (ltb length (2 ^ 31))
      >> (inode_create cache allocated s f sector length >>= λ r. some (r.0, (t, r.1, r.2)))

  -- Without memory for the directory, the inode is closed.
  unfoldable pub dir_open : Bool → System → Option ℕ → Option (Option Dir × System)
  dir_open allocated y none = some (none, y)
  dir_open allocated (t, f, s) (some inode) =
      let dir : Dir = record { inode = inode; at = 0 } in
      if allocated
      then some (some dir, (t, f, s))
      else (inode_close cache s f t inode >>= λ y. some (none, y))

  unfoldable pub dir_open_root : (ℕ → InodeDisk) → Memories → System → Option (Option Dir × System)
  dir_open_root read_inode mem (t, f, s) =
      let r = inode_open t root_dir_sector mem.fresh_inode (read_inode root_dir_sector) in
      dir_open mem.dir_allocated (r.1, f, s) (r.0)

  unfoldable pub dir_reopen : Bool → System → Dir → Option (Option Dir × System)
  dir_reopen allocated (t, f, s) dir =
      dir_open allocated (inode_reopen t dir.inode, f, s) (some dir.inode)

  unfoldable pub dir_close : Option Dir → System → Option System
  dir_close none y = some y
  dir_close (some dir) (t, f, s) = inode_close cache s f t dir.inode

  -- The result of a call once the directory is closed.
  abbrev closing : {A : Type 0} → Option Dir → A × System → Option (A × System)
  closing dir (a, y) = dir_close dir y >>= λ y. some (a, y)

  -- The sector of an inode that is not in a directory goes back, unless it is 0.
  unfoldable pub give_back : ℕ → System → Option System
  give_back sector (t, f, s) =
      let released = free_map_release cache s f sector 1 >>= λ r. some (t, r.0, r.1) in
      if sector == 0 then some (t, f, s) else released

  -- `inode_create` and `dir_add`, in this order, for the inode at `sector`.
  unfoldable pub enter_inode :
      ℕ → ℕ → Memories → System → Dir → ℕ → ℕ → ℕ → ℕ → Memory → Option ((Bool × Memory) × System)
  enter_inode fuel strings mem (t, f, s) dir name initial_size e sector m =
      inode_create cache mem.disk_allocated s f sector initial_size >>= λ c.
      let added = dir_add cache fuel strings (c.2) (t.inodes dir.inode) name e sector m >>= λ r.
      some ((r.0, r.1), (t, c.1, r.2)) in
      if c.0 then added else some ((false, m), (t, c.1, c.2))

  -- With the root directory open: every failure after the allocation gives the sector back.
  unfoldable pub create_in :
      ℕ → ℕ → Memories → System → Dir → ℕ → ℕ → ℕ → Memory → Option ((Bool × Memory) × System)
  create_in fuel strings mem (t, f, s) dir name initial_size e m =
      free_map_allocate cache s f 1 >>= λ r. elim (r.0) [
        | none ↦ some ((false, m), (t, r.1, r.2))
        | some sector ↦
            enter_inode fuel strings mem (t, r.1, r.2) dir name initial_size e sector m >>= λ q.
            if (q.0).0 then some q else (give_back sector (q.1) >>= λ y. some (q.0, y))
      ]

  -- `initial_size` is an `off_t` that is not negative.
  unfoldable pub filesys_create :
      ℕ
      → ℕ
      → (ℕ → InodeDisk)
      → Memories
      → System
      → ℕ
      → ℕ
      → ℕ
      → Memory
      → Option ((Bool × Memory) × System)
  filesys_create fuel strings read_inode mem y name initial_size e m =
      dir_open_root read_inode mem y >>= λ o. elim (o.0) [
        | none ↦ some ((false, m), o.1)
        | some dir ↦
            create_in fuel strings mem (o.1) dir name initial_size e m >>= closing (some dir)
      ]

  -- `file_open`, where a null inode gives a null file.
  unfoldable pub open_inode : Bool → System → Option ℕ → Option (Option File × System)
  open_inode allocated y none = some (none, y)
  open_inode allocated (t, f, s) (some inode) =
      file_open cache allocated s f t inode >>= λ r. some (r.0, (r.1, r.2, r.3))

  unfoldable pub filesys_open :
      ℕ → ℕ → (ℕ → InodeDisk) → Memories → System → ℕ → ℕ → Memory → Option (Option File × System)
  filesys_open fuel strings read_inode mem y name e m = dir_open_root read_inode mem y >>= λ o.
      elim (o.0) [
        | none ↦ some (none, o.1)
        | some dir ↦
            dir_lookup cache fuel strings ((o.1).2) ((o.1).0) read_inode mem.fresh_entry_inode dir
              name e m
            >>= λ r. dir_close (some dir) (r.1, (o.1).1, (o.1).2) >>= λ y.
                open_inode mem.file_allocated y (r.0)
      ]

  unfoldable pub filesys_remove :
      ℕ
      → ℕ
      → (ℕ → InodeDisk)
      → Memories
      → System
      → ℕ
      → ℕ
      → Memory
      → Option ((Bool × Memory) × System)
  filesys_remove fuel strings read_inode mem y name e m = dir_open_root read_inode mem y >>= λ o.
      elim (o.0) [
        | none ↦ some ((false, m), o.1)
        | some dir ↦
            dir_remove cache fuel strings ((o.1).2) ((o.1).1) ((o.1).0) read_inode
              mem.fresh_entry_inode dir name e m
            >>= λ r. closing (some dir) ((r.0, r.1), (r.2, r.3, r.4))
      ]
