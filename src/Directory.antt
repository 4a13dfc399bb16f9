-- ===== src/Directory.antt =====
-- src/filesys/directory.c: directories, as files of entries of 20 bytes.
-- An entry is its `inode_sector`, four bytes with the lowest first, its `name` of 15 bytes and its
-- `in_use`. A local variable `struct dir_entry e` lies in memory at `e`, and names are strings in
-- memory; the open directory is there, and so is what follows its pointers. `strings` is the fuel of the loops
-- over strings, and `fuel` that of the loops over entries.
pub mod Names
pub mod Lookup
pub mod Filling
pub mod Adding
pub mod RoundTrip
use cs.Common.{
  ℕ, zero, suc, ◌+◌, ◌-◌, ◌*◌, ◌/◌, ◌%◌, ◌^◌, Bool, true, false, not, ◌&&◌, ◌||◌, Option, none,
  some, ltb, leb, ◌==◌, if◌then◌else◌, ◌>>=◌, ◌>>◌, assert, update, null,
}
use cs.Common.Int.{ℤ}
use cs.FixedPoint.{is_zero}
use cs.Strings.{Memory, strcmp, strlen, strlcpy}
use cs.FreeMap.{FreeMap, inode_close}
use cs.Inode.{
  BlockCache, Inode, InodeDisk, OpenInodes, inode_read_at, inode_write_at, inode_open, inode_reopen,
  inode_remove,
}

-- struct dir: the address of its inode, and the position.
pub record Dir : Type 0 where
  pub inode : ℕ
  pub at : ℕ

abbrev pub name_max : ℕ
name_max = 14

-- sizeof (struct dir_entry), and the places of the members.
abbrev pub entry_size : ℕ
entry_size = 20

abbrev pub name_of : ℕ → ℕ
name_of e = e + 4

abbrev pub in_use_of : ℕ → ℕ
in_use_of e = e + 19

unfoldable pub put_block : Memory → ℕ → ℕ → (ℕ → ℕ) → Memory
put_block m at size b a = if leb at a && ltb a (at + size) then b (a - at) else m a

unfoldable pub get_sector : Memory → ℕ → ℕ
get_sector m e = m e + 2 ^ 8 * m (e + 1) + 2 ^ 16 * m (e + 2) + 2 ^ 24 * m (e + 3)

unfoldable pub sector_byte : ℕ → ℕ → ℕ
sector_byte sector zero = sector % 256
sector_byte sector (suc j) = sector_byte (sector / 256) j

-- `e.in_use && !strcmp (name, e.name)`.
unfoldable pub is_entry : ℕ → ℕ → ℕ → Memory → Option Bool
is_entry strings name e m =
    let named = strcmp strings m name (name_of e) >>= λ c. some (is_zero c) in
    if m (in_use_of e) == 0 then some false else named

-- The entry in memory for the name and the sector.
unfoldable pub fill_entry : ℕ → ℕ → ℕ → ℕ → Memory → Option Memory
fill_entry strings name e sector m =
    strlcpy strings (update m (in_use_of e) 1) (name_of e) name (name_max + 1) >>= λ r.
    some (put_block (r.1) e 4 (sector_byte sector))

module _ (cache : BlockCache) where
  -- `inode_read_at (dir->inode, &e, sizeof e, ofs) == sizeof e`, and the memory after it.
  unfoldable pub read_entry : cache.Store → Inode → ℕ → Memory → ℕ → Option (Bool × Memory)
  read_entry s inode e m ofs = inode_read_at cache s inode (λ j. m (e + j)) entry_size ofs >>= λ r.
      some (r.0 == entry_size, put_block m e entry_size (r.1))

  -- The offset of the entry, which is then at `e`, if there is one.
  unfoldable pub lookup_loop :
      ℕ → ℕ → cache.Store → Inode → ℕ → ℕ → Memory → ℕ → Option (Option ℕ × Memory)
  lookup_loop zero strings s inode name e m ofs = none
  lookup_loop (suc fuel) strings s inode name e m ofs = read_entry s inode e m ofs >>= λ r.
      let next = lookup_loop fuel strings s inode name e (r.1) (ofs + entry_size) in
      let found =
        is_entry strings name e (r.1) >>= λ hit. if hit then some (some ofs, r.1) else next in
      if r.0 then found else some (none, r.1)

  unfoldable pub lookup : ℕ → ℕ → cache.Store → Inode → ℕ → ℕ → Memory → Option (Option ℕ × Memory)
  lookup fuel strings s inode name e m =
      assert (not (name == null)) >> lookup_loop fuel strings s inode name e m 0

  -- `read_inode` is what is on the device for the inode of a sector, and `fresh` the memory that
  -- `malloc` returns, if it succeeds.
  unfoldable pub dir_lookup :
      ℕ
      → ℕ
      → cache.Store
      → OpenInodes
      → (ℕ → InodeDisk)
      → Option ℕ
      → Dir
      → ℕ
      → ℕ
      → Memory
      → Option (Option ℕ × OpenInodes)
  dir_lookup fuel strings s t read_inode fresh dir name e m =
      lookup fuel strings s (t.inodes dir.inode) name e m >>= λ r. elim (r.0) [
        | none ↦ some (none, t)
        | some ofs ↦
            some (inode_open t (get_sector (r.1) e) fresh (read_inode (get_sector (r.1) e)))
      ]

  -- The offset of the first entry that is not in use, or the end of the entries.
  unfoldable pub free_loop : ℕ → cache.Store → Inode → ℕ → Memory → ℕ → Option (ℕ × Memory)
  free_loop zero s inode e m ofs = none
  free_loop (suc fuel) s inode e m ofs = read_entry s inode e m ofs >>= λ r.
      let next = free_loop fuel s inode e (r.1) (ofs + entry_size) in
      if r.0 then (if (r.1) (in_use_of e) == 0 then some (ofs, r.1) else next) else some (ofs, r.1)

  unfoldable pub write_slot :
      ℕ → cache.Store → Inode → ℕ → ℕ → ℕ → ℕ × Memory → Option (Bool × Memory × cache.Store)
  write_slot strings s inode name e sector (ofs, m) = fill_entry strings name e sector m >>= λ m.
      inode_write_at cache s inode (λ j. m (e + j)) entry_size ofs >>= λ w.
      some (w.0 == entry_size, m, w.1)

  unfoldable pub dir_add :
      ℕ → ℕ → cache.Store → Inode → ℕ → ℕ → ℕ → Memory → Option (Bool × Memory × cache.Store)
  dir_add fuel strings s inode name e sector m =
      let add = lookup fuel strings s inode name e m >>= λ r. elim (r.0) [
        | none ↦ free_loop fuel s inode e (r.1) 0 >>= write_slot strings s inode name e sector
        | some ofs ↦ some (false, r.1, s)
      ] in
      assert (not (name == null))
      >> (if m name == 0
          then some (false, m, s)
          else (strlen strings m name >>= λ n. if ltb name_max n then some (false, m, s) else add))

  -- The name of the next entry in use goes to `name`; the position moves behind that entry.
  unfoldable pub dir_readdir :
      ℕ → ℕ → cache.Store → OpenInodes → Dir → ℕ → ℕ → Memory → Option (Bool × Dir × Memory)
  dir_readdir zero strings s t dir name e m = none
  dir_readdir (suc fuel) strings s t dir name e m =
      read_entry s (t.inodes dir.inode) e m dir.at >>= λ r.
      let moved : Dir = record { inode = dir.inode; at = dir.at + entry_size } in
      let next = dir_readdir fuel strings s t moved name e (r.1) in
      let copied =
        strlcpy strings (r.1) name (name_of e) (name_max + 1) >>= λ c. some (true, moved, c.1) in
      if r.0 then (if (r.1) (in_use_of e) == 0 then next else copied) else some (false, dir, r.1)

  -- The entry at `ofs`, which is at `e`, is erased and its inode, open at `a`, marked to be removed.
  unfoldable pub erase_entry :
      cache.Store
      → FreeMap
      → OpenInodes
      → Dir
      → ℕ
      → Memory
      → ℕ
      → ℕ
      → Option (Bool × Memory × OpenInodes × FreeMap × cache.Store)
  erase_entry s f t dir e m ofs a =
      let m' = update m (in_use_of e) 0 in
      inode_write_at cache s (t.inodes dir.inode) (λ j. m' (e + j)) entry_size ofs >>= λ w.
      let done = w.0 == entry_size in
      inode_close cache (w.1) f (if done then inode_remove t a else t) a >>= λ r.
      some (done, m', r.0, r.1, r.2)

  unfoldable pub dir_remove :
      ℕ
      → ℕ
      → cache.Store
      → FreeMap
      → OpenInodes
      → (ℕ → InodeDisk)
      → Option ℕ
      → Dir
      → ℕ
      → ℕ
      → Memory
      → Option (Bool × Memory × OpenInodes × FreeMap × cache.Store)
  dir_remove fuel strings s f t read_inode fresh dir name e m =
      lookup fuel strings s (t.inodes dir.inode) name e m >>= λ r. elim (r.0) [
        | none ↦ some (false, r.1, t, f, s)
        | some ofs ↦
            let sector = get_sector (r.1) e in
            let opened = inode_open t sector fresh (read_inode sector) in
            elim (opened.0) [
              | none ↦ some (false, r.1, opened.1, f, s)
              | some a ↦ erase_entry s f (opened.1) dir e (r.1) ofs a
            ]
      ]
