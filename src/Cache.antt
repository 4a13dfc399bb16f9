-- ===== src/Cache.antt =====
-- src/filesys/cache.c: the block cache as one thread uses it while no other does input or output.
-- `held` marks the blocks whose lock another thread holds as a writer: `writer_try_acquire` fails
-- on them, and an access that has to wait for one ends as `none`, as a failed `ASSERT` or a panic
-- does. The device is a function from sectors and offsets to bytes, with its size in sectors, and a
-- buffer starts at place 0.
pub mod View
pub mod Clock
pub mod Find
pub mod Access
pub mod Coherence
use cs.Common.{
  ℕ, zero, suc, ◌+◌, ◌-◌, ◌*◌, ◌%◌, Bool, true, false, not, ◌&&◌, ◌||◌, Option, none, some, ltb,
  leb, ◌==◌, if◌then◌else◌, ◌>>=◌, ◌>>◌, assert, update,
}

abbrev pub cache_blocks : ℕ
cache_blocks = 64

-- enum cached_block_state
pub data CachedBlockState : Type 0 where
  unoccupied : CachedBlockState
  in_io : CachedBlockState
  clean : CachedBlockState
  dirty : CachedBlockState

abbrev pub is_unoccupied : CachedBlockState → Bool
is_unoccupied unoccupied = true
is_unoccupied _ = false

abbrev pub is_in_io : CachedBlockState → Bool
is_in_io in_io = true
is_in_io _ = false

abbrev pub is_dirty : CachedBlockState → Bool
is_dirty dirty = true
is_dirty _ = false

pub record CachedBlock : Type 0 where
  pub held : Bool
  pub sector : ℕ
  pub state : CachedBlockState
  pub accessed : Bool
  pub bytes : ℕ → ℕ

pub record Cache : Type 0 where
  pub fs_cache : ℕ → CachedBlock
  pub fs_cache_arm : ℕ
  pub disk : ℕ → ℕ → ℕ
  pub disk_size : ℕ

abbrev pub put_block : Cache → ℕ → CachedBlock → Cache
put_block c i b = record c { fs_cache = update c.fs_cache i b }

-- In src/devices/block.c: `block_read` and `block_write` past the end of the device panic.
unfoldable pub check_sector : Cache → ℕ → Option (Unit {0})
check_sector c sector = assert (ltb sector c.disk_size)

-- `block_write` of a dirty block; the block is clean afterwards.
unfoldable pub write_back : Cache → ℕ → Option Cache
write_back c i =
    let b = c.fs_cache i in
    assert (not (is_in_io b.state))
    >> (let written =
          check_sector c b.sector
          >> some (record (put_block c i (record b { state = clean })) {
            disk = update c.disk b.sector b.bytes;
          }) in
        if is_dirty b.state then written else some c)

unfoldable pub empty_block : ℕ → Cache → Cache
empty_block i c = put_block c i (record (c.fs_cache i) { state = unoccupied })

-- One turn of the clock: the block that it takes, or `none` to go on.
unfoldable pub try_block : Cache → Option (Option ℕ × Cache)
try_block c =
    let i = c.fs_cache_arm in
    let b = c.fs_cache i in
    let next = record c { fs_cache_arm = (i + 1) % cache_blocks } in
    if b.held
    then some (none, next)
    else assert (not (is_in_io b.state))
      >> (if is_unoccupied b.state
          then some (some i, next)
          else if b.accessed
          then some (none, put_block next i (record b { accessed = false }))
          else (write_back next i >>= λ c'. some (some i, empty_block i c')))

unfoldable pub or_again : (Cache → Option (ℕ × Cache)) → Option ℕ × Cache → Option (ℕ × Cache)
or_again again (some i, c) = some (i, c)
or_again again (none, c) = again c

unfoldable pub get_free_block : ℕ → Cache → Option (ℕ × Cache)
get_free_block zero c = none
get_free_block (suc fuel) c = try_block c >>= or_again (get_free_block fuel)

unfoldable pub find_loop : ℕ → ℕ → Cache → ℕ → Option ℕ
find_loop zero i c sector = none
find_loop (suc left) i c sector =
    let rest = find_loop left (suc i) c sector in
    if ((c.fs_cache i).sector == sector) && not (is_unoccupied (c.fs_cache i).state)
    then some i
    else rest

unfoldable pub find_cached_sector : Cache → ℕ → Option ℕ
find_cached_sector c sector = find_loop cache_blocks 0 c sector

-- `memcpy (data + from, buffer, to - from)` and `memcpy (buffer, data + from, to - from)`.
unfoldable pub copy_in : (ℕ → ℕ) → ℕ → ℕ → (ℕ → ℕ) → ℕ → ℕ
copy_in bytes from to buffer o = if leb from o && ltb o to then buffer (o - from) else bytes o

unfoldable pub copy_out : (ℕ → ℕ) → ℕ → ℕ → (ℕ → ℕ) → ℕ → ℕ
copy_out bytes from to buffer j = if ltb j (to - from) then bytes (from + j) else buffer j

-- The access to a block that holds the sector: the buffer and the cache afterwards.
unfoldable pub access_block : Bool → ℕ → ℕ → (ℕ → ℕ) → ℕ → Cache → (ℕ → ℕ) × Cache
access_block true from to buffer i c =
    let b = c.fs_cache i in
    (
      buffer,
      put_block c i
          (record b { bytes = copy_in b.bytes from to buffer; state = dirty; accessed = true }),
    )
access_block false from to buffer i c =
    let b = c.fs_cache i in
    (copy_out b.bytes from to buffer, put_block c i (record b { accessed = true }))

-- The block that the sector has been read into.
unfoldable pub loaded : ℕ → ℕ → Cache → Cache
loaded sector i c =
    put_block c i (record (c.fs_cache i) { sector = sector; state = clean; bytes = c.disk sector })

-- `block_read` of the sector into a block.
unfoldable pub load_block : ℕ → ℕ → Cache → Option Cache
load_block sector i c = check_sector c sector >> some (loaded sector i c)

-- The block that was found, once its lock is there; else the turn is made again.
unfoldable pub use_found :
    (Cache → Option ((ℕ → ℕ) × Cache))
    → ℕ
    → Bool
    → ℕ
    → ℕ
    → (ℕ → ℕ)
    → ℕ
    → Cache
    → Option ((ℕ → ℕ) × Cache)
use_found again sector write from to buffer i c =
    let b = c.fs_cache i in
    let retry = again c in
    assert (not b.held)
    >> (if (b.sector == sector) && not (is_unoccupied b.state || is_in_io b.state)
        then some (access_block write from to buffer i c)
        else retry)

-- The block that was freed, unless the sector has popped up meanwhile.
unfoldable pub fill_free :
    (Cache → Option ((ℕ → ℕ) × Cache))
    → ℕ
    → Bool
    → ℕ
    → ℕ
    → (ℕ → ℕ)
    → ℕ
    → Cache
    → Option ℕ
    → Option ((ℕ → ℕ) × Cache)
fill_free again sector write from to buffer i c none =
    load_block sector i c >>= λ c. some (access_block write from to buffer i c)
fill_free again sector write from to buffer i c (some _) = again c

unfoldable pub use_free :
    (Cache → Option ((ℕ → ℕ) × Cache))
    → ℕ
    → Bool
    → ℕ
    → ℕ
    → (ℕ → ℕ)
    → ℕ × Cache
    → Option ((ℕ → ℕ) × Cache)
use_free again sector write from to buffer (i, c) =
    fill_free again sector write from to buffer i c (find_cached_sector c sector)

-- One turn of the loop, by what the first search finds.
unfoldable pub access_turn :
    (Cache → Option ((ℕ → ℕ) × Cache))
    → ℕ
    → Bool
    → ℕ
    → ℕ
    → (ℕ → ℕ)
    → Cache
    → Option ℕ
    → Option ((ℕ → ℕ) × Cache)
access_turn again sector write from to buffer c (some i) =
    use_found again sector write from to buffer i c
access_turn again sector write from to buffer c none =
    get_free_block (2 * cache_blocks + 1) c >>= use_free again sector write from to buffer

unfoldable pub access_loop : ℕ → ℕ → Bool → ℕ → ℕ → (ℕ → ℕ) → Cache → Option ((ℕ → ℕ) × Cache)
access_loop zero sector write from to buffer c = none
access_loop (suc fuel) sector write from to buffer c =
    access_turn (access_loop fuel sector write from to buffer) sector write from to buffer c
      (find_cached_sector c sector)

unfoldable pub cached_read_write : ℕ → Cache → ℕ → Bool → ℕ → ℕ → (ℕ → ℕ) → Option ((ℕ → ℕ) × Cache)
cached_read_write fuel c sector write from to buffer =
    assert (ltb from to) >> (assert (leb to 512) >> access_loop fuel sector write from to buffer c)

unfoldable pub cached_write : ℕ → Cache → ℕ → ℕ → ℕ → (ℕ → ℕ) → Option ((ℕ → ℕ) × Cache)
cached_write fuel c sector from to buffer = cached_read_write fuel c sector true from to buffer

unfoldable pub cached_read : ℕ → Cache → ℕ → ℕ → ℕ → (ℕ → ℕ) → Option ((ℕ → ℕ) × Cache)
cached_read fuel c sector from to buffer = cached_read_write fuel c sector false from to buffer
