-- ===== src/Cache/Coherence.antt =====
-- src/filesys/cache.c: `cached_read_write` and the array of sectors that a cache presents.

use mathlib.Core.Path.{subst}
use cs.Common.{
  ℕ, suc, ◌+◌, ◌*◌, ◌<◌, ◌≤◌, ◌≡◌, ◌⊎◌, refl, sym, ap, ◌∙◌, inl, inr, Bool, true, false, Option,
  none, some, ltb, leb, ◌==◌, ◌>>=◌, arith, Bool-cases, Option-cases,
}
use cs.Cache.{
  is_unoccupied, Cache, cache_blocks, find_cached_sector, access_block, loaded, load_block,
  check_sector, use_found, fill_free, use_free, access_turn, access_loop, get_free_block,
  cached_read_write,
}
use cs.Cache.View.{Presents}
use cs.Cache.Clock.{Freed, get_free_block-Freed}
use cs.Cache.Access.{Accessed, access_block-Accessed, loaded-Presents, loaded-same}
use cs.Cache.Find.{find_cached_sector-some, find_cached_sector-absent}

-- The sector is in the cache, in a block that nobody holds.
hit :
    (again : Cache → Option ((ℕ → ℕ) × Cache)) (c : Cache) (v : ℕ → ℕ → ℕ) (sector : ℕ)
    (write : Bool) (from to : ℕ) (buffer : ℕ → ℕ) (i : ℕ)
    → Presents c v
    → i < cache_blocks
    → is_unoccupied (c.fs_cache i).state ≡ false
    → (c.fs_cache i).sector ≡ sector
    → (c.fs_cache i).held ≡ false
    → use_found again sector write from to buffer i c ≡ some (access_block write from to buffer i c)
unfolding use_found
hit again c v sector write from to buffer i p l u e h =
    let idle = p.idle i l in
    let same : ((c.fs_cache i).sector == sector) ≡ true = ground arith in
    rw h (rw same (rw u (rw idle refl)))

-- The sector is not in the cache, and stays out of it while a block is freed.
miss :
    (again : Cache → Option ((ℕ → ℕ) × Cache)) (c : Cache) (v : ℕ → ℕ → ℕ) (sector : ℕ)
    (write : Bool) (from to : ℕ) (buffer : ℕ → ℕ)
    → find_cached_sector c sector ≡ none
    → (r : Freed c v (2 * cache_blocks + 1))
    → (get_free_block (2 * cache_blocks + 1) c >>= use_free again sector write from to buffer) ≡ (
        load_block sector r.block r.after >>= λ c.
        some (access_block write from to buffer r.block c))
unfolding use_free fill_free
miss again c v sector write from to buffer e r = rw r.run (
    ap (fill_free again sector write from to buffer r.block r.after)
      (find_cached_sector-absent c r.after sector r.fewer e))

-- How an access ends: it returns if the sector is on the device, and fails past the device's end.
abbrev pub IsAccess :
    Cache → (ℕ → ℕ → ℕ) → ℕ → Bool → ℕ → ℕ → (ℕ → ℕ) → Option ((ℕ → ℕ) × Cache) → Type 0
IsAccess c v sector write from to buffer o =
    ((sector < c.disk_size)
      × (r : (ℕ → ℕ) × Cache) × (o ≡ some r)
      × Accessed v sector write from to buffer r)
    ⊎ ((c.disk_size ≤ sector) × (o ≡ none))

-- The block that was freed, if the sector can be read into it.
load-IsAccess :
    (c : Cache) (v : ℕ → ℕ → ℕ) (sector : ℕ) (write : Bool) (from to : ℕ) (buffer : ℕ → ℕ)
    → find_cached_sector c sector ≡ none
    → (r : Freed c v (2 * cache_blocks + 1))
    → IsAccess c v sector write from to buffer (
        load_block sector r.block r.after >>= λ c.
        some (access_block write from to buffer r.block c))
unfolding load_block check_sector
load-IsAccess c v sector write from to buffer absent r =
    let away = find_cached_sector-absent c r.after sector r.fewer absent in
    let filled = loaded sector r.block r.after in
    let (own, used) = loaded-same r.after sector r.block in
    let size = r.fewer.size_kept in
    elim (Bool-cases (ltb sector r.after.disk_size)) [
      | inl fits ↦
          let below : sector < r.after.disk_size = ground arith in
          inl (
            omega arith,
            access_block write from to buffer r.block filled,
            rw fits refl,
            access_block-Accessed write filled v from to buffer r.block sector
                (loaded-Presents r.after v sector r.block r.presents r.inside r.unused away below)
                r.inside used own,
          )
      | inr past ↦
          let beyond : r.after.disk_size ≤ sector = ground arith in inr (omega arith, rw past refl)
    ]

-- On a cache that presents sectors `v`, with a block that nobody holds and no other thread holding
-- the block of the sector, `cached_read_write` of bytes of one sector fails if the sector is past the
-- end of the device. Else it returns in its first turn, whether the sector is in the cache or has to
-- displace another. A read then puts the presented bytes into the buffer and the cache presents what
-- it did. After a write it presents the sectors with the bytes of the buffer written to the one.
pub cached_read_write-Accessed :
    (fuel : ℕ) (c : Cache) (v : ℕ → ℕ → ℕ) (sector : ℕ) (write : Bool) (from to : ℕ)
    (buffer : ℕ → ℕ) (k : ℕ)
    → Presents c v
    → from < to
    → to ≤ 512
    → k < cache_blocks
    → (c.fs_cache k).held ≡ false
    → ((i : ℕ) → (c.fs_cache i).sector ≡ sector → (c.fs_cache i).held ≡ false)
    → IsAccess c v sector write from to buffer
        (cached_read_write (suc fuel) c sector write from to buffer)
unfolding cached_read_write access_loop access_turn
cached_read_write-Accessed fuel c v sector write from to buffer k p a b l h free =
    let again = access_loop fuel sector write from to buffer in
    let (some_bytes, one_sector) : (ltb from to ≡ true) × (leb to 512 ≡ true) =
      (ground arith, ground arith) in
    elim (Option-cases (find_cached_sector c sector)) [
      | inl absent ↦
          let r = get_free_block-Freed c v k p l h in
          let run =
            ap (access_turn again sector write from to buffer c) absent
            ∙ miss again c v sector write from to buffer absent r in
          rw (some_bytes, one_sector)
            (subst (IsAccess c v sector write from to buffer) (sym run)
              (load-IsAccess c v sector write from to buffer absent r))
      | inr found ↦
          let (i, e) = found in
          let (inside, used, own) = find_cached_sector-some c sector i e in
          let on_device = p.on_device i inside used in
          inl (
            omega (arith, own, on_device),
            access_block write from to buffer i c,
            rw (some_bytes, one_sector)
                (ap (access_turn again sector write from to buffer c) e
                  ∙ hit again c v sector write from to buffer i p inside used own (free i own)),
            access_block-Accessed write c v from to buffer i sector p inside used own,
          )
    ]
