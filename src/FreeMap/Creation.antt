-- ===== src/FreeMap/Creation.antt =====
-- src/filesys/inode.c: `inode_create`.

use cs.Common.{
  ℕ, zero, suc, ◌+◌, ◌/◌, ◌%◌, ◌^◌, ◌<◌, ◌≤◌, ◌≡◌, refl, ap, sym, ◌∙◌, inl, inr, Bool, true, false,
  Option, none, some, arith, ◌⊎◌, ltb, ◌==◌, Bool-cases,
}
use cs.Bitmap.{Bitmap}
use cs.Bitmap.Single.{HasRoom, bit_at}
use cs.Bitmap.Scan.{IsGroup}
use cs.Inode.{BlockCache, InodeDisk, Inode, block_sector_size, bytes_to_sectors}
use cs.FreeMap.{FreeMap, inode_magic, inode_disk_byte, zero_sectors, write_inode, inode_create}
use cs.FreeMap.Allocation.{IsReady, IsAllocated, SameBits, free_map_allocate-IsAllocated}

-- A sector in use is not in a free group.
in_use_apart :
    (b : Bitmap) (sector start cnt : ℕ)
    → IsGroup b start cnt false
    → bit_at b sector ≡ true
    → (sector < start + 0) ⊎ (start + 0 + cnt ≤ sector)
in_use_apart b sector start cnt g used = elim (Bool-cases (ltb sector start)) [
  | inl below ↦ inl (ground arith)
  | inr from ↦ elim (Bool-cases (ltb sector (start + cnt))) [
    | inl inside ↦ absurd (cc (g sector (ground arith) (ground arith), used))
    | inr above ↦ inr (ground arith)
  ]
]

module _ (cache : BlockCache) where
  zero_sectors-other :
      (left start i : ℕ) (s : cache.Store) (k o : ℕ)
      → start + i + left ≤ 2 ^ 32
      → (k < start + i) ⊎ (start + i + left ≤ k)
      → cache.byte (zero_sectors cache left start i s) k o ≡ cache.byte s k o
  unfolding zero_sectors
  zero_sectors-other zero start i s k o l out = refl
  zero_sectors-other (suc left) start i s k o l out =
      zero_sectors-other left start (suc i)
        (cache.cached_write s ((start + i) % 2 ^ 32) 0 block_sector_size (λ j. 0)) k o (omega arith)
        (past out)
      ∙ cache.byte-cached_write_other s ((start + i) % 2 ^ 32) 0 block_sector_size (λ j. 0) k o
          (apart out)
    where
      past :
          (k < start + i) ⊎ (start + i + suc left ≤ k)
          → (k < start + suc i) ⊎ (start + suc i + left ≤ k)
      past (inl h) = inl (omega arith)
      past (inr h) = inr (omega arith)

      apart :
          (k < start + i) ⊎ (start + i + suc left ≤ k)
          → (k < (start + i) % 2 ^ 32)
            ⊎ ((start + i) % 2 ^ 32 < k)
            ⊎ (o < 0)
            ⊎ (block_sector_size ≤ o)
      apart (inl h) = inl (omega arith)
      apart (inr h) = inr (inl (omega arith))

  zero_sectors-zero :
      (left start i : ℕ) (s : cache.Store) (k o : ℕ)
      → start + i + left ≤ 2 ^ 32
      → start + i ≤ k
      → k < start + i + left
      → o < block_sector_size
      → cache.byte (zero_sectors cache left start i s) k o ≡ 0
  unfolding zero_sectors
  zero_sectors-zero zero start i s k o l p q r = absurd (omega arith)
  zero_sectors-zero (suc left) start i s k o l p q r = elim (Bool-cases (k == start + i)) [
    | inl e ↦
        let s' = cache.cached_write s ((start + i) % 2 ^ 32) 0 block_sector_size (λ j. 0) in
        let here : (start + i) % 2 ^ 32 ≡ k = ground arith in
        zero_sectors-other left start (suc i) s' k o (omega arith) (inl (ground arith))
        ∙ (ap (λ n. cache.byte s' n o) (sym here)
            ∙ (ap (cache.byte s' ((start + i) % 2 ^ 32)) (omega arith)
                ∙ cache.byte-cached_write s ((start + i) % 2 ^ 32) 0 block_sector_size (λ j. 0) o
                    (omega arith) (omega arith)))
    | inr e ↦
        zero_sectors-zero left start (suc i)
          (cache.cached_write s ((start + i) % 2 ^ 32) 0 block_sector_size (λ j. 0)) k o
          (omega arith) (ground arith) (omega arith) r
  ]

  abbrev pub new_disk : ℕ → ℕ → InodeDisk
  new_disk start length = record { start = start; length = length; magic = inode_magic }

  -- The inode is in its sector, and every byte of the file is 0.
  abbrev pub IsCreated : Bitmap → ℕ → ℕ → Bool → Bitmap → cache.Store → Type 0
  IsCreated b sector length false b' s' = SameBits b b'
  IsCreated b sector length true b' s' =
      (start : ℕ) × IsAllocated b (bytes_to_sectors length) (some start) b'
      × ((o : ℕ)
          → o < block_sector_size
          → cache.byte s' sector o ≡ inode_disk_byte (new_disk start length) o)
      × ((p : ℕ)
          → p < length
          → cache.byte s' (start + p / block_sector_size) (p % block_sector_size) ≡ 0)

  written :
      (s : cache.Store) (b b' : Bitmap) (file : Option Inode) (sector length : ℕ) (o : Option ℕ)
      → b.bit_cnt ≤ 2 ^ 32
      → bit_at b sector ≡ true
      → IsAllocated b (bytes_to_sectors length) o b'
      → (ok : Bool) × (s' : cache.Store) × (write_inode cache sector length
            (o, record { free_map = b'; free_map_file = file }, s)
          ≡ (ok, record { free_map = b'; free_map_file = file }, s'))
        × IsCreated b sector length ok b' s'
  unfolding write_inode bytes_to_sectors
  written s b b' file sector length none small used same = (false, s, refl, same)
  written s b b' file sector length (some start) small used (fits, g, m) =
      let disk = new_disk start length in
      let s₁ = cache.cached_write s sector 0 block_sector_size (inode_disk_byte disk) in
      (
        true,
        zero_sectors cache (bytes_to_sectors length) start 0 s₁,
        refl,
        (
          start,
          (fits, g, m),
          λ o l.
              zero_sectors-other (bytes_to_sectors length) start 0 s₁ sector o (omega arith)
                (in_use_apart b sector start (bytes_to_sectors length) g used)
              ∙ (ap (cache.byte s₁ sector) (omega arith)
                  ∙ cache.byte-cached_write s sector 0 block_sector_size (inode_disk_byte disk) o
                      (omega arith) (omega arith)),
          λ p l.
              zero_sectors-zero (bytes_to_sectors length) start 0 s₁ (start + p / block_sector_size)
                (p % block_sector_size) (omega arith) (omega arith) (omega arith) (omega arith),
        ),
      )

  -- On a free map with room and of at most 2 ^ 32 sectors, its file not open yet or ready, `inode_create` at a sector
  -- in use returns, when memory is there. It succeeds with sectors that were free and are in use
  -- now, the inode in its sector and a file of zeros; or it fails with no sector newly in use.
  pub inode_create-IsCreated :
      (s : cache.Store) (f : FreeMap) (sector length : ℕ)
      → HasRoom f.free_map
      → IsReady f.free_map_file
      → f.free_map.bit_cnt ≤ 2 ^ 32
      → bit_at f.free_map sector ≡ true
      → (ok : Bool) × (b' : Bitmap) × (s' : cache.Store) × (inode_create cache true s f sector
            length
          ≡ some (ok, record { free_map = b'; free_map_file = f.free_map_file }, s'))
        × IsCreated f.free_map sector length ok b' s'
  unfolding inode_create
  inode_create-IsCreated s f sector length room ready small used =
      let (o, b', s₁, run, room', allocated) =
        free_map_allocate-IsAllocated cache s f (bytes_to_sectors length) room ready in
      let (ok, s', write, created) =
        written s₁ f.free_map b' f.free_map_file sector length o small used allocated in
      (ok, b', s', rw (run, write), created)
