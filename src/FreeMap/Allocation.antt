-- ===== src/FreeMap/Allocation.antt =====
-- src/filesys/free-map.c: allocation and release of sectors.
use mathlib.Core.Path.{subst}
use cs.Common.{
  ℕ, ◌+◌, ◌-◌, ◌≤◌, ◌≡◌, refl, ap, sym, ◌∙◌, inl, inr, Bool, true, false, not, Option, none, some,
  arith, ltb, ◌==◌, ◌>>=◌, Bool-cases,
}
use cs.Bitmap.{Bitmap, byte_cnt, bitmap_all, bitmap_contains}
use cs.Bitmap.Single.{HasRoom, bit_at}
use cs.Bitmap.Scan.{
  IsGroup, Holds, bitmap_contains-Holds, IsFirstGroup, IsSetRange, bitmap_set_multiple-IsSetRange,
  Flipped, bitmap_scan_and_flip-Flipped,
}
use cs.Inode.{BlockCache, Inode, lesser}
use cs.Inode.Reading.{FitsDevice}
use cs.Inode.Writing.{inode_write_at-IsWritten}
use cs.FreeMap.{
  FreeMap, bitmap_write, byte_of, save_allocation, save_found, free_map_allocate, save_release,
  free_map_release,
}

-- The file of the free map, once it is open, is on the device and can be written.
abbrev pub IsReady : Option Inode → Type 0
IsReady none = Unit {0}
IsReady (some file) = FitsDevice file × (file.deny_write_cnt ≡ 0)

abbrev pub SameBits : Bitmap → Bitmap → Type 0
SameBits b b' = (j : ℕ) → bit_at b' j ≡ bit_at b j

-- What an allocation of `cnt` sectors does: the sectors answered were free, and just they are in use now; without an
-- answer no bit has changed.
abbrev pub IsAllocated : Bitmap → ℕ → Option ℕ → Bitmap → Type 0
IsAllocated b cnt none b' = SameBits b b'
IsAllocated b cnt (some i) b' =
    (i + cnt ≤ b.bit_cnt) × IsGroup b i cnt false × IsSetRange b b' i cnt true

HasRoom-range :
    {b b' : Bitmap} {i cnt : ℕ} {v : Bool} → IsSetRange b b' i cnt v → HasRoom b → HasRoom b'
HasRoom-range m r = rw (m.range_size, m.range_room) r

-- Taking a group and giving it back.
SameBits-back :
    {b b₁ b₂ : Bitmap} {i cnt : ℕ}
    → IsGroup b i cnt false
    → IsSetRange b b₁ i cnt true
    → IsSetRange b₁ b₂ i cnt false
    → SameBits b b₂
SameBits-back {i = i} {cnt = cnt} g m n j = elim (Bool-cases (ltb j i)) [
  | inl below ↦ n.outside j (inl (ground arith)) ∙ m.outside j (inl (ground arith))
  | inr from ↦ elim (Bool-cases (ltb j (i + cnt))) [
    | inl inside ↦
        n.inside j (ground arith) (ground arith) ∙ sym (g j (ground arith) (ground arith))
    | inr above ↦ n.outside j (inr (ground arith)) ∙ m.outside j (inr (ground arith))
  ]
]

module _ (cache : BlockCache) where
  bitmap_write-total :
      (s : cache.Store) (b : Bitmap) (file : Inode)
      → IsReady (some file)
      → (ok : Bool) × (s' : cache.Store) × (bitmap_write cache s b file ≡ some (ok, s'))
  unfolding bitmap_write
  bitmap_write-total s b file r =
      let (s', run, w) =
        inode_write_at-IsWritten cache s file (byte_of b.bits) (byte_cnt b.bit_cnt) 0 r.0 r.1 in
      (lesser (byte_cnt b.bit_cnt) (file.disk.length - 0) == byte_cnt b.bit_cnt, s', rw run)

  save_allocation-IsAllocated :
      (s : cache.Store) (file : Option Inode) (b b₁ : Bitmap) (i cnt : ℕ)
      → HasRoom b
      → IsReady file
      → i + cnt ≤ b.bit_cnt
      → IsGroup b i cnt false
      → IsSetRange b b₁ i cnt true
      → (o : Option ℕ) × (b' : Bitmap) × (s' : cache.Store) × (save_allocation cache s file i cnt b₁
          ≡ some (o, b', s'))
        × HasRoom b'
        × IsAllocated b cnt o b'
  unfolding save_allocation
  save_allocation-IsAllocated s none b b₁ i cnt r ready fits g m =
      (some i, b₁, s, refl, HasRoom-range m r, (fits, g, m))
  save_allocation-IsAllocated s (some file) b b₁ i cnt r ready fits g m =
      let (ok, s', run) = bitmap_write-total s b₁ file ready in
      let (b₂, undo, n) =
        bitmap_set_multiple-IsSetRange b₁ i cnt false (HasRoom-range m r)
          (omega (arith, fits, m.range_size)) in
      elim (Bool-cases ok) [
        | inl e ↦ (some i, b₁, s', rw (run, e), HasRoom-range m r, (fits, g, m))
        | inr e ↦ (
          none,
          b₂,
          s',
          rw (run, e, undo),
          HasRoom-range n (HasRoom-range m r),
          SameBits-back g m n,
        )
      ]

  save_found-IsAllocated :
      (s : cache.Store) (file : Option Inode) (b b₁ : Bitmap) (o : Option ℕ) (cnt : ℕ)
      → HasRoom b
      → IsReady file
      → IsFirstGroup b 0 cnt false o
      → Flipped b 0 cnt false o b₁
      → (o' : Option ℕ) × (b' : Bitmap) × (s' : cache.Store) × (save_found cache s file cnt (o, b₁)
          ≡ some (o', b', s'))
        × HasRoom b'
        × IsAllocated b cnt o' b'
  unfolding save_found
  save_found-IsAllocated s file b b₁ none cnt r ready first same =
      (none, b₁, s, refl, rw same r, λ j. ap (λ c. bit_at c j) same)
  save_found-IsAllocated s file b b₁ (some i) cnt r ready first m =
      save_allocation-IsAllocated s file b b₁ i cnt r ready first.1 first.2 m

  -- With room in the bitmap, and with the file of the free map not open yet or ready to be written,
  -- `free_map_allocate` returns. It answers consecutive sectors that were free, and just they are in use then; or it answers
  -- none and leaves every sector as it was.
  pub free_map_allocate-IsAllocated :
      (s : cache.Store) (f : FreeMap) (cnt : ℕ)
      → HasRoom f.free_map
      → IsReady f.free_map_file
      → (o : Option ℕ) × (b' : Bitmap) × (s' : cache.Store) × (free_map_allocate cache s f cnt
          ≡ some (o, record { free_map = b'; free_map_file = f.free_map_file }, s'))
        × HasRoom b'
        × IsAllocated f.free_map cnt o b'
  unfolding free_map_allocate
  free_map_allocate-IsAllocated s f cnt r ready =
      let (o, b₁, scan, first, flipped) =
        bitmap_scan_and_flip-Flipped f.free_map 0 cnt false r (omega arith) in
      let (o', b', s', run, room, done) =
        save_found-IsAllocated s f.free_map_file f.free_map b₁ o cnt r ready first flipped in
      (o', b', s', rw (scan, run), room, done)

  bitmap_all-group :
      (b : Bitmap) (i cnt : ℕ)
      → HasRoom b
      → i + cnt ≤ b.bit_cnt
      → IsGroup b i cnt true
      → bitmap_all b i cnt ≡ some true
  unfolding bitmap_all
  bitmap_all-group b i cnt r fits g =
      let (c, run, holds) = bitmap_contains-Holds b i cnt false r fits in all_set c run holds
    where
      all_set :
          (c : Bool)
          → bitmap_contains b i cnt false ≡ some c
          → Holds b i cnt false c
          → (bitmap_contains b i cnt false >>= λ c. some (not c)) ≡ some true
      all_set true run (j, p, q, x) = absurd (cc (g j p q, x))
      all_set false run h = rw run

  released :
      (s : cache.Store) (b b' : Bitmap) (file : Inode) (i cnt : ℕ)
      → HasRoom b'
      → IsReady (some file)
      → IsAllocated b cnt (some i) b'
      → (b'' : Bitmap) × (s' : cache.Store) × (free_map_release cache s
            (record { free_map = b'; free_map_file = some file })
            i
            cnt
          ≡ some (record { free_map = b''; free_map_file = some file }, s'))
        × SameBits b b''
  unfolding free_map_release save_release
  released s b b' file i cnt room ready (fits, g, m) =
      let fits' : i + cnt ≤ b'.bit_cnt = omega (arith, fits, m.range_size) in
      let (b'', clear, n) = bitmap_set_multiple-IsSetRange b' i cnt false room fits' in
      let (ok, s', run) = bitmap_write-total s b'' file ready in
      (b'', s', rw (bitmap_all-group b' i cnt room fits' m.inside, clear, run), SameBits-back g m n)

  -- On a bitmap with room and a file of the free map that is ready, sectors that `free_map_allocate`
  -- has answered can be released, and then every sector is as it was before.
  pub free_map_release-free_map_allocate :
      (s : cache.Store) (b : Bitmap) (file : Inode) (cnt : ℕ)
      → HasRoom b
      → IsReady (some file)
      → (o : Option ℕ) × (f' : FreeMap) × (s' : cache.Store) × (free_map_allocate cache s
            (record { free_map = b; free_map_file = some file })
            cnt
          ≡ some (o, f', s'))
        × ((i : ℕ)
            → o ≡ some i
            → (b'' : Bitmap) × (s'' : cache.Store) × (free_map_release cache s' f' i cnt
                ≡ some (record { free_map = b''; free_map_file = some file }, s''))
              × SameBits b b'')
  free_map_release-free_map_allocate s b file cnt r ready =
      let (o, b', s', run, room, done) =
        free_map_allocate-IsAllocated s (record { free_map = b; free_map_file = some file }) cnt r
          ready in
      (
        o,
        record { free_map = b'; free_map_file = some file },
        s',
        run,
        λ i e. released s' b b' file i cnt room ready (subst (λ o. IsAllocated b cnt o b') e done),
      )
