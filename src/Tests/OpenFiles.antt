-- ===== src/Tests/OpenFiles.antt =====
-- The theorems about src/filesys/free-map.c, inode_create and src/filesys/file.c on a block cache that is
-- an array of sectors.
use cs.Common.{ℕ, ◌+◌, ◌<◌, ◌≡◌, refl, true, false, Bool, Option, some, [], ◌∷◌, arith}
use cs.Bitmap.{Bitmap, elem_cnt, elem_idx}
use cs.Common.Bits.{bit}
use cs.Bitmap.Single.{HasRoom, bit_at}
use cs.FreeMap.{FreeMap, free_map_allocate, free_map_release, inode_create}
use cs.FreeMap.Allocation.{SameBits, free_map_release-free_map_allocate}
use cs.FreeMap.Creation.{IsCreated, inode_create-IsCreated}
use cs.File.{File, file_seek, file_tell, file_read, file_write}
use cs.File.Sequences.{file_read-file_write}
use cs.Tests.Files.{Sectors, sectors, file, one_open}

-- Sectors 0 and 1 of 40 are in use.
abbrev map : Bitmap
map = record { bit_cnt = 40; bits = 3 ∷ (0 ∷ []) }

abbrev empty_disk : Sectors
empty_disk k o = 0

map-HasRoom : HasRoom map
unfolding elem_cnt
map-HasRoom = omega arith

one_used : bit_at map 1 ≡ true
unfolding bit_at elem_idx bit
one_used = refl

free_map_release-free_map_allocate_example :
    (o : Option ℕ) × (f' : FreeMap) × (s' : Sectors) × (free_map_allocate sectors empty_disk
        (record { free_map = map; free_map_file = some file })
        2
      ≡ some (o, f', s'))
    × ((i : ℕ)
        → o ≡ some i
        → (b'' : Bitmap) × (s'' : Sectors) × (free_map_release sectors s' f' i 2
            ≡ some (record { free_map = b''; free_map_file = some file }, s''))
          × SameBits map b'')
free_map_release-free_map_allocate_example =
    free_map_release-free_map_allocate sectors empty_disk map file 2 map-HasRoom (omega arith, refl)

inode_create-IsCreated_example :
    (ok : Bool) × (b' : Bitmap) × (s' : Sectors) × (inode_create sectors true empty_disk
        (record { free_map = map; free_map_file = some file })
        1
        320
      ≡ some (ok, record { free_map = b'; free_map_file = some file }, s'))
    × IsCreated sectors map 1 320 ok b' s'
inode_create-IsCreated_example =
    inode_create-IsCreated sectors empty_disk (record { free_map = map; free_map_file = some file })
      1 320 map-HasRoom (omega arith, refl) (omega arith) one_used

file_read-file_write_example :
    (s₁ s₂ : Sectors) × (f₁ f₂ f₃ : File) × (b : ℕ → ℕ) × (file_write sectors empty_disk one_open
        (record { inode = 60; at = 100; deny_write = false })
        (λ j. 7)
        500
      ≡ some (500, s₁, f₁))
    × (file_write sectors s₁ one_open f₁ (λ j. 8) 300 ≡ some (300, s₂, f₂))
    × (file_read sectors s₂ one_open (file_seek f₂ 100) (λ j. 0) 800 ≡ some (800, b, f₃))
    × ((j : ℕ) → j < 500 → b j ≡ 7)
    × ((j : ℕ) → j < 300 → b (500 + j) ≡ 8)
    × (file_tell f₃ ≡ file_tell f₂)
file_read-file_write_example =
    file_read-file_write sectors one_open empty_disk
      (record { inode = 60; at = 100; deny_write = false }) (λ j. 7) (λ j. 8) (λ j. 0) 500 300
      (omega arith) refl (omega arith)
