-- ===== src/Tests/Directories.antt =====
-- The theorems about src/filesys/directory.c on a block cache that is an array of sectors.
use cs.Common.{ℕ, ◌≡◌, refl, inl, true, Bool, some, arith, ◌==◌, if◌then◌else◌}
use cs.Strings.{Memory}
use cs.Directory.{lookup, dir_add, get_sector}
use cs.Directory.Lookup.{IsLaidOut, OnlyEntry}
use cs.Directory.Adding.{IsAdded, dir_add-IsAdded}
use cs.Directory.RoundTrip.{lookup-dir_add}
use cs.Tests.Files.{Sectors, sectors, file}

-- The name "a" at 100, and the local entry at 200; on the device no slot is in use.
abbrev memory : Memory
memory a = if a == 100 then 97 else 0

abbrev name : ℕ → ℕ
name i = if i == 0 then 97 else 0

memory-IsLaidOut : IsLaidOut name 1 100 200 memory
memory-IsLaidOut = record {
  name_exists = λ z. omega arith;
  entry_exists = λ z. omega arith;
  short = omega arith;
  bytes = λ i l. ground arith;
  before_end = λ i l. ground arith;
  at_end = refl;
  apart = inl (omega arith);
}

abbrev empty_disk : Sectors
empty_disk k o = 0

dir_add-IsAdded_example :
    (ok : Bool) × (m' : Memory) × (s' : Sectors) × (dir_add sectors 51 5 empty_disk file 100 200 7
        memory
      ≡ some (ok, m', s'))
    × OnlyEntry 200 memory m'
    × IsAdded sectors empty_disk file 200 (omega arith) name 1 7 refl ok s'
dir_add-IsAdded_example =
    dir_add-IsAdded sectors empty_disk file 200 (omega arith) name 1 7 refl 5 100 51 memory
      memory-IsLaidOut (omega arith) (omega arith) (omega arith)

lookup-dir_add_example :
    (ok : Bool) × (m' : Memory) × (s' : Sectors) × (dir_add sectors 51 5 empty_disk file 100 200 7
        memory
      ≡ some (ok, m', s'))
    × (ok ≡ true
        → (ofs : ℕ) × (m'' : Memory) × (lookup sectors 51 5 s' file 100 200 m'
            ≡ some (some ofs, m''))
          × (get_sector m'' 200 ≡ 7))
lookup-dir_add_example =
    lookup-dir_add sectors empty_disk file 200 (omega arith) name 1 7 refl 5 100 51 memory
      memory-IsLaidOut (omega arith) (omega arith) (omega arith) (omega arith)
