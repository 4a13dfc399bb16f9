-- ===== src/Swap.antt =====
-- src/vm/swap.c: the stack of open swap slots, and pages on the swap device.
-- `swap_open` is `swap_top + 1`, so that the index -1 of an empty stack is 0. `none` is a panic or
-- a failed `ASSERT`. The device is a function from sectors and offsets to bytes, with its size in
-- sectors; the lock of the table is free whenever an operation asks for it.
pub mod RoundTrip
use cs.Common.{
  ℕ, zero, suc, ◌+◌, ◌-◌, ◌*◌, ◌/◌, ◌%◌, ◌^◌, Bool, true, ◌&&◌, Option, none, some, List, [], ◌∷◌,
  length, get_or, set, ltb, leb, ◌==◌, if◌then◌else◌, ◌>>=◌, ◌>>◌, assert, update,
}

abbrev pub block_sector_size : ℕ
block_sector_size = 512

-- `PGSIZE / BLOCK_SECTOR_SIZE`
abbrev pub sectors_per_page : ℕ
sectors_per_page = 8

pub record Swap : Type 0 where
  pub disk : ℕ → ℕ → ℕ
  pub disk_size : ℕ
  pub swap_table : List ℕ
  pub swap_slots : ℕ
  pub swap_open : ℕ

-- `for (slot = 0; slot < swap_slots; slot++) swap_table[slot] = slot`.
unfoldable pub count_from : ℕ → ℕ → List ℕ
count_from zero slot = []
count_from (suc left) slot = slot ∷ count_from left (suc slot)

-- On a device of `size` sectors, when `malloc` succeeds.
unfoldable pub init_swap_table : (ℕ → ℕ → ℕ) → ℕ → Swap
init_swap_table disk size = record {
  disk = disk;
  disk_size = size;
  swap_table = count_from (size / sectors_per_page) 0;
  swap_slots = size / sectors_per_page;
  swap_open = size / sectors_per_page;
}

-- Sector `i` of a slot, an unsigned 32-bit number.
unfoldable pub sector_of : ℕ → ℕ → ℕ
sector_of slot i = (slot * sectors_per_page + i) % 2 ^ 32

-- `check_sector` of src/devices/block.c, for the sectors of a slot from `i` on: an access past the end
-- of the device panics.
unfoldable pub check_sectors : ℕ → ℕ → ℕ → ℕ → Bool
check_sectors zero size slot i = true
check_sectors (suc left) size slot i =
    ltb (sector_of slot i) size && check_sectors left size slot (suc i)

-- `block_write` of sector `i` of a page, and the loop over the sectors that are left.
unfoldable pub write_sectors : ℕ → (ℕ → ℕ → ℕ) → ℕ → (ℕ → ℕ) → ℕ → ℕ → ℕ → ℕ
write_sectors zero disk slot page i = disk
write_sectors (suc left) disk slot page i =
    write_sectors left (update disk (sector_of slot i) (λ o. page (i * block_sector_size + o))) slot
      page (suc i)

unfoldable pub write_to_swap : Swap → (ℕ → ℕ) → Option (ℕ × Swap)
write_to_swap t page =
    assert (ltb 0 t.swap_open)
    >> (let top = t.swap_open - 1 in
        let slot = get_or t.swap_table top 0 in
        assert (check_sectors sectors_per_page t.disk_size slot 0)
        >> some (
          slot,
          record {
            disk_size = t.disk_size;
            disk = write_sectors sectors_per_page t.disk slot page 0;
            swap_table = set t.swap_table top 0xBADC0DE5;
            swap_slots = t.swap_slots;
            swap_open = top;
          },
        ))

unfoldable pub free_slot : Swap → ℕ → Option Swap
free_slot t slot =
    assert (leb (suc t.swap_open) t.swap_slots)
    >> some (record {
      disk = t.disk;
      disk_size = t.disk_size;
      swap_table = set t.swap_table t.swap_open slot;
      swap_slots = t.swap_slots;
      swap_open = suc t.swap_open;
    })

-- The page after the sectors from `i` on have been read into it.
unfoldable pub read_sectors : ℕ → (ℕ → ℕ → ℕ) → ℕ → (ℕ → ℕ) → ℕ → ℕ → ℕ
read_sectors zero disk slot page i = page
read_sectors (suc left) disk slot page i =
    read_sectors left disk slot
      (λ p.
        if p / block_sector_size == i
        then disk (sector_of slot i) (p % block_sector_size)
        else page p)
      (suc i)

unfoldable pub read_from_swap : Swap → (ℕ → ℕ) → ℕ → Option ((ℕ → ℕ) × Swap)
read_from_swap t page slot =
    assert (check_sectors sectors_per_page t.disk_size slot 0)
    >> (free_slot t slot >>= λ t'. some (read_sectors sectors_per_page t.disk slot page 0, t'))
