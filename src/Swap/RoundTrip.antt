-- ===== src/Swap/RoundTrip.antt =====
-- src/vm/swap.c: pages that go out to swap and come back.
use cs.Common.{
  ℕ, zero, suc, ◌+◌, ◌-◌, ◌*◌, ◌/◌, ◌%◌, ◌^◌, ◌<◌, ◌≤◌, ◌≡◌, ◌≢◌, refl, ap, sym, ◌∙◌, inl, inr,
  some, length, get_or, set, leb, ltb, true, ◌==◌, if◌then◌else◌, update, Bool-cases, lt→ltb, arith,
  length-set, get_or-set_ne, get_or-set_self,
}
use cs.Swap.{
  Swap, block_sector_size, sectors_per_page, sector_of, check_sectors, write_sectors, write_to_swap,
  free_slot, read_sectors, read_from_swap,
}

-- Open slots are on the device and no two entries of the stack are the same slot.
pub record IsSwap (t : Swap) : Type 0 where
  pub table_size : length t.swap_table ≡ t.swap_slots
  pub at_most : t.swap_open ≤ t.swap_slots
  pub slots_fit : t.swap_slots * sectors_per_page ≤ 2 ^ 32
  pub fits_device : t.swap_slots * sectors_per_page ≤ t.disk_size
  pub on_device : (i : ℕ) → i < t.swap_open → get_or t.swap_table i 0 < t.swap_slots
  pub distinct :
      (i j : ℕ)
      → i < t.swap_open
      → j < t.swap_open
      → get_or t.swap_table i 0 ≡ get_or t.swap_table j 0
      → i ≡ j

-- Slot `s` is in use: the stack does not hold it.
abbrev pub InUse : Swap → ℕ → Type 0
InUse t s = (i : ℕ) → i < t.swap_open → get_or t.swap_table i 0 ≢ s

other : (a b : ℕ → ℕ) (k n : ℕ) → n ≢ k → (if k == n then b else a) ≡ a
other a b k n h = ground arith

-- The sectors of a slot that is on the device are.
check_sectors-true :
    (left size slot i : ℕ)
    → slot * sectors_per_page + 8 ≤ 2 ^ 32
    → slot * sectors_per_page + 8 ≤ size
    → i + left ≡ 8
    → check_sectors left size slot i ≡ true
unfolding check_sectors sector_of
check_sectors-true zero size slot i f d s = refl
check_sectors-true (suc left) size slot i f d s =
    let here : ltb (sector_of slot i) size ≡ true = ground arith in
    rw here (check_sectors-true left size slot (suc i) f d (omega arith))

write_sectors-kept :
    (left : ℕ) (disk : ℕ → ℕ → ℕ) (slot : ℕ) (page : ℕ → ℕ) (i k o : ℕ)
    → ((j : ℕ) → i ≤ j → j < i + left → sector_of slot j ≢ k)
    → write_sectors left disk slot page i k o ≡ disk k o
unfolding write_sectors
write_sectors-kept zero disk slot page i k o h = refl
write_sectors-kept (suc left) disk slot page i k o h =
    let ne : sector_of slot i ≢ k = h i (omega arith) (omega arith) in
    write_sectors-kept left (update disk (sector_of slot i) (λ o. page (i * block_sector_size + o)))
      slot page (suc i) k o (λ j p q. h j (omega arith) (omega arith))
    ∙ ap (λ (f : ℕ → ℕ). f o)
        (other (disk k) (λ o. page (i * block_sector_size + o)) k (sector_of slot i) ne)

sector_ne :
    (slot i j : ℕ)
    → slot * sectors_per_page + 8 ≤ 2 ^ 32
    → i < 8
    → j < 8
    → i ≢ j
    → sector_of slot j ≢ sector_of slot i
unfolding sector_of
sector_ne slot i j f h k n = λ e. n (omega arith)

write_sectors-written :
    (left : ℕ) (disk : ℕ → ℕ → ℕ) (slot : ℕ) (page : ℕ → ℕ) (i j o : ℕ)
    → slot * sectors_per_page + 8 ≤ 2 ^ 32
    → i + left ≡ 8
    → i ≤ j
    → j < 8
    → write_sectors left disk slot page i (sector_of slot j) o ≡ page (j * block_sector_size + o)
unfolding write_sectors
write_sectors-written zero disk slot page i j o f s p q = absurd (omega arith)
write_sectors-written (suc left) disk slot page i j o f s p q = elim (Bool-cases (i == j)) [
  | inl e ↦
      let here : i ≡ j = ground arith in
      write_sectors-kept left
        (update disk (sector_of slot i) (λ o. page (i * block_sector_size + o))) slot page (suc i)
        (sector_of slot j) o (λ n a b. sector_ne slot j n f q (omega arith) (λ x. omega arith))
      ∙ (let same : (sector_of slot j == sector_of slot i) ≡ true = ground arith in
          rw same (ap (λ n. page (n * block_sector_size + o)) here))
  | inr e ↦
      write_sectors-written left
        (update disk (sector_of slot i) (λ o. page (i * block_sector_size + o))) slot page (suc i) j
        o f (omega arith) (ground arith) q
]

read_sectors-kept :
    (left : ℕ) (disk : ℕ → ℕ → ℕ) (slot : ℕ) (page : ℕ → ℕ) (i p : ℕ)
    → p / block_sector_size < i
    → read_sectors left disk slot page i p ≡ page p
unfolding read_sectors
read_sectors-kept zero disk slot page i p h = refl
read_sectors-kept (suc left) disk slot page i p h =
    read_sectors-kept left disk slot _ (suc i) p (omega arith) ∙ ground arith

read_sectors-read :
    (left : ℕ) (disk : ℕ → ℕ → ℕ) (slot : ℕ) (page : ℕ → ℕ) (i p : ℕ)
    → i ≤ p / block_sector_size
    → p / block_sector_size < i + left
    → read_sectors left disk slot page i p
      ≡ disk (sector_of slot (p / block_sector_size)) (p % block_sector_size)
unfolding read_sectors
read_sectors-read zero disk slot page i p a b = absurd (omega arith)
read_sectors-read (suc left) disk slot page i p a b =
    elim (Bool-cases (p / block_sector_size == i)) [
      | inl e ↦
          let here : p / block_sector_size ≡ i = ground arith in
          read_sectors-kept left disk slot _ (suc i) p (omega arith)
          ∙ rw e (ap (λ n. disk (sector_of slot n) (p % block_sector_size)) (sym here))
      | inr e ↦ read_sectors-read left disk slot _ (suc i) p (ground arith) (omega arith)
    ]

-- The state after a page has gone out to a slot.
pub record IsSwappedOut (t t' : Swap) (page : ℕ → ℕ) (slot : ℕ) : Type 0 where
  pub was_open : (i : ℕ) × (i < t.swap_open) × (get_or t.swap_table i 0 ≡ slot)
  pub on_device : slot < t.swap_slots
  pub still_swap : IsSwap t'
  pub in_use : InUse t' slot
  pub others : (s : ℕ) → InUse t s → InUse t' s
  pub one_less : suc t'.swap_open ≡ t.swap_open
  pub other_sectors :
      (s i o : ℕ)
      → s < t.swap_slots
      → s ≢ slot
      → i < sectors_per_page
      → t'.disk (sector_of s i) o ≡ t.disk (sector_of s i) o
  pub read_back :
      (fresh : ℕ → ℕ)
      → (p : ℕ → ℕ) × (t'' : Swap) × (read_from_swap t' fresh slot ≡ some (p, t''))
        × ((n : ℕ) → n < 4096 → p n ≡ page n)
        × (t''.swap_open ≡ t.swap_open)
        × ((i : ℕ) × (i < t''.swap_open) × (get_or t''.swap_table i 0 ≡ slot))

slots_apart :
    (s slot i j n : ℕ)
    → n * sectors_per_page ≤ 2 ^ 32
    → s < n
    → slot < n
    → s ≢ slot
    → i < sectors_per_page
    → j < sectors_per_page
    → sector_of slot j ≢ sector_of s i
unfolding sector_of
slots_apart s slot i j n f a b ne c d = λ e. ne (omega arith)

read_back_page :
    (disk : ℕ → ℕ → ℕ) (slot : ℕ) (page fresh : ℕ → ℕ) (n : ℕ)
    → slot * sectors_per_page + 8 ≤ 2 ^ 32
    → n < 4096
    → read_sectors sectors_per_page (write_sectors sectors_per_page disk slot page 0) slot fresh 0 n
      ≡ page n
read_back_page disk slot page fresh n f h =
    read_sectors-read 8 (write_sectors 8 disk slot page 0) slot fresh 0 n (omega arith)
      (omega arith)
    ∙ (write_sectors-written 8 disk slot page 0 (n / block_sector_size) (n % block_sector_size) f
          refl (omega arith) (omega arith)
        ∙ ap page (omega arith))

-- On a valid swap table with a slot open, `write_to_swap` returns a slot of the device that was open
-- and is in use afterwards. The table stays valid, slots in use stay in use, and the sectors of the other slots keep their
-- bytes. A `read_from_swap` of the slot then returns the page that was written, whatever the memory
-- held, the slot is open again, and the number of open slots is as before.
pub write_to_swap-IsSwappedOut :
    (t : Swap) (page : ℕ → ℕ)
    → IsSwap t
    → 0 < t.swap_open
    → (slot : ℕ) × (t' : Swap) × (write_to_swap t page ≡ some (slot, t'))
      × IsSwappedOut t t' page slot
unfolding write_to_swap read_from_swap free_slot
write_to_swap-IsSwappedOut t page h o =
    let top = t.swap_open - 1 in
    let slot = get_or t.swap_table top 0 in
    let below = h.on_device top (omega arith) in
    let fit : slot * sectors_per_page + 8 ≤ 2 ^ 32 = omega (arith, h.slots_fit) in
    let there : check_sectors sectors_per_page t.disk_size slot 0 ≡ true =
      check_sectors-true 8 t.disk_size slot 0 fit (omega (arith, h.fits_device)) refl in
    let table = set t.swap_table top 0xBADC0DE5 in
    let same : (i : ℕ) → i < top → get_or table i 0 ≡ get_or t.swap_table i 0 =
      λ i l. get_or-set_ne t.swap_table top i 0xBADC0DE5 0 (λ e. omega arith) in
    (
      slot,
      record {
        disk = write_sectors sectors_per_page t.disk slot page 0;
        disk_size = t.disk_size;
        swap_table = table;
        swap_slots = t.swap_slots;
        swap_open = top;
      },
      rw (lt→ltb 0 t.swap_open o, there) refl,
      record {
        was_open = (top, omega arith, refl);
        on_device = below;
        still_swap = record {
          table_size = length-set t.swap_table top 0xBADC0DE5 ∙ h.table_size;
          at_most = omega (arith, h.at_most);
          slots_fit = h.slots_fit;
          fits_device = h.fits_device;
          on_device = λ i l. omega (arith, same i l, h.on_device i (omega arith));
          distinct = λ i j l m e.
              h.distinct i j (omega arith) (omega arith) (sym (same i l) ∙ (e ∙ same j m));
        };
        in_use = λ i l e.
            let again : i ≡ top =
              h.distinct i top (omega arith) (omega arith) (sym (same i l) ∙ e) in
            omega arith;
        others = λ s u i l e. u i (omega arith) (sym (same i l) ∙ e);
        one_less = omega arith;
        other_sectors = λ s i k a ne b.
            write_sectors-kept 8 t.disk slot page 0 (sector_of s i) k
              (λ j p q. slots_apart s slot i j t.swap_slots h.slots_fit a below ne b (omega arith));
        read_back = λ fresh.
            let room : leb (suc top) t.swap_slots ≡ true = ground (arith, h.at_most) in
            (
              read_sectors sectors_per_page (write_sectors sectors_per_page t.disk slot page 0) slot
                  fresh 0,
              record {
                disk = write_sectors sectors_per_page t.disk slot page 0;
                disk_size = t.disk_size;
                swap_table = set table top slot;
                swap_slots = t.swap_slots;
                swap_open = suc top;
              },
              rw (there, room) refl,
              λ n l. read_back_page t.disk slot page fresh n fit l,
              omega arith,
              (
                top,
                omega arith,
                get_or-set_self table top slot 0 (
                    omega (arith, length-set t.swap_table top 0xBADC0DE5, h.table_size, h.at_most)),
              ),
            );
      },
    )
