-- ===== src/Tests/Buffers.antt =====
-- The theorems about src/lib/string.c, src/devices/intq.c and src/vm/swap.c at concrete inputs.
use cs.Common.{
  ℕ, zero, suc, get_or, ◌+◌, ◌<◌, ◌≡◌, refl, inr, false, [], ◌∷◌, some, ◌==◌, if◌then◌else◌, arith,
}
use cs.Strings.{Memory, memmove, strlcpy, strlen}
use cs.Strings.Blocks.{IsCopy, memmove-IsCopy}
use cs.Strings.Lengths.{IsString, strlen_lem}
use cs.Strings.Copies.{IsTruncated, strlcpy-IsTruncated}
use cs.Intq.{Intq, intq_getc, intq_putc}
use cs.Intq.Order.{IsRing, IsPut, IsGot, intq_putc-IsPut, intq_getc-IsGot}
use cs.Swap.{Swap, write_to_swap}
use cs.Swap.RoundTrip.{IsSwap, IsSwappedOut, write_to_swap-IsSwappedOut}

-- The string "abc" at address 100.
abbrev memory : Memory
memory a = if a == 100 then 97 else if a == 101 then 98 else if a == 102 then 99 else 0

abc-IsString : IsString memory 100 3
abc-IsString = record { before_end = λ i l. ground arith; at_end = refl }

memmove-IsCopy_example :
    (m' : Memory) × (memmove memory 101 100 3 ≡ some (101, m')) × IsCopy memory m' 101 100 3
memmove-IsCopy_example = memmove-IsCopy memory 101 100 3 (λ e. omega arith) (λ e. omega arith)

strlen_lem_example : strlen 4 memory 100 ≡ some 3
strlen_lem_example = strlen_lem 3 4 memory 100 (λ e. omega arith) abc-IsString (omega arith)

strlcpy-IsTruncated_example :
    (m' : Memory) × (strlcpy 4 memory 200 100 3 ≡ some (3, m')) × IsTruncated memory m' 200 100 2
strlcpy-IsTruncated_example =
    strlcpy-IsTruncated 3 4 memory 200 100 3 (λ e. omega arith) (λ e. omega arith) (omega arith)
      abc-IsString (inr (omega arith)) (omega arith)

-- A ring that holds three bytes across its end, with a thread that waits for room.
abbrev ring : Intq
ring = record { not_full = 2; not_empty = 0; buf = λ i. i + 10; head = 1; tail = 62 }

ring-IsRing : IsRing ring
ring-IsRing = record { head_inside = omega arith; tail_inside = omega arith }

intq_putc-IsPut_example : IsPut false 1 ring 77 (intq_putc false 1 ring 77)
intq_putc-IsPut_example = intq_putc-IsPut false 1 ring 77 ring-IsRing

intq_getc-IsGot_example : IsGot false 1 ring (intq_getc false 1 ring)
intq_getc-IsGot_example = intq_getc-IsGot false 1 ring ring-IsRing

-- Slot 1 of three slots is in use, on a device of 26 sectors.
abbrev swap : Swap
swap = record {
  disk = λ k o. 0;
  disk_size = 26;
  swap_table = 0 ∷ 2 ∷ 9 ∷ [];
  swap_slots = 3;
  swap_open = 2;
}

slot_at : (i : ℕ) → i < 2 → get_or (0 ∷ 2 ∷ 9 ∷ []) i 0 ≡ i + i
slot_at zero l = refl
slot_at (suc zero) l = refl
slot_at (suc (suc i)) l = absurd (omega arith)

swap-IsSwap : IsSwap swap
swap-IsSwap = record {
  table_size = refl;
  at_most = omega arith;
  slots_fit = omega arith;
  fits_device = omega arith;
  on_device = λ i l. omega (arith, slot_at i l);
  distinct = λ i j l m e. omega (arith, slot_at i l, slot_at j m);
}

write_to_swap-IsSwappedOut_example :
    (slot : ℕ) × (t' : Swap) × (write_to_swap swap (λ n. n) ≡ some (slot, t'))
    × IsSwappedOut swap t' (λ n. n) slot
write_to_swap-IsSwappedOut_example =
    write_to_swap-IsSwappedOut swap (λ n. n) swap-IsSwap (omega arith)
