-- ===== src/Bitmap.antt =====
-- src/lib/kernel/bitmap.c: arrays of bits in 32-bit words (`unsigned long` on the 80x86).
-- `none` is a failed `ASSERT` or an access outside the words that were allocated. A loop over
-- `i < cnt` recurses on the iterations that are left and carries `i`.
pub mod Single
pub mod Scan
use Prim.Native.Nat.{bit_and, bit_or, bit_xor}
use cs.Common.{
  ℕ, zero, suc, ◌+◌, ◌-◌, ◌*◌, ◌/◌, ◌%◌, ◌^◌, Bool, true, false, not, Option, none, some, List,
  length, get_or, set, replicate, ltb, leb, ◌==◌, if◌then◌else◌, ◌>>=◌, ◌>>◌, assert,
}

-- `sizeof (elem_type)` and `ELEM_BITS`.
abbrev pub elem_size : ℕ
elem_size = 4

abbrev pub elem_bits : ℕ
elem_bits = 32

pub record Bitmap : Type 0 where
  pub bit_cnt : ℕ
  pub bits : List ℕ

unfoldable pub elem_idx : ℕ → ℕ
elem_idx bit_idx = bit_idx / elem_bits

unfoldable pub bit_mask : ℕ → ℕ
bit_mask bit_idx = 2 ^ (bit_idx % elem_bits)

-- `DIV_ROUND_UP (bit_cnt, ELEM_BITS)`.
unfoldable pub elem_cnt : ℕ → ℕ
elem_cnt bit_cnt = (bit_cnt + elem_bits - 1) / elem_bits

unfoldable pub byte_cnt : ℕ → ℕ
byte_cnt bit_cnt = elem_size * elem_cnt bit_cnt

unfoldable pub last_mask : Bitmap → ℕ
last_mask b =
    let last_bits = b.bit_cnt % elem_bits in
    if last_bits == 0 then 2 ^ 32 - 1 else 2 ^ last_bits - 1

-- The complement of a word.
unfoldable pub complement : ℕ → ℕ
complement w = 2 ^ 32 - 1 - w

-- A read-modify-write instruction on the word that holds a bit.
unfoldable pub modify : (ℕ → ℕ) → Bitmap → ℕ → Option Bitmap
modify f b idx =
    if ltb idx (length b.bits)
    then some (record { bit_cnt = b.bit_cnt; bits = set b.bits idx (f (get_or b.bits idx 0)) })
    else none

unfoldable pub bitmap_mark : Bitmap → ℕ → Option Bitmap
bitmap_mark b bit_idx = modify (λ w. bit_or w (bit_mask bit_idx)) b (elem_idx bit_idx)

unfoldable pub bitmap_reset : Bitmap → ℕ → Option Bitmap
bitmap_reset b bit_idx =
    modify (λ w. bit_and w (complement (bit_mask bit_idx))) b (elem_idx bit_idx)

unfoldable pub bitmap_flip : Bitmap → ℕ → Option Bitmap
bitmap_flip b bit_idx = modify (λ w. bit_xor w (bit_mask bit_idx)) b (elem_idx bit_idx)

unfoldable pub bitmap_size : Bitmap → ℕ
bitmap_size b = b.bit_cnt

unfoldable pub bitmap_set : Bitmap → ℕ → Bool → Option Bitmap
bitmap_set b idx value =
    assert (ltb idx b.bit_cnt) >> (if value then bitmap_mark b idx else bitmap_reset b idx)

unfoldable pub load_word : Bitmap → ℕ → Option ℕ
load_word b idx = if ltb idx (length b.bits) then some (get_or b.bits idx 0) else none

unfoldable pub bitmap_test : Bitmap → ℕ → Option Bool
bitmap_test b idx =
    assert (ltb idx b.bit_cnt)
    >> (load_word b (elem_idx idx) >>= λ w. some (not (bit_and w (bit_mask idx) == 0)))

unfoldable pub set_loop : ℕ → Bitmap → ℕ → Bool → Option Bitmap
set_loop zero b at value = some b
set_loop (suc left) b at value = bitmap_set b at value >>= λ b. set_loop left b (suc at) value

unfoldable pub bitmap_set_multiple : Bitmap → ℕ → ℕ → Bool → Option Bitmap
bitmap_set_multiple b start cnt value =
    assert (leb start b.bit_cnt)
    >> (assert (leb (start + cnt) b.bit_cnt) >> set_loop cnt b start value)

unfoldable pub bitmap_set_all : Bitmap → Bool → Option Bitmap
bitmap_set_all b value = bitmap_set_multiple b 0 (bitmap_size b) value

-- `bitmap_create` when `malloc` succeeds and returns the words `fresh`.
unfoldable pub bitmap_create : ℕ → List ℕ → Option Bitmap
bitmap_create bit_cnt fresh = bitmap_set_all (record { bit_cnt = bit_cnt; bits = fresh }) false

abbrev pub same : Bool → Bool → Bool
same true v = v
same false v = not v

unfoldable pub count_loop : ℕ → Bitmap → ℕ → Bool → ℕ → Option ℕ
count_loop zero b at value value_cnt = some value_cnt
count_loop (suc left) b at value value_cnt = bitmap_test b at >>= λ t.
    count_loop left b (suc at) value (if same t value then suc value_cnt else value_cnt)

unfoldable pub bitmap_count : Bitmap → ℕ → ℕ → Bool → Option ℕ
bitmap_count b start cnt value =
    assert (leb start b.bit_cnt)
    >> (assert (leb (start + cnt) b.bit_cnt) >> count_loop cnt b start value 0)

unfoldable pub contains_loop : ℕ → Bitmap → ℕ → Bool → Option Bool
contains_loop zero b at value = some false
contains_loop (suc left) b at value =
    let rest = contains_loop left b (suc at) value in
    bitmap_test b at >>= λ t. if same t value then some true else rest

unfoldable pub bitmap_contains : Bitmap → ℕ → ℕ → Bool → Option Bool
bitmap_contains b start cnt value =
    assert (leb start b.bit_cnt)
    >> (assert (leb (start + cnt) b.bit_cnt) >> contains_loop cnt b start value)

unfoldable pub bitmap_any : Bitmap → ℕ → ℕ → Option Bool
bitmap_any b start cnt = bitmap_contains b start cnt true

unfoldable pub bitmap_none : Bitmap → ℕ → ℕ → Option Bool
bitmap_none b start cnt = bitmap_contains b start cnt true >>= λ c. some (not c)

unfoldable pub bitmap_all : Bitmap → ℕ → ℕ → Option Bool
bitmap_all b start cnt = bitmap_contains b start cnt false >>= λ c. some (not c)

-- The index that `bitmap_scan` finds; `BITMAP_ERROR` is `none`.
unfoldable pub scan_loop : ℕ → Bitmap → ℕ → ℕ → Bool → Option (Option ℕ)
scan_loop zero b i cnt value = some none
scan_loop (suc left) b i cnt value =
    let rest = scan_loop left b (suc i) cnt value in
    bitmap_contains b i cnt (not value) >>= λ c. if c then rest else some (some i)

-- `i <= last` holds for `last + 1 - start` iterations.
unfoldable pub bitmap_scan : Bitmap → ℕ → ℕ → Bool → Option (Option ℕ)
bitmap_scan b start cnt value =
    assert (leb start b.bit_cnt)
    >> (if leb cnt b.bit_cnt
        then scan_loop (b.bit_cnt - cnt + 1 - start) b start cnt value
        else some none)

-- Flips the group that a scan found.
unfoldable pub flip_found : Bitmap → ℕ → Bool → Option ℕ → Option (Option ℕ × Bitmap)
flip_found b cnt value none = some (none, b)
flip_found b cnt value (some idx) =
    bitmap_set_multiple b idx cnt (not value) >>= λ b. some (some idx, b)

unfoldable pub bitmap_scan_and_flip : Bitmap → ℕ → ℕ → Bool → Option (Option ℕ × Bitmap)
bitmap_scan_and_flip b start cnt value =
    bitmap_scan b start cnt value >>= λ found. flip_found b cnt value found
