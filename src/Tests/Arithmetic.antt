-- ===== src/Tests/Arithmetic.antt =====
-- The theorems about src/threads/fixed-point.c, src/lib/arithmetic.c and src/lib/kernel/bitmap.c at concrete inputs.
use cs.Common.{◌/◌, ℕ, ◌+◌, ◌*◌, ◌≤◌, ◌≡◌, true, false, [], ◌∷◌, Option, some, arith}
use cs.Common.Int.{pos, negsuc, pos_part, neg_part}
use cs.FixedPoint.{fp_to_int, int_to_fp, fp_mul}
use cs.FixedPoint.Rounding.{fp_to_int_nearest}
use cs.FixedPoint.Product.{fp_mul-one_lem}
use cs.Division.{udiv64_short}
use cs.Division.Quotients.{udiv64_short-quotient}
use cs.Bitmap.{Bitmap, elem_cnt, bitmap_scan_and_flip, bitmap_set}
use cs.Bitmap.Single.{HasRoom, IsSetAt, bitmap_set-IsSetAt}
use cs.Bitmap.Scan.{IsFirstGroup, Flipped, bitmap_scan_and_flip-Flipped}

fp_to_int_nearest_example :
    (2 * 24576 ≤ 2 * (pos_part (fp_to_int (pos 24576)) * 16384) + 16384)
    × (2 * (pos_part (fp_to_int (pos 24576)) * 16384) ≤ 2 * 24576 + 16384)
    × (2 * 0 ≤ 2 * (neg_part (fp_to_int (pos 24576)) * 16384) + 16384)
    × (2 * (neg_part (fp_to_int (pos 24576)) * 16384) ≤ 2 * 0 + 16384)
fp_to_int_nearest_example = fp_to_int_nearest (pos 24576) (omega arith) (omega arith)

fp_mul-one_lem_example : fp_mul (int_to_fp (pos 1)) (negsuc 99) ≡ negsuc 99
fp_mul-one_lem_example = fp_mul-one_lem (negsuc 99) (omega arith, omega arith)

-- Bits 0, 1 and 33 of 40 are set.
abbrev some_bits : Bitmap
some_bits = record { bit_cnt = 40; bits = 3 ∷ 2 ∷ [] }

some_bits-HasRoom : HasRoom some_bits
unfolding elem_cnt
some_bits-HasRoom = omega arith

bitmap_set-IsSetAt_example :
    (b' : Bitmap) × (bitmap_set some_bits 35 true ≡ some b') × IsSetAt some_bits b' 35 true
bitmap_set-IsSetAt_example = bitmap_set-IsSetAt some_bits 35 true some_bits-HasRoom (omega arith)

bitmap_scan_and_flip-Flipped_example :
    (o : Option ℕ) × (b' : Bitmap) × (bitmap_scan_and_flip some_bits 0 3 false ≡ some (o, b'))
    × IsFirstGroup some_bits 0 3 false o
    × Flipped some_bits 0 3 false o b'
bitmap_scan_and_flip-Flipped_example =
    bitmap_scan_and_flip-Flipped some_bits 0 3 false some_bits-HasRoom (omega arith)

udiv64_short-quotient_example : udiv64_short 1000000000007 1000 ≡ some (1000000000007 / 1000)
udiv64_short-quotient_example =
    udiv64_short-quotient 1000000000007 1000 (omega arith) (omega arith) (omega arith)
