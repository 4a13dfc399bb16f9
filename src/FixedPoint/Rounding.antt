-- ===== src/FixedPoint/Rounding.antt =====
-- src/threads/fixed-point.c: conversion to and from integers.
use cs.Common.{◌+◌, ◌-◌, ◌*◌, ◌^◌, ◌≤◌, ◌<◌, ◌≡◌, arith}
use cs.Common.Int.{ℤ, pos, negsuc, pos_part, neg_part}
use cs.FixedPoint.{FpFloat, int_to_fp, fp_to_int}

int_to_fp_parts :
    (i : ℤ)
    → pos_part i < 2 ^ 17
    → neg_part i ≤ 2 ^ 17
    → (pos_part (int_to_fp i) ≡ pos_part i * 16384) × (neg_part (int_to_fp i) ≡ neg_part i * 16384)
unfolding int_to_fp
int_to_fp_parts (pos n) h k = ground arith
int_to_fp_parts (negsuc n) h k = ground arith

-- An integer of 17 bits and a sign, other than the greatest, goes to fixed point and back unchanged.
pub fp_to_int-int_to_fp :
    (i : ℤ) → pos_part i < 2 ^ 17 - 1 → neg_part i < 2 ^ 17 → fp_to_int (int_to_fp i) ≡ i
unfolding fp_to_int int_to_fp
fp_to_int-int_to_fp (pos n) h k = ground arith
fp_to_int-int_to_fp (negsuc n) h k = ground arith

-- Unless it is within half a unit of the ends of `int32_t`, a fixed-point number is at most half a unit
-- away from the integer that `fp_to_int` gives, on the same side of zero.
pub fp_to_int_nearest :
    (f : FpFloat)
    → pos_part f < 2 ^ 31 - 8192
    → neg_part f ≤ 2 ^ 31 - 8192
    → (2 * pos_part f ≤ 2 * (pos_part (fp_to_int f) * 16384) + 16384)
      × (2 * (pos_part (fp_to_int f) * 16384) ≤ 2 * pos_part f + 16384)
      × (2 * neg_part f ≤ 2 * (neg_part (fp_to_int f) * 16384) + 16384)
      × (2 * (neg_part (fp_to_int f) * 16384) ≤ 2 * neg_part f + 16384)
unfolding fp_to_int
fp_to_int_nearest (pos n) h k = ground arith
fp_to_int_nearest (negsuc n) h k = ground arith
