-- ===== src/FixedPoint/Product.antt =====
-- src/threads/fixed-point.c: products and quotients.
use cs.Common.{◌≡◌, arith}
use cs.Common.Int.{pos, negsuc}
use cs.FixedPoint.{FpFloat, IsInt32, int_to_fp, fp_mul}

-- The fixed-point number 1 is neutral for `fp_mul`.
pub fp_mul-one_lem : (x : FpFloat) → IsInt32 x → fp_mul (int_to_fp (pos 1)) x ≡ x
unfolding fp_mul int_to_fp
fp_mul-one_lem (pos n) h = ground arith
fp_mul-one_lem (negsuc n) h = ground arith

pub fp_mul_comm : (x y : FpFloat) → fp_mul x y ≡ fp_mul y x
unfolding fp_mul
fp_mul_comm (pos a) (pos b) = ground arith
fp_mul_comm (pos a) (negsuc b) = ground arith
fp_mul_comm (negsuc a) (pos b) = ground arith
fp_mul_comm (negsuc a) (negsuc b) = ground arith
