-- ===== src/FixedPoint.antt =====
-- src/threads/fixed-point.c: 17.14 fixed-point arithmetic on `int32_t`.
-- An `int32_t` is the integer that it stands for. What does not fit wraps round in two's
-- complement, as in the compiled code. A division that traps is `none`.
pub mod Rounding
pub mod Product
use cs.Common.{
  ℕ, suc, ◌+◌, ◌-◌, ◌*◌, ◌/◌, ◌%◌, ◌^◌, ◌<◌, ◌≤◌, Bool, true, false, ◌||◌, Option, none, some, ltb,
  ◌==◌, if◌then◌else◌,
}
use cs.Common.Int.{ℤ, pos, negsuc, pos_part, neg_part, sub_ℕ, ◌+ℤ◌, ◌-ℤ◌, ◌*ℤ◌, ◌≤ℤ◌, ltb_ℤ}

-- The low 32 bits of an integer, and the `int32_t` that a pattern of 32 bits stands for.
abbrev pub low32 : ℤ → ℕ
low32 (pos n) = n % 2 ^ 32
low32 (negsuc n) = 2 ^ 32 - 1 - n % 2 ^ 32

abbrev pub signed32 : ℕ → ℤ
signed32 w = if ltb w (2 ^ 31) then pos w else negsuc (2 ^ 32 - w - 1)

unfoldable pub wrap32 : ℤ → ℤ
wrap32 z = signed32 (low32 z)

-- The range of `int32_t`.
abbrev pub IsInt32 : ℤ → Type 0
IsInt32 z = (pos_part z < 2 ^ 31) × (neg_part z ≤ 2 ^ 31)

-- C's `/` on signed operands: the quotient of the magnitudes, with the sign put on.
abbrev pub neg : ℕ → ℤ
neg n = sub_ℕ 0 n

abbrev pub tdiv : ℤ → ℤ → ℤ
tdiv (pos a) (pos b) = pos (a / b)
tdiv (pos a) (negsuc b) = neg (a / suc b)
tdiv (negsuc a) (pos b) = neg (suc a / b)
tdiv (negsuc a) (negsuc b) = pos (suc a / suc b)

abbrev pub is_zero : ℤ → Bool
is_zero z = pos_part z + neg_part z == 0

-- `fp_float` is `int32_t`.
abbrev pub FpFloat : Type 0
FpFloat = ℤ

-- 1 << 14
abbrev pub one_fp : ℤ
one_fp = pos 16384

unfoldable pub int_to_fp : ℤ → FpFloat
unfolding wrap32 ◌*ℤ◌
int_to_fp i = wrap32 (i *ℤ one_fp)

unfoldable pub fp_to_int : FpFloat → ℤ
unfolding wrap32 ◌+ℤ◌ ◌-ℤ◌
fp_to_int f =
    if ltb_ℤ (pos 0) f
    then tdiv (wrap32 (f +ℤ pos 8192)) one_fp
    else if ltb_ℤ f (pos 0)
    then tdiv (wrap32 (f -ℤ pos 8192)) one_fp
    else pos 0

unfoldable pub fp_add : FpFloat → FpFloat → FpFloat
unfolding wrap32 ◌+ℤ◌
fp_add a b = wrap32 (a +ℤ b)

unfoldable pub fp_sub : FpFloat → FpFloat → FpFloat
unfolding wrap32 ◌-ℤ◌
fp_sub a b = wrap32 (a -ℤ b)

unfoldable pub fp_add_int : FpFloat → ℤ → FpFloat
unfolding fp_add int_to_fp
fp_add_int a i = fp_add a (int_to_fp i)

unfoldable pub fp_sub_int : FpFloat → ℤ → FpFloat
unfolding fp_sub int_to_fp
fp_sub_int a i = fp_sub a (int_to_fp i)

-- The product is taken in 64 bits, where it fits, and the quotient is cut to 32 on return.
unfoldable pub fp_mul : FpFloat → FpFloat → FpFloat
unfolding wrap32 ◌*ℤ◌
fp_mul a b = wrap32 (tdiv (a *ℤ b) one_fp)

-- A zero divisor traps. The 64-bit quotient is cut to 32 bits on return.
unfoldable pub fp_div : FpFloat → FpFloat → Option FpFloat
unfolding wrap32 ◌*ℤ◌
fp_div a b = if is_zero b then none else some (wrap32 (tdiv (a *ℤ one_fp) b))

unfoldable pub fp_mul_int : FpFloat → ℤ → FpFloat
unfolding wrap32 ◌*ℤ◌
fp_mul_int a i = wrap32 (a *ℤ i)

-- A 32-bit division: it traps on a zero divisor and where the quotient, 2 ^ 31, does not fit.
unfoldable pub fp_div_int : FpFloat → ℤ → Option FpFloat
unfolding ◌*ℤ◌
fp_div_int a i =
    if is_zero i || ltb (2 ^ 31 - 1) (pos_part (tdiv a i)) then none else some (tdiv a i)
