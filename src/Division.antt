-- ===== src/Division.antt =====
-- src/lib/arithmetic.c: 64-bit division on a machine that divides 64 bits by 32.
-- `none` is a divide error. Unsigned numbers are their values; signed ones are integers, and wrap.
pub mod Quotients
pub mod Zeros
use cs.Common.{
  ℕ, ◌+◌, ◌-◌, ◌*◌, ◌/◌, ◌%◌, ◌^◌, Option, none, some, ltb, leb, ◌==◌, if◌then◌else◌, ◌>>=◌, ◌&&◌,
  ◌||◌, not,
}
use cs.FixedPoint.{wrap32}
use cs.Common.Int.{ℤ, pos, sub_ℕ, pos_part, neg_part, ltb_ℤ, ◌-ℤ◌, ◌*ℤ◌}

-- The DIVL instruction.
unfoldable pub divl : ℕ → ℕ → Option ℕ
divl n d = if d == 0 then none else if ltb (n / d) (2 ^ 32) then some (n / d) else none

-- `udiv64` by a divisor of 32 bits that is not zero: its first branch.
unfoldable pub udiv64_short : ℕ → ℕ → Option ℕ
udiv64_short n d =
    let b = 2 ^ 32 in
    let n1 = n / b % b in
    let n0 = n % b in divl (b * (n1 % d) + n0) d >>= λ q. some ((q + b * (n1 / d)) % 2 ^ 64)

-- One step of `nlz`: `n` and `x` where the top `bits` bits of `x` are zero, if they are.
unfoldable pub skip_zeros : ℕ → ℕ × ℕ → ℕ × ℕ
skip_zeros bits (n, x) =
    if ltb x (2 ^ (32 - bits)) then (n + bits, (x * 2 ^ bits) % 2 ^ 32) else (n, x)

-- Of a number that is not zero.
unfoldable pub nlz : ℕ → ℕ
nlz x = (skip_zeros 1 (skip_zeros 2 (skip_zeros 4 (skip_zeros 8 (skip_zeros 16 (0, x)))))).0

-- `udiv64` by a divisor of more than 32 bits: its second branch.
unfoldable pub udiv64_long : ℕ → ℕ → Option ℕ
udiv64_long n d =
    let s = nlz (d / 2 ^ 32) in
    let quotient = divl (n / 2) ((d * 2 ^ s) % 2 ^ 64 / 2 ^ 32) >>= λ q.
    let q : ℕ = q / 2 ^ (31 - s) in
    let q' : ℕ = (q + (2 ^ 64 - 1)) % 2 ^ 64 in
    some (if ltb ((n + (2 ^ 64 - (q' * d) % 2 ^ 64)) % 2 ^ 64) d then q' else q) in
    if ltb n d then some 0 else quotient

unfoldable pub udiv64 : ℕ → ℕ → Option ℕ
udiv64 n d = if d / 2 ^ 32 == 0 then udiv64_short n d else udiv64_long n d

-- The remainder is returned in 32 bits.
unfoldable pub umod64 : ℕ → ℕ → Option ℕ
umod64 n d = udiv64 n d >>= λ q. some ((n + (2 ^ 64 - (d * q) % 2 ^ 64)) % 2 ^ 64 % 2 ^ 32)

-- The `int64_t` with the bits of a `uint64_t`.
unfoldable pub to_int64 : ℕ → ℤ
to_int64 u = if ltb u (2 ^ 63) then pos u else sub_ℕ u (2 ^ 64)

unfoldable pub sdiv64 : ℤ → ℤ → Option ℤ
sdiv64 n d =
    let n_abs = pos_part n + neg_part n in
    let d_abs = pos_part d + neg_part d in
    udiv64 n_abs d_abs >>= λ q.
    let quotient = to_int64 q in
    let negated = to_int64 ((2 ^ 64 - q) % 2 ^ 64) in
    let same =
      (ltb_ℤ n (pos 0) && ltb_ℤ d (pos 0)) || (not (ltb_ℤ n (pos 0)) && not (ltb_ℤ d (pos 0))) in
    some (if same then quotient else negated)

-- The remainder is returned in 32 bits.
unfoldable pub smod64 : ℤ → ℤ → Option ℤ
smod64 n d = sdiv64 n d >>= λ q. some (wrap32 (n -ℤ d *ℤ q))
