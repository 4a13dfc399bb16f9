-- ===== src/Division/Quotients.antt =====
-- src/lib/arithmetic.c: quotients.
use cs.Common.{
  ℕ, ◌+◌, ◌*◌, ◌/◌, ◌%◌, ◌^◌, ◌<◌, ◌≤◌, ◌≡◌, some, false, ◌==◌, lt→ltb, leb, leb→le, Bool-cases,
  inl, inr, arith, ap, ◌∙◌,
}
use native.Mathlib.Nat.{add-mul-div_left, mod-lt, div-le_self, le-div_iff_mul-le}
use cs.Division.{divl, udiv64_short}

split :
    (n d : ℕ)
    → 0 < d
    → n ≡ 2 ^ 32 * ((n / 2 ^ 32) % d) + n % 2 ^ 32 + d * (2 ^ 32 * (n / 2 ^ 32 / d))
split n d h = grind arith

fits : (n d : ℕ) → 0 < d → (2 ^ 32 * ((n / 2 ^ 32) % d) + n % 2 ^ 32) / d < 2 ^ 32
fits n d h =
    let r = (n / 2 ^ 32) % d in
    let a = 2 ^ 32 * r + n % 2 ^ 32 in
    let below : r < d = mod-lt (n / 2 ^ 32) h in
    elim (Bool-cases (leb (2 ^ 32) (a / d))) [
      | inl e ↦
          let much : 2 ^ 32 * d ≤ a = (le-div_iff_mul-le h).0 (leb→le (2 ^ 32) (a / d) e) in
          absurd (omega (arith, below, much))
      | inr e ↦ ground arith
    ]

-- For a 64-bit number and a divisor of 32 bits that is not zero, the short division does not trap
-- and returns the quotient.
pub udiv64_short-quotient :
    (n d : ℕ) → 0 < d → d < 2 ^ 32 → n < 2 ^ 64 → udiv64_short n d ≡ some (n / d)
unfolding udiv64_short divl
udiv64_short-quotient n d h k l =
    let a = 2 ^ 32 * ((n / 2 ^ 32) % d) + n % 2 ^ 32 in
    let t = 2 ^ 32 * (n / 2 ^ 32 / d) in
    let sum : n / d ≡ a / d + t = ap (λ m. m / d) (split n d h) ∙ add-mul-div_left a t h in
    let ne : (d == 0) ≡ false = ground arith in
    let high : n / 2 ^ 32 % 2 ^ 32 ≡ n / 2 ^ 32 = omega arith in
    let word : (a / d + t) % 2 ^ 64 ≡ n / d = omega (arith, sum, div-le_self n d) in
    rw high (rw ne (rw (lt→ltb (a / d) (2 ^ 32) (fits n d h)) (ap some word)))
