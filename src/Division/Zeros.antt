-- ===== src/Division/Zeros.antt =====
-- src/lib/arithmetic.c: the leading zeros of a number.
use cs.Common.{
  ℕ, zero, suc, ◌+◌, ◌-◌, ◌*◌, ◌%◌, ◌^◌, ◌<◌, ◌≤◌, ◌≡◌, refl, ap, ◌∙◌, inl, inr, ltb, Bool-cases,
  arith,
}
use native.Mathlib.Nat.{pow-suc, one-le-pow, mul-lt-mul_of_pos_right, mul-le-mul_right}
use cs.Division.{skip_zeros, nlz}

-- A pair of `nlz`: the number shifted to the left, which has a bit at `low` or above it.
record IsShifted (x low : ℕ) (r : ℕ × ℕ) : Type 0 where
  is_shift : x * 2 ^ (r.0) ≡ r.1
  least : 2 ^ low ≤ r.1
  most : r.1 < 2 ^ 32

shift_more : (x n y bits : ℕ) → x * 2 ^ n ≡ y → x * 2 ^ (n + bits) ≡ y * 2 ^ bits
shift_more x n y zero e = grind arith
shift_more x n y (suc bits) e =
    let rest : x * 2 ^ (n + bits) ≡ y * 2 ^ bits = shift_more x n y bits e in
    let left : 2 ^ (n + suc bits) ≡ 2 ^ (n + bits) * 2 =
      ap (λ k. 2 ^ k) (omega arith) ∙ pow-suc 2 (n + bits) in
    rw (left, pow-suc 2 bits) (grind arith)

-- A turn that asks for `bits` zeros, where a bit at `low` or above is set.
skip_zeros-IsShifted :
    (low bits : ℕ) (x n y : ℕ)
    → 2 ^ low * 2 ^ bits ≡ 2 ^ (32 - bits)
    → 2 ^ (32 - bits) * 2 ^ bits ≡ 2 ^ 32
    → IsShifted x low (n, y)
    → IsShifted x (32 - bits) (skip_zeros bits (n, y))
unfolding skip_zeros
skip_zeros-IsShifted low bits x n y p q h = elim (Bool-cases (ltb y (2 ^ (32 - bits)))) [
  | inl e ↦
      let some_power : 0 < 2 ^ bits = one-le-pow bits 2 (omega arith) in
      let above : y * 2 ^ bits < 2 ^ (32 - bits) * 2 ^ bits =
        mul-lt-mul_of_pos_right (ground (arith, e)) some_power in
      let below : y * 2 ^ bits < 2 ^ 32 = omega (arith, above, q) in
      let same : (y * 2 ^ bits) % 2 ^ 32 ≡ y * 2 ^ bits = omega arith in
      rw (e, same)
        (record {
          is_shift = shift_more x n y bits h.is_shift;
          least = omega (arith, mul-le-mul_right (2 ^ bits) h.least, p);
          most = below;
        })
  | inr e ↦ rw e (record { is_shift = h.is_shift; least = ground (arith, e); most = h.most })
]

-- A number of 32 bits that is not zero, shifted to the left by its `nlz`, has its highest bit in the
-- place of the highest of 32 bits.
pub nlz-highest : (x : ℕ) → 0 < x → x < 2 ^ 32 → (2 ^ 31 ≤ x * 2 ^ nlz x) × (x * 2 ^ nlz x < 2 ^ 32)
unfolding nlz
nlz-highest x p q =
    let start : IsShifted x 0 (0, x) = record {
      is_shift = omega arith;
      least = omega arith;
      most = q;
    } in
    let a = skip_zeros-IsShifted 0 16 x 0 x refl refl start in
    let r = skip_zeros 16 (0, x) in
    let b = skip_zeros-IsShifted 16 8 x (r.0) (r.1) refl refl a in
    let r = skip_zeros 8 r in
    let c = skip_zeros-IsShifted 24 4 x (r.0) (r.1) refl refl b in
    let r = skip_zeros 4 r in
    let d = skip_zeros-IsShifted 28 2 x (r.0) (r.1) refl refl c in
    let r = skip_zeros 2 r in
    let e = skip_zeros-IsShifted 30 1 x (r.0) (r.1) refl refl d in rw e.is_shift (e.least, e.most)
