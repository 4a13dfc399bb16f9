-- ===== src/Common/Bits.antt =====
-- The binary digits of the native bit operations, as far as words with masks of one bit need them.
use Prim.Native.Nat.{min, max, bit_and, bit_or, digits, bit_and-bitwise, bit_or-bitwise}
use native.Mathlib.Nat.{pow-suc}
use mathlib.Core.Path.{subst, sym}
use cs.Common.{
  ℕ, zero, suc, ◌+◌, ◌-◌, ◌*◌, ◌/◌, ◌%◌, ◌^◌, ◌≤◌, ◌<◌, ◌≡◌, refl, ap, ◌∙◌, arith, ◌==◌,
  if◌then◌else◌,
}

-- Digit `j` of `x`, counted from the lowest.
unfoldable pub bit : ℕ → ℕ → ℕ
bit x zero = x % 2
bit x (suc j) = bit (x / 2) j

pub bit_le : (x j : ℕ) → bit x j ≤ 1
unfolding bit
bit_le x zero = omega arith
bit_le x (suc j) = bit_le (x / 2) j

pub bit_zero : (j : ℕ) → bit 0 j ≡ 0
unfolding bit
bit_zero zero = refl
bit_zero (suc j) = bit_zero j

-- A digit of a bitwise operation is the operation on the digits.
module _ (z : ℕ → ℕ) (f : ℕ → ℕ → ℕ) (ends : (b j : ℕ) → bit (z b) j ≡ f 0 (bit b j))
    (small : (x y : ℕ) → x ≤ 1 → y ≤ 1 → f x y ≤ 1) where
  bit-digits : (n a b j : ℕ) → a ≤ n → bit (digits z f n a b) j ≡ f (bit a j) (bit b j)
  unfolding bit
  bit-digits zero zero b j h = rw (bit_zero j) (ends b j)
  bit-digits zero (suc a) b j h = absurd (omega arith)
  bit-digits (suc n) zero b j h = rw (bit_zero j) (ends b j)
  bit-digits (suc n) (suc a) b zero h =
      omega (arith, small (suc a % 2) (b % 2) (omega arith) (omega arith))
  bit-digits (suc n) (suc a) b (suc j) h =
      let rest = digits z f n (suc a / 2) (b / 2) in
      let low = f (suc a % 2) (b % 2) in
      let halved : (rest * 2 + low) / 2 ≡ rest =
        omega (arith, small (suc a % 2) (b % 2) (omega arith) (omega arith)) in
      ap (λ x. bit x j) halved ∙ bit-digits n (suc a / 2) (b / 2) j (omega arith)

pub bit-bit_and : (a b j : ℕ) → bit (bit_and a b) j ≡ min (bit a j) (bit b j)
bit-bit_and a b j =
    ap (λ x. bit x j) (bit_and-bitwise a b)
    ∙ bit-digits (λ b. 0) min (λ b j. bit_zero j ∙ omega arith) (λ x y p q. omega arith) a a b j
        (omega arith)

pub bit-bit_or : (a b j : ℕ) → bit (bit_or a b) j ≡ max (bit a j) (bit b j)
bit-bit_or a b j =
    ap (λ x. bit x j) (bit_or-bitwise a b)
    ∙ bit-digits (λ b. b) max (λ b j. omega arith) (λ x y p q. omega arith) a a b j (omega arith)

-- The digits of a mask with one bit.
pub bit-pow : (i j : ℕ) → bit (2 ^ i) j ≡ (if i == j then 1 else 0)
unfolding bit
bit-pow zero zero = refl
bit-pow zero (suc j) = bit_zero j ∙ ground arith
bit-pow (suc i) zero =
    let even : 2 ^ suc i % 2 ≡ 0 = omega (arith, pow-suc 2 i) in even ∙ ground arith
bit-pow (suc i) (suc j) =
    let halved : 2 ^ suc i / 2 ≡ 2 ^ i = omega (arith, pow-suc 2 i) in
    ap (λ x. bit x j) halved ∙ (bit-pow i j ∙ ground arith)

-- The digits of a number's complement in a word of `n` bits.
pub bit-complement : (n m j : ℕ) → m < 2 ^ n → j < n → bit (2 ^ n - 1 - m) j ≡ 1 - bit m j
unfolding bit
bit-complement zero m j h k = absurd (omega arith)
bit-complement (suc n) m zero h k = omega (arith, pow-suc 2 n)
bit-complement (suc n) m (suc j) h k =
    let halved : (2 ^ suc n - 1 - m) / 2 ≡ 2 ^ n - 1 - m / 2 = omega (arith, pow-suc 2 n) in
    ap (λ x. bit x j) halved ∙ bit-complement n (m / 2) j (omega (arith, pow-suc 2 n)) (omega arith)

-- A number is zero if its digits below its size are.
pub zero_of_bits : (n x : ℕ) → x < 2 ^ n → ((j : ℕ) → j < n → bit x j ≡ 0) → x ≡ 0
unfolding bit
zero_of_bits zero x h k = omega arith
zero_of_bits (suc n) x h k = omega (
  arith,
  k 0 (omega arith),
  zero_of_bits n (x / 2) (omega (arith, pow-suc 2 n)) (λ j l. k (suc j) (omega arith)),
)

-- A mask bounds what it lets through.
digits_le : (n a b : ℕ) → digits (λ b. 0) min n a b ≤ b
digits_le zero zero b = omega arith
digits_le zero (suc a) b = omega arith
digits_le (suc n) zero b = omega arith
digits_le (suc n) (suc a) b = omega (arith, digits_le n (suc a / 2) (b / 2))

pub bit_and_le : (a b : ℕ) → bit_and a b ≤ b
bit_and_le a b = subst (λ n. n ≤ b) (sym (bit_and-bitwise a b)) (digits_le a a b)
