-- ===== src/Bitmap/Single.antt =====
-- src/lib/kernel/bitmap.c: single bits. A bitmap with room for its bits represents a set of indices.
use Prim.Native.Nat.{bit_and, bit_or}
use native.Mathlib.Nat.{pow-suc, pow-le-pow_right}
use cs.Common.{
  ℕ, zero, suc, ◌-◌, ◌%◌, ◌^◌, ◌<◌, ◌≤◌, ◌≡◌, ◌≢◌, refl, ap, ◌∙◌, inl, inr, Bool, true, false, not,
  some, length, get_or, set, ◌==◌, if◌then◌else◌, arith, Bool-cases, lt→ltb, length-set,
  get_or-set_self, get_or-set_ne,
}
use cs.Common.Bits.{
  bit, bit_zero, bit_le, bit-bit_and, bit-bit_or, bit-pow, bit-complement, zero_of_bits,
}
use cs.Bitmap.{
  Bitmap, elem_bits, elem_idx, bit_mask, complement, elem_cnt, modify, bitmap_mark, bitmap_reset,
  bitmap_set, bitmap_test, load_word,
}

-- The words cover the bits.
abbrev pub HasRoom : Bitmap → Type 0
HasRoom b = elem_cnt b.bit_cnt ≤ length b.bits

-- Bit `i` of the array of bits that the words stand for.
unfoldable pub bit_at : Bitmap → ℕ → Bool
bit_at b i = bit (get_or b.bits (elem_idx i) 0) (i % elem_bits) == 1

pub idx_room : (b : Bitmap) (i : ℕ) → HasRoom b → i < b.bit_cnt → elem_idx i < length b.bits
unfolding elem_cnt elem_idx
idx_room b i r h = omega arith

lt_pow : (n : ℕ) → n < 2 ^ n
lt_pow zero = omega arith
lt_pow (suc n) = omega (arith, pow-suc 2 n, lt_pow n)

-- A word and a mask with one bit: the test on the result is the digit.
mask_test : (w r : ℕ) → not (bit_and w (2 ^ r) == 0) ≡ (bit w r == 1)
mask_test w r = elim (Bool-cases (bit w r == 1)) [
  | inl e ↦ rw e (elim (Bool-cases (bit_and w (2 ^ r) == 0)) [
    | inl z ↦
        let is_zero : bit_and w (2 ^ r) ≡ 0 = ground arith in
        let digit : bit (bit_and w (2 ^ r)) r ≡ 0 = ap (λ x. bit x r) is_zero ∙ bit_zero r in
        absurd (ground (arith, bit-bit_and w (2 ^ r) r, bit-pow r r))
    | inr z ↦ rw z refl
  ])
  | inr e ↦
      let is_zero : bit_and w (2 ^ r) ≡ 0 =
        zero_of_bits (bit_and w (2 ^ r)) (bit_and w (2 ^ r)) (lt_pow (bit_and w (2 ^ r)))
          (λ j h. ground (arith, bit-bit_and w (2 ^ r) j, bit-pow r j, bit_le w r)) in
      rw e (ap (λ x. not (x == 0)) is_zero)
]

pub bitmap_test-bit_at :
    (b : Bitmap) (i : ℕ) → HasRoom b → i < b.bit_cnt → bitmap_test b i ≡ some (bit_at b i)
unfolding bitmap_test bit_at load_word bit_mask
bitmap_test-bit_at b i r h =
    ground (arith, idx_room b i r h, mask_test (get_or b.bits (elem_idx i) 0) (i % elem_bits))

mask_lt : (i : ℕ) → i < 32 → 2 ^ i < 2 ^ 32
mask_lt i h =
    let next : 2 ^ suc i ≤ 2 ^ 32 = pow-le-pow_right {n = 2} (omega arith) h in
    omega (arith, next, pow-suc 2 i, lt_pow i)

-- The digits of a word after a bit of it is set or cleared.
or_digit : (w i j : ℕ) → (bit (bit_or w (2 ^ i)) j == 1) ≡ (if j == i then true else (bit w j == 1))
or_digit w i j = ground (arith, bit-bit_or w (2 ^ i) j, bit-pow i j, bit_le w j)

and_digit :
    (w i j : ℕ)
    → i < 32
    → j < 32
    → (bit (bit_and w (complement (2 ^ i))) j == 1) ≡ (if j == i then false else (bit w j == 1))
unfolding complement
and_digit w i j h k = ground (
  arith,
  bit-bit_and w (2 ^ 32 - 1 - 2 ^ i) j,
  bit-pow i j,
  bit_le w j,
  bit-complement 32 (2 ^ i) j (mask_lt i h) k,
)

-- A bitmap after bit `i` has got the value `v`, and nothing else has changed.
pub record IsSetAt (b b' : Bitmap) (i : ℕ) (v : Bool) : Type 0 where
  pub size_same : b'.bit_cnt ≡ b.bit_cnt
  pub room_same : length b'.bits ≡ length b.bits
  pub at_self : bit_at b' i ≡ v
  pub at_other : (j : ℕ) → j ≢ i → bit_at b' j ≡ bit_at b j

modified :
    (f : ℕ → ℕ) (b : Bitmap) (i : ℕ) (v : Bool)
    → elem_idx i < length b.bits
    → ((w j : ℕ) → j < 32 → (bit (f w) j == 1) ≡ (if j == i % elem_bits then v else (bit w j == 1)))
    → (b' : Bitmap) × (modify f b (elem_idx i) ≡ some b') × IsSetAt b b' i v
unfolding modify bit_at elem_idx
modified f b i v h digit =
    let w = get_or b.bits (elem_idx i) 0 in
    let words = set b.bits (elem_idx i) (f w) in
    (
      record { bit_cnt = b.bit_cnt; bits = words },
      ground arith,
      record {
        size_same = refl;
        room_same = length-set b.bits (elem_idx i) (f w);
        at_self =
            rw (get_or-set_self b.bits (elem_idx i) (f w) 0 h)
              (digit w (i % elem_bits) (omega arith) ∙ ground arith);
        at_other = λ j ne. elim (Bool-cases (elem_idx j == elem_idx i)) [
          | inl e ↦
              let same : elem_idx j ≡ elem_idx i = ground arith in
              rw same (
                rw (get_or-set_self b.bits (elem_idx i) (f w) 0 h)
                  (digit w (j % elem_bits) (omega arith) ∙ ground arith))
          | inr e ↦
              rw (get_or-set_ne b.bits (elem_idx i) (elem_idx j) (f w) 0 (λ q. ground arith)) refl
        ];
      },
    )

-- `bitmap_set` on an index in the bitmap does not fail, and it writes that bit only.
pub bitmap_set-IsSetAt :
    (b : Bitmap) (i : ℕ) (v : Bool)
    → HasRoom b
    → i < b.bit_cnt
    → (b' : Bitmap) × (bitmap_set b i v ≡ some b') × IsSetAt b b' i v
unfolding bitmap_set bitmap_mark bitmap_reset bit_mask
bitmap_set-IsSetAt b i true r h =
    let (b', run, m) =
      modified (λ w. bit_or w (bit_mask i)) b i true (idx_room b i r h)
        (λ w j k. or_digit w (i % elem_bits) j) in
    (b', rw (lt→ltb i b.bit_cnt h) run, m)
bitmap_set-IsSetAt b i false r h =
    let (b', run, m) =
      modified (λ w. bit_and w (complement (bit_mask i))) b i false (idx_room b i r h)
        (λ w j k. and_digit w (i % elem_bits) j (omega arith) k) in
    (b', rw (lt→ltb i b.bit_cnt h) run, m)
