-- ===== src/Bitmap/Scan.antt =====
-- src/lib/kernel/bitmap.c: ranges of bits, and the search for a group of equal bits.
use cs.Common.{
  ℕ, zero, suc, ◌+◌, ◌-◌, ◌<◌, ◌≤◌, ◌≡◌, ◌≢◌, refl, sym, ◌∙◌, ◌⊎◌, inl, inr, Bool, true, false, not,
  Option, none, some, length, leb, ◌==◌, arith, Bool-cases,
}
use cs.Bitmap.{
  Bitmap, set_loop, bitmap_set_multiple, contains_loop, bitmap_contains, scan_loop, bitmap_scan,
  flip_found, bitmap_scan_and_flip, same,
}
use mathlib.Core.Path.{subst}
use cs.Bitmap.Single.{HasRoom, bit_at, bitmap_test-bit_at, bitmap_set-IsSetAt}

-- The `cnt` bits from `i` on are all `v`.
abbrev pub IsGroup : Bitmap → ℕ → ℕ → Bool → Type 0
IsGroup b i cnt v = (j : ℕ) → i ≤ j → j < i + cnt → bit_at b j ≡ v

-- What a search of the range answers.
abbrev pub Holds : Bitmap → ℕ → ℕ → Bool → Bool → Type 0
Holds b i cnt v true = (j : ℕ) × (i ≤ j) × (j < i + cnt) × (bit_at b j ≡ v)
Holds b i cnt v false = IsGroup b i cnt (not v)

ne_of_not_equal : (a v : Bool) → same a v ≡ false → a ≡ not v
ne_of_not_equal true true h = cc
ne_of_not_equal true false h = refl
ne_of_not_equal false true h = refl
ne_of_not_equal false false h = cc

is_same : (a v : Bool) → same a v ≡ true → a ≡ v
is_same true true h = refl
is_same true false h = cc
is_same false true h = cc
is_same false false h = refl

-- A range grows at its start by a bit that is not the value.
Holds-cons :
    (b : Bitmap) (at left : ℕ) (v c : Bool)
    → bit_at b at ≡ not v
    → Holds b (suc at) left v c
    → Holds b at (suc left) v c
Holds-cons b at left v true e h = let (j, p, q, x) = h in (j, omega arith, omega arith, x)
Holds-cons b at left v false e g = λ j p q. elim (Bool-cases (j == at)) [
  | inl s ↦ let i : j ≡ at = ground arith in rw i e
  | inr s ↦ g j (ground arith) (omega arith)
]

contains_loop-Holds :
    (left : ℕ) (b : Bitmap) (at : ℕ) (v : Bool)
    → HasRoom b
    → at + left ≤ b.bit_cnt
    → (c : Bool) × (contains_loop left b at v ≡ some c) × Holds b at left v c
unfolding contains_loop
contains_loop-Holds zero b at v r h = (false, refl, λ j p q. absurd (omega arith))
contains_loop-Holds (suc left) b at v r h = elim (Bool-cases (same (bit_at b at) v)) [
  | inl e ↦ (
    true,
    rw (bitmap_test-bit_at b at r (omega arith)) (rw e refl),
    (at, omega arith, omega arith, is_same (bit_at b at) v e),
  )
  | inr e ↦
      let run = bitmap_test-bit_at b at r (omega arith) in
      let (c, rest, holds) = contains_loop-Holds left b (suc at) v r (omega arith) in
      (c, rw run (rw e rest), Holds-cons b at left v c (ne_of_not_equal (bit_at b at) v e) holds)
]

pub bitmap_contains-Holds :
    (b : Bitmap) (i cnt : ℕ) (v : Bool)
    → HasRoom b
    → i + cnt ≤ b.bit_cnt
    → (c : Bool) × (bitmap_contains b i cnt v ≡ some c) × Holds b i cnt v c
unfolding bitmap_contains
bitmap_contains-Holds b i cnt v r h =
    let (c, run, holds) = contains_loop-Holds cnt b i v r h in
    let (below, fits) : (leb i b.bit_cnt ≡ true) × (leb (i + cnt) b.bit_cnt ≡ true) =
      (ground arith, ground arith) in
    (c, rw below (rw fits run), holds)

-- `bitmap_scan` answers the first group at or after `start`, or that there is none.
abbrev pub IsFirstGroup : Bitmap → ℕ → ℕ → Bool → Option ℕ → Type 0
IsFirstGroup b start cnt v none = (i : ℕ) → start ≤ i → i + cnt ≤ b.bit_cnt → IsGroup b i cnt v → ⊥
IsFirstGroup b start cnt v (some i) =
    (start ≤ i)
    × (i + cnt ≤ b.bit_cnt)
    × IsGroup b i cnt v
    × ((k : ℕ) → start ≤ k → k < i → IsGroup b k cnt v → ⊥)

not-not : (v : Bool) → not (not v) ≡ v
not-not true = refl
not-not false = refl

not_ne : (v : Bool) → v ≡ not v → ⊥
not_ne true h = cc
not_ne false h = cc

-- The search goes on past an index where no group starts.
IsFirstGroup-cons :
    (b : Bitmap) (i cnt : ℕ) (v : Bool) (o : Option ℕ)
    → (IsGroup b i cnt v → ⊥)
    → IsFirstGroup b (suc i) cnt v o
    → IsFirstGroup b i cnt v o
IsFirstGroup-cons b i cnt v none here f = λ k a c y. elim (Bool-cases (k == i)) [
  | inl s ↦ let t : k ≡ i = ground arith in here (subst (λ n. IsGroup b n cnt v) t y)
  | inr s ↦ f k (ground arith) c y
]
IsFirstGroup-cons b i cnt v (some n) here f =
    let (p, q, g, first) = f in
    (
      omega arith,
      q,
      g,
      λ k a c y. elim (Bool-cases (k == i)) [
        | inl s ↦ let t : k ≡ i = ground arith in here (subst (λ n. IsGroup b n cnt v) t y)
        | inr s ↦ first k (ground arith) c y
      ],
    )

scan_step :
    (left : ℕ) (b : Bitmap) (i cnt : ℕ) (v c : Bool) (o : Option ℕ)
    → i + cnt ≤ b.bit_cnt
    → bitmap_contains b i cnt (not v) ≡ some c
    → scan_loop left b (suc i) cnt v ≡ some o
    → Holds b i cnt (not v) c
    → IsFirstGroup b (suc i) cnt v o
    → (o : Option ℕ) × (scan_loop (suc left) b i cnt v ≡ some o) × IsFirstGroup b i cnt v o
unfolding scan_loop
scan_step left b i cnt v true o h run rest (j, p, q, x) f =
    (o, rw run rest, IsFirstGroup-cons b i cnt v o (λ y. not_ne v (sym (y j p q) ∙ x)) f)
scan_step left b i cnt v false o h run rest g f =
    (some i, rw run refl, (omega arith, h, λ j p q. g j p q ∙ not-not v, λ k p q x. omega arith))

scan_loop-IsFirstGroup :
    (left : ℕ) (b : Bitmap) (i cnt : ℕ) (v : Bool)
    → HasRoom b
    → left ≡ b.bit_cnt + 1 - cnt - i
    → (o : Option ℕ) × (scan_loop left b i cnt v ≡ some o) × IsFirstGroup b i cnt v o
unfolding scan_loop
scan_loop-IsFirstGroup zero b i cnt v r h = (none, refl, λ k p q g. omega arith)
scan_loop-IsFirstGroup (suc left) b i cnt v r h =
    let (c, run, holds) = bitmap_contains-Holds b i cnt (not v) r (omega arith) in
    let (o, rest, f) = scan_loop-IsFirstGroup left b (suc i) cnt v r (omega arith) in
    scan_step left b i cnt v c o (omega arith) run rest holds f

-- On a bitmap with room for its bits, a scan from a start in the bitmap fails no assertion and
-- stays inside the words. It answers the first group of `cnt` bits of the value at or after the
-- start, and no group only if there is none.
pub bitmap_scan-IsFirstGroup :
    (b : Bitmap) (start cnt : ℕ) (v : Bool)
    → HasRoom b
    → start ≤ b.bit_cnt
    → (o : Option ℕ) × (bitmap_scan b start cnt v ≡ some o) × IsFirstGroup b start cnt v o
unfolding bitmap_scan
bitmap_scan-IsFirstGroup b start cnt v r h =
    let inside : leb start b.bit_cnt ≡ true = ground arith in
    elim (Bool-cases (leb cnt b.bit_cnt)) [
      | inl e ↦
          let fits : cnt ≤ b.bit_cnt = ground arith in
          let (o, run, f) =
            scan_loop-IsFirstGroup (b.bit_cnt - cnt + 1 - start) b start cnt v r (omega arith) in
          (o, rw inside (rw e run), f)
      | inr e ↦ (none, rw inside (rw e refl), λ i p q g. ground arith)
    ]

-- A bitmap after the `cnt` bits from `start` on have got the value `v`, and no other bit has changed.
pub record IsSetRange (b b' : Bitmap) (start cnt : ℕ) (v : Bool) : Type 0 where
  pub range_size : b'.bit_cnt ≡ b.bit_cnt
  pub range_room : length b'.bits ≡ length b.bits
  pub inside : IsGroup b' start cnt v
  pub outside : (j : ℕ) → (j < start) ⊎ (start + cnt ≤ j) → bit_at b' j ≡ bit_at b j

far : (at left j : ℕ) → (j < at) ⊎ (at + suc left ≤ j) → (j < suc at) ⊎ (suc at + left ≤ j)
far at left j (inl h) = inl (omega arith)
far at left j (inr h) = inr (omega arith)

ne : (at left j : ℕ) → (j < at) ⊎ (at + suc left ≤ j) → j ≢ at
ne at left j (inl h) = λ e. omega arith
ne at left j (inr h) = λ e. omega arith

set_loop-IsSetRange :
    (left : ℕ) (b : Bitmap) (at : ℕ) (v : Bool)
    → HasRoom b
    → at + left ≤ b.bit_cnt
    → (b' : Bitmap) × (set_loop left b at v ≡ some b') × IsSetRange b b' at left v
unfolding set_loop
set_loop-IsSetRange zero b at v r h = (
  b,
  refl,
  record {
    range_size = refl;
    range_room = refl;
    inside = λ j p q. absurd (omega arith);
    outside = λ j o. refl;
  },
)
set_loop-IsSetRange (suc left) b at v r h =
    let (b₁, run, one) = bitmap_set-IsSetAt b at v r (omega arith) in
    let room : HasRoom b₁ = rw one.size_same (rw one.room_same r) in
    let size : b₁.bit_cnt ≡ b.bit_cnt = one.size_same in
    let (b₂, rest, more) = set_loop-IsSetRange left b₁ (suc at) v room (omega arith) in
    (
      b₂,
      rw run rest,
      record {
        range_size = more.range_size ∙ size;
        range_room = more.range_room ∙ one.room_same;
        inside = λ j p q. elim (Bool-cases (j == at)) [
          | inl s ↦
              let t : j ≡ at = ground arith in
              rw t (more.outside at (inl (omega arith)) ∙ one.at_self)
          | inr s ↦ more.inside j (ground arith) (omega arith)
        ];
        outside = λ j o. more.outside j (far at left j o) ∙ one.at_other j (ne at left j o);
      },
    )

-- `bitmap_set_multiple` on a range in the bitmap writes that range and no other bit.
pub bitmap_set_multiple-IsSetRange :
    (b : Bitmap) (start cnt : ℕ) (v : Bool)
    → HasRoom b
    → start + cnt ≤ b.bit_cnt
    → (b' : Bitmap) × (bitmap_set_multiple b start cnt v ≡ some b') × IsSetRange b b' start cnt v
unfolding bitmap_set_multiple
bitmap_set_multiple-IsSetRange b start cnt v r h =
    let (b', run, m) = set_loop-IsSetRange cnt b start v r h in
    let (below, fits) : (leb start b.bit_cnt ≡ true) × (leb (start + cnt) b.bit_cnt ≡ true) =
      (ground arith, ground arith) in
    (b', rw below (rw fits run), m)

-- What a scan that flips its group leaves: the group was the first, and just it has changed.
abbrev pub Flipped : Bitmap → ℕ → ℕ → Bool → Option ℕ → Bitmap → Type 0
Flipped b start cnt v none b' = b' ≡ b
Flipped b start cnt v (some i) b' = IsSetRange b b' i cnt (not v)

flip_found-Flipped :
    (b : Bitmap) (start cnt : ℕ) (v : Bool) (o : Option ℕ)
    → HasRoom b
    → IsFirstGroup b start cnt v o
    → (b' : Bitmap) × (flip_found b cnt v o ≡ some (o, b')) × Flipped b start cnt v o b'
unfolding flip_found
flip_found-Flipped b start cnt v none r f = (b, refl, refl)
flip_found-Flipped b start cnt v (some i) r (below, fits, g, first) =
    let (b', run, m) = bitmap_set_multiple-IsSetRange b i cnt (not v) r fits in (b', rw run refl, m)

-- On a bitmap with room for its bits, `bitmap_scan_and_flip` from a start in the bitmap fails no
-- assertion. It answers the first group of the value at or after the start and turns the bits of
-- that group, and no others, to the other value; with no such group the bitmap stays as it was. A
-- group of no bits is found at the start.
pub bitmap_scan_and_flip-Flipped :
    (b : Bitmap) (start cnt : ℕ) (v : Bool)
    → HasRoom b
    → start ≤ b.bit_cnt
    → (o : Option ℕ) × (b' : Bitmap) × (bitmap_scan_and_flip b start cnt v ≡ some (o, b'))
      × IsFirstGroup b start cnt v o
      × Flipped b start cnt v o b'
unfolding bitmap_scan_and_flip
bitmap_scan_and_flip-Flipped b start cnt v r h =
    let (o, run, f) = bitmap_scan-IsFirstGroup b start cnt v r h in
    let (b', rest, m) = flip_found-Flipped b start cnt v o r f in (o, b', rw run rest, f, m)
