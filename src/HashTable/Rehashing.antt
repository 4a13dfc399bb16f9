-- ===== src/HashTable/Rehashing.antt =====
-- src/lib/kernel/hash.c: where `rehash` puts the elements.

use cs.Common.{
  ℕ, zero, suc, ◌+◌, ◌-◌, ◌/◌, ◌<◌, ◌≤◌, ◌≡◌, refl, ap, sym, ◌∙◌, inl, inr, Bool, true, false, not,
  ◌&&◌, ◌||◌, List, [], ◌∷◌, ltb, ◌==◌, if◌then◌else◌, update, mem, IsDistinct, arith, Bool-cases,
  eq_of_==,
}
use cs.Common.Bits.{bit_and_le}
use cs.HashTable.{
  Hash, turn_off_least_1bit, is_power_of_2, round_down, ideal_cnt, find_bucket, is_equal,
  move_bucket, move_all, rehash,
}

module _ (hash : ℕ → ℕ) (less : ℕ → ℕ → Bool) where
  abbrev pub bucket_of : ℕ → ℕ → ℕ
  bucket_of = find_bucket hash less

  pub bucket_of_bound : (cnt x : ℕ) → 1 ≤ cnt → bucket_of cnt x < cnt
  unfolding find_bucket
  bucket_of_bound cnt x h = omega (arith, bit_and_le (hash x) (cnt - 1))

  mem-move_bucket :
      (cnt : ℕ) (list : List ℕ) (nb : ℕ → List ℕ) (j x : ℕ)
      → mem x (move_bucket hash less cnt list nb j)
        ≡ ((mem x list && (j == bucket_of cnt x)) || mem x (nb j))
  unfolding move_bucket
  mem-move_bucket cnt [] nb j x = refl
  mem-move_bucket cnt (e ∷ list) nb j x =
      let i = bucket_of cnt e in
      let same = mem-move_bucket cnt list (update nb i (e ∷ nb i)) j x in
      elim (Bool-cases (x == e)) [
        | inl here ↦ ground (arith, same, here, ap (bucket_of cnt) (eq_of_== x e here))
        | inr there ↦ ground (arith, same, there)
      ]

  -- The element is in one of `left` buckets from `i` on.
  abbrev in_buckets : ℕ → ℕ → (ℕ → List ℕ) → ℕ → Bool
  in_buckets zero i old x = false
  in_buckets (suc left) i old x = mem x (old i) || in_buckets left (suc i) old x

  mem-move_all :
      (cnt left i : ℕ) (old nb : ℕ → List ℕ) (j x : ℕ)
      → mem x (move_all hash less cnt left i old nb j)
        ≡ ((in_buckets left i old x && (j == bucket_of cnt x)) || mem x (nb j))
  unfolding move_all
  mem-move_all cnt zero i old nb j x = refl
  mem-move_all cnt (suc left) i old nb j x = ground (
    arith,
    mem-move_all cnt left (suc i) old (move_bucket hash less cnt (old i) nb) j x,
    mem-move_bucket cnt (old i) nb j x,
  )

  in_buckets-placed :
      (left i f : ℕ) (old : ℕ → List ℕ) (x : ℕ)
      → ((k : ℕ) → mem x (old k) ≡ true → f ≡ k)
      → f < i + left
      → in_buckets left i old x ≡ (mem x (old f) && not (ltb f i))
  in_buckets-placed zero i f old x h l = ground arith
  in_buckets-placed (suc left) i f old x h l = elim (Bool-cases (f == i)) [
    | inl e ↦ ground (
      arith,
      ap (λ k. mem x (old k)) (eq_of_== f i e),
      in_buckets-placed left (suc i) f old x h (omega arith),
    )
    | inr e ↦ ground (arith, h i, in_buckets-placed left (suc i) f old x h (omega arith))
  ]

  move_bucket-IsDistinct :
      (cnt : ℕ) (list : List ℕ) (nb : ℕ → List ℕ)
      → IsDistinct list
      → ((j : ℕ) → IsDistinct (nb j))
      → ((j x : ℕ) → mem x list ≡ true → mem x (nb j) ≡ false)
      → (j : ℕ) → IsDistinct (move_bucket hash less cnt list nb j)
  unfolding move_bucket
  move_bucket-IsDistinct cnt [] nb d ds out j = ds j
  move_bucket-IsDistinct cnt (e ∷ list) nb d ds out j =
      let i = bucket_of cnt e in
      move_bucket-IsDistinct cnt list (update nb i (e ∷ nb i)) d.1
        (λ k. ground (arith, ds k, ds i, out i e))
        (λ k x m. elim (Bool-cases (x == e)) [
          | inl same ↦ absurd (cc (ap (λ y. mem y list) (eq_of_== x e same), m, d.0))
          | inr other ↦ ground (arith, out k x, out i x, other)
        ])
        j

  move_all-IsDistinct :
      (cnt left i : ℕ) (old nb : ℕ → List ℕ)
      → ((k : ℕ) → IsDistinct (old k))
      → ((k l x : ℕ) → mem x (old k) ≡ true → mem x (old l) ≡ true → k ≡ l)
      → ((j : ℕ) → IsDistinct (nb j))
      → ((k j x : ℕ) → i ≤ k → mem x (old k) ≡ true → mem x (nb j) ≡ false)
      → (j : ℕ) → IsDistinct (move_all hash less cnt left i old nb j)
  unfolding move_all
  move_all-IsDistinct cnt zero i old nb ds one dn out j = dn j
  move_all-IsDistinct cnt (suc left) i old nb ds one dn out j =
      move_all-IsDistinct cnt left (suc i) old (move_bucket hash less cnt (old i) nb) ds one
        (move_bucket-IsDistinct cnt (old i) nb (ds i) dn (λ j x m. out i j x (omega arith) m))
        (λ k j x l m.
          ground
            (arith, mem-move_bucket cnt (old i) nb j x, out k j x (omega arith) m, one k i x m))
        j

  -- Whether the element is in the table, in the bucket where it belongs.
  abbrev pub holds : Hash → ℕ → Bool
  holds h x = mem x (h.buckets (bucket_of h.bucket_cnt x))

  -- Every element is once in the bucket where it belongs, and no two are equal.
  pub record IsTable (h : Hash) : Type 0 where
    pub some_bucket : 1 ≤ h.bucket_cnt
    pub placed : (i x : ℕ) → mem x (h.buckets i) ≡ true → bucket_of h.bucket_cnt x ≡ i
    pub distinct : (i : ℕ) → IsDistinct (h.buckets i)
    pub unique :
        (x y : ℕ) → holds h x ≡ true → holds h y ≡ true → is_equal hash less x y ≡ true → x ≡ y

  round_down-positive : (fuel cnt : ℕ) → 1 ≤ cnt → 1 ≤ round_down fuel cnt
  unfolding round_down is_power_of_2
  round_down-positive zero cnt l = l
  round_down-positive (suc fuel) cnt l = elim (Bool-cases (turn_off_least_1bit cnt == 0)) [
    | inl e ↦ ground arith
    | inr e ↦ ground (arith, round_down-positive fuel (turn_off_least_1bit cnt) (ground arith))
  ]

  ideal_cnt-positive : (n : ℕ) → 1 ≤ ideal_cnt n
  unfolding ideal_cnt
  ideal_cnt-positive n = round_down-positive 32 (if ltb (n / 2) 4 then 4 else n / 2) (ground arith)

  abbrev moved : Hash → Hash
  moved h = record {
    elem_cnt = h.elem_cnt;
    bucket_cnt = ideal_cnt h.elem_cnt;
    buckets = move_all hash less (ideal_cnt h.elem_cnt) h.bucket_cnt 0 h.buckets (λ i. []);
  }

  mem-moved :
      (h : Hash) (j x : ℕ)
      → IsTable h
      → mem x ((moved h).buckets j) ≡ (holds h x && (j == bucket_of (ideal_cnt h.elem_cnt) x))
  mem-moved h j x t =
      let f = bucket_of h.bucket_cnt x in
      ground (
        arith,
        mem-move_all (ideal_cnt h.elem_cnt) h.bucket_cnt 0 h.buckets (λ i. []) j x,
        in_buckets-placed h.bucket_cnt 0 f h.buckets x (λ k m. t.placed k x m)
            (omega (arith, bucket_of_bound h.bucket_cnt x t.some_bucket)),
      )

  holds-moved : (h : Hash) (x : ℕ) → IsTable h → holds (moved h) x ≡ holds h x
  holds-moved h x t = ground (arith, mem-moved h (bucket_of (ideal_cnt h.elem_cnt) x) x t)

  moved-IsTable : (h : Hash) → IsTable h → IsTable (moved h)
  moved-IsTable h t = record {
    some_bucket = ideal_cnt-positive h.elem_cnt;
    placed = λ i x m. ground (arith, mem-moved h i x t);
    distinct =
        move_all-IsDistinct (ideal_cnt h.elem_cnt) h.bucket_cnt 0 h.buckets (λ i. []) t.distinct
          (λ k l x m n. sym (t.placed k x m) ∙ t.placed l x n) (λ j. tt) (λ k j x l m. refl);
    unique =
        λ x y m n e. t.unique x y (sym (holds-moved h x t) ∙ m) (sym (holds-moved h y t) ∙ n) e;
  }

  -- Rehashing keeps the elements, and the table in order, whether memory is there or not.
  pub rehash-IsTable :
      (allocated : Bool) (h : Hash)
      → IsTable h
      → IsTable (rehash hash less allocated h)
        × ((x : ℕ) → holds (rehash hash less allocated h) x ≡ holds h x)
  unfolding rehash
  rehash-IsTable allocated h t = elim (Bool-cases (ideal_cnt h.elem_cnt == h.bucket_cnt)) [
    | inl e ↦ rw e (t, λ x. refl)
    | inr e ↦ elim (Bool-cases allocated) [
      | inl a ↦ rw (e, a) (moved-IsTable h t, λ x. holds-moved h x t)
      | inr a ↦ rw (e, a) (t, λ x. refl)
    ]
  ]
