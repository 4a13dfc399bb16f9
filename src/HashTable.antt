-- ===== src/HashTable.antt =====
-- src/lib/kernel/hash.c: hash tables with chained elements.
-- Elements lie at addresses, and a bucket is the list of the addresses that it links. The callbacks
-- `hash` and `less`, with their auxiliary data, are parameters. `allocated` says whether `malloc`
-- succeeds in `rehash`. The buckets are a function from their index.
pub mod Rehashing
pub mod Finding
pub mod Changing
pub mod Keys
use Prim.Native.Nat.{bit_and}
use cs.Common.{
  ℕ, zero, suc, ◌+◌, ◌-◌, ◌*◌, ◌/◌, ◌%◌, ◌^◌, Bool, true, false, not, ◌&&◌, ◌||◌, Option, none,
  some, List, [], ◌∷◌, ltb, ◌==◌, if◌then◌else◌, erase, update,
}
use cs.Strings.{Memory}

-- struct hash
pub record Hash : Type 0 where
  pub elem_cnt : ℕ
  pub bucket_cnt : ℕ
  pub buckets : ℕ → List ℕ

unfoldable pub turn_off_least_1bit : ℕ → ℕ
turn_off_least_1bit x = bit_and x (x - 1)

unfoldable pub is_power_of_2 : ℕ → Bool
is_power_of_2 x = not (x == 0) && (turn_off_least_1bit x == 0)

-- Every turn drops a bit, so that 32 turns are enough for a `size_t`.
unfoldable pub round_down : ℕ → ℕ → ℕ
round_down zero cnt = cnt
round_down (suc fuel) cnt =
    let rest = round_down fuel (turn_off_least_1bit cnt) in if is_power_of_2 cnt then cnt else rest

-- The number of buckets that `rehash` wants.
unfoldable pub ideal_cnt : ℕ → ℕ
ideal_cnt elem_cnt = let wanted = elem_cnt / 2 in round_down 32 (if ltb wanted 4 then 4 else wanted)

unfoldable pub hash_init : Bool → Option Hash
hash_init allocated =
    if allocated then some (record { elem_cnt = 0; bucket_cnt = 4; buckets = λ i. [] }) else none

-- Without a destructor.
unfoldable pub hash_clear : Hash → Hash
hash_clear h = record { elem_cnt = 0; bucket_cnt = h.bucket_cnt; buckets = λ i. [] }

unfoldable pub hash_size : Hash → ℕ
hash_size h = h.elem_cnt

unfoldable pub hash_empty : Hash → Bool
hash_empty h = h.elem_cnt == 0

unfoldable pub insert_elem : Hash → ℕ → ℕ → Hash
insert_elem h bucket e = record {
  elem_cnt = (h.elem_cnt + 1) % 2 ^ 32;
  bucket_cnt = h.bucket_cnt;
  buckets = update h.buckets bucket (e ∷ h.buckets bucket);
}

-- `list_remove` unlinks the element from whatever list it is in.
unfoldable pub remove_elem : Hash → ℕ → Hash
remove_elem h e = record {
  elem_cnt = (h.elem_cnt + (2 ^ 32 - 1)) % 2 ^ 32;
  bucket_cnt = h.bucket_cnt;
  buckets = λ i. erase e (h.buckets i);
}

module _ (hash : ℕ → ℕ) (less : ℕ → ℕ → Bool) where
  unfoldable pub find_bucket : ℕ → ℕ → ℕ
  find_bucket bucket_cnt e = bit_and (hash e) (bucket_cnt - 1)

  abbrev pub is_equal : ℕ → ℕ → Bool
  is_equal hi e = not (less hi e) && not (less e hi)

  unfoldable pub find_elem : List ℕ → ℕ → Option ℕ
  find_elem [] e = none
  find_elem (hi ∷ bucket) e =
      let rest = find_elem bucket e in if is_equal hi e then some hi else rest

  -- The elements of an old bucket go to the front of their new ones.
  unfoldable pub move_bucket : ℕ → List ℕ → (ℕ → List ℕ) → ℕ → List ℕ
  move_bucket cnt [] buckets = buckets
  move_bucket cnt (e ∷ bucket) buckets =
      let i = find_bucket cnt e in move_bucket cnt bucket (update buckets i (e ∷ buckets i))

  -- The old buckets from `i` on, `left` of them.
  unfoldable pub move_all : ℕ → ℕ → ℕ → (ℕ → List ℕ) → (ℕ → List ℕ) → ℕ → List ℕ
  move_all cnt zero i old buckets = buckets
  move_all cnt (suc left) i old buckets =
      move_all cnt left (suc i) old (move_bucket cnt (old i) buckets)

  unfoldable pub rehash : Bool → Hash → Hash
  rehash allocated h =
      let cnt = ideal_cnt h.elem_cnt in
      let moved : Hash = record {
        elem_cnt = h.elem_cnt;
        bucket_cnt = cnt;
        buckets = move_all cnt h.bucket_cnt 0 h.buckets (λ i. []);
      } in
      if cnt == h.bucket_cnt then h else if allocated then moved else h

  unfoldable pub hash_find : Hash → ℕ → Option ℕ
  hash_find h e = find_elem (h.buckets (find_bucket h.bucket_cnt e)) e

  unfoldable pub hash_insert : Bool → Hash → ℕ → Option ℕ × Hash
  hash_insert allocated h new =
      let bucket = find_bucket h.bucket_cnt new in
      let old = find_elem (h.buckets bucket) new in
      (old, rehash allocated (elim old [ none ↦ insert_elem h bucket new | some e ↦ h ]))

  -- The bucket is found before the old element is removed.
  unfoldable pub hash_replace : Bool → Hash → ℕ → Option ℕ × Hash
  hash_replace allocated h new =
      let bucket = find_bucket h.bucket_cnt new in
      let old = find_elem (h.buckets bucket) new in
      (
        old,
        rehash allocated
            (insert_elem (elim old [ none ↦ h | some e ↦ remove_elem h e ]) bucket new),
      )

  unfoldable pub hash_delete : Bool → Hash → ℕ → Option ℕ × Hash
  hash_delete allocated h e =
      let found = find_elem (h.buckets (find_bucket h.bucket_cnt e)) e in
      (found, elim found [ none ↦ h | some x ↦ rehash allocated (remove_elem h x) ])
