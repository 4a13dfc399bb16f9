-- ===== src/Tests/HashTables.antt =====
-- The theorems about src/lib/kernel/hash.c at a table whose elements are their own hash.
use cs.Common.{
  ℕ, ◌≡◌, refl, ap, ◌∙◌, inl, inr, true, Bool-cases, eq_of_==, [], ◌∷◌, arith, ◌==◌, ltb,
  if◌then◌else◌,
}
use cs.HashTable.{Hash, find_bucket, is_equal, hash_insert, hash_delete}
use cs.HashTable.Rehashing.{IsTable}
use cs.HashTable.Changing.{IsInserted, IsDeleted, hash_insert-IsInserted, hash_delete-IsDeleted}

abbrev hash : ℕ → ℕ
hash x = x

agree : (x y : ℕ) → is_equal hash ltb x y ≡ true → x ≡ y
agree x y e = ground arith

-- The element 5, in bucket 1 of 4.
abbrev table : Hash
table = record { elem_cnt = 1; bucket_cnt = 4; buckets = λ i. if i == 1 then 5 ∷ [] else [] }

table-IsTable : IsTable hash ltb table
unfolding find_bucket
table-IsTable = record {
  some_bucket = omega arith;
  placed = λ i x m. elim (Bool-cases (x == 5)) [
    | inl e ↦ ap (find_bucket hash ltb 4) (eq_of_== x 5 e) ∙ ground arith
    | inr e ↦ absurd (ground arith)
  ];
  distinct = λ i. elim (Bool-cases (i == 1)) [ inl e ↦ rw e (refl, tt) | inr e ↦ rw e tt ];
  unique = λ x y m n e. agree x y e;
}

hash_insert-IsInserted_example :
    IsInserted hash ltb agree table 9 (hash_insert hash ltb true table 9)
unfolding find_bucket
hash_insert-IsInserted_example =
    hash_insert-IsInserted hash ltb agree true table 9 table-IsTable refl

hash_delete-IsDeleted_example : IsDeleted hash ltb agree table 5 (hash_delete hash ltb true table 5)
hash_delete-IsDeleted_example = hash_delete-IsDeleted hash ltb agree true table 5 table-IsTable
