-- ===== src/HashTable/Finding.antt =====
-- src/lib/kernel/hash.c: the operations on a table as a set of elements.
use mathlib.Core.Path.{subst}
use Prim.Native.Nat.{bit_and}
use cs.Common.{
  ℕ, ◌-◌, ◌≡◌, ap, sym, ◌∙◌, inl, inr, Bool, true, false, Option, none, some, List, [], ◌∷◌, ◌==◌,
  mem, arith, Bool-cases, eq_of_==,
}
use cs.HashTable.{Hash, is_equal, find_bucket, find_elem, hash_find}
use cs.HashTable.Rehashing.{bucket_of, holds, IsTable}

-- The element that an operation has found.
abbrev pub is_it : Option ℕ → ℕ → Bool
is_it none x = false
is_it (some y) x = x == y

abbrev pub is_none : Option ℕ → Bool
is_none none = true
is_none (some y) = false

module _ (hash : ℕ → ℕ) (less : ℕ → ℕ → Bool) where
  -- An answer of `find_elem` on a bucket, and of `hash_find` on a table.
  abbrev IsFirst : List ℕ → ℕ → Option ℕ → Type 0
  IsFirst bucket e none = (x : ℕ) → mem x bucket ≡ true → is_equal hash less x e ≡ false
  IsFirst bucket e (some x) = (mem x bucket ≡ true) × (is_equal hash less x e ≡ true)

  abbrev pub IsFoundIn : Hash → ℕ → Option ℕ → Type 0
  IsFoundIn h e none = (x : ℕ) → holds hash less h x ≡ true → is_equal hash less x e ≡ false
  IsFoundIn h e (some x) = (holds hash less h x ≡ true) × (is_equal hash less x e ≡ true)

  find_elem-IsFirst : (bucket : List ℕ) (e : ℕ) → IsFirst bucket e (find_elem hash less bucket e)
  unfolding find_elem
  find_elem-IsFirst [] e = λ x m. cc
  find_elem-IsFirst (hi ∷ bucket) e = elim (Bool-cases (is_equal hash less hi e)) [
    | inl same ↦ rw same (ground arith, same)
    | inr other ↦
        rw other (further (find_elem hash less bucket e) (find_elem-IsFirst bucket e) other)
  ]
    where
      further :
          (o : Option ℕ)
          → IsFirst bucket e o
          → is_equal hash less hi e ≡ false
          → IsFirst (hi ∷ bucket) e o
      further none f other = λ x m. elim (Bool-cases (x == hi)) [
        | inl i ↦ ap (λ y. is_equal hash less y e) (eq_of_== x hi i) ∙ other
        | inr i ↦ f x (ground arith)
      ]
      further (some x) f other = (ground (arith, f.0), f.1)

  -- Equal elements have the same hash.
  module _ (agree : (x y : ℕ) → is_equal hash less x y ≡ true → hash x ≡ hash y) where
    found_in :
        (h : Hash) (e : ℕ) (o : Option ℕ)
        → IsTable hash less h
        → IsFirst (h.buckets (bucket_of hash less h.bucket_cnt e)) e o
        → IsFoundIn h e o
    unfolding find_bucket
    found_in h e none t f = λ x m. elim (Bool-cases (is_equal hash less x e)) [
      | inl same ↦
          f x (
            subst (λ n. mem x (h.buckets (bit_and n (h.bucket_cnt - 1))) ≡ true) (agree x e same) m)
      | inr other ↦ other
    ]
    found_in h e (some x) t f =
        (subst (λ i. mem x (h.buckets i) ≡ true) (sym (t.placed _ x f.0)) f.0, f.1)

    -- In a table in order, `hash_find` finds an element that is equal, if there is one.
    pub hash_find-IsFoundIn :
        (h : Hash) (e : ℕ) → IsTable hash less h → IsFoundIn h e (hash_find hash less h e)
    unfolding hash_find
    hash_find-IsFoundIn h e t =
        found_in h e (find_elem hash less (h.buckets (bucket_of hash less h.bucket_cnt e)) e) t
          (find_elem-IsFirst (h.buckets (bucket_of hash less h.bucket_cnt e)) e)
