-- ===== src/HashTable/Changing.antt =====
-- src/lib/kernel/hash.c: insertion, deletion and replacement.

use cs.Common.{
  ℕ, ◌≡◌, ap, sym, ◌∙◌, inl, inr, Bool, true, false, not, ◌&&◌, ◌||◌, Option, none, some, ◌==◌,
  erase, mem, arith, Bool-cases, eq_of_==, mem-erase_ne, mem-erase_self, IsDistinct-erase,
  mem-of-erase,
}
use cs.HashTable.{
  Hash, is_equal, insert_elem, remove_elem, rehash, hash_find, hash_insert, hash_replace,
  hash_delete,
}
use cs.HashTable.Rehashing.{bucket_of, holds, IsTable, rehash-IsTable}
use cs.HashTable.Finding.{is_it, is_none}
use cs.HashTable.Finding

module _ (hash : ℕ → ℕ) (less : ℕ → ℕ → Bool) where
  abbrev IsFoundIn : Hash → ℕ → Option ℕ → Type 0
  IsFoundIn = Finding.IsFoundIn hash less

  -- Equal elements have the same hash.
  module _ (agree : (x y : ℕ) → is_equal hash less x y ≡ true → hash x ≡ hash y) where
    holds-insert_elem :
        (h : Hash) (new x : ℕ)
        → holds hash less (insert_elem h (bucket_of hash less h.bucket_cnt new) new) x
          ≡ (holds hash less h x || (x == new))
    unfolding insert_elem
    holds-insert_elem h new x = elim (Bool-cases (x == new)) [
      | inl e ↦ ground (arith, e, ap (bucket_of hash less h.bucket_cnt) (eq_of_== x new e))
      | inr e ↦ ground (arith, e)
    ]

    insert_elem-IsTable :
        (h : Hash) (new : ℕ)
        → IsTable hash less h
        → IsFoundIn h new none
        → holds hash less h new ≡ false
        → IsTable hash less (insert_elem h (bucket_of hash less h.bucket_cnt new) new)
    unfolding insert_elem
    insert_elem-IsTable h new t fresh out = record {
      some_bucket = t.some_bucket;
      placed = λ i x m. elim (Bool-cases (x == new)) [
        | inl e ↦ ground (
          arith,
          t.placed i x,
          e,
          ap (bucket_of hash less h.bucket_cnt) (eq_of_== x new e),
          t.placed i new,
        )
        | inr e ↦ ground (arith, t.placed i x, e)
      ];
      distinct =
          λ i. ground (arith, t.distinct i, t.distinct (bucket_of hash less h.bucket_cnt new), out);
      unique = λ x y m n e. ground (
        arith,
        sym (holds-insert_elem h new x) ∙ m,
        sym (holds-insert_elem h new y) ∙ n,
        fresh x,
        fresh y,
        t.unique x y,
      );
    }

    -- What `hash_insert` promises of what it answers and the new table: it adds the element unless an equal one is there.
    abbrev pub IsInserted : Hash → ℕ → Option ℕ × Hash → Type 0
    IsInserted h new r =
        IsTable hash less (r.1)
        × IsFoundIn h new (r.0)
        × ((x : ℕ)
            → holds hash less (r.1) x ≡ (holds hash less h x || (is_none (r.0) && (x == new))))

    after_insert :
        (allocated : Bool) (h : Hash) (new : ℕ) (o : Option ℕ)
        → IsTable hash less h
        → holds hash less h new ≡ false
        → IsFoundIn h new o
        → IsInserted h new (
          o,
          rehash hash less allocated (elim o [
            | none ↦ insert_elem h (bucket_of hash less h.bucket_cnt new) new
            | some e ↦ h
          ]),
        )
    after_insert allocated h new none t out f =
        let h₁ = insert_elem h (bucket_of hash less h.bucket_cnt new) new in
        let (t', same) =
          rehash-IsTable hash less allocated h₁ (insert_elem-IsTable h new t f out) in
        (t', f, λ x. same x ∙ holds-insert_elem h new x)
    after_insert allocated h new (some e) t out f =
        let (t', same) = rehash-IsTable hash less allocated h t in
        (t', f, λ x. same x ∙ ground arith)

    -- On a table in order and an element that is not in it, `hash_insert` answers an equal element of
    -- the table, if there is one, and then the elements stay; else it answers none and adds the element. The new
    -- table is in order, whether memory for new buckets is there or not.
    pub hash_insert-IsInserted :
        (allocated : Bool) (h : Hash) (new : ℕ)
        → IsTable hash less h
        → holds hash less h new ≡ false
        → IsInserted h new (hash_insert hash less allocated h new)
    unfolding hash_insert hash_find
    hash_insert-IsInserted allocated h new t out =
        after_insert allocated h new (hash_find hash less h new) t out
          (Finding.hash_find-IsFoundIn hash less agree h new t)

    -- Whether or not the element is in a bucket, its removal leaves the others there.
    holds-remove_elem :
        (h : Hash) (e x : ℕ)
        → IsTable hash less h
        → holds hash less (remove_elem h e) x ≡ (holds hash less h x && not (x == e))
    unfolding remove_elem
    holds-remove_elem h e x t =
        let bucket = h.buckets (bucket_of hash less h.bucket_cnt x) in
        elim (Bool-cases (x == e)) [
          | inl same ↦
              let gone =
                mem-erase_self x bucket (t.distinct (bucket_of hash less h.bucket_cnt x)) in
              ground (arith, same, ap (λ y. mem x (erase y bucket)) (eq_of_== x e same), gone)
          | inr other ↦ ground (arith, other, mem-erase_ne x e bucket (ground arith))
        ]

    remove_elem-IsTable :
        (h : Hash) (e : ℕ) → IsTable hash less h → IsTable hash less (remove_elem h e)
    unfolding remove_elem
    remove_elem-IsTable h e t = record {
      some_bucket = t.some_bucket;
      placed = λ i x m. t.placed i x (mem-of-erase x e (h.buckets i) m);
      distinct = λ i. IsDistinct-erase e (h.buckets i) (t.distinct i);
      unique = λ x y m n.
          t.unique x y (mem-of-erase x e (h.buckets (bucket_of hash less h.bucket_cnt x)) m)
            (mem-of-erase y e (h.buckets (bucket_of hash less h.bucket_cnt y)) n);
    }

    abbrev pub IsDeleted : Hash → ℕ → Option ℕ × Hash → Type 0
    IsDeleted h e r =
        IsTable hash less (r.1)
        × IsFoundIn h e (r.0)
        × ((x : ℕ) → holds hash less (r.1) x ≡ (holds hash less h x && not (is_it (r.0) x)))

    after_delete :
        (allocated : Bool) (h : Hash) (e : ℕ) (o : Option ℕ)
        → IsTable hash less h
        → IsFoundIn h e o
        → IsDeleted h e
            (o, elim o [ none ↦ h | some x ↦ rehash hash less allocated (remove_elem h x) ])
    after_delete allocated h e none t f = (t, f, λ x. ground arith)
    after_delete allocated h e (some y) t f =
        let (t', same) =
          rehash-IsTable hash less allocated (remove_elem h y) (remove_elem-IsTable h y t) in
        (t', f, λ x. same x ∙ holds-remove_elem h y x t)

    -- On a table in order, `hash_delete` answers an element that is equal to the one given, if there
    -- is one, and takes just that out of the table. The new table is in order, whether memory for new
    -- buckets is there or not.
    pub hash_delete-IsDeleted :
        (allocated : Bool) (h : Hash) (e : ℕ)
        → IsTable hash less h
        → IsDeleted h e (hash_delete hash less allocated h e)
    unfolding hash_delete hash_find
    hash_delete-IsDeleted allocated h e t =
        after_delete allocated h e (hash_find hash less h e) t
          (Finding.hash_find-IsFoundIn hash less agree h e t)

    abbrev pub IsReplaced : Hash → ℕ → Option ℕ × Hash → Type 0
    IsReplaced h new r =
        IsTable hash less (r.1)
        × IsFoundIn h new (r.0)
        × ((x : ℕ)
            → holds hash less (r.1) x
              ≡ ((holds hash less h x && not (is_it (r.0) x)) || (x == new)))

    -- With the old element gone no equal one is left.
    none_left :
        (h : Hash) (new y : ℕ)
        → IsTable hash less h
        → ((x z : ℕ)
            → is_equal hash less x new ≡ true
            → is_equal hash less z new ≡ true
            → is_equal hash less x z ≡ true)
        → IsFoundIn h new (some y)
        → IsFoundIn (remove_elem h y) new none
    none_left h new y t trans f = λ x m. elim (Bool-cases (is_equal hash less x new)) [
      | inl same ↦
          let kept = sym (holds-remove_elem h y x t) ∙ m in
          absurd (ground (arith, kept, t.unique x y, f.0, trans x y same f.1))
      | inr other ↦ other
    ]

    after_replace :
        (allocated : Bool) (h : Hash) (new : ℕ) (o : Option ℕ)
        → IsTable hash less h
        → ((x z : ℕ)
            → is_equal hash less x new ≡ true
            → is_equal hash less z new ≡ true
            → is_equal hash less x z ≡ true)
        → holds hash less h new ≡ false
        → IsFoundIn h new o
        → IsReplaced h new (
          o,
          rehash hash less allocated (
              insert_elem
                (elim o [ none ↦ h | some e ↦ remove_elem h e ])
                (bucket_of hash less h.bucket_cnt new)
                new),
        )
    unfolding remove_elem
    after_replace allocated h new none t trans out f =
        let h₁ = insert_elem h (bucket_of hash less h.bucket_cnt new) new in
        let (t', same) =
          rehash-IsTable hash less allocated h₁ (insert_elem-IsTable h new t f out) in
        (t', f, λ x. same x ∙ (holds-insert_elem h new x ∙ ground arith))
    after_replace allocated h new (some y) t trans out f =
        let h₀ = remove_elem h y in
        let h₁ = insert_elem h₀ (bucket_of hash less h.bucket_cnt new) new in
        let gone = holds-remove_elem h y new t in
        let (t', same) = rehash-IsTable hash less allocated h₁ (
          insert_elem-IsTable h₀ new (remove_elem-IsTable h y t) (none_left h new y t trans f)
            (gone ∙ ground (arith, out))) in
        (
          t',
          f,
          λ x.
              same x
              ∙ (holds-insert_elem h₀ new x
                  ∙ ap (λ b. b || (x == new)) (holds-remove_elem h y x t)),
        )

    -- On a table in order, where two elements that are equal to the new one are equal, `hash_replace` of
    -- an element that is not in the table answers an equal element, if there is one, takes it out,
    -- and adds the new one. The new table is in order, whether memory for new buckets is there or not.
    pub hash_replace-IsReplaced :
        (allocated : Bool) (h : Hash) (new : ℕ)
        → IsTable hash less h
        → ((x z : ℕ)
            → is_equal hash less x new ≡ true
            → is_equal hash less z new ≡ true
            → is_equal hash less x z ≡ true)
        → holds hash less h new ≡ false
        → IsReplaced h new (hash_replace hash less allocated h new)
    unfolding hash_replace hash_find
    hash_replace-IsReplaced allocated h new t trans out =
        after_replace allocated h new (hash_find hash less h new) t trans out
          (Finding.hash_find-IsFoundIn hash less agree h new t)
