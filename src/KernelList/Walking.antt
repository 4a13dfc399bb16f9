-- ===== src/KernelList/Walking.antt =====
-- src/lib/kernel/list.c: the functions that walk along a list.
use mathlib.Core.Path.{subst}
use mathlib.Core.List.{append_assoc}
use cs.Common.{
  ℕ, zero, suc, ◌+◌, ◌<◌, ◌≡◌, refl, ap, sym, ◌∙◌, inl, inr, Bool, true, false, List, [], ◌∷◌, ◌++◌,
  arith, ◌==◌, if◌then◌else◌, mem, null, mem-append, mem-push_back, some, length, Bool-cases,
}
use cs.KernelList.{
  Links, tail_of, is_head, is_interior, list_next, list_size, size_loop, list_begin, list_end,
}
use cs.KernelList.Sorting.{find_place, list_insert_ordered}
use cs.KernelList.Chain.{next-lem}
use cs.KernelList.Editing.{
  nodes, IsList, SameOutside, first_of, IsDistinct-apart, IsDistinct-suffix, before_exists,
  IsList-IsSplit, list_insert-IsList,
}

-- A step along the list.
step_at :
    (m : Links) (l y b : ℕ) (xs ys zs : List ℕ)
    → IsList m l (xs ++ (y ∷ ys))
    → ys ++ (tail_of l ∷ []) ≡ b ∷ zs
    → ((y == tail_of l) ≡ false) × (list_next y m ≡ some b)
unfolding list_next is_head is_interior
step_at m l y b xs ys zs r e =
    let s = IsList-IsSplit m l y xs (y ∷ ys) (b ∷ zs) r (ap (λ w. y ∷ w) e) in
    let next : m.next y ≡ b = next-lem m l y b xs zs s.s_chain in
    let apart = mem-append null xs (y ∷ (b ∷ zs)) in
    let last =
      subst (λ w. mem (tail_of l) w ≡ true) e
        (ground (arith, mem-push_back (tail_of l) (tail_of l) ys)) in
    let out =
      IsDistinct-apart (tail_of l) (y ∷ []) (b ∷ zs)
        (IsDistinct-suffix xs (y ∷ (b ∷ zs)) s.s_distinct.1) last in
    (ground arith, ground (arith, before_exists m l y xs (b ∷ zs) s, s.s_exist))

list_next-first_of :
    (m : Links) (l y : ℕ) (xs ys : List ℕ)
    → IsList m l (xs ++ (y ∷ ys))
    → ((y == tail_of l) ≡ false) × (list_next y m ≡ some (first_of l ys))
list_next-first_of m l y xs [] r = step_at m l y (tail_of l) xs [] [] r refl
list_next-first_of m l y xs (z ∷ ys) r = step_at m l y z xs (z ∷ ys) (ys ++ (tail_of l ∷ [])) r refl

list_begin-first_of :
    (m : Links) (l : ℕ) (xs : List ℕ) → IsList m l xs → list_begin l m ≡ some (first_of l xs)
unfolding list_begin
list_begin-first_of m l [] r = ground (arith, r.exist, r.chain)
list_begin-first_of m l (x ∷ xs) r = ground (arith, r.exist, r.chain)

list_end-tail_of : (m : Links) (l : ℕ) (xs : List ℕ) → IsList m l xs → list_end l ≡ some (tail_of l)
unfolding list_end
list_end-tail_of m l xs r = ground (arith, r.exist)

-- The elements `xs` that are passed, and the next one.
passed :
    (m : Links) (l y : ℕ) (xs ys : List ℕ)
    → IsList m l (xs ++ (y ∷ ys))
    → IsList m l ((xs ++ (y ∷ [])) ++ ys)
passed m l y xs ys r = subst (λ w. IsList m l w) (sym (append_assoc xs (y ∷ []) ys)) r

size_loop-lem :
    (m : Links) (l fuel cnt : ℕ) (xs ys : List ℕ)
    → IsList m l (xs ++ ys)
    → length ys < fuel
    → size_loop fuel (tail_of l) (first_of l ys) cnt m ≡ some (length ys + cnt)
unfolding size_loop
size_loop-lem m l zero cnt xs ys r f = absurd (omega arith)
size_loop-lem m l (suc fuel) cnt xs [] r f = ground arith
size_loop-lem m l (suc fuel) cnt xs (y ∷ ys) r f =
    let (ne, step) = list_next-first_of m l y xs ys r in
    let rest =
      size_loop-lem m l fuel (suc cnt) (xs ++ (y ∷ [])) ys (passed m l y xs ys r) (omega arith) in
    rw (ne, step) (rest ∙ ap some (omega arith))

-- With more fuel than elements `list_size` returns the number of elements.
pub list_size-length :
    (m : Links) (l fuel : ℕ) (xs : List ℕ)
    → IsList m l xs
    → length xs < fuel
    → list_size fuel l m ≡ some (length xs)
unfolding list_size
list_size-length m l fuel xs r f =
    rw (list_begin-first_of m l xs r, list_end-tail_of m l xs r)
      (size_loop-lem m l fuel 0 [] xs r f ∙ ap some (omega arith))

module _ (less : ℕ → ℕ → Bool) where
  -- The list with `elem` before the first element that it is less than.
  unfoldable pub insert_ordered : ℕ → List ℕ → List ℕ
  insert_ordered elem [] = elem ∷ []
  insert_ordered elem (x ∷ xs) = if less elem x then elem ∷ (x ∷ xs) else x ∷ insert_ordered elem xs

  -- Where the loop of `list_insert_ordered` stops.
  find_place-lem :
      (m : Links) (l elem fuel : ℕ) (xs ys : List ℕ)
      → IsList m l (xs ++ ys)
      → length ys < fuel
      → (us vs : List ℕ) × (ys ≡ us ++ vs)
        × (insert_ordered elem ys ≡ us ++ (elem ∷ vs))
        × (find_place less fuel (tail_of l) elem (first_of l ys) m ≡ some (first_of l vs))
  unfolding find_place insert_ordered
  find_place-lem m l elem zero xs ys r f = absurd (omega arith)
  find_place-lem m l elem (suc fuel) xs [] r f = ([], [], refl, refl, ground arith)
  find_place-lem m l elem (suc fuel) xs (y ∷ ys) r f =
      let (ne, step) = list_next-first_of m l y xs ys r in
      let (us, vs, split, placed, stop) =
        find_place-lem m l elem fuel (xs ++ (y ∷ [])) ys (passed m l y xs ys r) (omega arith) in
      elim (Bool-cases (less elem y)) [
        | inl e ↦ ([], y ∷ ys, refl, rw e, rw (ne, e))
        | inr e ↦ (
          y ∷ us,
          vs,
          ap (λ w. y ∷ w) split,
          rw e (ap (λ w. y ∷ w) placed),
          rw (ne, e, step) stop,
        )
      ]

  -- With more fuel than elements, `list_insert_ordered` of an existing element that is not in the list
  -- passes its assertions and leaves the list with that element before the first one that it is less
  -- than, or last. No links change but those of the list and of the element.
  pub list_insert_ordered-insert_ordered :
      (m : Links) (l elem fuel : ℕ) (xs : List ℕ)
      → IsList m l xs
      → mem elem (null ∷ nodes l xs) ≡ false
      → length xs < fuel
      → (m' : Links) × (list_insert_ordered less fuel l elem m ≡ some m')
        × IsList m' l (insert_ordered elem xs)
        × SameOutside (elem ∷ nodes l xs) m m'
  unfolding list_insert_ordered
  list_insert_ordered-insert_ordered m l elem fuel xs r out f =
      let (us, vs, split, placed, stop) = find_place-lem m l elem fuel [] xs r f in
      let (m', done, r', others) =
        list_insert-IsList m l elem us vs (subst (λ w. IsList m l w) split r)
          (subst (λ w. mem elem (null ∷ nodes l w) ≡ false) split out) in
      (
        m',
        rw (list_begin-first_of m l xs r, stop) (ground (arith, r.exist, out, done)),
        subst (λ w. IsList m' l w) (sym placed) r',
        subst (λ w. SameOutside (elem ∷ nodes l w) m m') (sym split) others,
      )
