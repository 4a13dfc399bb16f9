-- ===== src/KernelList/Editing.antt =====
-- src/lib/kernel/list.c: what insertion and removal do to the list that the links stand for.
use mathlib.Core.Path.{subst}
use mathlib.Core.List.{append_assoc}
use cs.Common.{
  ℕ, ◌≡◌, ◌≢◌, refl, ap, sym, ◌∙◌, true, false, List, [], ◌∷◌, ◌++◌, arith, mem, IsDistinct, null,
  mem-append, mem-push_back, some,
}
use cs.KernelList.{Links, tail_of, is_interior, is_tail, list_insert, list_remove}
use cs.KernelList.Chain.{Chain, put_in, take_out, mem-prev, next-lem, put_in-Chain, take_out-Chain}

-- The head, the elements and the tail of a list.
abbrev pub nodes : ℕ → List ℕ → List ℕ
nodes l xs = l ∷ (xs ++ (tail_of l ∷ []))

-- The list at `l` has the elements `xs`.
pub record IsList (m : Links) (l : ℕ) (xs : List ℕ) : Type 0 where
  pub chain : Chain m l (xs ++ (tail_of l ∷ []))
  pub before_head : m.prev l ≡ null
  pub after_tail : m.next (tail_of l) ≡ null
  pub exist : mem null (nodes l xs) ≡ false
  pub distinct : IsDistinct (nodes l xs)

-- The two differ at most at the nodes `xs`.
abbrev pub SameOutside : List ℕ → Links → Links → Type 0
SameOutside xs m m' = (c : ℕ) → mem c xs ≡ false → (m'.next c ≡ m.next c) × (m'.prev c ≡ m.prev c)

-- The first element of the list, or its tail.
abbrev pub first_of : ℕ → List ℕ → ℕ
first_of l [] = tail_of l
first_of l (x ∷ xs) = x

pub IsDistinct-apart :
    (c : ℕ) (xs ys : List ℕ) → IsDistinct (xs ++ ys) → mem c ys ≡ true → mem c xs ≡ false
IsDistinct-apart c [] ys d i = refl
IsDistinct-apart c (x ∷ xs) ys d i =
    ground (arith, mem-append x xs ys, IsDistinct-apart c xs ys d.1 i)

pub IsDistinct-suffix : (xs ys : List ℕ) → IsDistinct (xs ++ ys) → IsDistinct ys
IsDistinct-suffix [] ys d = d
IsDistinct-suffix (x ∷ xs) ys d = IsDistinct-suffix xs ys d.1

pub IsDistinct-insert :
    (e : ℕ) (xs ys : List ℕ)
    → IsDistinct (xs ++ ys)
    → mem e (xs ++ ys) ≡ false
    → IsDistinct (xs ++ (e ∷ ys))
IsDistinct-insert e [] ys d out = (out, d)
IsDistinct-insert e (x ∷ xs) ys d out = (
  ground (arith, mem-append x xs ys, mem-append x xs (e ∷ ys)),
  IsDistinct-insert e xs ys d.1 (ground arith),
)

pub IsDistinct-remove :
    (e : ℕ) (xs ys : List ℕ)
    → IsDistinct (xs ++ (e ∷ ys))
    → IsDistinct (xs ++ ys) × (mem e (xs ++ ys) ≡ false)
IsDistinct-remove e [] ys d = (d.1, d.0)
IsDistinct-remove e (x ∷ xs) ys d =
    let (rest, out) = IsDistinct-remove e xs ys d.1 in
    (
      (ground (arith, mem-append x xs ys, mem-append x xs (e ∷ ys)), rest),
      ground (arith, mem-append x xs (e ∷ ys)),
    )

-- `IsList` with the list split before a node `b`.
pub record IsSplit (m : Links) (l b : ℕ) (xs zs : List ℕ) : Type 0 where
  pub s_chain : Chain m l (xs ++ (b ∷ zs))
  pub s_before : m.prev l ≡ null
  pub s_after : m.next (tail_of l) ≡ null
  pub s_last : mem (tail_of l) (b ∷ zs) ≡ true
  pub s_exist : mem null (l ∷ (xs ++ (b ∷ zs))) ≡ false
  pub s_distinct : IsDistinct (l ∷ (xs ++ (b ∷ zs)))

pub before_exists : (m : Links) (l b : ℕ) (xs zs : List ℕ) → IsSplit m l b xs zs → m.prev b ≢ null
before_exists m l b xs zs s =
    let out : mem null (l ∷ xs) ≡ false = ground (arith, mem-append null xs (b ∷ zs), s.s_exist) in
    λ e. cc (subst (λ p. mem p (l ∷ xs) ≡ true) e (mem-prev m l b xs zs s.s_chain), out)

-- The end of the list is not among the elements that lead to `b`.
tail_apart : (m : Links) (l b : ℕ) (xs zs : List ℕ) → IsSplit m l b xs zs → m.prev b ≢ tail_of l
tail_apart m l b xs zs s =
    let out = IsDistinct-apart (tail_of l) (l ∷ xs) (b ∷ zs) s.s_distinct s.s_last in
    λ e. cc (subst (λ p. mem p (l ∷ xs) ≡ true) e (mem-prev m l b xs zs s.s_chain), out)

list_insert-IsSplit :
    (m : Links) (l b elem : ℕ) (xs zs : List ℕ)
    → IsSplit m l b xs zs
    → elem ≢ null
    → mem elem (l ∷ (xs ++ (b ∷ zs))) ≡ false
    → (m' : Links) × (list_insert b elem m ≡ some m')
      × IsSplit m' l elem xs (b ∷ zs)
      × SameOutside (elem ∷ (l ∷ (xs ++ (b ∷ zs)))) m m'
unfolding list_insert is_interior is_tail
list_insert-IsSplit m l b elem xs zs s exists out =
    let apart = mem-append (m.prev b) xs (b ∷ zs) in
    let here = mem-prev m l b xs zs s.s_chain in
    (
      put_in b elem m,
      ground (arith, before_exists m l b xs zs s, s.s_exist, mem-append null xs (b ∷ zs)),
      record {
        s_chain = put_in-Chain m l b elem xs zs s.s_chain s.s_distinct out;
        s_before = ground (arith, s.s_before, mem-append l xs (b ∷ zs), s.s_distinct);
        s_after = ground (
          arith,
          s.s_after,
          tail_apart m l b xs zs s,
          mem-append (tail_of l) xs (b ∷ zs),
          s.s_last,
        );
        s_last = ground (arith, s.s_last);
        s_exist =
            ground
              (arith, s.s_exist, mem-append null xs (b ∷ zs), mem-append null xs (elem ∷ (b ∷ zs)));
        s_distinct = IsDistinct-insert elem (l ∷ xs) (b ∷ zs) s.s_distinct out;
      },
      λ c i. (ground (arith, mem-append c xs (b ∷ zs)), ground (arith, mem-append c xs (b ∷ zs))),
    )

list_remove-IsSplit :
    (m : Links) (l elem b : ℕ) (xs zs : List ℕ)
    → IsSplit m l elem xs (b ∷ zs)
    → mem (tail_of l) (b ∷ zs) ≡ true
    → (m' : Links) × (list_remove elem m ≡ some (b, m'))
      × IsSplit m' l b xs zs
      × SameOutside (l ∷ (xs ++ (elem ∷ (b ∷ zs)))) m m'
unfolding list_remove is_interior
list_remove-IsSplit m l elem b xs zs s last =
    let apart = λ (c : ℕ). mem-append c xs (elem ∷ (b ∷ zs)) in
    let rest = λ (c : ℕ). mem-append c xs (b ∷ zs) in
    let next : m.next elem ≡ b = next-lem m l elem b xs zs s.s_chain in
    let (distinct, out) = IsDistinct-remove elem (l ∷ xs) (b ∷ zs) s.s_distinct in
    let here = mem-prev m l elem xs (b ∷ zs) s.s_chain in
    (
      take_out elem m,
      ground (arith, before_exists m l elem xs (b ∷ zs) s, s.s_exist, apart null),
      record {
        s_chain = take_out-Chain m l b elem xs zs s.s_chain s.s_distinct;
        s_before = ground (arith, s.s_before, apart l, s.s_distinct);
        s_after = ground (arith, s.s_after, tail_apart m l elem xs (b ∷ zs) s, last);
        s_last = last;
        s_exist = ground (arith, s.s_exist, apart null, rest null);
        s_distinct = distinct;
      },
      λ c i. (ground (arith, apart c), ground (arith, apart c)),
    )

-- Lists with their elements split in two.
pub IsList-IsSplit :
    (m : Links) (l b : ℕ) (xs ys zs : List ℕ)
    → IsList m l (xs ++ ys)
    → ys ++ (tail_of l ∷ []) ≡ b ∷ zs
    → IsSplit m l b xs zs
IsList-IsSplit m l b xs ys zs r e =
    let same : (xs ++ ys) ++ (tail_of l ∷ []) ≡ xs ++ (b ∷ zs) =
      append_assoc xs ys (tail_of l ∷ []) ∙ ap (λ w. xs ++ w) e in
    record {
      s_chain = subst (λ w. Chain m l w) same r.chain;
      s_before = r.before_head;
      s_after = r.after_tail;
      s_last =
          subst (λ w. mem (tail_of l) w ≡ true) e
            (ground (arith, mem-push_back (tail_of l) (tail_of l) ys));
      s_exist = subst (λ w. mem null (l ∷ w) ≡ false) same r.exist;
      s_distinct = subst (λ w. IsDistinct (l ∷ w)) same r.distinct;
    }

IsList-join :
    (m : Links) (l b : ℕ) (xs ys zs : List ℕ)
    → IsSplit m l b xs zs
    → ys ++ (tail_of l ∷ []) ≡ b ∷ zs
    → IsList m l (xs ++ ys)
IsList-join m l b xs ys zs s e =
    let same : (xs ++ ys) ++ (tail_of l ∷ []) ≡ xs ++ (b ∷ zs) =
      append_assoc xs ys (tail_of l ∷ []) ∙ ap (λ w. xs ++ w) e in
    record {
      chain = subst (λ w. Chain m l w) (sym same) s.s_chain;
      before_head = s.s_before;
      after_tail = s.s_after;
      exist = subst (λ w. mem null (l ∷ w) ≡ false) (sym same) s.s_exist;
      distinct = subst (λ w. IsDistinct (l ∷ w)) (sym same) s.s_distinct;
    }

insert_at :
    (m : Links) (l b elem : ℕ) (xs ys zs : List ℕ)
    → IsList m l (xs ++ ys)
    → ys ++ (tail_of l ∷ []) ≡ b ∷ zs
    → mem elem (null ∷ nodes l (xs ++ ys)) ≡ false
    → (m' : Links) × (list_insert b elem m ≡ some m')
      × IsList m' l (xs ++ (elem ∷ ys))
      × SameOutside (elem ∷ nodes l (xs ++ ys)) m m'
insert_at m l b elem xs ys zs r e out =
    let same : (xs ++ ys) ++ (tail_of l ∷ []) ≡ xs ++ (b ∷ zs) =
      append_assoc xs ys (tail_of l ∷ []) ∙ ap (λ w. xs ++ w) e in
    let (m', done, s, others) =
      list_insert-IsSplit m l b elem xs zs (IsList-IsSplit m l b xs ys zs r e) (ground arith)
        (subst (λ w. mem elem (l ∷ w) ≡ false) same (ground arith)) in
    (
      m',
      done,
      IsList-join m' l elem xs (elem ∷ ys) (b ∷ zs) s (ap (λ w. elem ∷ w) e),
      subst (λ w. SameOutside (elem ∷ (l ∷ w)) m m') (sym same) others,
    )

-- In a list with the elements `xs ++ ys`, `list_insert` of an existing element that is not in the
-- list before the first of `ys`, or before the tail if there is none, passes its assertions and leaves
-- the list with the elements `xs ++ (elem ∷ ys)`. No links change but those of the list and of the element.
pub list_insert-IsList :
    (m : Links) (l elem : ℕ) (xs ys : List ℕ)
    → IsList m l (xs ++ ys)
    → mem elem (null ∷ nodes l (xs ++ ys)) ≡ false
    → (m' : Links) × (list_insert (first_of l ys) elem m ≡ some m')
      × IsList m' l (xs ++ (elem ∷ ys))
      × SameOutside (elem ∷ nodes l (xs ++ ys)) m m'
list_insert-IsList m l elem xs [] r out = insert_at m l (tail_of l) elem xs [] [] r refl out
list_insert-IsList m l elem xs (y ∷ ys) r out =
    insert_at m l y elem xs (y ∷ ys) (ys ++ (tail_of l ∷ [])) r refl out

remove_at :
    (m : Links) (l elem b : ℕ) (xs ys zs : List ℕ)
    → IsList m l (xs ++ (elem ∷ ys))
    → ys ++ (tail_of l ∷ []) ≡ b ∷ zs
    → (m' : Links) × (list_remove elem m ≡ some (b, m'))
      × IsList m' l (xs ++ ys)
      × SameOutside (nodes l (xs ++ (elem ∷ ys))) m m'
remove_at m l elem b xs ys zs r e =
    let same : (xs ++ (elem ∷ ys)) ++ (tail_of l ∷ []) ≡ xs ++ (elem ∷ (b ∷ zs)) =
      append_assoc xs (elem ∷ ys) (tail_of l ∷ []) ∙ ap (λ w. xs ++ (elem ∷ w)) e in
    let (m', done, s, others) =
      list_remove-IsSplit m l elem b xs zs
        (IsList-IsSplit m l elem xs (elem ∷ ys) (b ∷ zs) r (ap (λ w. elem ∷ w) e))
        (subst (λ w. mem (tail_of l) w ≡ true) e
          (ground (arith, mem-push_back (tail_of l) (tail_of l) ys))) in
    (
      m',
      done,
      IsList-join m' l b xs ys zs s e,
      subst (λ w. SameOutside (l ∷ w) m m') (sym same) others,
    )

-- In a list with the elements `xs ++ (elem ∷ ys)`, `list_remove` of `elem` passes its assertion, returns
-- the first of `ys`, or the tail if there is none, and leaves the list with the elements `xs ++ ys`.
-- Only links of the list change.
pub list_remove-IsList :
    (m : Links) (l elem : ℕ) (xs ys : List ℕ)
    → IsList m l (xs ++ (elem ∷ ys))
    → (m' : Links) × (list_remove elem m ≡ some (first_of l ys, m'))
      × IsList m' l (xs ++ ys)
      × SameOutside (nodes l (xs ++ (elem ∷ ys))) m m'
list_remove-IsList m l elem xs [] r = remove_at m l elem (tail_of l) xs [] [] r refl
list_remove-IsList m l elem xs (y ∷ ys) r =
    remove_at m l elem y xs (y ∷ ys) (ys ++ (tail_of l ∷ [])) r refl
