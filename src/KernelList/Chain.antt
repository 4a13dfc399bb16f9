-- ===== src/KernelList/Chain.antt =====
-- src/lib/kernel/list.c: the elements that a chain of links goes through.
use cs.Common.{ℕ, ◌≡◌, ◌∙◌, true, false, List, [], ◌∷◌, ◌++◌, arith, mem, IsDistinct, mem-append}
use cs.KernelList.{Links, set_next, set_prev}

-- From `a` the `next` members lead through `xs`, and the `prev` members back.
abbrev pub Chain : Links → ℕ → List ℕ → Type 0
Chain m a [] = Unit {0}
Chain m a (b ∷ xs) = (m.next a ≡ b) × (m.prev b ≡ a) × Chain m b xs

-- A chain survives a change that spares what it is made of.
pub frame :
    (m m' : Links) (a : ℕ) (xs : List ℕ)
    → ((c : ℕ) → mem c (a ∷ xs) ≡ true → m'.next c ≡ m.next c)
    → ((c : ℕ) → mem c xs ≡ true → m'.prev c ≡ m.prev c)
    → Chain m a xs
    → Chain m' a xs
frame m m' a [] n p c = tt
frame m m' a (b ∷ xs) n p c = (
  n a (ground arith) ∙ c.0,
  p b (ground arith) ∙ c.1,
  frame m m' b xs (λ e i. n e (ground arith)) (λ e i. p e (ground arith)) c.2,
)

-- The element before `b` is one of those that lead to it.
pub mem-prev :
    (m : Links) (a b : ℕ) (xs ys : List ℕ)
    → Chain m a (xs ++ (b ∷ ys))
    → mem (m.prev b) (a ∷ xs) ≡ true
mem-prev m a b [] ys c = ground (arith, c.1)
mem-prev m a b (x ∷ xs) ys c = ground (arith, mem-prev m x b xs ys c.2)

pub next-lem :
    (m : Links) (a b d : ℕ) (xs ys : List ℕ) → Chain m a (xs ++ (b ∷ (d ∷ ys))) → m.next b ≡ d
next-lem m a b d [] ys c = c.2.0
next-lem m a b d (x ∷ xs) ys c = next-lem m x b d xs ys c.2

-- The links of `list_insert` and `list_remove`.
abbrev pub put_in : ℕ → ℕ → Links → Links
put_in before elem m =
    let m₁ = set_next elem before (set_prev elem (m.prev before) m) in
    set_prev before elem (set_next (m₁.prev before) elem m₁)

abbrev pub take_out : ℕ → Links → Links
take_out elem m =
    let m₁ = set_next (m.prev elem) (m.next elem) m in set_prev (m₁.next elem) (m₁.prev elem) m₁

pub put_in-Chain :
    (m : Links) (a b elem : ℕ) (xs ys : List ℕ)
    → Chain m a (xs ++ (b ∷ ys))
    → IsDistinct (a ∷ (xs ++ (b ∷ ys)))
    → mem elem (a ∷ (xs ++ (b ∷ ys))) ≡ false
    → Chain (put_in b elem m) a (xs ++ (elem ∷ (b ∷ ys)))
put_in-Chain m a b elem [] ys c d out = (
  ground (arith, c.1),
  ground (arith, c.1),
  (
    ground (arith, c.1),
    ground (arith, c.1),
    frame m (put_in b elem m) b ys (λ e i. ground (arith, c.1)) (λ e i. ground (arith, c.1)) c.2,
  ),
)
put_in-Chain m a b elem (x ∷ xs) ys c d out = (
  ground (arith, c.0, mem-prev m x b xs ys c.2, mem-append a xs (b ∷ ys)),
  ground (arith, c.1, mem-append x xs (b ∷ ys)),
  put_in-Chain m x b elem xs ys c.2 d.1 (ground arith),
)

pub take_out-Chain :
    (m : Links) (a b elem : ℕ) (xs ys : List ℕ)
    → Chain m a (xs ++ (elem ∷ (b ∷ ys)))
    → IsDistinct (a ∷ (xs ++ (elem ∷ (b ∷ ys))))
    → Chain (take_out elem m) a (xs ++ (b ∷ ys))
take_out-Chain m a b elem [] ys c d = (
  ground (arith, c.0, c.1, c.2.0),
  ground (arith, c.0, c.1, c.2.0),
  frame m (take_out elem m) b ys (λ e i. ground (arith, c.0, c.1, c.2.0))
      (λ e i. ground (arith, c.0, c.1, c.2.0)) c.2.2,
)
take_out-Chain m a b elem (x ∷ xs) ys c d = (
  ground (arith, c.0, mem-prev m x elem xs (b ∷ ys) c.2, mem-append a xs (elem ∷ (b ∷ ys))),
  ground (arith, c.1, next-lem m x elem b xs ys c.2, mem-append x xs (elem ∷ (b ∷ ys))),
  take_out-Chain m x b elem xs ys c.2 d.1,
)
