-- ===== src/Sched/Highest.antt =====
-- src/threads/thread.c: what `get_highest_priority_thread` finds.
use cs.Common.{
  ℕ, ◌+◌, ◌<◌, ◌≡◌, refl, inl, inr, ◌⊎◌, Bool, true, none, some, List, [], ◌∷◌, ◌++◌, arith, ◌==◌,
  if◌then◌else◌, Bool-cases, eq_of_==, ap, All, mem, erase,
}
use cs.Common.Int.{ℤ, pos_part, neg_part, ◌≤ℤ◌}
use cs.Threads.{Kernel, pri_max}
use cs.Sched.{better, highest_loop, get_highest_priority_thread, is_pri_max, priority_of}

infix 50 ◌<ℤ◌
abbrev pub ◌<ℤ◌ : ℤ → ℤ → Type 0
a <ℤ b = pos_part a + neg_part b < pos_part b + neg_part a

-- `t` is the first thread of highest priority in `list`.
pub record IsFirstHighest (priority : ℕ → ℤ) (list : List ℕ) (t : ℕ) : Type 0 where
  pub before : List ℕ
  pub after : List ℕ
  pub split : list ≡ before ++ (t ∷ after)
  pub lower : All (λ x. priority x <ℤ priority t) before
  pub at_most : All (λ x. priority x ≤ℤ priority t) after

module _ (priority : ℕ → ℤ) where
  abbrev IsBounded : List ℕ → Type 0
  IsBounded = All (λ x. priority x ≤ℤ pri_max)

  -- The best thread so far stays, or a later thread beats it.
  abbrev Found : ℕ → List ℕ → ℕ → Type 0
  Found best list t =
      ((t ≡ best) × All (λ x. priority x ≤ℤ priority best) list)
      ⊎ (IsFirstHighest priority list t × (priority best <ℤ priority t))

  All-le_max :
      (p : ℤ) (list : List ℕ) → pri_max ≤ℤ p → IsBounded list → All (λ x. priority x ≤ℤ p) list
  All-le_max p [] h b = tt
  All-le_max p (x ∷ list) h b = (omega arith, All-le_max p list h b.1)

  first_here :
      (x t : ℕ) (list : List ℕ)
      → t ≡ x
      → All (λ y. priority y ≤ℤ priority x) list
      → IsFirstHighest priority (x ∷ list) t
  first_here x t list e all = record {
    before = [];
    after = list;
    split = rw e;
    lower = tt;
    at_most = rw e all;
  }

  first_later :
      (x t : ℕ) (list : List ℕ)
      → priority x <ℤ priority t
      → IsFirstHighest priority list t
      → IsFirstHighest priority (x ∷ list) t
  first_later x t list lt f = record {
    before = x ∷ f.before;
    after = f.after;
    split = ap (◌∷◌ x) f.split;
    lower = (lt, f.lower);
    at_most = f.at_most;
  }

  Found-beats :
      (best x t : ℕ) (list : List ℕ)
      → priority best <ℤ priority x
      → Found x list t
      → Found best (x ∷ list) t
  Found-beats best x t list lt (inl (e, all)) = inr (first_here x t list e all, rw e lt)
  Found-beats best x t list lt (inr (f, above)) = inr (first_later x t list above f, omega arith)

  Found-stays :
      (best x t : ℕ) (list : List ℕ)
      → priority x ≤ℤ priority best
      → Found best list t
      → Found best (x ∷ list) t
  Found-stays best x t list le (inl (e, all)) = inl (e, (le, all))
  Found-stays best x t list le (inr (f, above)) = inr (first_later x t list (omega arith) f, above)

  Better : ℕ → ℕ → Type 0
  Better best x =
      ((better priority (some best) x ≡ x) × (priority best <ℤ priority x))
      ⊎ ((better priority (some best) x ≡ best) × (priority x ≤ℤ priority best))

  Better-cases : (best x : ℕ) → Better best x
  unfolding better Better
  Better-cases best x = ground arith

  -- The loop from the best thread `h` so far, with or without the early end.
  scan-Found :
      (h : ℕ) (list : List ℕ)
      → IsBounded list
      → ((t : ℕ) × (highest_loop priority (some h) list ≡ some t) × Found h list t)
      → (t : ℕ) × ((if is_pri_max (priority h) then some h else highest_loop priority (some h) list)
          ≡ some t)
        × Found h list t
  scan-Found h list b (t, e, f) = elim (Bool-cases (is_pri_max (priority h))) [
    | inl top ↦ (h, rw top, inl (refl, All-le_max (priority h) list (ground arith) b))
    | inr more ↦ (t, rw more e, f)
  ]

  highest_loop-Found :
      (best : ℕ) (list : List ℕ)
      → IsBounded list
      → (t : ℕ) × (highest_loop priority (some best) list ≡ some t) × Found best list t
  unfolding highest_loop Better
  highest_loop-Found best [] b = (best, refl, inl (refl, tt))
  highest_loop-Found best (x ∷ list) b = elim (Better-cases best x) [
    | inl (e, lt) ↦
        let (t, found, f) = scan-Found x list b.1 (highest_loop-Found x list b.1) in
        (t, rw e found, Found-beats best x t list lt f)
    | inr (e, le) ↦
        let (t, found, f) = scan-Found best list b.1 (highest_loop-Found best list b.1) in
        (t, rw e found, Found-stays best x t list le f)
  ]

  highest_loop-nonempty :
      (x : ℕ) (list : List ℕ)
      → IsBounded (x ∷ list)
      → (t : ℕ) × (highest_loop priority none (x ∷ list) ≡ some t)
        × IsFirstHighest priority (x ∷ list) t
  unfolding highest_loop better
  highest_loop-nonempty x list b =
      let (t, found, f) = scan-Found x list b.1 (highest_loop-Found x list b.1) in
      (
        t,
        found,
        elim f [
          | inl (e, all) ↦ first_here x t list e all
          | inr (g, above) ↦ first_later x t list above g
        ],
      )

  abbrev IsAmong : ℕ → List ℕ → ℕ → Type 0
  IsAmong best list t = (t ≡ best) ⊎ (mem t list ≡ true)

  scan-IsAmong :
      (h : ℕ) (list : List ℕ)
      → ((t : ℕ) × (highest_loop priority (some h) list ≡ some t) × IsAmong h list t)
      → (t : ℕ) × ((if is_pri_max (priority h) then some h else highest_loop priority (some h) list)
          ≡ some t)
        × IsAmong h list t
  scan-IsAmong h list (t, e, a) = elim (Bool-cases (is_pri_max (priority h))) [
    | inl top ↦ (h, rw top, inl refl)
    | inr more ↦ (t, rw more e, a)
  ]

  highest_loop-IsAmong :
      (best : ℕ) (list : List ℕ)
      → (t : ℕ) × (highest_loop priority (some best) list ≡ some t) × IsAmong best list t
  unfolding highest_loop Better
  highest_loop-IsAmong best [] = (best, refl, inl refl)
  highest_loop-IsAmong best (x ∷ list) = elim (Better-cases best x) [
    | inl (e, lt) ↦
        let (t, found, a) = scan-IsAmong x list (highest_loop-IsAmong x list) in
        (t, rw e found, ground arith)
    | inr (e, le) ↦
        let (t, found, a) = scan-IsAmong best list (highest_loop-IsAmong best list) in
        (t, rw e found, ground arith)
  ]

  -- Whatever the priorities, a member is found of a list that is not empty.
  pub highest_loop-mem :
      (x : ℕ) (list : List ℕ)
      → (t : ℕ) × (highest_loop priority none (x ∷ list) ≡ some t) × (mem t (x ∷ list) ≡ true)
  unfolding highest_loop better
  highest_loop-mem x list =
      let (t, found, a) = scan-IsAmong x list (highest_loop-IsAmong x list) in
      (t, found, ground arith)

-- On a list that is not empty, of threads with priorities up to PRI_MAX, the thread found is the
-- first of highest priority: each thread before it has a lower priority, and none after it a higher
-- one. The list given back has lost the thread exactly if it was to be removed.
pub get_highest_priority_thread-IsFirstHighest :
    (k : Kernel) (x : ℕ) (list : List ℕ) (should_remove : Bool)
    → All (λ t. priority_of k t ≤ℤ pri_max) (x ∷ list)
    → (t : ℕ) × (get_highest_priority_thread k (x ∷ list) should_remove
        ≡ (some t, if should_remove then erase t (x ∷ list) else x ∷ list))
      × IsFirstHighest (priority_of k) (x ∷ list) t
unfolding get_highest_priority_thread
get_highest_priority_thread-IsFirstHighest k x list should_remove b =
    let (t, found, f) = highest_loop-nonempty (priority_of k) x list b in
    (t, rw (found, get_highest_priority_thread), f)

mem_middle : (t : ℕ) (xs ys : List ℕ) → mem t (xs ++ (t ∷ ys)) ≡ true
mem_middle t [] ys = ground arith
mem_middle t (x ∷ xs) ys = ground (arith, mem_middle t xs ys)

All-mem : (P : ℕ → Type 0) (u : ℕ) (xs : List ℕ) → All P xs → mem u xs ≡ true → P u
All-mem P u [] a m = cc
All-mem P u (x ∷ xs) a m = elim (Bool-cases (u == x)) [
  | inl e ↦ rw (eq_of_== u x e) a.0
  | inr e ↦ All-mem P u xs a.1 (rw e at m)
]

highest-le :
    (priority : ℕ → ℤ) (t u : ℕ) (xs ys : List ℕ)
    → All (λ x. priority x <ℤ priority t) xs
    → All (λ x. priority x ≤ℤ priority t) ys
    → mem u (xs ++ (t ∷ ys)) ≡ true
    → priority u ≤ℤ priority t
highest-le priority t u [] ys lower at_most m =
    All-mem (λ x. priority x ≤ℤ priority t) u (t ∷ ys) (omega arith, at_most) m
highest-le priority t u (x ∷ xs) ys lower at_most m = elim (Bool-cases (u == x)) [
  | inl e ↦ rw (eq_of_== u x e) (omega (arith, lower.0))
  | inr e ↦ highest-le priority t u xs ys lower.1 at_most (rw e at m)
]

module _ {priority : ℕ → ℤ} {list : List ℕ} {t : ℕ} (f : IsFirstHighest priority list t) where
  pub IsFirstHighest-mem : mem t list ≡ true
  IsFirstHighest-mem = rw f.split (mem_middle t f.before f.after)

  pub IsFirstHighest-le : (u : ℕ) → mem u list ≡ true → priority u ≤ℤ priority t
  IsFirstHighest-le u m =
      highest-le priority t u f.before f.after f.lower f.at_most (rw f.split at m)

pub get_highest_priority_thread-mem :
    (k : Kernel) (x : ℕ) (list : List ℕ)
    → (t : ℕ) × (get_highest_priority_thread k (x ∷ list) true ≡ (some t, erase t (x ∷ list)))
      × (mem t (x ∷ list) ≡ true)
unfolding get_highest_priority_thread
get_highest_priority_thread-mem k x list =
    let (t, found, m) = highest_loop-mem (priority_of k) x list in
    (t, rw (found, get_highest_priority_thread), m)

pub get_highest_priority_thread-nil :
    (k : Kernel) (should_remove : Bool)
    → get_highest_priority_thread k [] should_remove ≡ (none, [])
unfolding get_highest_priority_thread highest_loop
get_highest_priority_thread-nil k should_remove = refl
