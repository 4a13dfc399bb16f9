-- ===== src/Donation/Shed.antt =====
-- src/threads/thread.c: what `shed_priority` computes.
use mathlib.Core.Path.{subst}
use cs.Common.{◌∙◌, ◌≢◌, ℕ, ◌≡◌, refl, ◌⊎◌, inl, inr, true, List, [], ◌∷◌, arith, mem, All}
use cs.Common.Int.{ℤ, ◌≤ℤ◌}
use cs.Threads.{Kernel, Lock, pri_min}
use cs.Donation.{shed_loop, shed_priority, raise}

-- `p` is the highest of `floor` and the priorities of the locks.
pub record IsHighestOf (lock : ℕ → Lock) (floor : ℤ) (locks : List ℕ) (p : ℤ) : Type 0 where
  pub above_floor : floor ≤ℤ p
  pub above : All (λ l. (lock l).priority ≤ℤ p) locks
  pub reached : (p ≡ floor) ⊎ ((l : ℕ) × (mem l locks ≡ true) × (p ≡ (lock l).priority))

raise_cases : (d p : ℤ) → ((raise d p ≡ d) × (p ≤ℤ d)) ⊎ ((raise d p ≡ p) × (d ≤ℤ p))
raise_cases d p = ground arith

Reached : (ℕ → Lock) → ℤ → List ℕ → ℤ → Type 0
Reached lock floor locks p =
    (p ≡ floor) ⊎ ((l : ℕ) × (mem l locks ≡ true) × (p ≡ (lock l).priority))

mem-cons_self : (l : ℕ) (ls : List ℕ) → mem l (l ∷ ls) ≡ true
mem-cons_self l ls = ground arith

mem-cons_of : (m l : ℕ) (ls : List ℕ) → mem m ls ≡ true → mem m (l ∷ ls) ≡ true
mem-cons_of m l ls h = ground arith

shed_loop-IsHighestOf :
    (lock : ℕ → Lock) (floor : ℤ) (locks : List ℕ)
    → IsHighestOf lock floor locks (shed_loop lock floor locks)
unfolding shed_loop
shed_loop-IsHighestOf lock floor [] = record {
  above_floor = omega arith;
  above = tt;
  reached = inl refl;
}
shed_loop-IsHighestOf lock floor (l ∷ ls) =
    let next = raise (lock l).priority floor in
    let h = shed_loop-IsHighestOf lock next ls in
    elim (raise_cases (lock l).priority floor) [
      | inl (e, le) ↦ record {
        above_floor = ground (arith, h.above_floor);
        above = (ground (arith, h.above_floor), h.above);
        reached = elim h.reached [
          | inl i ↦ inr (l, mem-cons_self l ls, i ∙ e)
          | inr (m, at_m, i) ↦ inr (m, mem-cons_of m l ls at_m, i)
        ];
      }
      | inr (e, le) ↦ record {
        above_floor = ground (arith, h.above_floor);
        above = (ground (arith, h.above_floor), h.above);
        reached = elim h.reached [
          | inl i ↦ inl (i ∙ e)
          | inr (m, at_m, i) ↦ inr (m, mem-cons_of m l ls at_m, i)
        ];
      }
    ]

-- Shedding sets the priority of the running thread to the highest of PRI_MIN and the priorities of
-- the locks that it holds, its own dummy lock among them, and changes no other thread and no lock.
pub shed_priority-IsHighestOf :
    (k : Kernel)
    → IsHighestOf k.lock pri_min
        (k.thread k.current).locks_held
        ((shed_priority k).thread k.current).priority
      × ((t : ℕ) → t ≢ k.current → (shed_priority k).thread t ≡ k.thread t)
      × ((shed_priority k).lock ≡ k.lock)
unfolding shed_priority
shed_priority-IsHighestOf k =
    let h = shed_loop-IsHighestOf k.lock pri_min (k.thread k.current).locks_held in
    (
      subst (IsHighestOf k.lock pri_min (k.thread k.current).locks_held) (ground arith) h,
      λ t ne. ground arith,
      refl,
    )
