-- ===== src/Sched/Preempt.antt =====
-- src/threads/thread.c: which thread runs after a yield.
use mathlib.Core.Path.{subst}
use cs.Common.{
  ℕ, ◌≡◌, refl, true, false, not, Option, some, List, [], ◌∷◌, arith, ◌==◌, mem, erase, null, All,
  ap, sym, ◌∙◌, mem-of-erase, assert, >>=-eq-some,
}
use cs.Common.Int.{◌≤ℤ◌}
use cs.Threads.{Kernel, pri_max, is_running}
use cs.Sched.{
  priority_of, expect_thread, choose_next, next_thread_to_run, thread_schedule_tail,
  refresh_priorities, switch_to_next, schedule, thread_yield,
}
use cs.Sched.Highest.{get_highest_priority_thread-IsFirstHighest, IsFirstHighest-le}
use cs.Sched.Valid.{IsValid, IsSwitching}
use cs.Sched.Switch.{choose_next-Picked, switched, switched-IsValid}
use cs.Sched.Yield.{yielding, yielding-IsSwitching}

-- No ready thread has a higher priority than the running one.
abbrev pub RunsHighest : Kernel → Type 0
RunsHighest k = (u : ℕ) → mem u k.ready_list ≡ true → priority_of k u ≤ℤ priority_of k k.current

All-of : (P : ℕ → Type 0) (list : List ℕ) → ((t : ℕ) → P t) → All P list
All-of P [] h = tt
All-of P (x ∷ list) h = (h x, All-of P list h)

chosen_parts :
    (t h : ℕ) (rest list : List ℕ) {o : Option (ℕ × List ℕ)}
    → o ≡ some (t, rest)
    → o ≡ some (h, list)
    → (h ≡ t) × (list ≡ rest)
chosen_parts t h rest list e i = ground arith

choose_next-le :
    (k : Kernel) (list : List ℕ)
    → ((t : ℕ) → priority_of k t ≤ℤ pri_max)
    → (t : ℕ) (rest : List ℕ) → choose_next k list ≡ some (t, rest)
    → (u : ℕ) → mem u rest ≡ true
    → priority_of k u ≤ℤ priority_of k t
unfolding choose_next
choose_next-le k [] b t rest e u m =
    let same = chosen_parts t k.idle_thread rest [] e refl in
    cc (subst (λ l. mem u l ≡ true) (sym same.1) m)
choose_next-le k (x ∷ list) b t rest e u m =
    let (h, g, f) =
      get_highest_priority_thread-IsFirstHighest k x list true
        (All-of (λ a. priority_of k a ≤ℤ pri_max) (x ∷ list) b) in
    let same = chosen_parts t h rest (erase h (x ∷ list)) e (ap expect_thread g) in
    subst (λ a. priority_of k u ≤ℤ priority_of k a) same.0
      (IsFirstHighest-le f u
        (mem-of-erase u h (x ∷ list) (subst (λ l. mem u l ≡ true) (sym same.1) m)))

yielding-bound :
    (k : Kernel)
    → ((t : ℕ) → priority_of k t ≤ℤ pri_max)
    → (t : ℕ) → priority_of (yielding k) t ≤ℤ pri_max
unfolding yielding
yielding-bound k b t = ground (arith, b t, b k.current)

yielding_mlfqs : (k : Kernel) → k.thread_mlfqs ≡ false → (yielding k).thread_mlfqs ≡ false
unfolding yielding
yielding_mlfqs k off = ground arith

switch_to_next-RunsHighest :
    (k : Kernel)
    → IsSwitching k
    → ((t : ℕ) → priority_of k t ≤ℤ pri_max)
    → (k' : Kernel) × (switch_to_next k ≡ some k') × IsValid k' × RunsHighest k'
unfolding switch_to_next next_thread_to_run thread_schedule_tail
switch_to_next-RunsHighest k s b =
    let (t, rest, chosen, p) = choose_next-Picked k k.ready_list s refl in
    let le = choose_next-le k k.ready_list b t rest chosen in
    let stopped : is_running (k.thread k.current).status ≡ false =
      ground (arith, s.none_runs k.current) in
    let there : (t == null) ≡ false = ground (arith, p.exists) in
    (
      switched s p,
      rw chosen (rw stopped (rw there)),
      switched-IsValid s p,
      λ u m. ground (arith, le u m),
    )

thread_yield-yielding : (k : Kernel) → thread_yield k ≡ schedule (yielding k)
unfolding thread_yield yielding
thread_yield-yielding k = refl

pub schedule_quiet : (k : Kernel) → k.thread_mlfqs ≡ false → schedule k ≡ switch_to_next k
unfolding schedule refresh_priorities
schedule_quiet k off = rw off

-- From a valid state with priorities up to PRI_MAX, under the priority scheduler, `thread_yield`
-- succeeds, leaves a valid state, and then no ready thread has a higher priority than the running one.
pub thread_yield-RunsHighest :
    (k : Kernel)
    → IsValid k
    → k.thread_mlfqs ≡ false
    → ((t : ℕ) → priority_of k t ≤ℤ pri_max)
    → (k' : Kernel) × (thread_yield k ≡ some k') × IsValid k' × RunsHighest k'
thread_yield-RunsHighest k v off b =
    let (k', e, done, high) =
      switch_to_next-RunsHighest (yielding k) (yielding-IsSwitching k v)
        (λ t. yielding-bound k b t) in
    (
      k',
      thread_yield-yielding k ∙ (schedule_quiet (yielding k) (yielding_mlfqs k off) ∙ e),
      done,
      high,
    )

-- No thread changes its priority.
abbrev pub SamePriorities : Kernel → Kernel → Type 0
SamePriorities k k' = (t : ℕ) → priority_of k' t ≡ priority_of k t

from_some : (k k₁ k' : Kernel) → SamePriorities k k₁ → some k₁ ≡ some k' → SamePriorities k k'
from_some k k₁ k' s e = let i : k₁ ≡ k' = cc in subst (SamePriorities k) i s

pub schedule-SamePriorities :
    (k k' : Kernel) → k.thread_mlfqs ≡ false → schedule k ≡ some k' → SamePriorities k k'
unfolding switch_to_next thread_schedule_tail
schedule-SamePriorities k k' off e =
    let ((t, rest), i, f) = >>=-eq-some (next_thread_to_run k) _ (sym (schedule_quiet k off) ∙ e) in
    let (u, j, g) = >>=-eq-some (assert (not (is_running (k.thread k.current).status))) _ f in
    let (w, m, h) = >>=-eq-some (assert (not (t == null))) _ g in
    from_some k (thread_schedule_tail t (record k { ready_list = rest })) k' (λ a. ground arith) h
