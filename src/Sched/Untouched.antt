-- ===== src/Sched/Untouched.antt =====
-- src/threads/thread.c: scheduling beside semaphores, locks and condition variables.
use mathlib.Core.Path.{subst}
use cs.Common.{
  ℕ, ◌≡◌, refl, inl, inr, false, not, ◌&&◌, some, List, [], ◌∷◌, ◌==◌, erase, null, Bool-cases,
  update, assert, ◌∙◌, >>=-eq-some,
}
use cs.Threads.{Kernel, is_running, is_blocked}
use cs.Bsd.{update_changed_loop, update_changed_cpu_threads, update_thread_priority}
use cs.Sched.{
  next_thread_to_run, thread_schedule_tail, refresh_priorities, switch_to_next, schedule,
  thread_block, thread_yield, thread_unblock, make_ready,
}

pub record Untouched (k k' : Kernel) : Type 0 where
  pub sema : k'.sema ≡ k.sema
  pub lock : k'.lock ≡ k.lock
  pub condition : k'.condition ≡ k.condition
  pub idle_thread : k'.idle_thread ≡ k.idle_thread
  pub thread_mlfqs : k'.thread_mlfqs ≡ k.thread_mlfqs
  pub all_list : k'.all_list ≡ k.all_list

pub Untouched-trans : {k k' k'' : Kernel} → Untouched k k' → Untouched k' k'' → Untouched k k''
Untouched-trans a b = record {
  sema = b.sema ∙ a.sema;
  lock = b.lock ∙ a.lock;
  condition = b.condition ∙ a.condition;
  idle_thread = b.idle_thread ∙ a.idle_thread;
  thread_mlfqs = b.thread_mlfqs ∙ a.thread_mlfqs;
  all_list = b.all_list ∙ a.all_list;
}

pub Untouched-refl : (k : Kernel) → Untouched k k
Untouched-refl k = record {
  sema = refl;
  lock = refl;
  condition = refl;
  idle_thread = refl;
  thread_mlfqs = refl;
  all_list = refl;
}

-- A change of the threads, the lists of threads and the counters alone.
untouched :
    (k k' : Kernel)
    → k'.sema ≡ k.sema
    → k'.lock ≡ k.lock
    → k'.condition ≡ k.condition
    → k'.idle_thread ≡ k.idle_thread
    → k'.thread_mlfqs ≡ k.thread_mlfqs
    → k'.all_list ≡ k.all_list
    → Untouched k k'
untouched k k' sema lock condition idle_thread thread_mlfqs all_list = record {
  sema = sema;
  lock = lock;
  condition = condition;
  idle_thread = idle_thread;
  thread_mlfqs = thread_mlfqs;
  all_list = all_list;
}

Untouched-some : (k k₁ : Kernel) {k' : Kernel} → Untouched k k₁ → some k₁ ≡ some k' → Untouched k k'
Untouched-some k k₁ {k'} u e = let i : k₁ ≡ k' = cc in subst (Untouched k) i u

update_changed_loop-Untouched :
    (list : List ℕ) (k : Kernel) {k' : Kernel}
    → update_changed_loop list k ≡ some k'
    → Untouched k k'
unfolding update_changed_loop
update_changed_loop-Untouched [] k e = Untouched-some k k (Untouched-refl k) e
update_changed_loop-Untouched (t ∷ ts) k e =
    let (v, i, rest) = >>=-eq-some (update_thread_priority (k.thread t)) _ e in
    Untouched-trans (untouched k _ refl refl refl refl refl refl) (
      update_changed_loop-Untouched ts
        (record k {
          thread = update k.thread t (record v { cpu_has_changed = false });
          cpu_changed_list = erase t k.cpu_changed_list;
        })
        rest)

refresh_priorities-Untouched :
    (k : Kernel) {k' : Kernel} → refresh_priorities k ≡ some k' → Untouched k k'
unfolding refresh_priorities update_changed_cpu_threads
refresh_priorities-Untouched k e =
    elim (Bool-cases (k.thread_mlfqs && k.should_update_thread_priorities)) [
      | inl due ↦
          let k₁ = record k { should_update_thread_priorities = false } in
          let u = update_changed_loop-Untouched k.cpu_changed_list k₁ (rw due at e) in
          Untouched-trans (untouched k k₁ refl refl refl refl refl refl) u
      | inr quiet ↦ Untouched-some k k (Untouched-refl k) (rw quiet at e)
    ]

switch_to_next-Untouched : (k : Kernel) {k' : Kernel} → switch_to_next k ≡ some k' → Untouched k k'
unfolding switch_to_next thread_schedule_tail
switch_to_next-Untouched k e =
    let ((t, rest), i, f) = >>=-eq-some (next_thread_to_run k) _ e in
    let (u, j, g) = >>=-eq-some (assert (not (is_running (k.thread k.current).status))) _ f in
    let (w, m, h) = >>=-eq-some (assert (not (t == null))) _ g in
    Untouched-some k (thread_schedule_tail t (record k { ready_list = rest }))
      (untouched k _ refl refl refl refl refl refl) h

pub schedule-Untouched : (k : Kernel) {k' : Kernel} → schedule k ≡ some k' → Untouched k k'
unfolding schedule
schedule-Untouched k e =
    let (k₁, i, f) = >>=-eq-some (refresh_priorities k) _ e in
    Untouched-trans (refresh_priorities-Untouched k i) (switch_to_next-Untouched k₁ f)

pub thread_yield-Untouched : (k : Kernel) {k' : Kernel} → thread_yield k ≡ some k' → Untouched k k'
unfolding thread_yield
thread_yield-Untouched k e = elim (Bool-cases (k.current == k.idle_thread)) [
  | inl idle ↦
      Untouched-trans (untouched k _ refl refl refl refl refl refl)
        (schedule-Untouched _ (rw idle at e))
  | inr other ↦
      Untouched-trans (untouched k _ refl refl refl refl refl refl)
        (schedule-Untouched _ (rw other at e))
]

pub thread_block-Untouched : (k : Kernel) {k' : Kernel} → thread_block k ≡ some k' → Untouched k k'
unfolding thread_block
thread_block-Untouched k e =
    Untouched-trans (untouched k _ refl refl refl refl refl refl) (schedule-Untouched _ e)

pub make_ready-Untouched : (k : Kernel) (t : ℕ) → Untouched k (make_ready t k)
unfolding make_ready
make_ready-Untouched k t = untouched k _ refl refl refl refl refl refl

pub thread_unblock-Untouched :
    (k : Kernel) (t : ℕ) {k' : Kernel} → thread_unblock false t k ≡ some k' → Untouched k k'
unfolding thread_unblock
thread_unblock-Untouched k t e =
    let (u, i, f) = >>=-eq-some (assert (not (t == null))) _ e in
    let (w, j, g) = >>=-eq-some (assert (is_blocked (k.thread t).status)) _ f in
    Untouched-some k (make_ready t k) (make_ready-Untouched k t) g
