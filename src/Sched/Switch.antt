-- ===== src/Sched/Switch.antt =====
-- src/threads/thread.c: `schedule` and what ends in it.
use mathlib.Core.Path.{subst}
use cs.Common.{
  ℕ, ◌≡◌, ◌≢◌, ◌⊎◌, refl, inl, inr, true, false, ◌&&◌, some, List, [], ◌∷◌, arith, ◌==◌, mem, erase,
  IsDistinct, null, ap, sym, ◌∙◌, Bool-cases, mem-erase_ne, mem-erase_self, mem-of-erase,
  IsDistinct-erase, update,
}
use cs.FixedPoint.{IsInt32}
use cs.Threads.{Status, Kernel, is_running}
use cs.Bsd.{update_changed_loop, update_changed_cpu_threads}
use cs.Bsd.Priority.{update_thread_priority_bounds}
use cs.Sched.{
  expect_thread, choose_next, next_thread_to_run, thread_schedule_tail, refresh_priorities,
  switch_to_next, schedule,
}
use cs.Sched.Highest.{get_highest_priority_thread-mem}
use cs.Sched.Valid.{
  Queues, IsValid, IsSwitching, SameQueues, SameQueues-refl, SameQueues-trans, IsSwitching-same,
}

-- The thread picked to run, and the ready list without it.
pub record Picked (k : Kernel) (t : ℕ) (rest : List ℕ) : Type 0 where
  pub exists : t ≢ null
  pub source : (mem t k.ready_list ≡ true) ⊎ (t ≡ k.idle_thread)
  pub distinct : IsDistinct rest
  pub gone : mem t rest ≡ false
  pub sub : (u : ℕ) → mem u rest ≡ true → mem u k.ready_list ≡ true
  pub keeps : (u : ℕ) → u ≢ t → mem u k.ready_list ≡ true → mem u rest ≡ true
  pub awake : (s : ℕ) → mem t (k.sema s).waiters ≡ false

module _ {k : Kernel} {t : ℕ} {rest : List ℕ} (s : IsSwitching k) (p : Picked k t rest) where
  open (s.queues) use {
    ready, queued, waiting, one_list, distinct_waiters, idle_apart, idle_awake, idle_exists,
    null_apart, null_awake, cpu,
  }

  abbrev pub switched : Kernel
  switched = thread_schedule_tail t (record k { ready_list = rest })

  switched-Queues : Queues switched
  unfolding thread_schedule_tail
  switched-Queues = record {
    ready = λ u m. ground (arith, p.gone, p.sub u, ready u);
    queued = λ u e ne. ground (arith, queued u, p.keeps u);
    distinct = p.distinct;
    waiting = λ r u m. ground (arith, p.awake r, waiting r u);
    one_list = one_list;
    distinct_waiters = distinct_waiters;
    idle_apart = ground (arith, p.sub k.idle_thread);
    idle_awake = idle_awake;
    idle_exists = idle_exists;
    null_apart = ground (arith, p.sub null);
    null_awake = null_awake;
    cpu = λ u. elim (Bool-cases (u == t)) [ inl e ↦ rw e (cpu t) | inr e ↦ rw e (cpu u) ];
  }

  pub switched-IsValid : IsValid switched
  unfolding thread_schedule_tail
  switched-IsValid = record {
    queues = switched-Queues;
    runs = ground arith;
    alone = λ u e. ground (arith, s.none_runs u);
    exists = p.exists;
  }

-- Whatever the priorities, a thread is found on a list that is not empty.
Picked-highest :
    (k : Kernel) (t : ℕ)
    → IsSwitching k
    → mem t k.ready_list ≡ true
    → Picked k t (erase t k.ready_list)
Picked-highest k t s m = record {
  exists = λ e. cc (s.queues.null_apart, ap (λ a. mem a k.ready_list) e);
  source = inl m;
  distinct = IsDistinct-erase t k.ready_list s.queues.distinct;
  gone = mem-erase_self t k.ready_list s.queues.distinct;
  sub = λ u. mem-of-erase u t k.ready_list;
  keeps = λ u ne h. mem-erase_ne u t k.ready_list ne ∙ h;
  awake = λ r. elim (Bool-cases (mem t (k.sema r).waiters)) [
    | inl w ↦ cc (s.queues.waiting r t w, s.queues.ready t m)
    | inr w ↦ w
  ];
}

Picked-idle : (k : Kernel) → IsSwitching k → k.ready_list ≡ [] → Picked k k.idle_thread []
Picked-idle k s e = record {
  exists = s.queues.idle_exists;
  source = inr refl;
  distinct = tt;
  gone = refl;
  sub = λ u h. cc;
  keeps = λ u ne h. cc (h, ap (mem u) e);
  awake = s.queues.idle_awake;
}

pub choose_next-Picked :
    (k : Kernel) (list : List ℕ)
    → IsSwitching k
    → k.ready_list ≡ list
    → (t : ℕ) × (rest : List ℕ) × (choose_next k list ≡ some (t, rest)) × Picked k t rest
unfolding choose_next
choose_next-Picked k [] s e = (k.idle_thread, [], refl, Picked-idle k s e)
choose_next-Picked k (x ∷ list) s e =
    let (t, found, m) = get_highest_priority_thread-mem k x list in
    (
      t,
      erase t (x ∷ list),
      ap expect_thread found,
      subst (λ l. Picked k t (erase t l)) e
          (Picked-highest k t s (subst (λ l. mem t l ≡ true) (sym e) m)),
    )

-- The thread `t` has stopped for good, or until it is woken: another one runs, and `t` is as it was.
pub record IsLeft (k : Kernel) (t : ℕ) (k' : Kernel) : Type 0 where
  pub other_runs : k'.current ≢ t
  pub same_status : (k'.thread t).status ≡ (k.thread t).status

-- The switch never fails, and leaves one thread running: another than any thread that is neither
-- ready nor the idle thread.
pub switch_to_next-IsLeft :
    (k : Kernel)
    → IsSwitching k
    → (k' : Kernel) × (switch_to_next k ≡ some k')
      × IsValid k'
      × ((t : ℕ) → (k.thread t).status ≢ Status.ready → t ≢ k.idle_thread → IsLeft k t k')
unfolding switch_to_next next_thread_to_run thread_schedule_tail
switch_to_next-IsLeft k s =
    let (t, rest, chosen, p) = choose_next-Picked k k.ready_list s refl in
    let stopped : is_running (k.thread k.current).status ≡ false =
      ground (arith, s.none_runs k.current) in
    let there : (t == null) ≡ false = ground (arith, p.exists) in
    let apart : (u : ℕ) → (k.thread u).status ≢ Status.ready → u ≢ k.idle_thread → t ≢ u =
      λ u n i e. elim p.source [
        | inl m ↦ n (subst (λ w. (k.thread w).status ≡ Status.ready) e (s.queues.ready t m))
        | inr w ↦ i (sym e ∙ w)
      ] in
    (
      switched s p,
      rw chosen (rw stopped (rw there)),
      switched-IsValid s p,
      λ u n i. record {
        other_runs = apart u n i;
        same_status = let ne : t ≢ u = apart u n i in ground arith;
      },
    )

pub switch_to_next-IsValid :
    (k : Kernel) → IsSwitching k → (k' : Kernel) × (switch_to_next k ≡ some k') × IsValid k'
switch_to_next-IsValid k s = let (k', e, v, _) = switch_to_next-IsLeft k s in (k', e, v)

update_changed_loop-SameQueues :
    (list : List ℕ) (k : Kernel)
    → ((t : ℕ) → IsInt32 (k.thread t).recent_cpu)
    → (k' : Kernel) × (update_changed_loop list k ≡ some k') × SameQueues k k'
unfolding update_changed_loop
update_changed_loop-SameQueues [] k h = (k, refl, SameQueues-refl k)
update_changed_loop-SameQueues (t ∷ ts) k h =
    let (p, e, lo, hi) = update_thread_priority_bounds (k.thread t) (h t) in
    let k₁ = record k {
      thread = update k.thread t (record (k.thread t) { priority = p; cpu_has_changed = false });
      cpu_changed_list = erase t k.cpu_changed_list;
    } in
    let same : SameQueues k k₁ = record {
      status = λ u. ground arith;
      cpu = λ u. ground arith;
      sema = refl;
      ready_list = refl;
      idle_thread = refl;
      current = refl;
    } in
    let (k', done, rest) =
      update_changed_loop-SameQueues ts k₁ (λ u. subst IsInt32 (sym (same.cpu u)) (h u)) in
    (k', rw e done, SameQueues-trans same rest)

pub refresh_priorities-SameQueues :
    (k : Kernel) → Queues k → (k' : Kernel) × (refresh_priorities k ≡ some k') × SameQueues k k'
unfolding refresh_priorities update_changed_cpu_threads
refresh_priorities-SameQueues k q =
    elim (Bool-cases (k.thread_mlfqs && k.should_update_thread_priorities)) [
      | inl due ↦
          let k₁ = record k { should_update_thread_priorities = false } in
          let (k', e, same) = update_changed_loop-SameQueues k.cpu_changed_list k₁ q.cpu in
          (
            k',
            rw due e,
            record {
              status = same.status;
              cpu = same.cpu;
              sema = same.sema;
              ready_list = same.ready_list;
              idle_thread = same.idle_thread;
              current = same.current;
            },
          )
      | inr quiet ↦ (k, rw quiet, SameQueues-refl k)
    ]

pub schedule-IsLeft :
    (k : Kernel)
    → IsSwitching k
    → (k' : Kernel) × (schedule k ≡ some k')
      × IsValid k'
      × ((t : ℕ) → (k.thread t).status ≢ Status.ready → t ≢ k.idle_thread → IsLeft k t k')
unfolding schedule
schedule-IsLeft k s =
    let (k₁, e, same) = refresh_priorities-SameQueues k s.queues in
    let (k', e', v, left) = switch_to_next-IsLeft k₁ (IsSwitching-same same s) in
    (
      k',
      rw e e',
      v,
      λ t n i.
          let l = left t (λ r. n (sym (same.status t) ∙ r)) (λ w. i (w ∙ same.idle_thread)) in
          record { other_runs = l.other_runs; same_status = l.same_status ∙ same.status t },
    )

pub schedule-IsValid :
    (k : Kernel) → IsSwitching k → (k' : Kernel) × (schedule k ≡ some k') × IsValid k'
schedule-IsValid k s = let (k', e, v, _) = schedule-IsLeft k s in (k', e, v)
