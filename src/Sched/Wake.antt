-- ===== src/Sched/Wake.antt =====
-- src/threads/thread.c: `thread_unblock`.
use cs.Common.{
  ℕ, ◌≡◌, ◌≢◌, inl, inr, Bool, false, ◌&&◌, none, some, arith, ◌==◌, mem, null, Bool-cases,
  mem-push_back, IsDistinct-push_back,
}
use cs.Common.Int.{ltb_ℤ}
use cs.Threads.{blocked, Kernel}
use cs.Sched.{priority_of, make_ready, thread_unblock}
use cs.Sched.Valid.{IsValid}
use cs.Sched.Yield.{thread_yield-IsValid}

-- A blocked thread that is on no wait list becomes ready.
pub make_ready-IsValid :
    (k : Kernel) (t : ℕ)
    → IsValid k
    → t ≢ null
    → t ≢ k.idle_thread
    → (k.thread t).status ≡ blocked
    → ((s : ℕ) → mem t (k.sema s).waiters ≡ false)
    → IsValid (make_ready t k)
unfolding make_ready
make_ready-IsValid k t v ne apart asleep off = record {
  queues = record {
    ready = λ u m. ground (arith, mem-push_back u t k.ready_list, ready u);
    queued = λ u e n. ground (arith, mem-push_back u t k.ready_list, queued u);
    distinct = IsDistinct-push_back t k.ready_list distinct (ground (arith, ready t));
    waiting = λ s u m. ground (arith, waiting s u, off s);
    one_list = one_list;
    distinct_waiters = distinct_waiters;
    idle_apart = ground (arith, mem-push_back k.idle_thread t k.ready_list, idle_apart);
    idle_awake = idle_awake;
    idle_exists = idle_exists;
    null_apart = ground (arith, mem-push_back null t k.ready_list, null_apart);
    null_awake = null_awake;
    cpu = λ u. ground (arith, cpu u, cpu t);
  };
  runs = ground (arith, v.runs);
  alone = λ u e. ground (arith, v.alone u);
  exists = v.exists;
}
  where
    open (v.queues) use {
      ready, queued, distinct, waiting, one_list, distinct_waiters, idle_apart, idle_awake,
      idle_exists, null_apart, null_awake, cpu,
    }

-- In a valid state a thread that is blocked, on no wait list and not the idle thread can be woken, at
-- either interrupt level, and the state stays valid.
pub thread_unblock-IsValid :
    (k : Kernel) (t : ℕ) (interrupts_on : Bool)
    → IsValid k
    → t ≢ null
    → t ≢ k.idle_thread
    → (k.thread t).status ≡ blocked
    → ((s : ℕ) → mem t (k.sema s).waiters ≡ false)
    → (k' : Kernel) × (thread_unblock interrupts_on t k ≡ some k') × IsValid k'
unfolding thread_unblock
thread_unblock-IsValid k t interrupts_on v ne apart asleep off =
    let made = make_ready-IsValid k t v ne apart asleep off in
    let there : (t == null) ≡ false = ground arith in
    elim (Bool-cases (
      interrupts_on
      && ltb_ℤ (priority_of (make_ready t k) (make_ready t k).current)
          (priority_of (make_ready t k) t))) [
            | inl e ↦
                let (k', done, valid) = thread_yield-IsValid (make_ready t k) made in
                (k', rw there (rw asleep (rw e done)), valid)
            | inr e ↦ (make_ready t k, rw there (rw asleep (rw e)), made)
          ]

-- A thread that is not blocked cannot be woken: the assertion fails.
pub thread_unblock-not_blocked :
    (k : Kernel) (t : ℕ) (interrupts_on : Bool)
    → (k.thread t).status ≢ blocked
    → thread_unblock interrupts_on t k ≡ none
unfolding thread_unblock
thread_unblock-not_blocked k t interrupts_on h = ground arith

-- With interrupts off the caller goes on running.
pub thread_unblock-quiet :
    (k : Kernel) (t : ℕ)
    → t ≢ null
    → (k.thread t).status ≡ blocked
    → thread_unblock false t k ≡ some (make_ready t k)
unfolding thread_unblock
thread_unblock-quiet k t ne asleep =
    let there : (t == null) ≡ false = ground arith in rw there (rw asleep)
