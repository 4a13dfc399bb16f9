-- ===== src/Synch/Semaphores.antt =====
-- src/threads/synch.c: semaphores and the queues of the scheduler.
use mathlib.Core.Path.{subst}
use cs.Common.{
  ℕ, ◌+◌, ◌-◌, ◌%◌, ◌^◌, ◌≡◌, ◌≢◌, refl, inl, inr, Bool, true, false, ◌||◌, ◌++◌, some, List, [],
  ◌∷◌, arith, ltb, ◌==◌, mem, erase, IsDistinct, null, All, Bool-cases, mem-push_back,
  IsDistinct-push_back, mem-of-erase, mem-erase_self, IsDistinct-erase, ◌>>=◌, update, ap, sym, ◌∙◌,
}
use cs.Common.Int.{◌≤ℤ◌}
use cs.Threads.{blocked, Semaphore, Kernel, pri_max, put_sema}
use cs.Sched.{get_highest_priority_thread, priority_of, make_ready, thread_block, set_status}
use cs.Sched.Highest.{
  IsFirstHighest, IsFirstHighest-mem, get_highest_priority_thread-mem,
  get_highest_priority_thread-IsFirstHighest,
}
use cs.Sched.Valid.{IsValid, IsSwitching}
use cs.Sched.Switch.{schedule-IsValid}
use cs.Sched.Yield.{thread_yield-IsValid}
use cs.Sched.Untouched.{Untouched, schedule-Untouched}
use cs.Sched.Wake.{thread_unblock-IsValid, thread_unblock-quiet}
use cs.Synch.{sema_down, sema_up, wake_waiter, unblock_waiter, count_up, sleep}

-- A store to a semaphore whose new wait list holds no more than the old one.
pub put_sema-IsValid :
    (k : Kernel) (s : ℕ) (v : Semaphore)
    → IsValid k
    → IsDistinct v.waiters
    → ((t : ℕ) → mem t v.waiters ≡ true → mem t (k.sema s).waiters ≡ true)
    → IsValid (put_sema s v k)
put_sema-IsValid k s v valid d sub = record {
  queues = record {
    ready = ready;
    queued = queued;
    distinct = distinct;
    waiting = λ r t m. ground (arith, waiting r t, waiting s t, sub t);
    one_list = λ r q t m n. ground (arith, one_list r q t, one_list s q t, one_list r s t, sub t);
    distinct_waiters = λ r. ground (arith, distinct_waiters r);
    idle_apart = idle_apart;
    idle_awake = λ r. ground (arith, idle_awake r, idle_awake s, sub k.idle_thread);
    idle_exists = idle_exists;
    null_apart = null_apart;
    null_awake = λ r. ground (arith, null_awake r, null_awake s, sub null);
    cpu = cpu;
  };
  runs = valid.runs;
  alone = valid.alone;
  exists = valid.exists;
}
  where
    open (valid.queues) use {
      ready, queued, distinct, waiting, one_list, distinct_waiters, idle_apart, idle_awake,
      idle_exists, null_apart, null_awake, cpu,
    }

-- The running thread, at the end of a wait list and blocked.
abbrev put_to_sleep : ℕ → Kernel → Kernel
put_to_sleep s k =
    set_status k.current blocked
      (put_sema s (record (k.sema s) { waiters = (k.sema s).waiters ++ (k.current ∷ []) }) k)

put_to_sleep-IsSwitching :
    (k : Kernel) (s : ℕ) → IsValid k → k.current ≢ k.idle_thread → IsSwitching (put_to_sleep s k)
put_to_sleep-IsSwitching k s v ne = record {
  queues = record {
    ready = λ t m. ground (arith, ready t, v.runs);
    queued = λ t e n. ground (arith, queued t);
    distinct = distinct;
    waiting = λ r t m. ground (arith, pushed t, waiting r t, waiting s t, v.runs);
    one_list = λ r q t m n. ground (
      arith,
      pushed t,
      one_list r q t,
      one_list s q t,
      one_list r s t,
      waiting r t,
      waiting q t,
      v.runs,
    );
    distinct_waiters = λ r. ground (
      arith,
      distinct_waiters r,
      IsDistinct-push_back k.current (k.sema s).waiters (distinct_waiters s) awake,
    );
    idle_apart = idle_apart;
    idle_awake = λ r. ground (arith, pushed k.idle_thread, idle_awake r, idle_awake s);
    idle_exists = idle_exists;
    null_apart = null_apart;
    null_awake = λ r. ground (arith, pushed null, null_awake r, null_awake s, v.exists);
    cpu = λ t. ground (arith, cpu t, cpu k.current);
  };
  none_runs = λ t e. ground (arith, v.alone t);
}
  where
    open (v.queues) use {
      ready, queued, distinct, waiting, one_list, distinct_waiters, idle_apart, idle_awake,
      idle_exists, null_apart, null_awake, cpu,
    }

    pushed :
        (t : ℕ)
        → mem t ((k.sema s).waiters ++ (k.current ∷ []))
          ≡ (mem t (k.sema s).waiters || (t == k.current))
    pushed t = mem-push_back t k.current (k.sema s).waiters

    awake : mem k.current (k.sema s).waiters ≡ false
    awake = ground (arith, waiting s k.current, v.runs)

-- The running thread of `k` sleeps on the semaphore `s`: it is blocked, at the end of the wait list,
-- and another thread runs. No other semaphore, no lock and no condition has changed.
pub record IsAsleep (s : ℕ) (k k' : Kernel) : Type 0 where
  pub queue :
      k'.sema
      ≡ update k.sema s (record (k.sema s) { waiters = (k.sema s).waiters ++ (k.current ∷ []) })
  pub is_blocked : (k'.thread k.current).status ≡ blocked
  pub another : k'.current ≢ k.current
  pub lock : k'.lock ≡ k.lock
  pub condition : k'.condition ≡ k.condition

-- What a pass of `sema_down` does: it takes one from a positive value, and that is all, or the thread
-- sleeps.
abbrev pub IsDown : ℕ → Kernel → Bool → Kernel → Type 0
IsDown s k done k' =
    (done ≡ ltb 0 (k.sema s).value)
    × (done ≡ true → k' ≡ put_sema s (record (k.sema s) { value = (k.sema s).value - 1 }) k)
    × (done ≡ false → IsAsleep s k k')

-- A thread that is put to sleep is on a wait list, and no such thread runs.
put_to_sleep-IsAsleep :
    (k k' : Kernel) (s : ℕ) → IsValid k' → Untouched (put_to_sleep s k) k' → IsAsleep s k k'
put_to_sleep-IsAsleep k k' s v u =
    let waiters = (k.sema s).waiters ++ (k.current ∷ []) in
    let here : mem k.current waiters ≡ true =
      ground (arith, mem-push_back k.current k.current (k.sema s).waiters) in
    let own : (k'.sema s).waiters ≡ waiters = ap (λ f. (f s).waiters) u.sema ∙ ground arith in
    let stopped : (k'.thread k.current).status ≡ blocked =
      v.queues.waiting s k.current (ap (mem k.current) own ∙ here) in
    record {
      queue = u.sema;
      is_blocked = stopped;
      another = λ e. cc (v.runs, stopped, ap (λ t. (k'.thread t).status) e);
      lock = u.lock;
      condition = u.condition;
    }

-- In a valid state a pass of `sema_down` by a thread other than the idle thread always succeeds and
-- keeps the state valid. It takes one from a positive value and changes nothing else. At zero the
-- thread sleeps: it is blocked, at the end of the wait list, and another thread runs.
pub sema_down-IsValid :
    (k : Kernel) (s : ℕ)
    → IsValid k
    → k.current ≢ k.idle_thread
    → (done : Bool) × (k' : Kernel) × (sema_down s k ≡ some (done, k'))
      × IsValid k'
      × IsDown s k done k'
unfolding sema_down thread_block
sema_down-IsValid k s v ne = elim (Bool-cases ((k.sema s).value == 0)) [
  | inl zero ↦
      let (k', e, valid) =
        schedule-IsValid (put_to_sleep s k) (put_to_sleep-IsSwitching k s v ne) in
      (
        false,
        k',
        rw zero (ap sleep e),
        valid,
        (
          ground arith,
          λ i. cc,
          λ i. put_to_sleep-IsAsleep k k' s valid (schedule-Untouched (put_to_sleep s k) e),
        ),
      )
  | inr more ↦
      let taken = put_sema s (record (k.sema s) { value = (k.sema s).value - 1 }) k in
      (
        true,
        taken,
        rw more,
        put_sema-IsValid k s (record (k.sema s) { value = (k.sema s).value - 1 }) v
            (v.queues.distinct_waiters s) (λ t m. m),
        (ground arith, λ i. refl, λ i. cc),
      )
]

-- Taking the waiter `t` off the list of `s` leaves it on no list.
taken_off :
    (k : Kernel) (s t : ℕ)
    → IsValid k
    → mem t (k.sema s).waiters ≡ true
    → (r : ℕ)
    → mem t (update k.sema s (record (k.sema s) { waiters = erase t (k.sema s).waiters }) r).waiters
      ≡ false
taken_off k s t v m r = ground (
  arith,
  mem-erase_self t (k.sema s).waiters (v.queues.distinct_waiters s),
  v.queues.one_list r s t,
)

unblock_waiter-IsValid :
    (k : Kernel) (s t : ℕ)
    → IsValid k
    → mem t (k.sema s).waiters ≡ true
    → (k' : Kernel) × (unblock_waiter s k (some t, erase t (k.sema s).waiters) ≡ some k')
      × IsValid k'
unfolding unblock_waiter
unblock_waiter-IsValid k s t v m =
    let rest : Semaphore = record (k.sema s) { waiters = erase t (k.sema s).waiters } in
    thread_unblock-IsValid (put_sema s rest k) t false
      (put_sema-IsValid k s rest v
        (IsDistinct-erase t (k.sema s).waiters (v.queues.distinct_waiters s))
        (λ u. mem-of-erase u t (k.sema s).waiters))
      (λ e. cc (v.queues.null_awake s, ap (λ a. mem a (k.sema s).waiters) e))
      (λ e. cc (v.queues.idle_awake s, ap (λ a. mem a (k.sema s).waiters) e))
      (v.queues.waiting s t m) (taken_off k s t v m)

wake_waiter-IsValid :
    (k : Kernel) (s : ℕ) (list : List ℕ)
    → IsValid k
    → (k.sema s).waiters ≡ list
    → (k' : Kernel) × (wake_waiter s k list ≡ some k') × IsValid k'
unfolding wake_waiter
wake_waiter-IsValid k s [] v e = (k, refl, v)
wake_waiter-IsValid k s (x ∷ list) v e =
    let (t, found, m) = get_highest_priority_thread-mem k x list in
    let (k', done, valid) =
      unblock_waiter-IsValid k s t v (subst (λ l. mem t l ≡ true) (sym e) m) in
    (
      k',
      ap (unblock_waiter s k) found
          ∙ (ap (λ l. unblock_waiter s k (some t, erase t l)) (sym e) ∙ done),
      valid,
    )

counted-IsValid : (k : Kernel) (s : ℕ) → IsValid k → IsValid (count_up s k)
counted-IsValid k s v =
    put_sema-IsValid k s (record (k.sema s) { value = ((k.sema s).value + 1) % 2 ^ 32 }) v
      (v.queues.distinct_waiters s) (λ t m. m)

-- In a valid state `sema_up` never fails, in an interrupt or out of one, and the state stays valid.
pub sema_up-IsValid :
    (k : Kernel) (s : ℕ) (interrupt_context : Bool)
    → IsValid k
    → (k' : Kernel) × (sema_up interrupt_context s k ≡ some k') × IsValid k'
unfolding sema_up
sema_up-IsValid k s true v =
    let (k₁, e, valid) = wake_waiter-IsValid k s (k.sema s).waiters v refl in
    (count_up s k₁, rw e, counted-IsValid k₁ s valid)
sema_up-IsValid k s false v =
    let (k₁, e, valid) = wake_waiter-IsValid k s (k.sema s).waiters v refl in
    let (k', e', valid') = thread_yield-IsValid (count_up s k₁) (counted-IsValid k₁ s valid) in
    (k', rw e e', valid')

-- The state in which `sema_up` leaves an interrupt: `t` is off the wait list, at the end of the
-- ready list, and ready; the value is one more.
abbrev pub woken_up : ℕ → ℕ → Kernel → Kernel
woken_up s t k =
    count_up s
      (make_ready t (put_sema s (record (k.sema s) { waiters = erase t (k.sema s).waiters }) k))

-- With a waiter found, the rest of `sema_up` in an interrupt.
sema_up-found :
    (k : Kernel) (s x t : ℕ) (list : List ℕ)
    → IsValid k
    → (k.sema s).waiters ≡ x ∷ list
    → get_highest_priority_thread k (x ∷ list) true ≡ (some t, erase t (x ∷ list))
    → mem t (x ∷ list) ≡ true
    → sema_up true s k ≡ some (woken_up s t k)
unfolding sema_up wake_waiter unblock_waiter
sema_up-found k s x t list v e found there =
    let m : mem t (k.sema s).waiters ≡ true = subst (λ l. mem t l ≡ true) (sym e) there in
    let woken =
      thread_unblock-quiet
        (put_sema s (record (k.sema s) { waiters = erase t (k.sema s).waiters }) k) t
        (λ i. cc (v.queues.null_awake s, subst (λ a. mem a (k.sema s).waiters ≡ true) i m))
        (v.queues.waiting s t m) in
    let waking : wake_waiter s k (k.sema s).waiters
        ≡ some (
            make_ready t
              (put_sema s (record (k.sema s) { waiters = erase t (k.sema s).waiters }) k)) =
      ap (wake_waiter s k) e
      ∙ (ap (unblock_waiter s k) found
          ∙ (ap (λ l. unblock_waiter s k (some t, erase t l)) (sym e) ∙ woken)) in
    ap (λ o. o >>= λ w. some (count_up s w)) waking

pub sema_up-mem :
    (k : Kernel) (s x : ℕ) (list : List ℕ)
    → IsValid k
    → (k.sema s).waiters ≡ x ∷ list
    → (t : ℕ) × (mem t (x ∷ list) ≡ true) × (sema_up true s k ≡ some (woken_up s t k))
sema_up-mem k s x list v e =
    let (t, found, m) = get_highest_priority_thread-mem k x list in
    (t, m, sema_up-found k s x t list v e found m)

pub sema_up-none :
    (k : Kernel) (s : ℕ) → (k.sema s).waiters ≡ [] → sema_up true s k ≡ some (count_up s k)
unfolding sema_up wake_waiter
sema_up-none k s e = ap (λ w. wake_waiter s k w >>= λ u. some (count_up s u)) e

-- In a valid state with priorities up to PRI_MAX, `sema_up` in an interrupt wakes the waiter of
-- highest priority that has waited longest, and does nothing else but count up.
pub sema_up-IsFirstHighest :
    (k : Kernel) (s x : ℕ) (list : List ℕ)
    → IsValid k
    → (k.sema s).waiters ≡ x ∷ list
    → All (λ t. priority_of k t ≤ℤ pri_max) (x ∷ list)
    → (t : ℕ) × IsFirstHighest (priority_of k) (x ∷ list) t
      × (sema_up true s k ≡ some (woken_up s t k))
sema_up-IsFirstHighest k s x list v e b =
    let (t, found, f) = get_highest_priority_thread-IsFirstHighest k x list true b in
    (t, f, sema_up-found k s x t list v e found (IsFirstHighest-mem f))
