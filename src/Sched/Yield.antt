-- ===== src/Sched/Yield.antt =====
-- src/threads/thread.c: `thread_block`, `thread_yield` and `thread_exit`, and the queues.

use cs.Common.{
  ◌≡◌, ◌≢◌, inl, inr, not, ◌++◌, some, [], ◌∷◌, arith, ◌==◌, if◌then◌else◌, erase, null, Bool-cases,
  eq_of_==, mem-push_back, IsDistinct-push_back,
}
use cs.Threads.{Status, running, ready, blocked, dying, Kernel}
use cs.Sched.{thread_block, thread_yield, set_status}
use cs.Sched.Valid.{IsValid, IsSwitching}
use cs.Sched.Switch.{schedule-IsValid}

-- The running thread leaves the processor: blocked, dying, or ready and queued unless it is idle.
stop-IsSwitching :
    (k : Kernel) (status : Status)
    → IsValid k
    → status ≢ running
    → (status ≡ ready → k.current ≡ k.idle_thread)
    → IsSwitching (set_status k.current status k)
stop-IsSwitching k status v ne idle = record {
  queues = record {
    ready = λ t m. ground (arith, ready t, v.runs);
    queued = λ t e n. ground (arith, queued t, idle);
    distinct = distinct;
    waiting = λ s t m. ground (arith, waiting s t, v.runs);
    one_list = one_list;
    distinct_waiters = distinct_waiters;
    idle_apart = idle_apart;
    idle_awake = idle_awake;
    idle_exists = idle_exists;
    null_apart = null_apart;
    null_awake = null_awake;
    cpu = λ t. elim (Bool-cases (t == k.current)) [
      | inl e ↦ rw e (cpu k.current)
      | inr e ↦ rw e (cpu t)
    ];
  };
  none_runs = λ t e. ground (arith, v.alone t);
}
  where
    open (v.queues) use {
      ready, queued, distinct, waiting, one_list, distinct_waiters, idle_apart, idle_awake,
      idle_exists, null_apart, null_awake, cpu,
    }

-- In a valid state the running thread can block itself: `thread_block` returns, in a valid state.
pub thread_block-IsValid :
    (k : Kernel) → IsValid k → (k' : Kernel) × (thread_block k ≡ some k') × IsValid k'
unfolding thread_block
thread_block-IsValid k v =
    schedule-IsValid (set_status k.current blocked k)
      (stop-IsSwitching k blocked v (λ e. cc) (λ e. cc))

-- What `thread_yield` does before it switches.
abbrev queue_current : Kernel → Kernel
queue_current k =
    set_status k.current ready (record k { ready_list = k.ready_list ++ (k.current ∷ []) })

requeue-IsSwitching :
    (k : Kernel) → IsValid k → k.current ≢ k.idle_thread → IsSwitching (queue_current k)
requeue-IsSwitching k v ne = record {
  queues = record {
    ready = λ t m. ground (arith, mem-push_back t k.current k.ready_list, ready t);
    queued = λ t e n. ground (arith, mem-push_back t k.current k.ready_list, queued t);
    distinct =
        IsDistinct-push_back k.current k.ready_list distinct
          (ground (arith, ready k.current, v.runs));
    waiting = λ s t m. ground (arith, waiting s t, v.runs);
    one_list = one_list;
    distinct_waiters = distinct_waiters;
    idle_apart = ground (arith, mem-push_back k.idle_thread k.current k.ready_list, idle_apart);
    idle_awake = idle_awake;
    idle_exists = idle_exists;
    null_apart = ground (arith, mem-push_back null k.current k.ready_list, null_apart, v.exists);
    null_awake = null_awake;
    cpu = λ t. ground (arith, cpu t, cpu k.current);
  };
  none_runs = λ t e. ground (arith, v.alone t);
}
  where
    open (v.queues) use {
      ready, queued, distinct, waiting, one_list, distinct_waiters, idle_apart, idle_awake,
      idle_exists, null_apart, null_awake, cpu,
    }

-- The state that `thread_yield` hands to `schedule`.
unfoldable pub yielding : Kernel → Kernel
yielding k = set_status k.current ready (
    if not (k.current == k.idle_thread)
    then record k { ready_list = k.ready_list ++ (k.current ∷ []) }
    else k)

pub yielding-IsSwitching : (k : Kernel) → IsValid k → IsSwitching (yielding k)
unfolding yielding
yielding-IsSwitching k v = elim (Bool-cases (k.current == k.idle_thread)) [
  | inl e ↦ rw e (stop-IsSwitching k ready v (λ i. cc) (λ i. eq_of_== k.current k.idle_thread e))
  | inr e ↦ rw e (requeue-IsSwitching k v (ground arith))
]

-- In a valid state `thread_yield` returns, in a valid state.
pub thread_yield-IsValid :
    (k : Kernel) → IsValid k → (k' : Kernel) × (thread_yield k ≡ some k') × IsValid k'
unfolding thread_yield yielding
thread_yield-IsValid k v = schedule-IsValid (yielding k) (yielding-IsSwitching k v)

-- What is left of a thread that exited.
pub record IsExited (k k' : Kernel) : Type 0 where
  pub valid : IsValid k'
  pub another : k'.current ≢ k.current
  pub is_dying : (k'.thread k.current).status ≡ dying
  pub unlinked : k'.all_list ≡ erase k.current k.all_list
  pub semas : k'.sema ≡ k.sema
