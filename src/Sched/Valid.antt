-- ===== src/Sched/Valid.antt =====
-- src/threads/thread.h: where a thread may be linked. "Only a thread in the ready state is on the run
-- queue, whereas only a thread in the blocked state is on a semaphore wait list."
use cs.Common.{ℕ, ◌≡◌, ◌≢◌, refl, true, false, mem, IsDistinct, null, ap, sym, ◌∙◌}
use cs.FixedPoint.{IsInt32}
use cs.Threads.{Status, running, blocked, Kernel}

-- The queues of the scheduler, whatever thread runs. A ready thread is never lost.
pub record Queues (k : Kernel) : Type 0 where
  pub ready : (t : ℕ) → mem t k.ready_list ≡ true → (k.thread t).status ≡ Status.ready
  pub queued :
      (t : ℕ) → (k.thread t).status ≡ Status.ready → t ≢ k.idle_thread → mem t k.ready_list ≡ true
  pub distinct : IsDistinct k.ready_list
  pub waiting : (s t : ℕ) → mem t (k.sema s).waiters ≡ true → (k.thread t).status ≡ blocked
  pub one_list :
      (s r t : ℕ) → mem t (k.sema s).waiters ≡ true → mem t (k.sema r).waiters ≡ true → s ≡ r
  pub distinct_waiters : (s : ℕ) → IsDistinct (k.sema s).waiters
  pub idle_apart : mem k.idle_thread k.ready_list ≡ false
  pub idle_awake : (s : ℕ) → mem k.idle_thread (k.sema s).waiters ≡ false
  pub idle_exists : k.idle_thread ≢ null
  pub null_apart : mem null k.ready_list ≡ false
  pub null_awake : (s : ℕ) → mem null (k.sema s).waiters ≡ false
  pub cpu : (t : ℕ) → IsInt32 (k.thread t).recent_cpu

-- Between operations one thread runs, and it is `current`.
pub record IsValid (k : Kernel) : Type 0 where
  pub queues : Queues k
  pub runs : (k.thread k.current).status ≡ running
  pub alone : (t : ℕ) → (k.thread t).status ≡ running → t ≡ k.current
  pub exists : k.current ≢ null

-- Inside `schedule` no thread runs.
pub record IsSwitching (k : Kernel) : Type 0 where
  pub queues : Queues k
  pub none_runs : (t : ℕ) → (k.thread t).status ≢ running

-- What the 4.4BSD computations leave alone.
pub record SameQueues (k k' : Kernel) : Type 0 where
  pub status : (t : ℕ) → (k'.thread t).status ≡ (k.thread t).status
  pub cpu : (t : ℕ) → (k'.thread t).recent_cpu ≡ (k.thread t).recent_cpu
  pub sema : k'.sema ≡ k.sema
  pub ready_list : k'.ready_list ≡ k.ready_list
  pub idle_thread : k'.idle_thread ≡ k.idle_thread
  pub current : k'.current ≡ k.current

module _ {k k' : Kernel} (same : SameQueues k k') where
  mem-ready_list : (t : ℕ) → mem t k'.ready_list ≡ mem t k.ready_list
  mem-ready_list t = ap (mem t) same.ready_list

  mem-waiters : (s t : ℕ) → mem t (k'.sema s).waiters ≡ mem t (k.sema s).waiters
  mem-waiters s t = ap (λ f. mem t (f s).waiters) same.sema

  pub Queues-same : Queues k → Queues k'
  Queues-same q = record {
    ready = λ t m. same.status t ∙ q.ready t (rw (mem-ready_list t) at m);
    queued = λ t e ne.
        mem-ready_list t
        ∙ q.queued t (sym (same.status t) ∙ e) (λ i. ne (i ∙ sym same.idle_thread));
    distinct = rw same.ready_list q.distinct;
    waiting = λ s t m. same.status t ∙ q.waiting s t (rw (mem-waiters s t) at m);
    one_list =
        λ s r t m n. q.one_list s r t (rw (mem-waiters s t) at m) (rw (mem-waiters r t) at n);
    distinct_waiters = λ s. rw same.sema (q.distinct_waiters s);
    idle_apart = rw (same.idle_thread, same.ready_list) q.idle_apart;
    idle_awake = λ s. rw (same.idle_thread, same.sema) (q.idle_awake s);
    idle_exists = rw same.idle_thread q.idle_exists;
    null_apart = rw same.ready_list q.null_apart;
    null_awake = λ s. rw same.sema (q.null_awake s);
    cpu = λ t. rw (same.cpu t) (q.cpu t);
  }

  pub IsSwitching-same : IsSwitching k → IsSwitching k'
  IsSwitching-same s = record {
    queues = Queues-same s.queues;
    none_runs = λ t. rw (same.status t) (s.none_runs t);
  }

pub SameQueues-refl : (k : Kernel) → SameQueues k k
SameQueues-refl k = record {
  status = λ t. refl;
  cpu = λ t. refl;
  sema = refl;
  ready_list = refl;
  idle_thread = refl;
  current = refl;
}

pub SameQueues-trans : {k k' k'' : Kernel} → SameQueues k k' → SameQueues k' k'' → SameQueues k k''
SameQueues-trans a b = record {
  status = λ t. b.status t ∙ a.status t;
  cpu = λ t. b.cpu t ∙ a.cpu t;
  sema = b.sema ∙ a.sema;
  ready_list = b.ready_list ∙ a.ready_list;
  idle_thread = b.idle_thread ∙ a.idle_thread;
  current = b.current ∙ a.current;
}

-- A change of members that the queues do not read.
pub SameQueues-fields :
    (k k' : Kernel)
    → k'.thread ≡ k.thread
    → k'.sema ≡ k.sema
    → k'.ready_list ≡ k.ready_list
    → k'.idle_thread ≡ k.idle_thread
    → k'.current ≡ k.current
    → SameQueues k k'
SameQueues-fields k k' thread sema ready_list idle_thread current = record {
  status = λ t. ap (λ f. (f t).status) thread;
  cpu = λ t. ap (λ f. (f t).recent_cpu) thread;
  sema = sema;
  ready_list = ready_list;
  idle_thread = idle_thread;
  current = current;
}

pub IsValid-same : {k k' : Kernel} → SameQueues k k' → IsValid k → IsValid k'
IsValid-same {k} same v = record {
  queues = Queues-same same v.queues;
  runs = rw same.current (same.status k.current ∙ v.runs);
  alone = λ t e. rw same.current (v.alone t (sym (same.status t) ∙ e));
  exists = rw same.current v.exists;
}
