-- ===== src/Threads.antt =====
-- src/threads/thread.h, src/threads/synch.h and the static variables of src/threads/thread.c: the state of the
-- scheduler. Objects lie at addresses; the intrusive lists of src/lib/kernel/list.c are lists of the
-- addresses that they link. Address 0 is `NULL`.
use cs.Common.{ℕ, Bool, true, false, List, update}
use cs.Common.Int.{ℤ, pos}
use cs.FixedPoint.{FpFloat}

-- enum thread_status
pub data Status : Type 0 where
  running : Status
  ready : Status
  blocked : Status
  dying : Status

abbrev pub pri_min : ℤ
pri_min = pos 0

abbrev pub pri_max : ℤ
pri_max = pos 63

-- struct thread: the members that scheduling and synchronization use. The embedded dummy lock
-- `original_priority_info` is the lock at that address.
pub record Thread : Type 0 where
  pub tid : ℕ
  pub status : Status
  pub priority : ℤ
  pub locks_held : List ℕ
  pub original_priority_info : ℕ
  pub lock_waiting_on : ℕ
  pub nice : ℤ
  pub recent_cpu : FpFloat
  pub cpu_has_changed : Bool
  pub pagedir : ℕ

-- struct semaphore
pub record Semaphore : Type 0 where
  pub value : ℕ
  pub waiters : List ℕ

-- struct lock: its `semaphore` member is the semaphore at the address of the lock.
pub record Lock : Type 0 where
  pub holder : ℕ
  pub priority : ℤ

pub record Kernel : Type 0 where
  pub thread : ℕ → Thread
  pub sema : ℕ → Semaphore
  pub lock : ℕ → Lock
  pub condition : ℕ → List ℕ
  pub ready_list : List ℕ
  pub all_list : List ℕ
  pub cpu_changed_list : List ℕ
  pub current : ℕ
  pub idle_thread : ℕ
  pub load_average : FpFloat
  pub should_update_thread_priorities : Bool
  pub thread_mlfqs : Bool
  pub idle_ticks : ℕ
  pub kernel_ticks : ℕ
  pub user_ticks : ℕ
  pub thread_ticks : ℕ
  pub yield_on_return : Bool

-- A store to members of the thread at `t`, and of the semaphore or lock at `s`.
abbrev pub put_thread : ℕ → Thread → Kernel → Kernel
put_thread t v k = record k { thread = update k.thread t v }

abbrev pub put_sema : ℕ → Semaphore → Kernel → Kernel
put_sema s v k = record k { sema = update k.sema s v }

abbrev pub put_lock : ℕ → Lock → Kernel → Kernel
put_lock l v k = record k { lock = update k.lock l v }

abbrev pub is_running : Status → Bool
is_running running = true
is_running _ = false

abbrev pub is_blocked : Status → Bool
is_blocked blocked = true
is_blocked _ = false
