-- ===== src/Tests/Kernels.antt =====
-- A small kernel for the tests of src/threads/thread.c and src/threads/synch.c.
-- Thread 1 runs, thread 2 is ready, thread 3 waits on semaphore 5, and the idle thread 4 is blocked.
-- Lock 7 is free, and thread 1 holds lock 8.
use cs.Common.{ℕ, ◌+◌, inl, inr, Bool-cases, refl, false, [], ◌∷◌, arith, ◌==◌, if◌then◌else◌}
use cs.Common.Int.{ℤ, pos, ◌≤ℤ◌}
use cs.Threads.{Status, running, ready, blocked, Thread, Semaphore, Lock, Kernel, pri_max}
use cs.Sched.{priority_of}
use cs.Sched.Valid.{IsValid, Queues}
use cs.Synch.Locks.{IsLock}

abbrev pub thread_with : Status → ℕ → ℤ → Thread
thread_with status tid priority = record {
  tid = tid;
  status = status;
  priority = priority;
  locks_held = if tid == 1 then 8 ∷ 20 ∷ [] else [];
  original_priority_info = tid + 19;
  lock_waiting_on = 0;
  nice = pos 0;
  recent_cpu = pos 0;
  cpu_has_changed = false;
  pagedir = 0;
}

abbrev pub threads : ℕ → Thread
threads t =
    if t == 1
    then thread_with running 1 (pos 31)
    else if t == 2
    then thread_with ready 2 (pos 40)
    else thread_with blocked t (pos 20)

abbrev pub semaphores : ℕ → Semaphore
semaphores s =
    if s == 5
    then record { value = 0; waiters = 3 ∷ [] }
    else if s == 7
    then record { value = 1; waiters = [] }
    else record { value = 0; waiters = [] }

abbrev pub locks : ℕ → Lock
locks l =
    if l == 8
    then record { holder = 1; priority = pos 25 }
    else record { holder = 0; priority = pos 31 }

abbrev pub kernel : Kernel
kernel = record {
  thread = threads;
  sema = semaphores;
  lock = locks;
  condition = λ c. [];
  ready_list = 2 ∷ [];
  all_list = 1 ∷ 2 ∷ 3 ∷ 4 ∷ [];
  cpu_changed_list = [];
  current = 1;
  idle_thread = 4;
  load_average = pos 16384;
  should_update_thread_priorities = false;
  thread_mlfqs = false;
  idle_ticks = 0;
  kernel_ticks = 0;
  user_ticks = 0;
  thread_ticks = 3;
  yield_on_return = false;
}

kernel-Queues : Queues kernel
kernel-Queues = record {
  ready = λ t m. ground arith;
  queued = λ t e ne. ground arith;
  distinct = (refl, tt);
  waiting = λ s t m. ground arith;
  one_list = λ s r t m n. ground arith;
  distinct_waiters = λ s. elim (Bool-cases (s == 5)) [
    | inl e ↦ rw e (refl, tt)
    | inr e ↦ rw e (elim (Bool-cases (s == 7)) [ inl d ↦ rw d tt | inr d ↦ rw d tt ])
  ];
  idle_apart = refl;
  idle_awake = λ s. ground arith;
  idle_exists = λ e. omega arith;
  null_apart = refl;
  null_awake = λ s. ground arith;
  cpu = λ t. ground arith;
}

pub kernel-IsValid : IsValid kernel
kernel-IsValid = record {
  queues = kernel-Queues;
  runs = refl;
  alone = λ t e. ground arith;
  exists = λ e. omega arith;
}

pub kernel-priorities : (t : ℕ) → priority_of kernel t ≤ℤ pri_max
kernel-priorities t = ground arith

pub seven-IsLock : IsLock kernel 7
seven-IsLock = record { free = λ e. refl; held = λ ne. absurd (ne refl) }

pub eight-IsLock : IsLock kernel 8
eight-IsLock = record { free = λ e. absurd (omega arith); held = λ ne. refl }
