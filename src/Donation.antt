-- ===== src/Donation.antt =====
-- src/threads/thread.c: `donate_priority`, `shed_priority` and `thread_set_priority`.
pub mod Chain
pub mod Shed
use cs.Common.{
  ℕ, zero, suc, ◌+◌, Bool, true, false, not, Option, none, some, List, [], ◌∷◌, ◌==◌, if◌then◌else◌,
  update, null, assert, ◌>>=◌, ◌>>◌,
}
use cs.Common.Int.{ℤ, ltb_ℤ}
use cs.Threads.{Thread, Lock, Kernel, pri_min, put_thread, put_lock}
use cs.Sched.{thread_yield}

abbrev pub raise : ℤ → ℤ → ℤ
raise donated priority = if ltb_ℤ priority donated then donated else priority

-- One round: the lock and then its holder get at least the priority of the thread `t`.
pub donate_to : ℕ → ℕ → Kernel → Kernel
donate_to t l k =
    let p = (k.thread t).priority in
    let h = (k.lock l).holder in
    put_thread h (record (k.thread h) { priority = raise p (k.thread h).priority })
      (put_lock l (record (k.lock l) { priority = raise p (k.lock l).priority }) k)

-- The loop on fuel: along the locks that threads wait on. A lock that is waited on but not held
-- would be read through a null holder.
pub donate_loop : ℕ → ℕ → Kernel → Option Kernel
unfolding donate_to
donate_loop zero t k = none
donate_loop (suc fuel) t k =
    let l = (k.thread t).lock_waiting_on in
    let h = (k.lock l).holder in
    let rest = donate_loop fuel h (donate_to t l k) in
    if l == null then some k else if h == null then none else rest

pub donate_priority : ℕ → Kernel → Option Kernel
unfolding donate_loop
donate_priority fuel k = donate_loop fuel k.current k

-- The highest priority of the locks held, which the thread's own dummy lock is among.
pub shed_loop : (ℕ → Lock) → ℤ → List ℕ → ℤ
shed_loop lock highest [] = highest
shed_loop lock highest (l ∷ ls) = shed_loop lock (raise (lock l).priority highest) ls

pub shed_priority : Kernel → Kernel
unfolding shed_loop
shed_priority k =
    let t = k.thread k.current in
    put_thread k.current (record t { priority = shed_loop k.lock pri_min t.locks_held }) k

-- `interrupt_context` is what `intr_context` returns.
pub thread_set_priority : Bool → ℤ → Kernel → Option Kernel
unfolding shed_priority
thread_set_priority interrupt_context new_priority k = do
  assert (not k.thread_mlfqs)
  let own = (k.thread k.current).original_priority_info
  let k' = shed_priority (put_lock own (record (k.lock own) { priority = new_priority }) k)
  if interrupt_context then some k' else thread_yield k'
