-- ===== src/Synch.antt =====
-- src/threads/synch.c: semaphores, locks and condition variables.
-- A wait is modelled as passes: an operation that answers `false` has put the running thread to
-- sleep, and makes its next pass when that thread runs again.
pub mod Semaphores
pub mod Effects
pub mod Locks
pub mod Acquire
pub mod Conditions
pub mod Undonated
use cs.Common.{
  ℕ, ◌+◌, ◌-◌, ◌%◌, ◌^◌, Bool, true, false, not, ◌&&◌, ◌||◌, Option, none, some, List, [], ◌∷◌,
  ◌++◌, erase, ltb, ◌==◌, if◌then◌else◌, update, null, assert, ◌>>=◌, ◌>>◌,
}
use cs.Common.Int.{ℤ, ltb_ℤ}
use cs.Threads.{Thread, Semaphore, Lock, Kernel, pri_min, put_thread, put_sema, put_lock}
use cs.Sched.{get_highest_priority_thread, thread_block, thread_unblock, thread_yield, priority_of}

unfoldable pub sema_init : ℕ → ℕ → Kernel → Kernel
sema_init s value k = put_sema s (record { value = value; waiters = [] }) k

abbrev pub sleep : Option Kernel → Option (Bool × Kernel)
sleep none = none
sleep (some k) = some (false, k)

-- One pass of the loop: `true` if the semaphore was decremented.
pub sema_down : ℕ → Kernel → Option (Bool × Kernel)
sema_down s k =
    if (k.sema s).value == 0
    then sleep (
        thread_block
          (put_sema s (record (k.sema s) { waiters = (k.sema s).waiters ++ (k.current ∷ []) }) k))
    else some (true, put_sema s (record (k.sema s) { value = (k.sema s).value - 1 }) k)

pub sema_try_down : ℕ → Kernel → Bool × Kernel
sema_try_down s k =
    if ltb 0 (k.sema s).value
    then (true, put_sema s (record (k.sema s) { value = (k.sema s).value - 1 }) k)
    else (false, k)

-- The waiter found is taken off the list and made ready. `sema_up` runs with interrupts off.
pub unblock_waiter : ℕ → Kernel → Option ℕ × List ℕ → Option Kernel
unblock_waiter s k (none, rest) = none
unblock_waiter s k (some t, rest) =
    thread_unblock false t (put_sema s (record (k.sema s) { waiters = rest }) k)

pub wake_waiter : ℕ → Kernel → List ℕ → Option Kernel
unfolding unblock_waiter
wake_waiter s k [] = some k
wake_waiter s k (t ∷ ts) = unblock_waiter s k (get_highest_priority_thread k (t ∷ ts) true)

abbrev pub count_up : ℕ → Kernel → Kernel
count_up s k = put_sema s (record (k.sema s) { value = ((k.sema s).value + 1) % 2 ^ 32 }) k

-- `interrupt_context` is what `intr_context` returns.
pub sema_up : Bool → ℕ → Kernel → Option Kernel
sema_up interrupt_context s k = do
  woken ← wake_waiter s k (k.sema s).waiters
  if interrupt_context then some (count_up s woken) else thread_yield (count_up s woken)

pub lock_init : ℕ → Kernel → Kernel
unfolding sema_init
lock_init l k = sema_init l 1 (put_lock l (record { holder = null; priority = pri_min }) k)

unfoldable pub lock_held_by_current_thread : ℕ → Kernel → Bool
lock_held_by_current_thread l k = (k.lock l).holder == k.current

-- Before the wait: the lock that the thread waits on is noted. Priority is not donated.
pub note_waiting : ℕ → Kernel → Kernel
note_waiting l k =
    if not k.thread_mlfqs && not ((k.lock l).holder == null)
    then put_thread k.current (record (k.thread k.current) { lock_waiting_on = l }) k
    else k

-- After the wait: the lock is the running thread's.
pub take_lock : ℕ → Kernel → Kernel
take_lock l k =
    let t = k.thread k.current in
    if not k.thread_mlfqs
    then put_thread k.current (record t { locks_held = l ∷ t.locks_held; lock_waiting_on = null })
        (put_lock l (record { holder = k.current; priority = pri_min }) k)
    else put_lock l (record (k.lock l) { holder = k.current }) k

abbrev pub finish_acquire : ℕ → Bool × Kernel → Bool × Kernel
finish_acquire l (true, k) = (true, take_lock l k)
finish_acquire l (false, k) = (false, k)

-- A pass after a sleep.
pub lock_acquire_again : ℕ → Kernel → Option (Bool × Kernel)
lock_acquire_again l k = do some (finish_acquire l (← sema_down l k))

pub lock_acquire : ℕ → Kernel → Option (Bool × Kernel)
unfolding lock_acquire_again
lock_acquire l k = do
  assert (not (lock_held_by_current_thread l k))
  lock_acquire_again l (note_waiting l k)

pub lock_try_acquire : ℕ → Kernel → Option (Bool × Kernel)
lock_try_acquire l k = do
  assert (not (lock_held_by_current_thread l k))
  some (finish_acquire l (sema_try_down l k))

-- The lock leaves the list of its holder. Priority is not shed.
pub drop_lock : ℕ → Kernel → Kernel
drop_lock l k =
    let t = k.thread k.current in
    if not k.thread_mlfqs
    then put_thread k.current (record t { locks_held = erase l t.locks_held })
        (put_lock l (record { holder = null; priority = pri_min }) k)
    else put_lock l (record (k.lock l) { holder = null }) k

pub lock_release : ℕ → Kernel → Option Kernel
lock_release l k = do assert (lock_held_by_current_thread l k); sema_up false l (drop_lock l k)

abbrev pub put_cond : ℕ → List ℕ → Kernel → Kernel
put_cond c waiters k = record k { condition = update k.condition c waiters }

pub cond_init : ℕ → Kernel → Kernel
cond_init c k = put_cond c [] k

-- The part of `cond_wait` before the sleep: `w` is the address of the waiter's semaphore. When the
-- thread runs again it makes `sema_down w`, then `lock_acquire l`.
unfoldable pub cond_wait : ℕ → ℕ → ℕ → Kernel → Option Kernel
cond_wait c l w k = do
  assert (lock_held_by_current_thread l k)
  lock_release l (put_cond c (k.condition c ++ (w ∷ [])) (sema_init w 0 k))

-- The scan over the waiters, with the semaphore chosen so far and its priority. A semaphore on
-- which no thread waits gives a null thread, which the code reads through: a fault.
pub signal_loop : Kernel → Option ℕ → ℤ → List ℕ → Option (Option ℕ)
signal_loop k chosen highest [] = some chosen
signal_loop k chosen highest (w ∷ ws) = do
  t ← (get_highest_priority_thread k (k.sema w).waiters false).0
  let higher = ltb_ℤ highest (priority_of k t) || elim chosen [ none ↦ true | some _ ↦ false ]
  signal_loop k (if higher then some w else chosen) (if higher then priority_of k t else highest) ws

pub get_semaphore_to_signal : ℕ → Kernel → Option (ℕ × Kernel)
unfolding signal_loop
get_semaphore_to_signal c k = do
  chosen ← signal_loop k none pri_min (k.condition c)
  w ← chosen
  some (w, put_cond c (erase w (k.condition c)) k)

abbrev pub is_empty : List ℕ → Bool
is_empty [] = true
is_empty (_ ∷ _) = false

pub cond_signal : ℕ → ℕ → Kernel → Option Kernel
unfolding get_semaphore_to_signal
cond_signal c l k = do
  assert (lock_held_by_current_thread l k)
  if is_empty (k.condition c)
      then some k
      else (do (w, k') ← get_semaphore_to_signal c k; sema_up false w k')
