-- ===== src/Tests/Synchronization.antt =====
-- The theorems about src/threads/synch.c at the small kernel.
use cs.Common.{ℕ, ◌≡◌, refl, Bool, true, false, [], ◌∷◌, none, some, null, arith}
use cs.Threads.{Kernel, put_sema}
use cs.Sched.{priority_of}
use cs.Sched.Valid.{IsValid, IsValid-same}
use cs.Sched.Highest.{IsFirstHighest}
use cs.Synch.{
  sema_up, sema_down, lock_acquire, lock_release, cond_wait, put_cond, sema_init,
  lock_held_by_current_thread, get_semaphore_to_signal,
}
use cs.Synch.Semaphores.{
  IsAsleep, IsDown, sema_down-IsValid, sema_up-IsValid, sema_up-IsFirstHighest, woken_up,
  put_sema-IsValid,
}
use cs.Synch.Locks.{IsLock, Attempt}
use cs.Synch.Acquire.{lock_acquire-Attempt, lock_release-IsLock}
use cs.Synch.Conditions.{cond_wait-fault}
use cs.Synch.Undonated.{lock_acquire-SamePriorities}
use cs.Tests.Kernels.{kernel, kernel-IsValid, seven-IsLock, eight-IsLock}

sema_down-IsValid_example :
    (done : Bool) × (k' : Kernel) × (sema_down 5 kernel ≡ some (done, k'))
    × IsValid k'
    × IsDown 5 kernel done k'
sema_down-IsValid_example = sema_down-IsValid kernel 5 kernel-IsValid (λ e. omega arith)

sema_up-IsValid_example : (k' : Kernel) × (sema_up false 5 kernel ≡ some k') × IsValid k'
sema_up-IsValid_example = sema_up-IsValid kernel 5 false kernel-IsValid

sema_up-IsFirstHighest_example :
    (t : ℕ) × IsFirstHighest (priority_of kernel) (3 ∷ []) t
    × (sema_up true 5 kernel ≡ some (woken_up 5 t kernel))
sema_up-IsFirstHighest_example =
    sema_up-IsFirstHighest kernel 5 3 [] kernel-IsValid refl (omega arith, tt)

lock_acquire-Attempt_example :
    (done : Bool) × (k' : Kernel) × (lock_acquire 7 kernel ≡ some (done, k'))
    × Attempt 7 kernel done k'
    × (done ≡ false → IsAsleep 7 kernel k')
lock_acquire-Attempt_example =
    lock_acquire-Attempt kernel 7 kernel-IsValid seven-IsLock (λ e. omega arith) (λ e. omega arith)

lock_release-IsLock_example :
    (k' : Kernel) × (lock_release 8 kernel ≡ some k')
    × IsValid k'
    × IsLock k' 8
    × ((k'.lock 8).holder ≡ null)
lock_release-IsLock_example = lock_release-IsLock kernel 8 kernel-IsValid eight-IsLock refl

lock_acquire-SamePriorities_example : (k' : Kernel) × (priority_of k' 1 ≡ priority_of kernel 1)
lock_acquire-SamePriorities_example =
    let (done, k', run, _, _) = lock_acquire-Attempt_example in
    (k', lock_acquire-SamePriorities 7 kernel done k' refl run 1)

-- Thread 1 waits on condition 40 with its lock 8 and a semaphore of its own at 50.
abbrev queued : Kernel
queued = put_cond 40 (50 ∷ []) (put_sema 50 (record { value = 0; waiters = [] }) kernel)

queued-IsValid : IsValid queued
queued-IsValid =
    IsValid-same
      (record {
        status = λ t. refl;
        cpu = λ t. refl;
        sema = refl;
        ready_list = refl;
        idle_thread = refl;
        current = refl;
      })
      (put_sema-IsValid kernel 50 (record { value = 0; waiters = [] }) kernel-IsValid tt
        (λ t m. cc))

queued-IsLock : IsLock queued 8
queued-IsLock = record { free = λ e. absurd (omega arith); held = λ ne. refl }

cond_wait-released : (k' : Kernel) × (cond_wait 40 8 50 kernel ≡ some k')
unfolding cond_wait sema_init lock_held_by_current_thread
cond_wait-released =
    let (k', run, _, _, _) = lock_release-IsLock queued 8 queued-IsValid queued-IsLock refl in
    (k', run)

cond_wait-fault_example : (k' : Kernel) × (get_semaphore_to_signal 40 k' ≡ none)
cond_wait-fault_example =
    let (k', run) = cond_wait-released in
    (k', cond_wait-fault 40 8 50 kernel k' (λ e. omega arith) run)
