-- ===== src/Synch/Undonated.antt =====
-- src/threads/synch.c: `lock_acquire` does not call `donate_priority`.
use mathlib.Core.Path.{subst}
use cs.Common.{
  ℕ, ◌-◌, ◌≡◌, refl, inl, inr, Bool, true, false, not, some, [], ◌∷◌, ◌++◌, arith, ◌==◌, Bool-cases,
  assert, ◌∙◌, >>=-eq-some,
}
use cs.Threads.{blocked, Kernel, Semaphore, put_sema}
use cs.Sched.{priority_of, thread_block, set_status}
use cs.Sched.Preempt.{SamePriorities, schedule-SamePriorities}
use cs.Synch.{
  note_waiting, take_lock, finish_acquire, lock_acquire_again, lock_acquire,
  lock_held_by_current_thread, sema_down,
}
use cs.Synch.Effects.{sleep-eq-some, some_pair}

sema_down-SamePriorities :
    (s : ℕ) (k : Kernel) (done : Bool) (k' : Kernel)
    → k.thread_mlfqs ≡ false
    → sema_down s k ≡ some (done, k')
    → SamePriorities k k'
unfolding sema_down thread_block
sema_down-SamePriorities s k done k' off e = elim (Bool-cases ((k.sema s).value == 0)) [
  | inl zero ↦
      let pushed =
        put_sema s (record (k.sema s) { waiters = (k.sema s).waiters ++ (k.current ∷ []) }) k in
      let slept = (sleep-eq-some (thread_block pushed) done k' (rw zero at e)).0 in
      λ t.
        schedule-SamePriorities (set_status k.current blocked pushed) k' off slept t ∙ ground arith
  | inr more ↦
      let taken : Semaphore = record (k.sema s) { value = (k.sema s).value - 1 } in
      subst (SamePriorities k) ((some_pair true done (put_sema s taken k) k' (rw more at e)).1)
        (λ t. refl)
]

note_waiting-SamePriorities : (l : ℕ) (k : Kernel) → SamePriorities k (note_waiting l k)
unfolding note_waiting
note_waiting-SamePriorities l k t = ground arith

note_waiting-mlfqs : (l : ℕ) (k : Kernel) → (note_waiting l k).thread_mlfqs ≡ k.thread_mlfqs
unfolding note_waiting
note_waiting-mlfqs l k = ground arith

take_lock-SamePriorities : (l : ℕ) (k : Kernel) → SamePriorities k (take_lock l k)
unfolding take_lock
take_lock-SamePriorities l k t = ground arith

finish-SamePriorities :
    (l : ℕ) (k : Kernel) (done d : Bool) (k₁ k' : Kernel)
    → SamePriorities k k₁
    → some (finish_acquire l (done, k₁)) ≡ some (d, k')
    → SamePriorities k k'
finish-SamePriorities l k true d k₁ k' s e =
    subst (SamePriorities k) ((some_pair true d (take_lock l k₁) k' e).1)
      (λ t. take_lock-SamePriorities l k₁ t ∙ s t)
finish-SamePriorities l k false d k₁ k' s e =
    subst (SamePriorities k) ((some_pair false d k₁ k' e).1) s

-- Under the priority scheduler a thread that asks for a lock, whether it gets it or sleeps, changes
-- no thread's priority: the holder of the lock gets no donation.
pub lock_acquire-SamePriorities :
    (l : ℕ) (k : Kernel) (done : Bool) (k' : Kernel)
    → k.thread_mlfqs ≡ false
    → lock_acquire l k ≡ some (done, k')
    → (t : ℕ) → priority_of k' t ≡ priority_of k t
unfolding lock_acquire lock_acquire_again
lock_acquire-SamePriorities l k done k' off e =
    let noted = note_waiting l k in
    let (u, i, f) = >>=-eq-some (assert (not (lock_held_by_current_thread l k))) _ e in
    let ((d, k₁), j, g) = >>=-eq-some (sema_down l noted) _ f in
    finish-SamePriorities l k d done k₁ k'
      (λ t.
        sema_down-SamePriorities l noted d k₁ (note_waiting-mlfqs l k ∙ off) j t
        ∙ note_waiting-SamePriorities l k t)
      g
