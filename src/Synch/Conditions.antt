-- ===== src/Synch/Conditions.antt =====
-- src/threads/synch.c: a signal that comes between the two halves of `cond_wait`.
use cs.Common.{
  ℕ, ◌≡◌, ◌≢◌, refl, false, Option, none, some, List, [], ◌∷◌, ◌++◌, arith, ◌>>=◌, assert, ap, ◌∙◌,
  >>=-eq-some,
}
use cs.Common.Int.{ℤ}
use cs.Threads.{Kernel, pri_min}
use cs.Sched.{get_highest_priority_thread}
use cs.Sched.Highest.{get_highest_priority_thread-nil}
use cs.Synch.{
  sema_init, drop_lock, lock_release, lock_held_by_current_thread, cond_wait, put_cond, signal_loop,
  get_semaphore_to_signal,
}
use cs.Synch.Effects.{sema_up-OnlySema}
use cs.Synch.Locks.{drop_lock-sema, drop_lock-condition}

-- The scan faults at a semaphore on which no thread waits, wherever it stands.
signal_step-fault :
    {rest : ℕ → Option (Option ℕ)} (found : Option ℕ)
    → ((t : ℕ) → rest t ≡ none)
    → (found >>= rest) ≡ none
signal_step-fault none h = refl
signal_step-fault (some t) h = h t

signal_loop-fault :
    (k : Kernel) (w : ℕ) (list : List ℕ) (chosen : Option ℕ) (highest : ℤ)
    → (k.sema w).waiters ≡ []
    → signal_loop k chosen highest (list ++ (w ∷ [])) ≡ none
unfolding signal_loop
signal_loop-fault k w [] chosen highest e = rw (e, get_highest_priority_thread-nil k false)
signal_loop-fault k w (x ∷ list) chosen highest e =
    signal_step-fault (get_highest_priority_thread k (k.sema x).waiters false).0
      (λ t. signal_loop-fault k w list _ _ e)

-- Once a thread has released the lock in `cond_wait`, and until it waits on its own semaphore `w`,
-- the scan of `cond_signal` reads through a null thread.
pub cond_wait-fault :
    (c l w : ℕ) (k k' : Kernel)
    → w ≢ l
    → cond_wait c l w k ≡ some k'
    → get_semaphore_to_signal c k' ≡ none
unfolding cond_wait lock_release get_semaphore_to_signal sema_init
cond_wait-fault c l w k k' ne e =
    let queued = put_cond c (k.condition c ++ (w ∷ [])) (sema_init w 0 k) in
    let (u, i, f) = >>=-eq-some (assert (lock_held_by_current_thread l k)) _ e in
    let (v, j, g) = >>=-eq-some (assert (lock_held_by_current_thread l queued)) _ f in
    let only = sema_up-OnlySema false l (drop_lock l queued) k' g in
    let waiters : (k'.sema w).waiters ≡ [] =
      ap (λ s. s.waiters) (only.others w ne ∙ ap (λ h. h w) (drop_lock-sema l queued))
      ∙ ground arith in
    let list : k'.condition c ≡ k.condition c ++ (w ∷ []) =
      ap (λ h. h c) (only.condition ∙ drop_lock-condition l queued) ∙ ground arith in
    rw list (rw (signal_loop-fault k' w (k.condition c) none pri_min waiters))
