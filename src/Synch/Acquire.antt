-- ===== src/Synch/Acquire.antt =====
-- src/threads/synch.c: `lock_acquire`, `lock_try_acquire` and `lock_release` on a lock in order.
use mathlib.Core.Path.{subst}
use cs.Common.{
  ℕ, [], ◌∷◌, ◌++◌, update, ◌-◌, ◌≡◌, ◌≢◌, refl, inl, inr, Bool, true, false, not, none, some,
  arith, ltb, ◌==◌, null, Bool-cases, ap, sym, ◌∙◌,
}
use cs.Threads.{Kernel, Semaphore, put_sema}
use cs.Sched.Valid.{IsValid, IsValid-same}
use cs.Synch.{
  lock_held_by_current_thread, note_waiting, drop_lock, finish_acquire, lock_acquire_again,
  lock_acquire, lock_try_acquire, lock_release, sema_down, sema_try_down,
}
use cs.Synch.Semaphores.{IsAsleep, sema_down-IsValid, sema_up-IsValid, put_sema-IsValid}
use cs.Synch.Effects.{OnlySema, sema_down-OnlySema, sema_down-current, sema_up-OnlySema}
use cs.Synch.Locks.{
  IsLock, Attempt, finish-Attempt, note_waiting-lock, note_waiting-sema, note_waiting-current,
  note_waiting-condition, note_waiting-SameQueues, drop_lock-SameQueues, drop_lock-sema,
  drop_lock-holder,
}

not_held :
    (k : Kernel) (l : ℕ)
    → (k.lock l).holder ≢ k.current
    → not (lock_held_by_current_thread l k) ≡ true
unfolding lock_held_by_current_thread
not_held k l ne = ground arith

-- An acquisition that is not done is the sleep alone.
finish_acquire-IsAsleep :
    (l : ℕ) (k k₁ : Kernel) (done : Bool)
    → (done ≡ false → IsAsleep l k k₁)
    → (finish_acquire l (done, k₁)).0 ≡ false
    → IsAsleep l k (finish_acquire l (done, k₁)).1
finish_acquire-IsAsleep l k k₁ true asleep e = cc
finish_acquire-IsAsleep l k k₁ false asleep e = asleep e

lock_acquire_again-Attempt :
    (k : Kernel) (l : ℕ)
    → IsValid k
    → IsLock k l
    → k.current ≢ k.idle_thread
    → (done : Bool) × (k' : Kernel) × (lock_acquire_again l k ≡ some (done, k'))
      × Attempt l k done k'
      × (done ≡ false → IsAsleep l k k')
unfolding lock_acquire_again
lock_acquire_again-Attempt k l v ok ne =
    let (done, k₁, e, valid, (d, taken, asleep)) = sema_down-IsValid k l v ne in
    let only = (sema_down-OnlySema l k done k₁ e).1 in
    (
      (finish_acquire l (done, k₁)).0,
      (finish_acquire l (done, k₁)).1,
      rw e,
      finish-Attempt l k k₁ done v.exists ok valid only d
          (λ i. sema_down-current l k k₁ (subst (λ b. sema_down l k ≡ some (b, k₁)) i e)),
      finish_acquire-IsAsleep l k k₁ done asleep,
    )

note_waiting-IsLock : (k : Kernel) (l : ℕ) → IsLock k l → IsLock (note_waiting l k) l
note_waiting-IsLock k l ok = record {
  free = λ e.
      ap (λ f. (f l).value) (note_waiting-sema l k)
      ∙ ok.free (ap (λ f. (f l).holder) (sym (note_waiting-lock l k)) ∙ e);
  held = λ ne.
      ap (λ f. (f l).value) (note_waiting-sema l k)
      ∙ ok.held (λ e. ne (ap (λ f. (f l).holder) (note_waiting-lock l k) ∙ e));
}

Attempt-note_waiting :
    (l : ℕ) (k : Kernel) (done : Bool) (k' : Kernel)
    → Attempt l (note_waiting l k) done k'
    → Attempt l k done k'
Attempt-note_waiting l k done k' a =
    let holder : ((note_waiting l k).lock l).holder ≡ (k.lock l).holder =
      ap (λ f. (f l).holder) (note_waiting-lock l k) in
    record {
      valid = a.valid;
      is_lock = a.is_lock;
      won = λ e. (sym holder ∙ (a.won e).0, (a.won e).1 ∙ note_waiting-current l k);
      lost = λ e. (λ i. (a.lost e).0 (holder ∙ i), (a.lost e).1 ∙ note_waiting-lock l k);
    }

-- The semaphores once the thread `t` waits on `l`.
abbrev asleep_on : ℕ → (ℕ → Semaphore) → ℕ → ℕ → Semaphore
asleep_on l sema t = update sema l (record (sema l) { waiters = (sema l).waiters ++ (t ∷ []) })

-- To note the lock that is waited on changes nothing that a sleep shows.
IsAsleep-note_waiting : (l : ℕ) (k k' : Kernel) → IsAsleep l (note_waiting l k) k' → IsAsleep l k k'
IsAsleep-note_waiting l k k' a =
    let sema = note_waiting-sema l k in
    let current = note_waiting-current l k in
    record {
      queue =
          a.queue
          ∙ (ap (λ f. asleep_on l f (note_waiting l k).current) sema
              ∙ ap (asleep_on l k.sema) current);
      is_blocked = ap (λ t. (k'.thread t).status) (sym current) ∙ a.is_blocked;
      another = λ e. a.another (e ∙ sym current);
      lock = a.lock ∙ note_waiting-lock l k;
      condition = a.condition ∙ note_waiting-condition l k;
    }

-- In a valid state, a thread other than the idle thread that asks for a lock in order, which it does
-- not hold, gets it exactly if it was free. Else it sleeps while the holder keeps the lock: it is
-- blocked, at the end of the lock's wait list, and another thread runs. The state stays valid and the
-- lock in order.
pub lock_acquire-Attempt :
    (k : Kernel) (l : ℕ)
    → IsValid k
    → IsLock k l
    → k.current ≢ k.idle_thread
    → (k.lock l).holder ≢ k.current
    → (done : Bool) × (k' : Kernel) × (lock_acquire l k ≡ some (done, k'))
      × Attempt l k done k'
      × (done ≡ false → IsAsleep l k k')
unfolding lock_acquire
lock_acquire-Attempt k l v ok ne other =
    let same = note_waiting-SameQueues l k in
    let (done, k', e, a, asleep) =
      lock_acquire_again-Attempt (note_waiting l k) l (IsValid-same same v)
        (note_waiting-IsLock k l ok) (λ i. ne (sym same.current ∙ (i ∙ same.idle_thread))) in
    (
      done,
      k',
      rw (not_held k l other) e,
      Attempt-note_waiting l k done k' a,
      λ i. IsAsleep-note_waiting l k k' (asleep i),
    )

try_down :
    (k : Kernel) (l : ℕ)
    → IsValid k
    → (done : Bool) × (k' : Kernel) × (sema_try_down l k ≡ (done, k'))
      × IsValid k'
      × OnlySema l ((k.sema l).value - 1) k k'
      × (done ≡ ltb 0 (k.sema l).value)
      × (k'.current ≡ k.current)
unfolding sema_try_down
try_down k l v = elim (Bool-cases (ltb 0 (k.sema l).value)) [
  | inl more ↦
      let taken : Semaphore = record (k.sema l) { value = (k.sema l).value - 1 } in
      (
        true,
        put_sema l taken k,
        rw more,
        put_sema-IsValid k l taken v (v.queues.distinct_waiters l) (λ t m. m),
        record {
          value_at = ground arith;
          others = λ r ne. ground arith;
          lock = refl;
          condition = refl;
          thread_mlfqs = refl;
        },
        sym more,
        refl,
      )
  | inr zero ↦ (
    false,
    k,
    rw zero,
    v,
    record {
      value_at = ground arith;
      others = λ r ne. refl;
      lock = refl;
      condition = refl;
      thread_mlfqs = refl;
    },
    sym zero,
    refl,
  )
]

-- In a valid state, a try for a lock in order that the caller does not hold never sleeps: it takes
-- the lock exactly if it was free. The state stays valid and the lock in order.
pub lock_try_acquire-Attempt :
    (k : Kernel) (l : ℕ)
    → IsValid k
    → IsLock k l
    → (k.lock l).holder ≢ k.current
    → (done : Bool) × (k' : Kernel) × (lock_try_acquire l k ≡ some (done, k')) × Attempt l k done k'
unfolding lock_try_acquire
lock_try_acquire-Attempt k l v ok other =
    let (done, k₁, e, valid, only, d, same) = try_down k l v in
    (
      (finish_acquire l (done, k₁)).0,
      (finish_acquire l (done, k₁)).1,
      rw (not_held k l other) (rw e),
      finish-Attempt l k k₁ done v.exists ok valid only d (λ i. same),
    )

-- In a valid state, the holder of a lock in order can release it: the lock is then free and in
-- order, and the state valid.
pub lock_release-IsLock :
    (k : Kernel) (l : ℕ)
    → IsValid k
    → IsLock k l
    → (k.lock l).holder ≡ k.current
    → (k' : Kernel) × (lock_release l k ≡ some k')
      × IsValid k'
      × IsLock k' l
      × ((k'.lock l).holder ≡ null)
unfolding lock_release lock_held_by_current_thread
lock_release-IsLock k l v ok mine =
    let (k', e, valid) =
      sema_up-IsValid (drop_lock l k) l false (IsValid-same (drop_lock-SameQueues l k) v) in
    let only = sema_up-OnlySema false l (drop_lock l k) k' e in
    let holder : (k'.lock l).holder ≡ null =
      ap (λ f. (f l).holder) only.lock ∙ drop_lock-holder l k in
    let before : ((drop_lock l k).sema l).value ≡ 0 =
      ap (λ f. (f l).value) (drop_lock-sema l k) ∙ ok.held (λ i. v.exists (sym mine ∙ i)) in
    let value : (k'.sema l).value ≡ 1 = only.value_at ∙ rw before in
    let asks : ((k.lock l).holder == k.current) ≡ true = ground arith in
    (k', rw asks e, valid, record { free = λ i. value; held = λ ne. absurd (ne holder) }, holder)

-- A thread that does not hold a lock cannot release it: the assertion fails.
pub lock_release_not_held :
    (k : Kernel) (l : ℕ) → (k.lock l).holder ≢ k.current → lock_release l k ≡ none
unfolding lock_release lock_held_by_current_thread
lock_release_not_held k l other =
    let asks : ((k.lock l).holder == k.current) ≡ false = ground arith in rw asks
