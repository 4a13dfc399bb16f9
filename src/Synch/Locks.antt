-- ===== src/Synch/Locks.antt =====
-- src/threads/synch.c: the state of a lock.

use cs.Common.{ℕ, ◌-◌, ◌≡◌, ◌≢◌, refl, Bool, true, false, arith, ltb, null, ap, sym, ◌∙◌}
use cs.Threads.{Kernel}
use cs.Sched.Valid.{IsValid, SameQueues, IsValid-same}
use cs.Synch.{lock_init, sema_init, note_waiting, take_lock, drop_lock, finish_acquire}
use cs.Synch.Effects.{OnlySema}

-- A lock is free, with the value 1 in its semaphore, or held, with the value 0.
pub record IsLock (k : Kernel) (l : ℕ) : Type 0 where
  pub free : (k.lock l).holder ≡ null → (k.sema l).value ≡ 1
  pub held : (k.lock l).holder ≢ null → (k.sema l).value ≡ 0

pub lock_init-IsLock : (k : Kernel) (l : ℕ) → IsLock (lock_init l k) l
unfolding lock_init sema_init
lock_init-IsLock k l = record { free = λ e. ground arith; held = λ ne. ground arith }

-- What the bookkeeping of an acquisition changes.
pub note_waiting-lock : (l : ℕ) (k : Kernel) → (note_waiting l k).lock ≡ k.lock
unfolding note_waiting
note_waiting-lock l k = ground arith

pub note_waiting-sema : (l : ℕ) (k : Kernel) → (note_waiting l k).sema ≡ k.sema
unfolding note_waiting
note_waiting-sema l k = ground arith

pub note_waiting-current : (l : ℕ) (k : Kernel) → (note_waiting l k).current ≡ k.current
unfolding note_waiting
note_waiting-current l k = ground arith

pub note_waiting-condition : (l : ℕ) (k : Kernel) → (note_waiting l k).condition ≡ k.condition
unfolding note_waiting
note_waiting-condition l k = ground arith

take_lock-holder : (l : ℕ) (k : Kernel) → ((take_lock l k).lock l).holder ≡ k.current
unfolding take_lock
take_lock-holder l k = ground arith

take_lock-sema : (l : ℕ) (k : Kernel) → (take_lock l k).sema ≡ k.sema
unfolding take_lock
take_lock-sema l k = ground arith

take_lock-others : (l r : ℕ) (k : Kernel) → r ≢ l → (take_lock l k).lock r ≡ k.lock r
unfolding take_lock
take_lock-others l r k ne = ground arith

pub drop_lock-holder : (l : ℕ) (k : Kernel) → ((drop_lock l k).lock l).holder ≡ null
unfolding drop_lock
drop_lock-holder l k = ground arith

pub drop_lock-sema : (l : ℕ) (k : Kernel) → (drop_lock l k).sema ≡ k.sema
unfolding drop_lock
drop_lock-sema l k = ground arith

pub note_waiting-SameQueues : (l : ℕ) (k : Kernel) → SameQueues k (note_waiting l k)
unfolding note_waiting
note_waiting-SameQueues l k = record {
  status = λ t. ground arith;
  cpu = λ t. ground arith;
  sema = ground arith;
  ready_list = ground arith;
  idle_thread = ground arith;
  current = ground arith;
}

take_lock-SameQueues : (l : ℕ) (k : Kernel) → SameQueues k (take_lock l k)
unfolding take_lock
take_lock-SameQueues l k = record {
  status = λ t. ground arith;
  cpu = λ t. ground arith;
  sema = ground arith;
  ready_list = ground arith;
  idle_thread = ground arith;
  current = ground arith;
}

pub drop_lock-SameQueues : (l : ℕ) (k : Kernel) → SameQueues k (drop_lock l k)
unfolding drop_lock
drop_lock-SameQueues l k = record {
  status = λ t. ground arith;
  cpu = λ t. ground arith;
  sema = ground arith;
  ready_list = ground arith;
  idle_thread = ground arith;
  current = ground arith;
}

-- The outcome of an attempt on `l`: the lock was free and is now the caller's, or it was held and
-- its holder has not changed.
pub record Attempt (l : ℕ) (k : Kernel) (done : Bool) (k' : Kernel) : Type 0 where
  pub valid : IsValid k'
  pub is_lock : IsLock k' l
  pub won : done ≡ true → ((k.lock l).holder ≡ null) × ((k'.lock l).holder ≡ k.current)
  pub lost : done ≡ false → ((k.lock l).holder ≢ null) × (k'.lock ≡ k.lock)

pub finish-Attempt :
    (l : ℕ) (k k₁ : Kernel) (done : Bool)
    → k.current ≢ null
    → IsLock k l
    → IsValid k₁
    → OnlySema l ((k.sema l).value - 1) k k₁
    → done ≡ ltb 0 (k.sema l).value
    → (done ≡ true → k₁.current ≡ k.current)
    → Attempt l k (finish_acquire l (done, k₁)).0 (finish_acquire l (done, k₁)).1
finish-Attempt l k k₁ true ne ok v only d same =
    let free : (k.lock l).holder ≡ null = ground (arith, ok.held) in
    let holder : ((take_lock l k₁).lock l).holder ≡ k.current = take_lock-holder l k₁ ∙ same refl in
    let value : ((take_lock l k₁).sema l).value ≡ 0 =
      ap (λ f. (f l).value) (take_lock-sema l k₁)
      ∙ (only.value_at ∙ ground (arith, ok.free free)) in
    record {
      valid = IsValid-same (take_lock-SameQueues l k₁) v;
      is_lock = record { free = λ e. absurd (ne (sym holder ∙ e)); held = λ e. value };
      won = λ e. (free, holder);
      lost = λ e. cc;
    }
finish-Attempt l k k₁ false ne ok v only d same =
    let held : (k.lock l).holder ≢ null = λ e. ground (arith, ok.free e) in
    let value : (k₁.sema l).value ≡ 0 = only.value_at ∙ ground (arith, ok.held held) in
    record {
      valid = v;
      is_lock = record {
        free = λ e. absurd (held (ap (λ f. (f l).holder) (sym only.lock) ∙ e));
        held = λ e. value;
      };
      won = λ e. cc;
      lost = λ e. (held, only.lock);
    }

pub drop_lock-condition : (l : ℕ) (k : Kernel) → (drop_lock l k).condition ≡ k.condition
unfolding drop_lock
drop_lock-condition l k = ground arith
