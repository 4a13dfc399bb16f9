-- ===== src/Synch/Effects.antt =====
-- src/threads/synch.c: what `sema_down` and `sema_up` change.
use mathlib.Core.Path.{subst}
use cs.Common.{
  ℕ, ◌+◌, ◌-◌, ◌%◌, ◌^◌, ◌≡◌, ◌≢◌, refl, inl, inr, Bool, true, false, Option, none, some, List, [],
  ◌∷◌, ◌++◌, update, arith, ltb, ◌==◌, if◌then◌else◌, Bool-cases, ap, sym, ◌∙◌, >>=-eq-some,
}
use cs.Threads.{Semaphore, Kernel, put_sema}
use cs.Sched.{get_highest_priority_thread, thread_yield}
use cs.Sched.Untouched.{
  Untouched, Untouched-refl, thread_block-Untouched, thread_yield-Untouched,
  thread_unblock-Untouched,
}
use cs.Synch.{sema_down, sema_up, wake_waiter, unblock_waiter, count_up, sleep}

-- From `k` to `k'` at most the semaphore `s` has changed, to the value `value`.
pub record OnlySema (s value : ℕ) (k k' : Kernel) : Type 0 where
  pub value_at : (k'.sema s).value ≡ value
  pub others : (r : ℕ) → r ≢ s → k'.sema r ≡ k.sema r
  pub lock : k'.lock ≡ k.lock
  pub condition : k'.condition ≡ k.condition
  pub thread_mlfqs : k'.thread_mlfqs ≡ k.thread_mlfqs

stored :
    (s : ℕ) (v : Semaphore) (k : Kernel) {k' : Kernel}
    → Untouched (put_sema s v k) k'
    → OnlySema s v.value k k'
stored s v k u = record {
  value_at = ap (λ f. (f s).value) u.sema ∙ ground arith;
  others = λ r ne. ap (λ f. f r) u.sema ∙ ground arith;
  lock = u.lock;
  condition = u.condition;
  thread_mlfqs = u.thread_mlfqs;
}

pub sleep-eq-some :
    (m : Option Kernel) (done : Bool) (k' : Kernel)
    → sleep m ≡ some (done, k')
    → (m ≡ some k') × (done ≡ false)
sleep-eq-some none done k' e = cc
sleep-eq-some (some k) done k' e = ground arith

pub some_pair :
    (a b : Bool) (k k' : Kernel)
    → ◌≡◌ {A = Option (Bool × Kernel)} (some (a, k)) (some (b, k'))
    → (a ≡ b) × (k ≡ k')
some_pair a b k k' e = ground arith

-- `sema_down` takes one from a positive value, and leaves the value 0.
pub sema_down-OnlySema :
    (s : ℕ) (k : Kernel) (done : Bool) (k' : Kernel)
    → sema_down s k ≡ some (done, k')
    → (done ≡ ltb 0 (k.sema s).value) × OnlySema s ((k.sema s).value - 1) k k'
unfolding sema_down
sema_down-OnlySema s k done k' e = elim (Bool-cases ((k.sema s).value == 0)) [
  | inl zero ↦
      let slept = sleep-eq-some _ done k' (rw zero at e) in
      let only = stored s _ k (thread_block-Untouched _ slept.0) in
      (rw slept.1 (ground arith), subst (λ n. OnlySema s n k k') (ground arith) only)
  | inr more ↦
      let taken : Semaphore = record (k.sema s) { value = (k.sema s).value - 1 } in
      let same = some_pair true done (put_sema s taken k) k' (rw more at e) in
      (
        rw (← same.0) (ground arith),
        subst (OnlySema s ((k.sema s).value - 1) k) same.1
            (stored s taken k (Untouched-refl (put_sema s taken k))),
      )
]

unblock_waiter-OnlySema :
    (s : ℕ) (k : Kernel) (found : Option ℕ × List ℕ) {k' : Kernel}
    → unblock_waiter s k found ≡ some k'
    → OnlySema s (k.sema s).value k k'
unfolding unblock_waiter
unblock_waiter-OnlySema s k (none, rest) e = cc
unblock_waiter-OnlySema s k (some t, rest) e =
    stored s (record (k.sema s) { waiters = rest }) k (thread_unblock-Untouched _ t e)

wake_waiter-OnlySema :
    (s : ℕ) (k : Kernel) (list : List ℕ) {k' : Kernel}
    → wake_waiter s k list ≡ some k'
    → OnlySema s (k.sema s).value k k'
unfolding wake_waiter
wake_waiter-OnlySema s k [] {k'} e =
    let i : k ≡ k' = cc in
    subst (OnlySema s (k.sema s).value k) i (record {
      value_at = refl;
      others = λ r ne. refl;
      lock = refl;
      condition = refl;
      thread_mlfqs = refl;
    })
wake_waiter-OnlySema s k (t ∷ ts) e =
    unblock_waiter-OnlySema s k (get_highest_priority_thread k (t ∷ ts) true) e

OnlySema-trans :
    {s n m : ℕ} {k k' k'' : Kernel} → OnlySema s n k k' → OnlySema s m k' k'' → OnlySema s m k k''
OnlySema-trans a b = record {
  value_at = b.value_at;
  others = λ r ne. b.others r ne ∙ a.others r ne;
  lock = b.lock ∙ a.lock;
  condition = b.condition ∙ a.condition;
  thread_mlfqs = b.thread_mlfqs ∙ a.thread_mlfqs;
}

abbrev counted : ℕ → ℕ
counted n = (n + 1) % 2 ^ 32

count_up-OnlySema :
    (s : ℕ) (k : Kernel) {k' : Kernel}
    → Untouched (count_up s k) k'
    → OnlySema s (counted (k.sema s).value) k k'
count_up-OnlySema s k u = stored s (record (k.sema s) { value = counted (k.sema s).value }) k u

-- `sema_up` adds one to the value, whether it wakes a thread or not.
pub sema_up-OnlySema :
    (interrupt_context : Bool) (s : ℕ) (k : Kernel) (k' : Kernel)
    → sema_up interrupt_context s k ≡ some k'
    → OnlySema s (((k.sema s).value + 1) % 2 ^ 32) k k'
unfolding sema_up
sema_up-OnlySema c s k k' e =
    let (k₁, i, f) = >>=-eq-some (wake_waiter s k (k.sema s).waiters) _ e in
    let woken = wake_waiter-OnlySema s k (k.sema s).waiters i in
    subst (λ n. OnlySema s (counted n) k k') woken.value_at
      (OnlySema-trans woken (count_up-OnlySema s k₁ (yielded c k₁ f)))
  where
    yielded :
        (c : Bool) (k₁ : Kernel)
        → (if c then some (count_up s k₁) else thread_yield (count_up s k₁)) ≡ some k'
        → Untouched (count_up s k₁) k'
    yielded true k₁ f =
        let i : count_up s k₁ ≡ k' = cc in
        subst (Untouched (count_up s k₁)) i (Untouched-refl (count_up s k₁))
    yielded false k₁ f = thread_yield-Untouched (count_up s k₁) f

-- A thread that did not have to wait goes on running.
pub sema_down-current :
    (s : ℕ) (k k' : Kernel) → sema_down s k ≡ some (true, k') → k'.current ≡ k.current
unfolding sema_down
sema_down-current s k k' e = elim (Bool-cases ((k.sema s).value == 0)) [
  | inl zero ↦ cc ((sleep-eq-some _ true k' (rw zero at e)).1)
  | inr more ↦
      let taken : Semaphore = record (k.sema s) { value = (k.sema s).value - 1 } in
      ap (λ k₁. k₁.current) (sym (some_pair true true (put_sema s taken k) k' (rw more at e)).1)
]

-- A pass of `sema_down` at the value 0 leaves the running thread at the end of the wait list.
pub sema_down-queued :
    (s : ℕ) (k : Kernel) (done : Bool) (k' : Kernel)
    → (k.sema s).value ≡ 0
    → sema_down s k ≡ some (done, k')
    → k'.sema
      ≡ update k.sema s (record (k.sema s) { waiters = (k.sema s).waiters ++ (k.current ∷ []) })
unfolding sema_down
sema_down-queued s k done k' zero e =
    let test : ((k.sema s).value == 0) ≡ true = ground arith in
    let slept = sleep-eq-some _ done k' (rw test at e) in (thread_block-Untouched _ slept.0).sema
