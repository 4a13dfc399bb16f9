-- ===== src/Timer/Waking.antt =====
-- src/devices/timer.c: the interrupt handler.
use mathlib.Core.Path.{subst}
use cs.Common.{
  ℕ, ◌+◌, ◌%◌, ◌^◌, ◌<◌, ◌≤◌, ◌≡◌, refl, inl, inr, true, false, some, List, [], ◌∷◌, ◌++◌, arith,
  leb, leb→le, mem-append, lt→ltb, ◌==◌, Bool-cases, ap, sym, ◌∙◌, mem, length, erase, IsDistinct,
  All,
}
use cs.Threads.{Status, Kernel}
use cs.Sched.{make_ready}
use cs.Sched.Tick.{thread_tick-SameQueues}
use cs.Sched.Valid.{SameQueues, IsValid, IsValid-same}
use cs.Synch.{sema_up, count_up}
use cs.Synch.Semaphores.{sema_up-mem, sema_up-IsValid, sema_up-none, woken_up}
use cs.Timer.{Timer, add_int64, wake_loop, timer_interrupt}

-- From `k` to `k'` the semaphores `due` have gone up by one and have let their waiter go, which is
-- ready now; no other semaphore has changed, and no ready thread has stopped being ready.
pub record AreWoken (due : List ℕ) (k k' : Kernel) : Type 0 where
  pub valid : IsValid k'
  pub kept : (r : ℕ) → mem r due ≡ false → k'.sema r ≡ k.sema r
  pub raised : (r : ℕ) → mem r due ≡ true → (k'.sema r).value ≡ ((k.sema r).value + 1) % 2 ^ 32
  pub emptied : (r : ℕ) → mem r due ≡ true → (k'.sema r).waiters ≡ []
  pub woken :
      (r t : ℕ)
      → mem r due ≡ true
      → mem t (k.sema r).waiters ≡ true
      → (k'.thread t).status ≡ Status.ready
  pub still_ready :
      (t : ℕ) → (k.thread t).status ≡ Status.ready → (k'.thread t).status ≡ Status.ready

-- The semaphore `s` wakes the only thread that waits on it.
waiter-AreWoken :
    (k k' : Kernel) (s t : ℕ)
    → (k.sema s).waiters ≡ t ∷ []
    → k' ≡ woken_up s t k
    → IsValid k'
    → AreWoken (s ∷ []) k k'
unfolding make_ready
waiter-AreWoken k k' s t e i v =
    let left : erase t (k.sema s).waiters ≡ [] = ap (erase t) e ∙ ground arith in
    subst (λ u. IsValid u → AreWoken (s ∷ []) k u) (sym i)
      (λ v. record {
        valid = v;
        kept = λ r m. ground arith;
        raised = λ r m. ground arith;
        emptied = λ r m. ground (arith, left);
        woken = λ r u m n. ground (arith, ap (mem u) e);
        still_ready = λ u n. ground arith;
      })
      v

none-AreWoken :
    (k k' : Kernel) (s : ℕ)
    → (k.sema s).waiters ≡ []
    → k' ≡ count_up s k
    → IsValid k'
    → AreWoken (s ∷ []) k k'
none-AreWoken k k' s e i v =
    subst (λ u. IsValid u → AreWoken (s ∷ []) k u) (sym i)
      (λ v. record {
        valid = v;
        kept = λ r m. ground arith;
        raised = λ r m. ground arith;
        emptied = λ r m. ground arith;
        woken = λ r u m n. ground (arith, ap (mem u) e);
        still_ready = λ u n. n;
      })
      v

raise-AreWoken :
    (k : Kernel) (s : ℕ) (list : List ℕ)
    → IsValid k
    → (k.sema s).waiters ≡ list
    → length list ≤ 1
    → (k' : Kernel) × (sema_up true s k ≡ some k') × AreWoken (s ∷ []) k k'
raise-AreWoken k s [] v e one =
    let (k', up, valid) = sema_up-IsValid k s true v in
    let same : some k' ≡ some (count_up s k) = sym up ∙ sema_up-none k s e in
    let i : k' ≡ count_up s k = cc in (k', up, none-AreWoken k k' s e i valid)
raise-AreWoken k s (x ∷ []) v e one =
    let (k', up, valid) = sema_up-IsValid k s true v in
    let (t, m, woken) = sema_up-mem k s x [] v e in
    let first : t ≡ x = ground arith in
    let same : some k' ≡ some (woken_up s t k) = sym up ∙ woken in
    let i : k' ≡ woken_up s t k = cc in
    (k', up, waiter-AreWoken k k' s t (e ∙ ap (λ u. u ∷ []) (sym first)) i valid)
raise-AreWoken k s (x ∷ (y ∷ list)) v e one = absurd (omega arith)

AreWoken-cons :
    (k k₁ k' : Kernel) (s : ℕ) (due : List ℕ)
    → mem s due ≡ false
    → AreWoken (s ∷ []) k k₁
    → AreWoken due k₁ k'
    → AreWoken (s ∷ due) k k'
AreWoken-cons k k₁ k' s due out a b = record {
  valid = b.valid;
  kept = λ r m. b.kept r (ground arith) ∙ a.kept r (ground arith);
  raised = λ r m. elim (Bool-cases (r == s)) [
    | inl i ↦ ap (λ w. w.value) (b.kept r (ground arith)) ∙ a.raised r (ground arith)
    | inr i ↦ b.raised r (ground arith) ∙ ap (λ w. (w.value + 1) % 2 ^ 32) (a.kept r (ground arith))
  ];
  emptied = λ r m. elim (Bool-cases (r == s)) [
    | inl i ↦ ap (λ w. w.waiters) (b.kept r (ground arith)) ∙ a.emptied r (ground arith)
    | inr i ↦ b.emptied r (ground arith)
  ];
  woken = λ r t m n. elim (Bool-cases (r == s)) [
    | inl i ↦ b.still_ready t (a.woken r t (ground arith) n)
    | inr i ↦ b.woken r t (ground arith) (ap (λ w. mem t w.waiters) (a.kept r (ground arith)) ∙ n)
  ];
  still_ready = λ t n. b.still_ready t (a.still_ready t n);
}

-- In the order of their wake times.
abbrev pub IsOrdered : (ℕ → ℕ) → List ℕ → Type 0
IsOrdered wake [] = Unit {0}
IsOrdered wake (s ∷ list) = All (λ r. wake s ≤ wake r) list × IsOrdered wake list

later :
    (wake : ℕ → ℕ) (now first : ℕ) (list : List ℕ)
    → now < first
    → All (λ r. first ≤ wake r) list
    → All (λ r. now < wake r) list
later wake now first [] l a = tt
later wake now first (r ∷ list) l a = (omega (arith, a.0), later wake now first list l a.1)

AreWoken-refl : (k : Kernel) → IsValid k → AreWoken [] k k
AreWoken-refl k v = record {
  valid = v;
  kept = λ r m. refl;
  raised = λ r m. cc;
  emptied = λ r m. cc;
  woken = λ r t m n. cc;
  still_ready = λ t n. n;
}

wake_loop-AreWoken :
    (list : List ℕ) (t : Timer)
    → IsValid t.kernel
    → IsDistinct list
    → ((s : ℕ) → mem s list ≡ true → length (t.kernel.sema s).waiters ≤ 1)
    → IsOrdered t.wake_time list
    → (due rest : List ℕ) × (k' : Kernel) × (list ≡ due ++ rest)
      × All (λ s. t.wake_time s ≤ t.ticks) due
      × All (λ s. t.ticks < t.wake_time s) rest
      × (wake_loop list t ≡ some (record t { sleeping_threads_list = rest; kernel = k' }))
      × AreWoken due t.kernel k'
unfolding wake_loop
wake_loop-AreWoken [] t v d one o = ([], [], t.kernel, refl, tt, tt, refl, AreWoken-refl t.kernel v)
wake_loop-AreWoken (s ∷ list) t v d one o = elim (Bool-cases (leb (t.wake_time s) t.ticks)) [
  | inl e ↦
      let (k₁, up, woken) =
        raise-AreWoken t.kernel s (t.kernel.sema s).waiters v refl (one s (ground arith)) in
      let (due, rest, k', split, past, future, run, all) =
        wake_loop-AreWoken list (record t { kernel = k₁ }) woken.valid d.1
          (λ r m.
            subst (λ w. length w.waiters ≤ 1) (sym (woken.kept r (ground arith)))
              (one r (ground arith)))
          o.1 in
      (
        s ∷ due,
        rest,
        k',
        ap (λ w. s ∷ w) split,
        (leb→le (t.wake_time s) t.ticks e, past),
        future,
        rw (e, up) run,
        AreWoken-cons t.kernel k₁ k' s due
            (ground (arith, d.0, ap (mem s) split, mem-append s due rest)) woken all,
      )
  | inr e ↦ (
    [],
    s ∷ list,
    t.kernel,
    refl,
    tt,
    (ground arith, later t.wake_time t.ticks (t.wake_time s) list (ground arith) o.0),
    rw e,
    AreWoken-refl t.kernel v,
  )
]

AreWoken-same :
    {due : List ℕ} {k k₁ k' : Kernel} → SameQueues k k₁ → AreWoken due k₁ k' → AreWoken due k k'
AreWoken-same same w = record {
  valid = w.valid;
  kept = λ r m. w.kept r m ∙ ap (λ f. f r) same.sema;
  raised = λ r m. w.raised r m ∙ ap (λ f. ((f r).value + 1) % 2 ^ 32) same.sema;
  emptied = w.emptied;
  woken = λ r t m n. w.woken r t m (ap (λ f. mem t (f r).waiters) same.sema ∙ n);
  still_ready = λ t n. w.still_ready t (same.status t ∙ n);
}

-- The list of sleeping threads is in order, and a sleeper waits alone on its semaphore or does not
-- wait yet.
pub record IsSleeping (t : Timer) : Type 0 where
  pub kernel_valid : IsValid t.kernel
  pub distinct : IsDistinct t.sleeping_threads_list
  pub single : (s : ℕ) → mem s t.sleeping_threads_list ≡ true → length (t.kernel.sema s).waiters ≤ 1
  pub ordered : IsOrdered t.wake_time t.sleeping_threads_list

-- In a valid state under the priority scheduler, and with the list of sleeping threads in order, an interrupt of the timer
-- counts up and takes those off the list whose wake time has come, and no others: it raises their
-- semaphores and makes the threads that wait there ready. Every other semaphore stays.
pub timer_interrupt-AreWoken :
    (t : Timer)
    → IsSleeping t
    → t.kernel.thread_mlfqs ≡ false
    → t.ticks + 1 < 2 ^ 63
    → (due rest : List ℕ) × (t' : Timer) × (timer_interrupt t ≡ some t')
      × (t.sleeping_threads_list ≡ due ++ rest)
      × (t'.sleeping_threads_list ≡ rest)
      × (t'.ticks ≡ t.ticks + 1)
      × All (λ s. t.wake_time s ≤ t.ticks + 1) due
      × All (λ s. t.ticks + 1 < t.wake_time s) rest
      × AreWoken due t.kernel t'.kernel
unfolding timer_interrupt add_int64
timer_interrupt-AreWoken t i off small =
    let (k₁, tick, same) = thread_tick-SameQueues (t.ticks + 1) t.kernel off in
    let (due, rest, k', split, past, future, run, woken) =
      wake_loop-AreWoken t.sleeping_threads_list (record t { ticks = t.ticks + 1; kernel = k₁ })
        (IsValid-same same i.kernel_valid) i.distinct
        (λ s m. subst (λ f. length (f s).waiters ≤ 1) (sym same.sema) (i.single s m)) i.ordered in
    (
      due,
      rest,
      record t { ticks = t.ticks + 1; sleeping_threads_list = rest; kernel = k' },
      rw (lt→ltb (t.ticks + 1) (2 ^ 63) small, tick) run,
      split,
      refl,
      refl,
      past,
      future,
      AreWoken-same same woken,
    )
