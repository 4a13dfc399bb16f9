-- ===== src/Timer/Sleeping.antt =====
-- src/devices/timer.c: the list of sleeping threads.
use mathlib.Core.Path.{subst}
use cs.Common.{
  ℕ, ◌+◌, ◌^◌, ◌<◌, ◌≤◌, ◌≡◌, ◌≢◌, refl, inl, inr, Bool, ◌&&◌, true, false, not, ◌||◌, some, List,
  [], ◌∷◌, arith, ltb, leb, lt→ltb, ◌==◌, Bool-cases, ap, sym, ◌∙◌, mem, length, IsDistinct, All,
  update,
}
use cs.Common.Int.{pos}
use cs.Synch.{sema_init}
use cs.Synch.Semaphores.{sema_down-IsValid, put_sema-IsValid}
use cs.Synch.Effects.{sema_down-queued}
use cs.KernelList.Walking.{insert_ordered}
use cs.Timer.{
  Timer, add_int64, sleeping_thread_insert_func, timer_ticks, enter_sleep, down_on, timer_sleep,
}
use cs.Timer.Waking.{IsOrdered, IsSleeping}

module _ (less : ℕ → ℕ → Bool) where
  mem-insert_ordered :
      (a e : ℕ) (list : List ℕ) → mem a (insert_ordered less e list) ≡ ((a == e) || mem a list)
  unfolding insert_ordered
  mem-insert_ordered a e [] = ground arith
  mem-insert_ordered a e (x ∷ list) = ground (arith, mem-insert_ordered a e list)

  insert_ordered-IsDistinct :
      (e : ℕ) (list : List ℕ)
      → IsDistinct list
      → mem e list ≡ false
      → IsDistinct (insert_ordered less e list)
  unfolding insert_ordered
  insert_ordered-IsDistinct e [] d out = (refl, tt)
  insert_ordered-IsDistinct e (x ∷ list) d out = elim (Bool-cases (less e x)) [
    | inl i ↦ rw i (out, d)
    | inr i ↦ rw i (
      ground (arith, mem-insert_ordered x e list),
      insert_ordered-IsDistinct e list d.1 (ground arith),
    )
  ]

ordered-update :
    (wake : ℕ → ℕ) (s w n : ℕ) (list : List ℕ)
    → mem s list ≡ false
    → All (λ r. n ≤ wake r) list
    → All (λ r. n ≤ update wake s w r) list
ordered-update wake s w n [] out a = tt
ordered-update wake s w n (r ∷ list) out a =
    (ground (arith, a.0), ordered-update wake s w n list (ground arith) a.1)

IsOrdered-update :
    (wake : ℕ → ℕ) (s w : ℕ) (list : List ℕ)
    → mem s list ≡ false
    → IsOrdered wake list
    → IsOrdered (update wake s w) list
IsOrdered-update wake s w [] out o = tt
IsOrdered-update wake s w (r ∷ list) out o = (
  subst (λ n. All (λ q. n ≤ update wake s w q) list) (ground arith)
      (ordered-update wake s w (wake r) list (ground arith) o.0),
  IsOrdered-update wake s w list (ground arith) o.1,
)

module _ (wake : ℕ → ℕ) where
  abbrev earlier : ℕ → ℕ → Bool
  earlier a b = ltb (wake a) (wake b)

  All-insert_ordered :
      (n e : ℕ) (list : List ℕ)
      → n ≤ wake e
      → All (λ r. n ≤ wake r) list
      → All (λ r. n ≤ wake r) (insert_ordered earlier e list)
  unfolding insert_ordered
  All-insert_ordered n e [] l a = (l, tt)
  All-insert_ordered n e (x ∷ list) l a = elim (Bool-cases (earlier e x)) [
    | inl i ↦ rw i (l, a)
    | inr i ↦ rw i (a.0, All-insert_ordered n e list l a.1)
  ]

  All-from :
      (n m : ℕ) (list : List ℕ) → n ≤ m → All (λ r. m ≤ wake r) list → All (λ r. n ≤ wake r) list
  All-from n m [] l a = tt
  All-from n m (x ∷ list) l a = (omega (arith, a.0), All-from n m list l a.1)

  insert_ordered-IsOrdered :
      (e : ℕ) (list : List ℕ) → IsOrdered wake list → IsOrdered wake (insert_ordered earlier e list)
  unfolding insert_ordered
  insert_ordered-IsOrdered e [] o = (tt, tt)
  insert_ordered-IsOrdered e (x ∷ list) o = elim (Bool-cases (earlier e x)) [
    | inl i ↦ rw i ((ground arith, All-from (wake e) (wake x) list (ground arith) o.0), o)
    | inr i ↦
        rw i (
          All-insert_ordered (wake x) e list (ground arith) o.0,
          insert_ordered-IsOrdered e list o.1,
        )
  ]

-- The state in which a sleeper is ready to wait on its semaphore.
abbrev prepared : ℕ → ℕ → Timer → Timer
prepared st wake t = record t {
  kernel = sema_init st 0 t.kernel;
  wake_time = update t.wake_time st wake;
}

prepared-IsSleeping :
    (st wake : ℕ) (t : Timer)
    → IsSleeping t
    → mem st t.sleeping_threads_list ≡ false
    → IsSleeping (prepared st wake t)
unfolding sema_init
prepared-IsSleeping st wake t i out = record {
  kernel_valid =
      put_sema-IsValid t.kernel st (record { value = 0; waiters = [] }) i.kernel_valid tt
        (λ u m. cc);
  distinct = i.distinct;
  single = λ s m. ground (arith, i.single s m);
  ordered = IsOrdered-update t.wake_time st wake t.sleeping_threads_list out i.ordered;
}

abbrev entered : ℕ → ℕ → Timer → Timer
entered st wake t = record (prepared st wake t) {
  sleeping_threads_list =
      insert_ordered (sleeping_thread_insert_func (prepared st wake t)) st t.sleeping_threads_list;
}

entered-IsSleeping :
    (st wake : ℕ) (t : Timer)
    → IsSleeping t
    → mem st t.sleeping_threads_list ≡ false
    → IsSleeping (entered st wake t)
unfolding sema_init sleeping_thread_insert_func
entered-IsSleeping st wake t i out =
    let p = prepared-IsSleeping st wake t i out in
    let less = earlier (update t.wake_time st wake) in
    record {
      kernel_valid = p.kernel_valid;
      distinct = insert_ordered-IsDistinct less st t.sleeping_threads_list i.distinct out;
      single =
          λ s m. ground (arith, mem-insert_ordered less s st t.sleeping_threads_list, i.single s);
      ordered =
          insert_ordered-IsOrdered (update t.wake_time st wake) st t.sleeping_threads_list
            p.ordered;
    }

-- The sleeper waits on its own semaphore, which is empty.
down_on-IsSleeping :
    (st wake : ℕ) (t : Timer)
    → IsSleeping t
    → mem st t.sleeping_threads_list ≡ false
    → t.kernel.current ≢ t.kernel.idle_thread
    → (t' : Timer) × (down_on st (true, entered st wake t) ≡ some (false, t'))
      × IsSleeping t'
      × (t'.sleeping_threads_list ≡ (entered st wake t).sleeping_threads_list)
      × (t'.wake_time st ≡ wake)
unfolding down_on sema_init
down_on-IsSleeping st wake t i out busy =
    let e = entered-IsSleeping st wake t i out in
    let k = (entered st wake t).kernel in
    let (done, k', run, valid, down) = sema_down-IsValid k st e.kernel_valid busy in
    let asleep : done ≡ false = ground (arith, down.0) in
    let queued = sema_down-queued st k done k' (ground arith) run in
    (
      record (entered st wake t) { kernel = k' },
      rw run (rw asleep),
      record {
        kernel_valid = valid;
        distinct = e.distinct;
        single = λ s m.
            subst (λ f. length (f s).waiters ≤ 1) (sym queued) (ground (arith, e.single s m));
        ordered = e.ordered;
      },
      refl,
      ground arith,
    )

-- With interrupts on, from a valid state with the list of sleeping threads in order, `timer_sleep` by a thread
-- that is not idle, for a positive time, returns, and leaves such a state. The thread does not sleep
-- if the time has come by the second reading of the ticks; else it is on the list, with the sum
-- of the first reading and the time as its wake time.
pub timer_sleep-IsSleeping :
    (t : Timer) (st start n : ℕ)
    → IsSleeping t
    → mem st t.sleeping_threads_list ≡ false
    → t.kernel.current ≢ t.kernel.idle_thread
    → 0 < n
    → start + n < 2 ^ 63
    → (done : Bool) × (t' : Timer) × (timer_sleep true st start (pos n) t ≡ some (done, t'))
      × IsSleeping t'
      × (done ≡ leb (start + n) t.ticks)
      × ((s : ℕ)
          → mem s t'.sleeping_threads_list
            ≡ (((s == st) && not done) || mem s t.sleeping_threads_list))
      × (t'.wake_time st ≡ start + n)
unfolding timer_sleep enter_sleep timer_ticks add_int64 down_on
timer_sleep-IsSleeping t st start n i out busy some_time small =
    let go : ltb 0 (n + 0) ≡ true = ground arith in
    let fits = lt→ltb (start + n) (2 ^ 63) small in
    elim (Bool-cases (leb (start + n) t.ticks)) [
      | inl past ↦ (
        true,
        prepared st (start + n) t,
        rw (go, fits, past),
        prepared-IsSleeping st (start + n) t i out,
        sym past,
        λ s. ground arith,
        ground arith,
      )
      | inr future ↦
          let (t', down, r, same, wake) = down_on-IsSleeping st (start + n) t i out busy in
          (
            false,
            t',
            rw (go, fits, future) down,
            r,
            sym future,
            λ s.
                ap (mem s) same
                ∙ (mem-insert_ordered (sleeping_thread_insert_func (prepared st (start + n) t)) s st
                      t.sleeping_threads_list
                    ∙ ground arith),
            wake,
          )
    ]
