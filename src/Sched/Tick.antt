-- ===== src/Sched/Tick.antt =====
-- src/threads/thread.c: `thread_tick`.
use mathlib.Core.Path.{subst}
use cs.Common.{
  ℕ, ◌+◌, ◌%◌, ◌^◌, ◌≤◌, ◌≡◌, refl, inl, inr, true, not, ◌||◌, some, List, [], ◌∷◌, arith, ◌==◌,
  if◌then◌else◌, Bool-cases, leb, false, ◌>>=◌, ◌∙◌, >>=-eq-some,
}
use cs.Common.Int.{pos}
use cs.FixedPoint.{FpFloat, fp_div, fp_mul_int, fp_add_int, int_to_fp}
use cs.Threads.{Kernel, put_thread}
use cs.Bsd.{
  update_load_average, update_cpu_for_all_threads, update_cpu_loop, update_running_thread_cpu,
  mark_cpu_changed, update_recent_cpu,
}
use cs.Sched.Valid.{SameQueues}
use cs.Sched.{count_tick, charge_tick, thread_tick, time_slice, timer_freq}

-- The members that `thread_tick` sets last.
record SameFlags (k k' : Kernel) : Type 0 where
  due : k'.should_update_thread_priorities ≡ k.should_update_thread_priorities
  spent : k'.thread_ticks ≡ k.thread_ticks

flags_of_some : (k k₁ k' : Kernel) → SameFlags k k₁ → some k₁ ≡ some k' → SameFlags k k'
flags_of_some k k₁ k' s e = let i : k₁ ≡ k' = cc in subst (SameFlags k) i s

SameFlags-trans : {k k' k'' : Kernel} → SameFlags k k' → SameFlags k' k'' → SameFlags k k''
SameFlags-trans a b = record { due = b.due ∙ a.due; spent = b.spent ∙ a.spent }

mark-SameFlags : (t : ℕ) (k : Kernel) → SameFlags k (mark_cpu_changed t k)
unfolding mark_cpu_changed
mark-SameFlags t k = record { due = ground arith; spent = ground arith }

running-SameFlags : (t : ℕ) (k : Kernel) → SameFlags k (update_running_thread_cpu t k)
unfolding update_running_thread_cpu
running-SameFlags t k = SameFlags-trans (record { due = refl; spent = refl }) (mark-SameFlags t _)

cpu_loop-SameFlags :
    (scale : FpFloat) (list : List ℕ) (k : Kernel) → SameFlags k (update_cpu_loop scale list k)
unfolding update_cpu_loop
cpu_loop-SameFlags scale [] k = record { due = refl; spent = refl }
cpu_loop-SameFlags scale (t ∷ ts) k =
    let charged = put_thread t (update_recent_cpu (k.thread t) scale) k in
    SameFlags-trans (record { due = refl; spent = refl })
      (SameFlags-trans (mark-SameFlags t charged)
        (cpu_loop-SameFlags scale ts (mark_cpu_changed t charged)))

all_threads-SameFlags : (k k' : Kernel) → update_cpu_for_all_threads k ≡ some k' → SameFlags k k'
unfolding update_cpu_for_all_threads
all_threads-SameFlags k k' e =
    let (scale, i, f) =
      >>=-eq-some
        (fp_div (fp_mul_int k.load_average (pos 2))
          (fp_add_int (fp_mul_int k.load_average (pos 2)) (pos 1)))
        _ e in
    flags_of_some k (update_cpu_loop scale k.all_list k) k' (cpu_loop-SameFlags scale k.all_list k)
      f

load-SameFlags : (k k' : Kernel) → update_load_average k ≡ some k' → SameFlags k k'
unfolding update_load_average
load-SameFlags k k' e =
    let (decay, i, f) = >>=-eq-some (fp_div (int_to_fp (pos 59)) (int_to_fp (pos 60))) _ e in
    let (share, j, g) = >>=-eq-some (fp_div (int_to_fp (pos 1)) (int_to_fp (pos 60))) _ f in
    flags_of_some k _ k' (record { due = refl; spent = refl }) g

count_tick-SameFlags : (k : Kernel) → SameFlags k (count_tick k)
unfolding count_tick
count_tick-SameFlags k = record { due = ground arith; spent = ground arith }

charge_tick-due :
    (ticks : ℕ) (k k' : Kernel)
    → charge_tick ticks k ≡ some k'
    → (k'.should_update_thread_priorities
        ≡ (k.should_update_thread_priorities || not (ticks % 4 == 0)))
      × (k'.thread_ticks ≡ k.thread_ticks)
unfolding charge_tick
charge_tick-due ticks k k' e =
    let charged =
      if not (k.current == k.idle_thread) then update_running_thread_cpu k.current k else k in
    let (k₁, i, f) =
      >>=-eq-some
        (if ticks % timer_freq == 0
          then update_load_average charged >>= update_cpu_for_all_threads
          else some charged)
        _ e in
    let before = SameFlags-trans charged-SameFlags (second charged k₁ i) in
    ground (arith, before.due, before.spent)
  where
    charged-SameFlags :
        SameFlags k
          (if not (k.current == k.idle_thread) then update_running_thread_cpu k.current k else k)
    charged-SameFlags = elim (Bool-cases (k.current == k.idle_thread)) [
      | inl idle ↦ rw idle (record { due = refl; spent = refl })
      | inr busy ↦ rw busy (running-SameFlags k.current k)
    ]

    second :
        (c k₁ : Kernel)
        → (if ticks % timer_freq == 0
            then update_load_average c >>= update_cpu_for_all_threads
            else some c)
          ≡ some k₁
        → SameFlags c k₁
    second c k₁ i = elim (Bool-cases (ticks % timer_freq == 0)) [
      | inl due ↦
          let (k₂, j, g) = >>=-eq-some (update_load_average c) _ (rw due at i) in
          SameFlags-trans (load-SameFlags c k₂ j) (all_threads-SameFlags k₂ k₁ g)
      | inr other ↦ flags_of_some c c k₁ (record { due = refl; spent = refl }) (rw other at i)
    ]

-- Under mlfqs a tick asks for new priorities exactly when the count of ticks is no multiple of 4, or
-- they were asked for already. It counts the time slice up, and asks for a yield once it is spent.
pub thread_tick_flags :
    (ticks : ℕ) (k k' : Kernel)
    → k.thread_mlfqs ≡ true
    → thread_tick ticks k ≡ some k'
    → (k'.should_update_thread_priorities
        ≡ (k.should_update_thread_priorities || not (ticks % 4 == 0)))
      × (k'.thread_ticks ≡ (k.thread_ticks + 1) % 2 ^ 32)
      × (time_slice ≤ (k.thread_ticks + 1) % 2 ^ 32 → k'.yield_on_return ≡ true)
unfolding thread_tick
thread_tick_flags ticks k k' on e =
    let (k₁, i, f) = >>=-eq-some (charge_tick ticks (count_tick k)) _ (simp on at e) in
    let h = charge_tick-due ticks (count_tick k) k₁ i in
    let c = count_tick-SameFlags k in ground (arith, c.due, c.spent, h.0, h.1)

-- The state after a tick under the priority scheduler.
abbrev ticked : Kernel → Kernel
ticked k =
    let spent = (k.thread_ticks + 1) % 2 ^ 32 in
    let k' = record k { thread_ticks = spent } in
    if leb time_slice spent then record k' { yield_on_return = true } else k'

-- Under the priority scheduler a tick only counts.
pub thread_tick-SameQueues :
    (ticks : ℕ) (k : Kernel)
    → k.thread_mlfqs ≡ false
    → (k' : Kernel) × (thread_tick ticks k ≡ some k') × SameQueues k k'
unfolding thread_tick count_tick
thread_tick-SameQueues ticks k off = (
  ticked (count_tick k),
  rw off,
  record {
    status = λ t. ground arith;
    cpu = λ t. ground arith;
    sema = ground arith;
    ready_list = ground arith;
    idle_thread = ground arith;
    current = ground arith;
  },
)
