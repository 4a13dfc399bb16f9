-- ===== src/Tests/Scheduling.antt =====
-- The theorems about src/threads/thread.c at the small kernel.
use cs.Common.{ℕ, ◌≡◌, ◌≢◌, refl, [], ◌∷◌, some, if◌then◌else◌, arith, ◌≤◌, ◌==◌, ◌*◌}
use cs.Common.Int.{ℤ, pos, ◌≤ℤ◌}
use cs.Threads.{Thread, Kernel, pri_min, pri_max}
use cs.Sched.{priority_of, thread_yield}
use cs.Sched.Valid.{IsValid}
use cs.Sched.Preempt.{RunsHighest, thread_yield-RunsHighest}
use cs.Bsd.{update_thread_priority, update_load_average, num_ready_threads}
use cs.Bsd.Priority.{update_thread_priority_bounds}
use cs.Bsd.Load.{update_load_average_bound}
use cs.Donation.{donate_priority, shed_priority}
use cs.Donation.Chain.{IsAcyclic, Blocks, donate_priority-reaches}
use cs.Donation.Shed.{IsHighestOf, shed_priority-IsHighestOf}
use cs.Tests.Kernels.{threads, locks, kernel, kernel-IsValid, kernel-priorities}

thread_yield-RunsHighest_example :
    (k' : Kernel) × (thread_yield kernel ≡ some k') × IsValid k' × RunsHighest k'
thread_yield-RunsHighest_example =
    thread_yield-RunsHighest kernel kernel-IsValid refl kernel-priorities

update_thread_priority_bounds_example :
    (p : ℤ) × (update_thread_priority (threads 1) ≡ some (record (threads 1) { priority = p }))
    × (pri_min ≤ℤ p)
    × (p ≤ℤ pri_max)
update_thread_priority_bounds_example =
    update_thread_priority_bounds (threads 1) (omega arith, omega arith)

abbrev nice_thread : Thread
nice_thread = record (threads 1) { nice = pos 5; recent_cpu = pos 20000 }

few_ready : num_ready_threads kernel ≤ 10
unfolding num_ready_threads
few_ready = omega arith

update_load_average_bound_example :
    (load' : ℕ) × (update_load_average kernel ≡ some (record kernel { load_average = pos load' }))
    × (load' ≤ 10 * 16384)
update_load_average_bound_example =
    update_load_average_bound kernel 16384 10 (omega arith) refl (omega arith) few_ready

-- Thread 1 waits on lock 30, which thread 3 holds.
abbrev donor_kernel : Kernel
donor_kernel = record kernel {
  thread = λ t. if t == 1 then record (threads 1) { lock_waiting_on = 30 } else threads t;
  lock = λ l. if l == 30 then record (locks 30) { holder = 3 } else locks l;
}

abbrev rank : ℕ → ℕ
rank t = if t == 1 then 1 else 0

donor-IsAcyclic : IsAcyclic donor_kernel rank
donor-IsAcyclic = record { falls = λ t ne. ground arith; is_held = λ t ne. ground arith }

donate_priority-reaches_example :
    (k' : Kernel) × (donate_priority 2 donor_kernel ≡ some k')
    × ((u : ℕ) → priority_of donor_kernel u ≤ℤ priority_of k' u)
    × ((u : ℕ) → Blocks donor_kernel 1 u → priority_of donor_kernel 1 ≤ℤ priority_of k' u)
donate_priority-reaches_example =
    donate_priority-reaches donor_kernel rank 2 donor-IsAcyclic (omega arith)

shed_priority-IsHighestOf_example :
    IsHighestOf locks pri_min (8 ∷ 20 ∷ []) ((shed_priority kernel).thread 1).priority
    × ((t : ℕ) → t ≢ 1 → (shed_priority kernel).thread t ≡ kernel.thread t)
    × ((shed_priority kernel).lock ≡ locks)
shed_priority-IsHighestOf_example = shed_priority-IsHighestOf kernel
