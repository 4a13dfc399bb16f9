-- ===== src/Sched.antt =====
-- src/threads/thread.c: choosing, blocking, waking and switching threads, with interrupts off. A
-- thread that is switched out goes on behind the switch when `current` is that thread again.
-- The interrupt level and the page of a dead thread are not part of the state.
pub mod Highest
pub mod Valid
pub mod Switch
pub mod Yield
pub mod Preempt
pub mod Wake
pub mod Tick
pub mod Untouched
use cs.Common.{
  ℕ, suc, ◌+◌, ◌%◌, ◌^◌, ◌≡◌, Bool, true, false, not, ◌&&◌, ◌||◌, Option, none, some, List, [], ◌∷◌,
  ◌++◌, erase, ltb, leb, ◌==◌, if◌then◌else◌, update, null, assert, ◌>>=◌, ◌>>◌,
}
use cs.Common.Int.{ℤ, pos, negsuc, ltb_ℤ}
use cs.Threads.{
  Status, running, ready, blocked, dying, Thread, Kernel, pri_min, pri_max, put_thread, is_running,
  is_blocked,
}
use cs.Bsd.{
  update_changed_cpu_threads, update_load_average, update_cpu_for_all_threads,
  update_running_thread_cpu, update_thread_priority,
}

-- TIMER_FREQ, TIME_SLICE, MIN_NICE and MAX_NICE.
abbrev pub timer_freq : ℕ
timer_freq = 100

abbrev pub time_slice : ℕ
time_slice = 4

abbrev pub min_nice : ℤ
min_nice = negsuc 19

abbrev pub max_nice : ℤ
max_nice = pos 20

-- The better of the best thread so far and the next one.
pub better : (ℕ → ℤ) → Option ℕ → ℕ → ℕ
better priority none t = t
better priority (some best) t = if ltb_ℤ (priority best) (priority t) then t else best

abbrev pub is_pri_max : ℤ → Bool
is_pri_max p = not (ltb_ℤ p pri_max) && not (ltb_ℤ pri_max p)

-- The search for the first thread of highest priority, which stops at PRI_MAX.
pub highest_loop : (ℕ → ℤ) → Option ℕ → List ℕ → Option ℕ
highest_loop priority best [] = best
highest_loop priority best (t ∷ ts) =
    let h = better priority best t in
    let rest = highest_loop priority (some h) ts in if is_pri_max (priority h) then some h else rest

abbrev pub priority_of : Kernel → ℕ → ℤ
priority_of k t = (k.thread t).priority

-- The thread found, and the list, less the thread if it is to be removed.
pub get_highest_priority_thread : Kernel → List ℕ → Bool → Option ℕ × List ℕ
get_highest_priority_thread k list should_remove = elim (highest_loop (priority_of k) none list) [
  | none ↦ (none, list)
  | some t ↦ (some t, if should_remove then erase t list else list)
]

-- A search that found no thread is a failed `ASSERT`.
pub expect_thread : Option ℕ × List ℕ → Option (ℕ × List ℕ)
expect_thread (none, rest) = none
expect_thread (some t, rest) = some (t, rest)

-- The thread to run next, with what is left of the ready list: the idle thread on an empty list.
pub choose_next : Kernel → List ℕ → Option (ℕ × List ℕ)
unfolding expect_thread
choose_next k [] = some (k.idle_thread, [])
choose_next k (x ∷ xs) = expect_thread (get_highest_priority_thread k (x ∷ xs) true)

pub next_thread_to_run : Kernel → Option (ℕ × List ℕ)
unfolding choose_next
next_thread_to_run k = choose_next k k.ready_list

-- `switch_threads` and `thread_schedule_tail`: `next` runs, with a new time slice.
pub thread_schedule_tail : ℕ → Kernel → Kernel
thread_schedule_tail next k = record k {
  thread = update k.thread next (record (k.thread next) { status = running });
  current = next;
  thread_ticks = 0;
}

-- The priorities that are out of date, under mlfqs.
pub refresh_priorities : Kernel → Option Kernel
refresh_priorities k =
    if k.thread_mlfqs && k.should_update_thread_priorities
    then update_changed_cpu_threads (record k { should_update_thread_priorities = false })
    else some k

pub switch_to_next : Kernel → Option Kernel
switch_to_next k = do
  (next, rest) ← next_thread_to_run k
  assert (not (is_running (k.thread k.current).status))
  assert (not (next == null))
  some (thread_schedule_tail next (record k { ready_list = rest }))

pub schedule : Kernel → Option Kernel
schedule k = refresh_priorities k >>= switch_to_next

abbrev pub set_status : ℕ → Status → Kernel → Kernel
set_status t s k = put_thread t (record (k.thread t) { status = s }) k

unfoldable pub thread_block : Kernel → Option Kernel
thread_block k = schedule (set_status k.current blocked k)

pub thread_yield : Kernel → Option Kernel
thread_yield k =
    let queued =
      if not (k.current == k.idle_thread)
      then record k { ready_list = k.ready_list ++ (k.current ∷ []) }
      else k in
    schedule (set_status k.current ready queued)

-- The blocked thread goes to the end of the ready list.
unfoldable pub make_ready : ℕ → Kernel → Kernel
make_ready t k = record k {
  ready_list = k.ready_list ++ (t ∷ []);
  thread = update k.thread t (record (k.thread t) { status = ready });
}

-- `interrupts_on` is the interrupt level of the caller.
pub thread_unblock : Bool → ℕ → Kernel → Option Kernel
thread_unblock interrupts_on t k = do
  assert (not (t == null))
  assert (is_blocked (k.thread t).status)
  let k' = make_ready t k
  if interrupts_on && ltb_ℤ (priority_of k' k'.current) (priority_of k' t)
      then thread_yield k'
      else some k'

-- What `process_exit` does to the process is not part of the scheduler.
pub thread_exit : Kernel → Option Kernel
thread_exit k =
    let k' = record k { all_list = erase k.current k.all_list } in
    let k'' =
      if k.thread_mlfqs && (k.thread k.current).cpu_has_changed
      then record k' { cpu_changed_list = erase k.current k.cpu_changed_list }
      else k' in
    schedule (set_status k.current dying k'')

-- `ticks` is the timer's count. Under mlfqs the load and recent_cpu follow each second.
pub charge_tick : ℕ → Kernel → Option Kernel
charge_tick ticks k = do
  let charged =
      if not (k.current == k.idle_thread) then update_running_thread_cpu k.current k else k
  updated ←
      if ticks % timer_freq == 0
      then update_load_average charged >>= update_cpu_for_all_threads
      else some charged
  some (
      if not (ticks % 4 == 0)
      then record updated { should_update_thread_priorities = true }
      else updated)

pub count_tick : Kernel → Kernel
count_tick k =
    if k.current == k.idle_thread
    then record k { idle_ticks = k.idle_ticks + 1; yield_on_return = true }
    else if not ((k.thread k.current).pagedir == null)
    then record k { user_ticks = k.user_ticks + 1 }
    else record k { kernel_ticks = k.kernel_ticks + 1 }

pub thread_tick : ℕ → Kernel → Option Kernel
thread_tick ticks k = do
  charged ← if k.thread_mlfqs then charge_tick ticks (count_tick k) else some (count_tick k)
  let spent = (charged.thread_ticks + 1) % 2 ^ 32
  let ticked = record charged { thread_ticks = spent }
  some (if leb time_slice spent then record ticked { yield_on_return = true } else ticked)

abbrev pub clamp_nice : ℤ → ℤ
clamp_nice nice =
    if ltb_ℤ max_nice nice then max_nice else if ltb_ℤ nice min_nice then min_nice else nice

-- `interrupt_context` is what `intr_context` returns.
pub thread_set_nice : Bool → ℤ → Kernel → Option Kernel
thread_set_nice interrupt_context nice k = do
  let t = k.thread k.current
  updated ← update_thread_priority (record t { nice = clamp_nice nice })
  let k' = put_thread k.current updated k
  if not interrupt_context && ltb_ℤ updated.priority t.priority then thread_yield k' else some k'
