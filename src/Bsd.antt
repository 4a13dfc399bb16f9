-- ===== src/Bsd.antt =====
-- src/threads/thread.c: the computations of the 4.4BSD scheduler (`-o mlfqs`).
pub mod Priority
pub mod Load
use cs.Common.{
  ℕ, ◌+◌, ◌%◌, ◌^◌, ◌≡◌, Bool, true, false, not, Option, none, some, List, [], ◌∷◌, ◌++◌, length,
  erase, ltb, ◌==◌, if◌then◌else◌, update, ◌>>=◌,
}
use cs.Common.Int.{ℤ, pos, ◌-ℤ◌, ◌*ℤ◌, ◌+ℤ◌, ltb_ℤ}
use cs.FixedPoint.{
  FpFloat, wrap32, int_to_fp, fp_to_int, fp_add, fp_add_int, fp_mul, fp_div, fp_mul_int, fp_div_int,
}
use cs.Threads.{Thread, Kernel, pri_min, pri_max, put_thread}

abbrev pub nice_weight : ℤ
nice_weight = pos 2

-- The two tests that keep a computed priority in range.
pub clamp_priority : ℤ → ℤ
clamp_priority p =
    let capped = if ltb_ℤ pri_max p then pri_max else p in
    if ltb_ℤ capped pri_min then pri_min else capped

pub update_thread_priority : Thread → Option Thread
update_thread_priority t = do
  quarter ← fp_div_int t.recent_cpu (pos 4)
  let p = clamp_priority (wrap32 (pri_max -ℤ fp_to_int quarter -ℤ t.nice *ℤ nice_weight))
  some (record t { priority = p })

-- `list_size (&ready_list)`, and one more for a running thread that is not idle.
unfoldable pub num_ready_threads : Kernel → ℕ
num_ready_threads k = length k.ready_list + (if k.current == k.idle_thread then 0 else 1)

unfoldable pub update_load_average : Kernel → Option Kernel
update_load_average k = do
  decay ← fp_div (int_to_fp (pos 59)) (int_to_fp (pos 60))
  share ← fp_div (int_to_fp (pos 1)) (int_to_fp (pos 60))
  let load = fp_add (fp_mul k.load_average decay) (fp_mul_int share (pos (num_ready_threads k)))
  some (record k { load_average = load })

-- The new `recent_cpu` of one thread, in update_cpu_for_all_threads and update_recent_cpu.
unfoldable pub update_recent_cpu : Thread → FpFloat → Thread
update_recent_cpu t cpu_scale = record t {
  recent_cpu = fp_add_int (fp_mul cpu_scale t.recent_cpu) t.nice;
}

-- Puts a thread on the list of those whose recent_cpu has changed, once.
unfoldable pub mark_cpu_changed : ℕ → Kernel → Kernel
mark_cpu_changed t k =
    if not (k.thread t).cpu_has_changed
    then record k {
      thread = update k.thread t (record (k.thread t) { cpu_has_changed = true });
      cpu_changed_list = k.cpu_changed_list ++ (t ∷ []);
    }
    else k

-- The loop over `all_list`.
unfoldable pub update_cpu_loop : FpFloat → List ℕ → Kernel → Kernel
update_cpu_loop cpu_scale [] k = k
update_cpu_loop cpu_scale (t ∷ ts) k =
    update_cpu_loop cpu_scale ts
      (mark_cpu_changed t (put_thread t (update_recent_cpu (k.thread t) cpu_scale) k))

unfoldable pub update_cpu_for_all_threads : Kernel → Option Kernel
update_cpu_for_all_threads k = do
  let numerator = fp_mul_int k.load_average (pos 2)
  cpu_scale ← fp_div numerator (fp_add_int numerator (pos 1))
  some (update_cpu_loop cpu_scale k.all_list k)

-- The loop over `cpu_changed_list`, which takes each thread off the list.
unfoldable pub update_changed_loop : List ℕ → Kernel → Option Kernel
update_changed_loop [] k = some k
update_changed_loop (t ∷ ts) k = update_thread_priority (k.thread t) >>= λ v.
    update_changed_loop ts (record k {
      thread = update k.thread t (record v { cpu_has_changed = false });
      cpu_changed_list = erase t k.cpu_changed_list;
    })

unfoldable pub update_changed_cpu_threads : Kernel → Option Kernel
update_changed_cpu_threads k = update_changed_loop k.cpu_changed_list k

-- The running thread is charged for one tick.
unfoldable pub update_running_thread_cpu : ℕ → Kernel → Kernel
update_running_thread_cpu t k = mark_cpu_changed t (
    put_thread t (record (k.thread t) { recent_cpu = fp_add_int (k.thread t).recent_cpu (pos 1) })
      k)

-- The load average and recent_cpu, as the program reports them: times 100, rounded.
pub thread_get_load_avg : Kernel → ℤ
thread_get_load_avg k = fp_to_int (fp_mul_int k.load_average (pos 100))

pub thread_get_recent_cpu : Kernel → ℤ
thread_get_recent_cpu k = fp_to_int (fp_mul_int (k.thread k.current).recent_cpu (pos 100))
