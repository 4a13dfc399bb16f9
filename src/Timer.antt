-- ===== src/Timer.antt =====
-- src/devices/timer.c: the count of ticks and the threads that sleep until a tick.
-- A `struct sleeping_thread` lies at an address, and its semaphore is the semaphore there. The list
-- of sleeping threads is the list of their addresses. An `int64_t` that is not negative is its value;
-- a sum that overflows is `none`, as are a panic and a failed `ASSERT`. `interrupts_on` is the
-- interrupt level of the caller.
pub mod Waking
pub mod Sleeping
use cs.Common.{
  ℕ, ◌+◌, ◌-◌, ◌*◌, ◌/◌, ◌%◌, ◌^◌, Bool, true, false, Option, none, some, List, [], ◌∷◌, ltb, leb,
  ◌==◌, if◌then◌else◌, ◌>>=◌, ◌>>◌, assert, update,
}
use cs.Common.Int.{ℤ, pos, pos_part, ltb_ℤ, ◌*ℤ◌}
use cs.FixedPoint.{tdiv}
use cs.Threads.{Kernel}
use cs.Sched.{thread_tick, timer_freq}
use cs.Synch.{sema_init, sema_down, sema_up}
use cs.KernelList.Walking.{insert_ordered}

pub record Timer : Type 0 where
  pub ticks : ℕ
  pub sleeping_threads_list : List ℕ
  pub wake_time : ℕ → ℕ
  pub kernel : Kernel

-- A sum of two `int64_t` that are not negative.
unfoldable pub add_int64 : ℕ → ℕ → Option ℕ
add_int64 a b = if ltb (a + b) (2 ^ 63) then some (a + b) else none

unfoldable pub timer_ticks : Timer → ℕ
timer_ticks t = t.ticks

-- `since` is a count that the timer had once.
unfoldable pub timer_elapsed : ℕ → Timer → ℕ
timer_elapsed since t = timer_ticks t - since

unfoldable pub sleeping_thread_insert_func : Timer → ℕ → ℕ → Bool
sleeping_thread_insert_func t a b = ltb (t.wake_time a) (t.wake_time b)

-- The sleeper at `st` before its semaphore goes down: it enters the list, unless there is nothing to
-- wait for. `start` is the first reading of the ticks, and `t` the state at the second.
unfoldable pub enter_sleep : ℕ → ℕ → ℕ → Timer → Option (Bool × Timer)
enter_sleep st start sleep_ticks t = add_int64 start sleep_ticks >>= λ wake.
    let t' = record t {
      kernel = sema_init st 0 t.kernel;
      wake_time = update t.wake_time st wake;
    } in
    let entered = record t' {
      sleeping_threads_list =
          insert_ordered (sleeping_thread_insert_func t') st t.sleeping_threads_list;
    } in
    some (if leb wake (timer_ticks t) then (false, t') else (true, entered))

-- `false` if the thread goes to sleep on its semaphore.
unfoldable pub down_on : ℕ → Bool × Timer → Option (Bool × Timer)
down_on st (false, t) = some (true, t)
down_on st (true, t) = sema_down st t.kernel >>= λ r. some (r.0, record t { kernel = r.1 })

unfoldable pub timer_sleep : Bool → ℕ → ℕ → ℤ → Timer → Option (Bool × Timer)
timer_sleep interrupts_on st start sleep_ticks t =
    assert interrupts_on
    >> (let entering = enter_sleep st start (pos_part sleep_ticks) t >>= down_on st in
        if ltb_ℤ (pos 0) sleep_ticks then entering else some (true, t))

-- The loop of the interrupt handler over the sleeping threads.
unfoldable pub wake_loop : List ℕ → Timer → Option Timer
wake_loop [] t = some (record t { sleeping_threads_list = [] })
wake_loop (st ∷ rest) t =
    let woken = sema_up true st t.kernel >>= λ k. wake_loop rest (record t { kernel = k }) in
    if leb (t.wake_time st) t.ticks
    then woken
    else some (record t { sleeping_threads_list = st ∷ rest })

unfoldable pub timer_interrupt : Timer → Option Timer
timer_interrupt t = do
  now ← add_int64 t.ticks 1
  k ← thread_tick now t.kernel
  wake_loop t.sleeping_threads_list (record t { ticks = now; kernel = k })

-- The whole ticks in `num / denom` seconds.
unfoldable pub sleep_length : ℤ → ℕ → ℤ
sleep_length num denom = tdiv (num *ℤ pos timer_freq) (pos denom)

-- `real_time_delay` only spins, once `denom` is a multiple of 1000.
unfoldable pub real_time_sleep : Bool → ℕ → ℕ → ℤ → ℕ → Timer → Option (Bool × Timer)
real_time_sleep interrupts_on st start num denom t =
    assert interrupts_on
    >> (let slept = timer_sleep interrupts_on st start (sleep_length num denom) t in
        let delayed = assert (denom % 1000 == 0) >> some (true, t) in
        if ltb_ℤ (pos 0) (sleep_length num denom) then slept else delayed)

unfoldable pub timer_msleep : Bool → ℕ → ℕ → ℤ → Timer → Option (Bool × Timer)
timer_msleep interrupts_on st start ms t = real_time_sleep interrupts_on st start ms 1000 t

unfoldable pub timer_usleep : Bool → ℕ → ℕ → ℤ → Timer → Option (Bool × Timer)
timer_usleep interrupts_on st start us t = real_time_sleep interrupts_on st start us 1000000 t

unfoldable pub timer_nsleep : Bool → ℕ → ℕ → ℤ → Timer → Option (Bool × Timer)
timer_nsleep interrupts_on st start ns t = real_time_sleep interrupts_on st start ns 1000000000 t
