-- ===== src/Tests/Timers.antt =====
-- The theorems about src/devices/timer.c at the small kernel.
use cs.Common.{
  ℕ, ◌<◌, ◌≤◌, ◌≡◌, ◌++◌, ◌&&◌, ◌||◌, not, refl, true, Bool, some, List, [], ◌∷◌, arith, ◌==◌, leb,
  mem, All, if◌then◌else◌,
}
use cs.Common.Int.{pos}
use cs.Timer.{Timer, timer_interrupt, timer_sleep}
use cs.Timer.Waking.{AreWoken, IsSleeping, timer_interrupt-AreWoken}
use cs.Timer.Sleeping.{timer_sleep-IsSleeping}
use cs.Tests.Kernels.{kernel, kernel-IsValid}

-- Thread 3 sleeps on semaphore 5 up to tick 11, and a thread that sleeps on 9 up to tick 20 has not
-- begun to wait.
abbrev timer : Timer
timer = record {
  ticks = 10;
  sleeping_threads_list = 5 ∷ (9 ∷ []);
  wake_time = λ s. if s == 5 then 11 else 20;
  kernel = kernel;
}

timer-IsSleeping : IsSleeping timer
timer-IsSleeping = record {
  kernel_valid = kernel-IsValid;
  distinct = (refl, (refl, tt));
  single = λ s m. ground arith;
  ordered = ((omega arith, tt), (tt, tt));
}

timer_interrupt-AreWoken_example :
    (due rest : List ℕ) × (t' : Timer) × (timer_interrupt timer ≡ some t')
    × ((5 ∷ (9 ∷ [])) ≡ due ++ rest)
    × (t'.sleeping_threads_list ≡ rest)
    × (t'.ticks ≡ 11)
    × All (λ s. timer.wake_time s ≤ 11) due
    × All (λ s. 11 < timer.wake_time s) rest
    × AreWoken due kernel t'.kernel
timer_interrupt-AreWoken_example =
    timer_interrupt-AreWoken timer timer-IsSleeping refl (omega arith)

timer_sleep-IsSleeping_example :
    (done : Bool) × (t' : Timer) × (timer_sleep true 12 10 (pos 4) timer ≡ some (done, t'))
    × IsSleeping t'
    × (done ≡ leb 14 10)
    × ((s : ℕ) → mem s t'.sleeping_threads_list ≡ (((s == 12) && not done) || mem s (5 ∷ (9 ∷ []))))
    × (t'.wake_time 12 ≡ 14)
timer_sleep-IsSleeping_example =
    timer_sleep-IsSleeping timer 12 10 4 timer-IsSleeping refl (λ e. omega arith) (omega arith)
      (omega arith)
