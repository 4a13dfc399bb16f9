-- ===== src/Bsd/Load.antt =====
-- src/threads/thread.c: `update_load_average`.
use cs.Common.{ℕ, ◌+◌, ◌*◌, ◌/◌, ◌^◌, ◌≤◌, ◌<◌, ◌≡◌, refl, some, arith}
use cs.Common.Int.{pos}
use cs.FixedPoint.{fp_add, fp_mul, fp_div, fp_mul_int, int_to_fp}
use cs.Threads.{Kernel}
use cs.Bsd.{num_ready_threads, update_load_average}

decay_value : fp_div (int_to_fp (pos 59)) (int_to_fp (pos 60)) ≡ some (pos 16110)
unfolding fp_div int_to_fp
decay_value = refl

share_value : fp_div (int_to_fp (pos 1)) (int_to_fp (pos 60)) ≡ some (pos 273)
unfolding fp_div int_to_fp
share_value = refl

fp_mul-decay :
    (load : ℕ) → load < 2 ^ 31 → fp_mul (pos load) (pos 16110) ≡ pos (load * 16110 / 16384)
unfolding fp_mul
fp_mul-decay load h = ground arith

fp_mul_int-share : (n : ℕ) → n < 2 ^ 16 → fp_mul_int (pos 273) (pos n) ≡ pos (273 * n)
unfolding fp_mul_int
fp_mul_int-share n h = ground arith

fp_add-pos : (a b : ℕ) → a + b < 2 ^ 31 → fp_add (pos a) (pos b) ≡ pos (a + b)
unfolding fp_add
fp_add-pos a b h = ground arith

-- One step of the average, on numbers: 59/60 of the old load and 1/60 of each thread.
abbrev pub next_load : ℕ → ℕ → ℕ
next_load load n = load * 16110 / 16384 + 273 * n

pub update_load_average_lem :
    (k : Kernel) (load : ℕ)
    → k.load_average ≡ pos load
    → load < 2 ^ 30
    → num_ready_threads k < 2 ^ 16
    → update_load_average k
      ≡ some (record k { load_average = pos (next_load load (num_ready_threads k)) })
unfolding update_load_average fp_add num_ready_threads
update_load_average_lem k load e h small = rw (
  decay_value,
  share_value,
  e,
  fp_mul-decay load (omega arith),
  fp_mul_int-share (num_ready_threads k) small,
  fp_add-pos (load * 16110 / 16384) (273 * num_ready_threads k) (omega arith),
)

pub next_load_bound :
    (load n bound : ℕ) → load ≤ bound * 16384 → n ≤ bound → next_load load n ≤ bound * 16384
next_load_bound load n bound h k = omega arith

-- With the load average between 0 and `bound`, and at most `bound` ready threads, updating it does
-- not trap, changes nothing else and keeps it between 0 and `bound`.
pub update_load_average_bound :
    (k : Kernel) (load bound : ℕ)
    → bound < 2 ^ 16
    → k.load_average ≡ pos load
    → load ≤ bound * 16384
    → num_ready_threads k ≤ bound
    → (load' : ℕ) × (update_load_average k ≡ some (record k { load_average = pos load' }))
      × (load' ≤ bound * 16384)
update_load_average_bound k load bound small e h n = (
  next_load load (num_ready_threads k),
  update_load_average_lem k load e (omega arith) (omega arith),
  next_load_bound load (num_ready_threads k) bound h n,
)
