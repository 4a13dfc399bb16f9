-- ===== src/Bsd/Priority.antt =====
-- src/threads/thread.c: `update_thread_priority`.
use cs.Common.{ℕ, ◌+◌, ◌*◌, ◌/◌, ◌^◌, ◌≤◌, ◌<◌, ◌≡◌, some, arith}
use cs.Common.Int.{ℤ, pos, negsuc, pos_part, neg_part, ◌-ℤ◌, ◌*ℤ◌, ◌≤ℤ◌, int_laws, parts_apart}
use cs.FixedPoint.{FpFloat, IsInt32, fp_to_int, fp_div_int, wrap32, tdiv, neg}
use cs.Threads.{Thread, pri_min, pri_max}
use cs.Bsd.{clamp_priority, update_thread_priority, nice_weight}

pub clamp_priority_bounds : (p : ℤ) → (pri_min ≤ℤ clamp_priority p) × (clamp_priority p ≤ℤ pri_max)
unfolding clamp_priority
clamp_priority_bounds p = ground arith

clamp_priority_mono : (p q : ℤ) → p ≤ℤ q → clamp_priority p ≤ℤ clamp_priority q
unfolding clamp_priority
clamp_priority_mono p q h = ground arith

-- The division by 4 never traps.
abbrev pub quarter : FpFloat → FpFloat
quarter f = tdiv f (pos 4)

fp_div_int_four : (f : FpFloat) → IsInt32 f → fp_div_int f (pos 4) ≡ some (quarter f)
unfolding fp_div_int
fp_div_int_four (pos n) h = ground arith
fp_div_int_four (negsuc n) h = ground arith

quarter_mono : (f g : FpFloat) → f ≤ℤ g → quarter f ≤ℤ quarter g
quarter_mono (pos n) (pos m) h = ground arith
quarter_mono (pos n) (negsuc m) h = absurd (omega arith)
quarter_mono (negsuc n) (pos m) h = ground arith
quarter_mono (negsuc n) (negsuc m) h = ground arith

abbrev pub rounded : FpFloat → ℤ
rounded f = fp_to_int (quarter f)

-- A quarter of an `int32_t` is at most 2 ^ 29, which rounds to at most 2 ^ 15.
rounded_bounds :
    (f : FpFloat) → IsInt32 f → (pos_part (rounded f) ≤ 2 ^ 15) × (neg_part (rounded f) ≤ 2 ^ 15)
unfolding fp_to_int
rounded_bounds (pos n) h = ground arith
rounded_bounds (negsuc n) h = ground arith

fp_to_int-pos : (n : ℕ) → n ≤ 2 ^ 29 → fp_to_int (pos n) ≡ pos ((n + 8192) / 16384)
unfolding fp_to_int
fp_to_int-pos n h = ground arith

fp_to_int-negsuc : (n : ℕ) → n < 2 ^ 29 → fp_to_int (negsuc n) ≡ neg ((n + 8193) / 16384)
unfolding fp_to_int
fp_to_int-negsuc n h = ground arith

fp_to_int_mono :
    (f g : FpFloat)
    → pos_part g ≤ 2 ^ 29
    → neg_part f ≤ 2 ^ 29
    → f ≤ℤ g
    → fp_to_int f ≤ℤ fp_to_int g
fp_to_int_mono (pos n) (pos m) a b h =
    rw (fp_to_int-pos n (omega arith), fp_to_int-pos m a) (omega arith)
fp_to_int_mono (pos n) (negsuc m) a b h = absurd (omega arith)
fp_to_int_mono (negsuc n) (pos m) a b h =
    rw (fp_to_int-negsuc n (omega arith), fp_to_int-pos m a) (ground arith)
fp_to_int_mono (negsuc n) (negsuc m) a b h =
    rw (fp_to_int-negsuc n (omega arith), fp_to_int-negsuc m (omega arith)) (ground arith)

quarter_bounds :
    (f : FpFloat) → IsInt32 f → (pos_part (quarter f) ≤ 2 ^ 29) × (neg_part (quarter f) ≤ 2 ^ 29)
quarter_bounds (pos n) h = ground arith
quarter_bounds (negsuc n) h = ground arith

-- The number that the code clamps.
abbrev pub formula : FpFloat → ℤ → ℤ
formula f nice = pri_max -ℤ rounded f -ℤ nice *ℤ nice_weight

double :
    (nice : ℤ)
    → (pos_part (nice *ℤ pos 2) ≡ 2 * pos_part nice)
      × (neg_part (nice *ℤ pos 2) ≡ 2 * neg_part nice)
unfolding ◌*ℤ◌
double (pos n) = ground arith
double (negsuc n) = ground arith

wrap32-small : (z : ℤ) → IsInt32 z → wrap32 z ≡ z
unfolding wrap32
wrap32-small (pos n) h = ground arith
wrap32-small (negsuc n) h = ground arith

-- Nice values lie between -20 and 20.
abbrev pub IsNice : ℤ → Type 0
IsNice n = (pos_part n ≤ 20) × (neg_part n ≤ 20)

pub update_thread_priority_value :
    (t : Thread)
    → IsInt32 t.recent_cpu
    → update_thread_priority t
      ≡ some (record t { priority = clamp_priority (wrap32 (formula t.recent_cpu t.nice)) })
unfolding update_thread_priority
update_thread_priority_value t h = rw (fp_div_int_four t.recent_cpu h)

-- Whatever the nice value, a thread with an `int32_t` of recent_cpu gets a priority from PRI_MIN to
-- PRI_MAX, without a trap, and keeps its other members.
pub update_thread_priority_bounds :
    (t : Thread)
    → IsInt32 t.recent_cpu
    → (p : ℤ) × (update_thread_priority t ≡ some (record t { priority = p }))
      × (pri_min ≤ℤ p)
      × (p ≤ℤ pri_max)
update_thread_priority_bounds t h =
    let p = clamp_priority (wrap32 (formula t.recent_cpu t.nice)) in
    let b = clamp_priority_bounds (wrap32 (formula t.recent_cpu t.nice)) in
    (p, update_thread_priority_value t h, b.0, b.1)

formula-wrap : (f : FpFloat) (n : ℤ) → IsInt32 f → IsNice n → wrap32 (formula f n) ≡ formula f n
formula-wrap f n h k = wrap32-small (formula f n) (
  omega (int_laws, rounded_bounds f h, double n, parts_apart (formula f n)),
  omega (int_laws, rounded_bounds f h, double n, parts_apart (formula f n)),
)

formula_antitone :
    (f g : FpFloat) (n m : ℤ) → IsInt32 f → IsInt32 g → f ≤ℤ g → n ≤ℤ m → formula g m ≤ℤ formula f n
formula_antitone f g n m hf hg h k =
    let r =
      fp_to_int_mono (quarter f) (quarter g) ((quarter_bounds g hg).0) ((quarter_bounds f hf).1)
        (quarter_mono f g h) in
    omega (int_laws, double n, double m)

-- A thread that is at least as nice and has used at least as much of the processor as another gets
-- at most the priority of that other thread.
pub update_thread_priority_antitone :
    (t u : Thread)
    → IsInt32 t.recent_cpu
    → IsInt32 u.recent_cpu
    → IsNice t.nice
    → IsNice u.nice
    → t.recent_cpu ≤ℤ u.recent_cpu
    → t.nice ≤ℤ u.nice
    → (p q : ℤ) × (update_thread_priority t ≡ some (record t { priority = p }))
      × (update_thread_priority u ≡ some (record u { priority = q }))
      × (q ≤ℤ p)
update_thread_priority_antitone t u ht hu nt nu cpu nice = (
  clamp_priority (wrap32 (formula t.recent_cpu t.nice)),
  clamp_priority (wrap32 (formula u.recent_cpu u.nice)),
  update_thread_priority_value t ht,
  update_thread_priority_value u hu,
  rw (formula-wrap t.recent_cpu t.nice ht nt, formula-wrap u.recent_cpu u.nice hu nu)
      (clamp_priority_mono (formula u.recent_cpu u.nice) (formula t.recent_cpu t.nice)
        (formula_antitone t.recent_cpu u.recent_cpu t.nice u.nice ht hu cpu nice)),
)
