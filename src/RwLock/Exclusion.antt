-- ===== src/RwLock/Exclusion.antt =====
-- src/threads/synch.c: readers and writers of the lock.
use mathlib.Core.Path.{subst}
use cs.Common.{
  ℕ, zero, suc, ◌+◌, ◌≤◌, ◌≡◌, refl, true, false, Option, some, arith, replicate, get_elem?, set,
}
use cs.RwLock.{
  RwLock, Point, rw_lock_init, idle, down_waiting, try_waiting, reader_waiting, step, rw_acquire,
  State, Step, go, acquire, try_acquire, Reachable, start, more,
}
use cs.RwLock.Tally.{tally, tally-at, tally_mono, tally_sum}
use cs.RwLock.Points.{
  holds_waiting, holds_lock, is_writer, is_writing, is_reading, is_counting, is_counted, is_first,
  is_last, leaving, Invariant, first_leaving, Keeps, moved,
}
use cs.RwLock.Steps.{AllResults, uncounted, step-Keeps}

keep_all :
    (s : State) (i : ℕ) (p q : Point) (l' : RwLock) (o : Option (Point × RwLock))
    → get_elem? s.threads i ≡ some p
    → Invariant s
    → AllResults (Keeps s.lock p) o
    → o ≡ some (q, l')
    → Invariant (record { lock = l'; threads = set s.threads i q })
keep_all s i p q l' o at v k e = moved s i p q l' at v (subst (AllResults (Keeps s.lock p)) e k)

Step-Invariant : (s t : State) → Invariant s → Step s t → Invariant t
unfolding rw_acquire
Step-Invariant s t v (go i p {q} {l} at e) =
    let out : leaving p ≤ s.lock.readers = omega (
      arith,
      tally-at leaving s.threads i p at,
      tally_sum is_first leaving is_counted s.threads first_leaving,
      v.count,
    ) in
    keep_all s i p q l (step p s.lock) at v
      (step-Keeps p s.lock
        (record {
          waiting_small = omega (arith, v.waiting_one);
          lock_small = omega (arith, v.lock_one);
          accessing_small = omega (arith, v.accessing_one);
        })
        out)
      e
Step-Invariant s t v (acquire i true at) =
    moved s i idle down_waiting s.lock at v
      (uncounted s.lock idle down_waiting s.lock refl refl refl refl refl refl)
Step-Invariant s t v (acquire i false at) =
    moved s i idle reader_waiting s.lock at v
      (uncounted s.lock idle reader_waiting s.lock refl refl refl refl refl refl)
Step-Invariant s t v (try_acquire i at) =
    moved s i idle try_waiting s.lock at v
      (uncounted s.lock idle try_waiting s.lock refl refl refl refl refl refl)

-- A new lock, and `n` threads that do not use it.
abbrev pub initial : ℕ → State
initial n = record { lock = rw_lock_init; threads = replicate n idle }

tally-replicate : (f : Point → ℕ) (n : ℕ) → f idle ≡ 0 → tally f (replicate n idle) ≡ 0
tally-replicate f zero e = refl
tally-replicate f (suc n) e = omega (arith, e, tally-replicate f n e)

initial-Invariant : (n : ℕ) → Invariant (initial n)
unfolding rw_lock_init
initial-Invariant n =
    let first = tally-replicate is_first n refl in
    record {
      waiting_one = omega (arith, tally-replicate holds_waiting n refl);
      lock_one = omega (arith, tally-replicate holds_lock n refl);
      count = tally-replicate is_counted n refl;
      first_alone = λ l. absurd (omega arith);
      accessing_one =
          omega (arith, tally-replicate is_writer n refl, tally-replicate is_last n refl);
    }

pub Reachable-Invariant : (n : ℕ) (s : State) → Reachable (initial n) s → Invariant s
Reachable-Invariant n s start = initial-Invariant n
Reachable-Invariant n s (more {t} r next) = Step-Invariant t s (Reachable-Invariant n t r) next

writing_holds : (p : Point) → is_writing p ≤ is_writer p
writing_holds p = ground arith

counting_holds : (p : Point) → is_counting p ≤ holds_lock p
counting_holds p = ground arith

reading_counted : (p : Point) → is_reading p + is_first p ≤ is_counted p
reading_counted p = ground arith

-- However the steps of the threads interleave, at most one thread writes, none reads while one
-- writes, and at most one is at an access to `readers`.
pub Reachable-excludes :
    (n : ℕ) (s : State)
    → Reachable (initial n) s
    → (tally is_writing s.threads ≤ 1)
      × (1 ≤ tally is_writing s.threads → tally is_reading s.threads ≡ 0)
      × (tally is_counting s.threads ≤ 1)
Reachable-excludes n s r =
    let v = Reachable-Invariant n s r in
    let writers = tally_mono is_writing is_writer s.threads writing_holds in
    let counting = tally_mono is_counting holds_lock s.threads counting_holds in
    let readers = tally_sum is_reading is_first is_counted s.threads reading_counted in
    (
      omega (arith, v.accessing_one, writers),
      λ l. ground (arith, v.accessing_one, writers, readers, v.first_alone, v.count),
      omega (arith, v.lock_one, counting),
    )
