-- ===== src/RwLock/Progress.antt =====
-- src/threads/synch.c: no thread of the lock is left without one that can go on.
use cs.Common.{ℕ, ◌+◌, ◌≤◌, ◌≡◌, ◌≢◌, refl, Option, none, some, arith, get_elem?}
use cs.RwLock.{
  RwLock, Point, idle, step, writer_acquire_step, writer_try_acquire_step, writer_release_step,
  reader_acquire_step, reader_release_step, State, Reachable,
}
use cs.RwLock.Tally.{tally, tally_mono, tally_cover, tally-found}
use cs.RwLock.Points.{
  holds_waiting, holds_lock, is_writer, is_counted, is_first, is_last, Invariant,
}
use cs.RwLock.Exclusion.{initial, Reachable-Invariant}

abbrev is_some : Option (Point × RwLock) → ℕ
is_some none = 0
is_some (some r) = 1

abbrev can_step : RwLock → Point → ℕ
can_step l p = is_some (step p l)

abbrev pub is_busy : Point → ℕ
is_busy idle = 0
is_busy _ = 1

module _ (l : RwLock) where
  lock_steps : (p : Point) → holds_lock p ≤ can_step l p
  unfolding step reader_acquire_step reader_release_step
  lock_steps p = ground arith

  writer_steps : (p : Point) → is_writer p ≤ can_step l p
  unfolding step writer_acquire_step writer_release_step
  writer_steps p = ground arith

  last_steps : (p : Point) → is_last p ≤ can_step l p
  unfolding step reader_release_step
  last_steps p = ground arith

  counted_steps : 1 ≤ l.readers_lock → (p : Point) → is_counted p ≤ can_step l p + is_first p
  unfolding step reader_acquire_step reader_release_step
  counted_steps h p = ground arith

  waiting_steps :
      1 ≤ l.readers_lock → 1 ≤ l.no_accessing → (p : Point) → holds_waiting p ≤ can_step l p
  unfolding step reader_acquire_step writer_acquire_step writer_try_acquire_step
  waiting_steps h a p = ground arith

  busy_steps :
      1 ≤ l.readers_lock
      → 1 ≤ l.no_accessing
      → 1 ≤ l.no_waiting
      → (p : Point) → is_busy p ≤ can_step l p
  unfolding step reader_acquire_step writer_acquire_step writer_try_acquire_step writer_release_step
      reader_release_step
  busy_steps h a w p = ground arith

-- If no thread could step, the semaphores would all be up, and then every busy thread could.
some_step :
    (s : State) → Invariant s → 1 ≤ tally is_busy s.threads → tally (can_step s.lock) s.threads ≢ 0
some_step s v busy stuck =
    let l = s.lock in
    let can = can_step l in
    let lock_up : 1 ≤ l.readers_lock =
      omega (arith, v.lock_one, stuck, tally_mono holds_lock can s.threads (lock_steps l)) in
    let counted = tally_cover is_counted can is_first s.threads (counted_steps l lock_up) in
    let writers = tally_mono is_writer can s.threads (writer_steps l) in
    let last = tally_mono is_last can s.threads (last_steps l) in
    let accessing_up : 1 ≤ l.no_accessing =
      ground (arith, v.accessing_one, stuck, counted, writers, last, v.count) in
    let waiting = tally_mono holds_waiting can s.threads (waiting_steps l lock_up accessing_up) in
    let waiting_up : 1 ≤ l.no_waiting = omega (arith, v.waiting_one, stuck, waiting) in
    let all = tally_mono is_busy can s.threads (busy_steps l lock_up accessing_up waiting_up) in
    omega (arith, stuck, busy, all)

stepped :
    (o : Option (Point × RwLock)) → 1 ≤ is_some o → (q : Point) × (l : RwLock) × (o ≡ some (q, l))
stepped none h = absurd (omega arith)
stepped (some (q, l)) h = (q, l, refl)

-- However the steps have interleaved, as long as a thread is inside a function of the lock or holds
-- it, some thread can make its next step.
pub Reachable-progress :
    (n : ℕ) (s : State)
    → Reachable (initial n) s
    → 1 ≤ tally is_busy s.threads
    → (i : ℕ) × (p q : Point) × (l : RwLock) × (get_elem? s.threads i ≡ some p)
      × (step p s.lock ≡ some (q, l))
Reachable-progress n s r busy =
    let stuck = some_step s (Reachable-Invariant n s r) busy in
    let (i, p, at, h) = tally-found (can_step s.lock) s.threads (omega (arith, stuck)) in
    let (q, l, e) = stepped (step p s.lock) h in (i, p, q, l, at, e)
