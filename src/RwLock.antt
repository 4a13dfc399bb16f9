-- ===== src/RwLock.antt =====
-- src/threads/synch.c and synch.h: readers-writer locks, as steps of threads that interleave.
-- Every thread is at a point of the functions; a step is one operation on a semaphore, which runs
-- with interrupts off, or one access to `readers`. Of a semaphore only the value counts here: a thread in
-- `sema_down` goes on once it has taken one from a positive value. There are fewer than 2 ^ 31
-- threads, so that the `int` `readers` does not overflow.
pub mod Tally
pub mod Points
pub mod Steps
pub mod Exclusion
pub mod Progress
use cs.Common.{
  ℕ, zero, suc, ◌+◌, ◌-◌, ◌%◌, ◌^◌, ◌≡◌, Bool, true, false, Option, none, some, List, ltb, ◌==◌,
  if◌then◌else◌, get_elem?, set,
}

-- struct rw_lock: the values of its semaphores, and its count.
pub record RwLock : Type 0 where
  pub no_waiting : ℕ
  pub no_accessing : ℕ
  pub readers_lock : ℕ
  pub readers : ℕ

unfoldable pub rw_lock_init : RwLock
rw_lock_init = record { no_waiting = 1; no_accessing = 1; readers_lock = 1; readers = 0 }

-- What a thread does next. A number is the local variable `readers`.
pub data Point : Type 0 where
  idle : Point
  -- writer_acquire
  down_waiting : Point
  down_accessing : Point
  up_waiting : Point
  writing : Point
  -- writer_try_acquire
  try_waiting : Point
  try_accessing : Point
  give_up : Point
  -- writer_release
  up_accessing : Point
  -- reader_acquire
  reader_waiting : Point
  reader_lock : Point
  count_in : Point
  counted_in : ℕ → Point
  first_in : ℕ → Point
  let_next_in : Point
  reading : Point
  -- reader_release
  leaving_lock : Point
  count_out : Point
  counted_out : ℕ → Point
  last_out : ℕ → Point

abbrev pub raise : ℕ → ℕ
raise value = (value + 1) % 2 ^ 32

-- `sema_down`: to the next point, once the value is positive.
abbrev pub down : ℕ → Point → RwLock → Option (Point × RwLock)
down value p l = if ltb 0 value then some (p, l) else none

-- writer_acquire, with the end of writer_try_acquire
unfoldable pub writer_acquire_step : Point → RwLock → Option (Point × RwLock)
writer_acquire_step down_waiting l =
    down l.no_waiting down_accessing (record l { no_waiting = l.no_waiting - 1 })
writer_acquire_step down_accessing l =
    down l.no_accessing up_waiting (record l { no_accessing = l.no_accessing - 1 })
writer_acquire_step up_waiting l = some (writing, record l { no_waiting = raise l.no_waiting })
writer_acquire_step _ l = none

unfoldable pub writer_try_acquire_step : Point → RwLock → Option (Point × RwLock)
writer_try_acquire_step try_waiting l =
    if ltb 0 l.no_waiting
    then some (try_accessing, record l { no_waiting = l.no_waiting - 1 })
    else some (idle, l)
writer_try_acquire_step try_accessing l =
    if ltb 0 l.no_accessing
    then some (up_waiting, record l { no_accessing = l.no_accessing - 1 })
    else some (give_up, l)
writer_try_acquire_step give_up l = some (idle, record l { no_waiting = raise l.no_waiting })
writer_try_acquire_step _ l = none

unfoldable pub writer_release_step : Point → RwLock → Option (Point × RwLock)
writer_release_step writing l = some (up_accessing, l)
writer_release_step up_accessing l = some (idle, record l { no_accessing = raise l.no_accessing })
writer_release_step _ l = none

unfoldable pub reader_acquire_step : Point → RwLock → Option (Point × RwLock)
reader_acquire_step reader_waiting l =
    down l.no_waiting reader_lock (record l { no_waiting = l.no_waiting - 1 })
reader_acquire_step reader_lock l =
    down l.readers_lock count_in (record l { readers_lock = l.readers_lock - 1 })
reader_acquire_step count_in l = some (counted_in l.readers, record l { readers = l.readers + 1 })
reader_acquire_step (counted_in n) l =
    some (first_in n, record l { readers_lock = raise l.readers_lock })
reader_acquire_step (first_in n) l =
    if n == 0
    then down l.no_accessing let_next_in (record l { no_accessing = l.no_accessing - 1 })
    else some (let_next_in, l)
reader_acquire_step let_next_in l = some (reading, record l { no_waiting = raise l.no_waiting })
reader_acquire_step _ l = none

unfoldable pub reader_release_step : Point → RwLock → Option (Point × RwLock)
reader_release_step reading l = some (leaving_lock, l)
reader_release_step leaving_lock l =
    down l.readers_lock count_out (record l { readers_lock = l.readers_lock - 1 })
reader_release_step count_out l =
    some (counted_out (l.readers - 1), record l { readers = l.readers - 1 })
reader_release_step (counted_out n) l =
    some (last_out n, record l { readers_lock = raise l.readers_lock })
reader_release_step (last_out n) l =
    if n == 0 then some (idle, record l { no_accessing = raise l.no_accessing }) else some (idle, l)
reader_release_step _ l = none

-- The thread goes on with the function that it is in; at `reading` and `writing` it releases the lock.
unfoldable pub step : Point → RwLock → Option (Point × RwLock)
step idle l = none
step down_waiting l = writer_acquire_step down_waiting l
step down_accessing l = writer_acquire_step down_accessing l
step up_waiting l = writer_acquire_step up_waiting l
step writing l = writer_release_step writing l
step try_waiting l = writer_try_acquire_step try_waiting l
step try_accessing l = writer_try_acquire_step try_accessing l
step give_up l = writer_try_acquire_step give_up l
step up_accessing l = writer_release_step up_accessing l
step reader_waiting l = reader_acquire_step reader_waiting l
step reader_lock l = reader_acquire_step reader_lock l
step count_in l = reader_acquire_step count_in l
step (counted_in n) l = reader_acquire_step (counted_in n) l
step (first_in n) l = reader_acquire_step (first_in n) l
step let_next_in l = reader_acquire_step let_next_in l
step reading l = reader_release_step reading l
step leaving_lock l = reader_release_step leaving_lock l
step count_out l = reader_release_step count_out l
step (counted_out n) l = reader_release_step (counted_out n) l
step (last_out n) l = reader_release_step (last_out n) l

-- Where a call of `rw_acquire` begins.
unfoldable pub rw_acquire : Bool → Point
rw_acquire write = if write then down_waiting else reader_waiting

-- Where a call of `rw_release` is made.
unfoldable pub rw_release : Bool → Point
rw_release write = if write then writing else reading

-- The lock, and the point that each thread is at.
pub record State : Type 0 where
  pub lock : RwLock
  pub threads : List Point

-- A step of one thread: in the function that it is in, or to the start of one.
pub data Step (s : State) : State → Type 0 where
  go :
      (i : ℕ) (p : Point) {q : Point} {l : RwLock}
      → get_elem? s.threads i ≡ some p
      → step p s.lock ≡ some (q, l)
      → Step s (record { lock = l; threads = set s.threads i q })
  acquire :
      (i : ℕ) (write : Bool)
      → get_elem? s.threads i ≡ some idle
      → Step s (record { lock = s.lock; threads = set s.threads i (rw_acquire write) })
  try_acquire :
      (i : ℕ)
      → get_elem? s.threads i ≡ some idle
      → Step s (record { lock = s.lock; threads = set s.threads i try_waiting })

pub data Reachable (s : State) : State → Type 0 where
  start : Reachable s s
  more : {t u : State} → Reachable s t → Step t u → Reachable s u
