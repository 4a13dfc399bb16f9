-- ===== src/Tests/RwLocks.antt =====
-- The theorems about the readers-writer locks of src/threads/synch.c at two threads.
use cs.Common.{ℕ, ◌≤◌, ◌≡◌, refl, true, false, some, [], ◌∷◌, get_elem?, arith}
use cs.RwLock.{
  RwLock, Point, down_waiting, down_accessing, reader_waiting, step, State, go, acquire, Reachable,
  start, more, rw_lock_init, rw_acquire, writer_acquire_step,
}
use cs.RwLock.Tally.{tally}
use cs.RwLock.Points.{is_writing, is_reading, is_counting}
use cs.RwLock.Exclusion.{initial, Reachable-excludes}
use cs.RwLock.Progress.{Reachable-progress}

-- Thread 0 has called writer_acquire, and thread 1 reader_acquire; thread 0 has taken `no_waiting`.
abbrev two_threads : State
two_threads = record {
  lock = record { no_waiting = 0; no_accessing = 1; readers_lock = 1; readers = 0 };
  threads = down_accessing ∷ (reader_waiting ∷ []);
}

two_threads-Reachable : Reachable (initial 2) two_threads
unfolding rw_lock_init rw_acquire step writer_acquire_step
two_threads-Reachable =
    more (more (more start (acquire 0 true refl)) (acquire 1 false refl))
      (go 0 down_waiting refl refl)

Reachable-excludes_example :
    (tally is_writing two_threads.threads ≤ 1)
    × (1 ≤ tally is_writing two_threads.threads → tally is_reading two_threads.threads ≡ 0)
    × (tally is_counting two_threads.threads ≤ 1)
Reachable-excludes_example = Reachable-excludes 2 two_threads two_threads-Reachable

Reachable-progress_example :
    (i : ℕ) × (p q : Point) × (l : RwLock) × (get_elem? two_threads.threads i ≡ some p)
    × (step p two_threads.lock ≡ some (q, l))
Reachable-progress_example = Reachable-progress 2 two_threads two_threads-Reachable (omega arith)
