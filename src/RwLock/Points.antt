-- ===== src/RwLock/Points.antt =====
-- src/threads/synch.c: what the points of the threads say about the lock.

use cs.Common.{ℕ, ◌+◌, ◌≤◌, ◌≡◌, some, arith, get_elem?, set, ltb, ◌==◌, if◌then◌else◌}
use cs.RwLock.{
  RwLock, Point, down_accessing, up_waiting, writing, try_accessing, give_up, up_accessing,
  reader_lock, count_in, counted_in, first_in, let_next_in, reading, leaving_lock, count_out,
  counted_out, last_out, State,
}
use cs.RwLock.Tally.{tally, tally-set, tally-at, tally_sum}

abbrev pub is_zero : ℕ → ℕ
is_zero n = if n == 0 then 1 else 0

-- Who holds the semaphores, 1 for a thread that does.
abbrev pub holds_waiting : Point → ℕ
holds_waiting down_accessing = 1
holds_waiting up_waiting = 1
holds_waiting try_accessing = 1
holds_waiting give_up = 1
holds_waiting reader_lock = 1
holds_waiting count_in = 1
holds_waiting (counted_in n) = 1
holds_waiting (first_in n) = 1
holds_waiting let_next_in = 1
holds_waiting _ = 0

abbrev pub holds_lock : Point → ℕ
holds_lock count_in = 1
holds_lock (counted_in n) = 1
holds_lock count_out = 1
holds_lock (counted_out n) = 1
holds_lock _ = 0

abbrev pub is_writer : Point → ℕ
is_writer up_waiting = 1
is_writer writing = 1
is_writer up_accessing = 1
is_writer _ = 0

abbrev pub is_writing : Point → ℕ
is_writing writing = 1
is_writing _ = 0

abbrev pub is_reading : Point → ℕ
is_reading reading = 1
is_reading _ = 0

-- The accesses to `readers`.
abbrev pub is_counting : Point → ℕ
is_counting count_in = 1
is_counting count_out = 1
is_counting _ = 0

-- The readers that are counted, and the first of them before it has `no_accessing`.
abbrev pub is_counted : Point → ℕ
is_counted (counted_in n) = 1
is_counted (first_in n) = 1
is_counted let_next_in = 1
is_counted reading = 1
is_counted leaving_lock = 1
is_counted count_out = 1
is_counted _ = 0

abbrev pub is_first : Point → ℕ
is_first (counted_in n) = is_zero n
is_first (first_in n) = is_zero n
is_first _ = 0

-- The last reader, which has yet to give `no_accessing` back.
abbrev pub is_last : Point → ℕ
is_last (counted_out n) = is_zero n
is_last (last_out n) = is_zero n
is_last _ = 0

abbrev pub entering : Point → ℕ
entering count_in = 1
entering _ = 0

abbrev pub leaving : Point → ℕ
leaving count_out = 1
leaving _ = 0

-- The counted readers hold `no_accessing` together, once the first has it.
abbrev pub group : ℕ → ℕ → ℕ
group readers first = if ltb 0 readers then is_zero first else 0

pub record Invariant (s : State) : Type 0 where
  pub waiting_one : s.lock.no_waiting + tally holds_waiting s.threads ≡ 1
  pub lock_one : s.lock.readers_lock + tally holds_lock s.threads ≡ 1
  pub count : tally is_counted s.threads ≡ s.lock.readers
  pub first_alone : 1 ≤ tally is_first s.threads → s.lock.readers ≡ 1
  pub accessing_one :
      s.lock.no_accessing
        + tally is_writer s.threads
        + tally is_last s.threads
        + group s.lock.readers (tally is_first s.threads)
      ≡ 1

first_entering : (p : Point) → is_first p + entering p ≤ holds_waiting p
first_entering p = ground arith

pub first_leaving : (p : Point) → is_first p + leaving p ≤ is_counted p
first_leaving p = ground arith

-- What a step from `p` to `q` has to keep: the sums, and with `b` first readers their two laws.
pub record Keeps (l : RwLock) (p q : Point) (l' : RwLock) : Type 0 where
  pub waiting : l'.no_waiting + holds_waiting q ≡ l.no_waiting + holds_waiting p
  pub lock : l'.readers_lock + holds_lock q ≡ l.readers_lock + holds_lock p
  pub counted : l'.readers + is_counted p ≡ l.readers + is_counted q
  pub alone :
      (b b' : ℕ)
      → is_first p ≤ b
      → (1 ≤ b → l.readers ≡ 1)
      → b + entering p ≤ 1
      → b + leaving p ≤ l.readers
      → b' + is_first p ≡ b + is_first q
      → 1 ≤ b'
      → l'.readers ≡ 1
  pub accessing :
      (b b' : ℕ)
      → is_first p ≤ b
      → (1 ≤ b → l.readers ≡ 1)
      → b + entering p ≤ 1
      → b + leaving p ≤ l.readers
      → b' + is_first p ≡ b + is_first q
      → l'.no_accessing + is_writer q + is_last q + group l'.readers b'
        ≡ l.no_accessing + is_writer p + is_last p + group l.readers b

pub moved :
    (s : State) (i : ℕ) (p q : Point) (l' : RwLock)
    → get_elem? s.threads i ≡ some p
    → Invariant s
    → Keeps s.lock p q l'
    → Invariant (record { lock = l'; threads = set s.threads i q })
moved s i p q l' at v k =
    let b = tally is_first s.threads in
    let b' = tally is_first (set s.threads i q) in
    let here = tally-at is_first s.threads i p at in
    let changed = tally-set is_first s.threads i p q at in
    let enter = tally_sum is_first entering holds_waiting s.threads first_entering in
    let leave = tally_sum is_first leaving is_counted s.threads first_leaving in
    let enter_one : b + entering p ≤ 1 =
      omega (arith, enter, tally-at entering s.threads i p at, v.waiting_one) in
    let leave_one : b + leaving p ≤ s.lock.readers =
      omega (arith, leave, tally-at leaving s.threads i p at, v.count) in
    record {
      waiting_one =
          omega (arith, v.waiting_one, k.waiting, tally-set holds_waiting s.threads i p q at);
      lock_one = omega (arith, v.lock_one, k.lock, tally-set holds_lock s.threads i p q at);
      count = omega (arith, v.count, k.counted, tally-set is_counted s.threads i p q at);
      first_alone = k.alone b b' here v.first_alone enter_one leave_one changed;
      accessing_one = omega (
        arith,
        v.accessing_one,
        k.accessing b b' here v.first_alone enter_one leave_one changed,
        tally-set is_writer s.threads i p q at,
        tally-set is_last s.threads i p q at,
      );
    }
