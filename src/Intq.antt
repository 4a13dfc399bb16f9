-- ===== src/Intq.antt =====
-- src/devices/intq.c: the ring buffer between interrupt handlers and threads.
-- A call that has to wait for the other side stops at `waits`: the thread is recorded as the waiter
-- and blocks, with the lock of the queue held, and the call goes on when it is woken. Interrupts are
-- off, and the lock is free for the one thread that may wait.
pub mod Order
use cs.Common.{
  ℕ, zero, suc, ◌+◌, ◌%◌, Bool, true, false, not, List, [], ◌∷◌, ◌==◌, if◌then◌else◌, update, null,
}

abbrev pub intq_bufsize : ℕ
intq_bufsize = 64

pub record Intq : Type 0 where
  pub not_full : ℕ
  pub not_empty : ℕ
  pub buf : ℕ → ℕ
  pub head : ℕ
  pub tail : ℕ

-- How a call ends. `woken` is the thread to unblock, or `null`.
pub data Outcome : Type 0 where
  done : (byte : ℕ) (woken : ℕ) (q : Intq) → Outcome
  waits : (q : Intq) → Outcome
  panics : Outcome

unfoldable pub next : ℕ → ℕ
next pos = (pos + 1) % intq_bufsize

unfoldable pub intq_init : (ℕ → ℕ) → Intq
intq_init buf = record { not_full = null; not_empty = null; buf = buf; head = 0; tail = 0 }

unfoldable pub intq_empty : Intq → Bool
intq_empty q = q.head == q.tail

unfoldable pub intq_full : Intq → Bool
intq_full q = next q.head == q.tail

-- The byte is taken, and the thread that waits for room is woken and forgotten.
unfoldable pub take_byte : Intq → Outcome
take_byte q = done (q.buf q.tail) q.not_full (record {
  not_full = null;
  not_empty = q.not_empty;
  buf = q.buf;
  head = q.head;
  tail = next q.tail;
})

unfoldable pub put_byte : Intq → ℕ → Outcome
put_byte q byte = done byte q.not_empty (record {
  not_full = q.not_full;
  not_empty = null;
  buf = update q.buf q.head byte;
  head = next q.head;
  tail = q.tail;
})

-- `wait` asserts that no interrupt is being handled.
unfoldable pub intq_getc : Bool → ℕ → Intq → Outcome
intq_getc intr_context current q =
    if intq_empty q
    then (if intr_context
        then panics
        else waits (record {
          not_full = q.not_full;
          not_empty = current;
          buf = q.buf;
          head = q.head;
          tail = q.tail;
        }))
    else take_byte q

unfoldable pub intq_putc : Bool → ℕ → Intq → ℕ → Outcome
intq_putc intr_context current q byte =
    if intq_full q
    then (if intr_context
        then panics
        else waits (record {
          not_full = current;
          not_empty = q.not_empty;
          buf = q.buf;
          head = q.head;
          tail = q.tail;
        }))
    else put_byte q byte
