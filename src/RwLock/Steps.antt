-- ===== src/RwLock/Steps.antt =====
-- src/threads/synch.c: what each step keeps of the counts.

use cs.Common.{
  ℕ, ◌+◌, ◌-◌, ◌≤◌, ◌≡◌, refl, ◌∙◌, Option, none, some, arith, ltb, ◌==◌, ◌<◌, ltb→lt, Bool-cases,
  inl, inr,
}
use cs.RwLock.{
  RwLock, Point, down, raise, idle, down_waiting, down_accessing, up_waiting, writing, try_waiting,
  try_accessing, give_up, up_accessing, reader_waiting, reader_lock, count_in, counted_in, first_in,
  let_next_in, reading, leaving_lock, count_out, counted_out, last_out, step, writer_acquire_step,
  writer_try_acquire_step, writer_release_step, reader_acquire_step, reader_release_step,
}
use cs.RwLock.Points.{
  holds_waiting, holds_lock, is_writer, is_counted, is_first, is_last, leaving, group, Keeps,
}

-- Of each result of a step.
abbrev pub AllResults : (Point → RwLock → Type 0) → Option (Point × RwLock) → Type 0
AllResults P none = Unit {0}
AllResults P (some (q, l)) = P q l

pub record IsSmall (l : RwLock) : Type 0 where
  pub waiting_small : l.no_waiting ≤ 1
  pub lock_small : l.readers_lock ≤ 1
  pub accessing_small : l.no_accessing ≤ 1

-- A step that counts no reader in or out.
pub uncounted :
    (l : RwLock) (p q : Point) (l' : RwLock)
    → l'.no_waiting + holds_waiting q ≡ l.no_waiting + holds_waiting p
    → l'.readers_lock + holds_lock q ≡ l.readers_lock + holds_lock p
    → is_counted p ≡ is_counted q
    → is_first p ≡ is_first q
    → l'.readers ≡ l.readers
    → l'.no_accessing + is_writer q + is_last q ≡ l.no_accessing + is_writer p + is_last p
    → Keeps l p q l'
uncounted l p q l' w k c f r a = record {
  waiting = w;
  lock = k;
  counted = omega (arith, c, r);
  alone = λ b b' h g x y e o. r ∙ g (omega (arith, f, e, o));
  accessing = λ b b' h g x y e.
      let same : b' ≡ b = omega (arith, f, e) in
      let groups : group l'.readers b' ≡ group l.readers b = rw (r, same) in
      omega (arith, a, groups);
}

-- The steps that take one from a semaphore.
down-Keeps :
    (value : ℕ) (p q : Point) (l l' : RwLock)
    → (0 < value → Keeps l p q l')
    → AllResults (Keeps l p) (down value q l')
down-Keeps value p q l l' k = elim (Bool-cases (ltb 0 value)) [
  | inl e ↦ rw e (k (ltb→lt 0 value e))
  | inr e ↦ rw e tt
]

pub step-Keeps :
    (p : Point) (l : RwLock) → IsSmall l → leaving p ≤ l.readers → AllResults (Keeps l p) (step p l)
unfolding step writer_acquire_step writer_try_acquire_step writer_release_step reader_acquire_step
    reader_release_step
step-Keeps idle l s out = tt
step-Keeps down_waiting l s out =
    down-Keeps l.no_waiting down_waiting down_accessing l
      (record l { no_waiting = l.no_waiting - 1 })
      (λ h.
        uncounted l (down_waiting) (down_accessing) (record l { no_waiting = l.no_waiting - 1 })
          (ground arith) (ground arith) refl refl refl (ground arith))
step-Keeps down_accessing l s out =
    down-Keeps l.no_accessing down_accessing up_waiting l
      (record l { no_accessing = l.no_accessing - 1 })
      (λ h.
        uncounted l (down_accessing) (up_waiting) (record l { no_accessing = l.no_accessing - 1 })
          (ground arith) (ground arith) refl refl refl (ground arith))
step-Keeps up_waiting l s out =
    uncounted l (up_waiting) (writing) (record l { no_waiting = raise l.no_waiting }) (ground arith)
      (ground arith) refl refl refl (ground arith)
step-Keeps writing l s out =
    uncounted l (writing) (up_accessing) l (ground arith) (ground arith) refl refl refl
      (ground arith)
step-Keeps try_waiting l s out = elim (Bool-cases (ltb 0 l.no_waiting)) [
  | inl e ↦ rw e (
      uncounted l (try_waiting) (try_accessing) (record l { no_waiting = l.no_waiting - 1 })
        (ground arith) (ground arith) refl refl refl (ground arith))
  | inr e ↦ rw e (
      uncounted l (try_waiting) (idle) l (ground arith) (ground arith) refl refl refl
        (ground arith))
]
step-Keeps try_accessing l s out = elim (Bool-cases (ltb 0 l.no_accessing)) [
  | inl e ↦ rw e (
      uncounted l (try_accessing) (up_waiting) (record l { no_accessing = l.no_accessing - 1 })
        (ground arith) (ground arith) refl refl refl (ground arith))
  | inr e ↦ rw e (
      uncounted l (try_accessing) (give_up) l (ground arith) (ground arith) refl refl refl
        (ground arith))
]
step-Keeps give_up l s out =
    uncounted l (give_up) (idle) (record l { no_waiting = raise l.no_waiting }) (ground arith)
      (ground arith) refl refl refl (ground arith)
step-Keeps up_accessing l s out =
    uncounted l (up_accessing) (idle) (record l { no_accessing = raise l.no_accessing })
      (ground arith) (ground arith) refl refl refl (ground arith)
step-Keeps reader_waiting l s out =
    down-Keeps l.no_waiting reader_waiting reader_lock l
      (record l { no_waiting = l.no_waiting - 1 })
      (λ h.
        uncounted l (reader_waiting) (reader_lock) (record l { no_waiting = l.no_waiting - 1 })
          (ground arith) (ground arith) refl refl refl (ground arith))
step-Keeps reader_lock l s out =
    down-Keeps l.readers_lock reader_lock count_in l
      (record l { readers_lock = l.readers_lock - 1 })
      (λ h.
        uncounted l (reader_lock) (count_in) (record l { readers_lock = l.readers_lock - 1 })
          (ground arith) (ground arith) refl refl refl (ground arith))
step-Keeps count_in l s out = record {
  waiting = ground arith;
  lock = ground arith;
  counted = ground arith;
  alone = λ b b' h f x y c o. ground arith;
  accessing = λ b b' h f x y c. ground arith;
}
step-Keeps (counted_in n) l s out =
    uncounted l (counted_in n) (first_in n) (record l { readers_lock = raise l.readers_lock })
      (ground arith) (ground arith) refl refl refl (ground arith)
step-Keeps (first_in n) l s out = elim (Bool-cases (n == 0)) [
  | inl e ↦ rw e (
      down-Keeps l.no_accessing (first_in n) let_next_in l
        (record l { no_accessing = l.no_accessing - 1 })
        (λ g. record {
          waiting = ground arith;
          lock = ground arith;
          counted = ground arith;
          alone = λ b b' h f x y c o. ground arith;
          accessing = λ b b' h f x y c. ground arith;
        }))
  | inr e ↦ rw e (record {
    waiting = ground arith;
    lock = ground arith;
    counted = ground arith;
    alone = λ b b' h f x y c o. ground arith;
    accessing = λ b b' h f x y c. ground arith;
  })
]
step-Keeps let_next_in l s out =
    uncounted l (let_next_in) (reading) (record l { no_waiting = raise l.no_waiting })
      (ground arith) (ground arith) refl refl refl (ground arith)
step-Keeps reading l s out =
    uncounted l (reading) (leaving_lock) l (ground arith) (ground arith) refl refl refl
      (ground arith)
step-Keeps leaving_lock l s out =
    down-Keeps l.readers_lock leaving_lock count_out l
      (record l { readers_lock = l.readers_lock - 1 })
      (λ h.
        uncounted l (leaving_lock) (count_out) (record l { readers_lock = l.readers_lock - 1 })
          (ground arith) (ground arith) refl refl refl (ground arith))
step-Keeps count_out l s out = record {
  waiting = ground arith;
  lock = ground arith;
  counted = ground arith;
  alone = λ b b' h f x y c o. ground arith;
  accessing = λ b b' h f x y c. ground arith;
}
step-Keeps (counted_out n) l s out =
    uncounted l (counted_out n) (last_out n) (record l { readers_lock = raise l.readers_lock })
      (ground arith) (ground arith) refl refl refl (ground arith)
step-Keeps (last_out n) l s out = elim (Bool-cases (n == 0)) [
  | inl e ↦ rw e (record {
    waiting = ground arith;
    lock = ground arith;
    counted = ground arith;
    alone = λ b b' h f x y c o. ground arith;
    accessing = λ b b' h f x y c. ground arith;
  })
  | inr e ↦ rw e (record {
    waiting = ground arith;
    lock = ground arith;
    counted = ground arith;
    alone = λ b b' h f x y c o. ground arith;
    accessing = λ b b' h f x y c. ground arith;
  })
]
