-- ===== src/Intq/Order.antt =====
-- src/devices/intq.c: the ring buffer and the queue that it stands for.
use cs.Common.{
  ℕ, zero, suc, ◌+◌, ◌-◌, ◌%◌, ◌<◌, ◌≡◌, ◌≢◌, refl, ap, ◌∙◌, inl, inr, Bool, true, false, List, [],
  ◌∷◌, ◌++◌, if◌then◌else◌, update, null, Bool-cases, arith,
}
use cs.Intq.{
  intq_bufsize, Intq, Outcome, done, waits, panics, next, intq_empty, intq_full, take_byte,
  put_byte, intq_getc, intq_putc,
}

pub record IsRing (q : Intq) : Type 0 where
  pub head_inside : q.head < intq_bufsize
  pub tail_inside : q.tail < intq_bufsize

-- The `n` bytes from `pos` on, in the order of the ring.
pub bytes : ℕ → (ℕ → ℕ) → ℕ → List ℕ
bytes zero buf pos = []
bytes (suc n) buf pos = buf pos ∷ bytes n buf (next pos)

pub count : Intq → ℕ
count q = (q.head + intq_bufsize - q.tail) % intq_bufsize

-- The queue that the ring stands for, its oldest byte first.
pub contents : Intq → List ℕ
contents q = bytes (count q) q.buf q.tail

bytes-update :
    (n : ℕ) (buf : ℕ → ℕ) (pos head byte : ℕ)
    → pos < 64
    → head < 64
    → ((i : ℕ) → i < n → (pos + i) % 64 ≢ head)
    → bytes n (update buf head byte) pos ≡ bytes n buf pos
unfolding bytes next
bytes-update zero buf pos head byte p q h = refl
bytes-update (suc n) buf pos head byte p q h =
    let ne : pos ≢ head = λ e. h 0 (omega arith) (omega arith) in
    let rest =
      bytes-update n buf ((pos + 1) % 64) head byte (omega arith) q
        (λ i l e. h (suc i) (omega arith) (omega arith)) in
    let same : update buf head byte pos ≡ buf pos = ground arith in
    ap (λ b. b ∷ bytes n (update buf head byte) ((pos + 1) % 64)) same
    ∙ ap (λ bs. buf pos ∷ bs) rest

bytes-snoc :
    (n : ℕ) (buf : ℕ → ℕ) (pos : ℕ)
    → pos < 64
    → bytes (suc n) buf pos ≡ bytes n buf pos ++ (buf ((pos + n) % 64) ∷ [])
unfolding bytes next
bytes-snoc zero buf pos h = ap (λ p. buf p ∷ []) (omega arith)
bytes-snoc (suc n) buf pos h =
    ap (λ bs. buf pos ∷ bs)
      (bytes-snoc n buf ((pos + 1) % 64) (omega arith)
        ∙ ap (λ p. bytes n buf ((pos + 1) % 64) ++ (buf p ∷ [])) (omega arith))

-- What a queue promises of a call of the thread `current` that puts a byte into it. Only a thread
-- waits, and it is recorded; only an interrupt handler panics.
abbrev pub IsPut : Bool → ℕ → Intq → ℕ → Outcome → Type 0
IsPut intr_context current q byte (done b woken q') =
    IsRing q'
    × (contents q' ≡ contents q ++ (byte ∷ []))
    × (woken ≡ q.not_empty)
    × (q'.not_empty ≡ null)
    × (q'.not_full ≡ q.not_full)
IsPut intr_context current q byte (waits q') =
    IsRing q'
    × (contents q' ≡ contents q)
    × (count q ≡ 63)
    × (intr_context ≡ false)
    × (q'.not_full ≡ current)
    × (q'.not_empty ≡ q.not_empty)
IsPut intr_context current q byte panics = (count q ≡ 63) × (intr_context ≡ true)

abbrev pub IsGot : Bool → ℕ → Intq → Outcome → Type 0
IsGot intr_context current q (done b woken q') =
    IsRing q'
    × (contents q ≡ b ∷ contents q')
    × (woken ≡ q.not_full)
    × (q'.not_full ≡ null)
    × (q'.not_empty ≡ q.not_empty)
IsGot intr_context current q (waits q') =
    IsRing q'
    × (contents q' ≡ contents q)
    × (contents q ≡ [])
    × (intr_context ≡ false)
    × (q'.not_empty ≡ current)
    × (q'.not_full ≡ q.not_full)
IsGot intr_context current q panics = (contents q ≡ []) × (intr_context ≡ true)

-- The arithmetic of the two indices.
room_left : (q : Intq) → IsRing q → intq_full q ≡ false → count q < 63
unfolding count intq_full next
room_left q r h = ground (arith, r.head_inside, r.tail_inside)

head_at : (q : Intq) → IsRing q → (q.tail + count q) % 64 ≡ q.head
unfolding count
head_at q r = omega (arith, r.head_inside, r.tail_inside)

count_up :
    (q : Intq) (buf : ℕ → ℕ)
    → IsRing q
    → count q < 63
    → count (record {
      not_full = q.not_full;
      not_empty = null;
      buf = buf;
      head = next q.head;
      tail = q.tail;
    })
      ≡ suc (count q)
unfolding count next
count_up q buf r h = omega (arith, r.head_inside, r.tail_inside)

next_inside : (p : ℕ) → next p < 64
unfolding next
next_inside p = omega arith

apart : (q : Intq) → IsRing q → (i : ℕ) → i < count q → (q.tail + i) % 64 ≢ q.head
unfolding count
apart q r i l e = omega (arith, r.head_inside, r.tail_inside)

put_byte-IsPut :
    (intr_context : Bool) (current : ℕ) (q : Intq) (byte : ℕ)
    → IsRing q
    → intq_full q ≡ false
    → IsPut intr_context current q byte (put_byte q byte)
unfolding put_byte contents intq_full
put_byte-IsPut intr_context current q byte r h =
    let n = count q in
    let room : n < 63 = room_left q r h in
    let at_head : (q.tail + n) % 64 ≡ q.head = head_at q r in
    let buf = update q.buf q.head byte in
    let more : count (record {
      not_full = q.not_full;
      not_empty = null;
      buf = buf;
      head = next q.head;
      tail = q.tail;
    })
        ≡ suc n =
      count_up q buf r room in
    let last : buf ((q.tail + n) % 64) ≡ byte = ground arith in
    (
      record { head_inside = next_inside q.head; tail_inside = r.tail_inside },
      ap (λ m. bytes m buf q.tail) more
          ∙ (bytes-snoc n buf q.tail r.tail_inside
              ∙ (ap (λ b. bytes n buf q.tail ++ (b ∷ [])) last
                  ∙ ap (λ bs. bs ++ (byte ∷ []))
                      (bytes-update n q.buf q.tail q.head byte r.tail_inside r.head_inside
                        (apart q r)))),
      refl,
      refl,
      refl,
    )

all_full : (q : Intq) → IsRing q → intq_full q ≡ true → count q ≡ 63
unfolding count intq_full next
all_full q r h = ground (arith, r.head_inside, r.tail_inside)

full :
    (intr_context : Bool) (q : Intq) (current byte : ℕ)
    → IsRing q
    → intq_full q ≡ true
    → IsPut intr_context current q byte (
        if intr_context
        then panics
        else waits (record {
          not_full = current;
          not_empty = q.not_empty;
          buf = q.buf;
          head = q.head;
          tail = q.tail;
        }))
unfolding contents count
full true q current byte r h = (all_full q r h, refl)
full false q current byte r h = (
  record { head_inside = r.head_inside; tail_inside = r.tail_inside },
  refl,
  all_full q r h,
  refl,
  refl,
  refl,
)

-- `intq_putc` puts the byte behind the bytes of the queue, and wakes and forgets the thread that waits
-- for one, unless the queue holds 63 bytes: then a thread waits, recorded as the one that waits for
-- room, and the bytes stay, but an interrupt handler panics.
pub intq_putc-IsPut :
    (intr_context : Bool) (current : ℕ) (q : Intq) (byte : ℕ)
    → IsRing q
    → IsPut intr_context current q byte (intq_putc intr_context current q byte)
unfolding intq_putc
intq_putc-IsPut intr_context current q byte r = elim (Bool-cases (intq_full q)) [
  | inl e ↦ rw e (full intr_context q current byte r e)
  | inr e ↦ rw e (put_byte-IsPut intr_context current q byte r e)
]

all_empty : (q : Intq) → intq_empty q ≡ true → contents q ≡ []
unfolding intq_empty contents bytes count
all_empty q h =
    let none_left : (q.head + 64 - q.tail) % 64 ≡ 0 = ground arith in
    ap (λ n. bytes n q.buf q.tail) none_left

not_empty_lem : (q : Intq) → intq_empty q ≡ false → q.head ≢ q.tail
unfolding intq_empty
not_empty_lem q h = ground arith

count_down :
    (q : Intq)
    → IsRing q
    → q.head ≢ q.tail
    → count q
      ≡ suc (
          count (record {
            not_full = null;
            not_empty = q.not_empty;
            buf = q.buf;
            head = q.head;
            tail = next q.tail;
          }))
unfolding count next
count_down q r h = omega (arith, r.head_inside, r.tail_inside)

starved :
    (intr_context : Bool) (q : Intq) (current : ℕ)
    → IsRing q
    → intq_empty q ≡ true
    → IsGot intr_context current q (
        if intr_context
        then panics
        else waits (record {
          not_full = q.not_full;
          not_empty = current;
          buf = q.buf;
          head = q.head;
          tail = q.tail;
        }))
unfolding contents count
starved true q current r h = (all_empty q h, refl)
starved false q current r h = (
  record { head_inside = r.head_inside; tail_inside = r.tail_inside },
  refl,
  all_empty q h,
  refl,
  refl,
  refl,
)

take_byte-IsGot :
    (intr_context : Bool) (current : ℕ) (q : Intq)
    → IsRing q
    → intq_empty q ≡ false
    → IsGot intr_context current q (take_byte q)
unfolding take_byte contents bytes
take_byte-IsGot intr_context current q r h =
    let ne : q.head ≢ q.tail = not_empty_lem q h in
    (
      record { head_inside = r.head_inside; tail_inside = next_inside q.tail },
      ap (λ n. bytes n q.buf q.tail) (count_down q r ne),
      refl,
      refl,
      refl,
    )

-- `intq_getc` takes the oldest byte of the queue, and wakes and forgets the thread that waits for
-- room, unless the queue is empty: then a thread waits, recorded as the one that waits for a byte,
-- but an interrupt handler panics.
pub intq_getc-IsGot :
    (intr_context : Bool) (current : ℕ) (q : Intq)
    → IsRing q
    → IsGot intr_context current q (intq_getc intr_context current q)
unfolding intq_getc
intq_getc-IsGot intr_context current q r = elim (Bool-cases (intq_empty q)) [
  | inl e ↦ rw e (starved intr_context q current r e)
  | inr e ↦ rw e (take_byte-IsGot intr_context current q r e)
]
