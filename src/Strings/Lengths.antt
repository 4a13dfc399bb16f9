-- ===== src/Strings/Lengths.antt =====
-- src/lib/string.c: null-terminated strings, and the loops that look for their ends.
use cs.Common.{
  ℕ, zero, suc, ◌+◌, ◌-◌, ◌<◌, ◌≡◌, ◌≢◌, refl, ap, ◌∙◌, true, false, not, some, ◌==◌, null, arith,
}
use mathlib.Core.Path.{subst}
use cs.Strings.{Memory, lesser, strlen_loop, strlen, strnlen_loop, strnlen}

-- A string of `n` bytes at `s`: its first null byte is at `s + n`.
pub record IsString (m : Memory) (s n : ℕ) : Type 0 where
  pub before_end : (i : ℕ) → i < n → m (s + i) ≢ 0
  pub at_end : m (s + n) ≡ 0

pub tail-IsString : (m : Memory) (s n : ℕ) → IsString m s (suc n) → IsString m (suc s) n
tail-IsString m s n h = record {
  before_end = λ i l. subst (λ a. m a ≢ 0) (shift s i) (h.before_end (suc i) (omega arith));
  at_end = subst (λ a. m a ≡ 0) (shift s n) h.at_end;
}
  where
    shift : (s i : ℕ) → s + suc i ≡ suc s + i
    shift s i = omega arith

pub head_ne : (m : Memory) (s n : ℕ) → IsString m s (suc n) → m s ≢ 0
head_ne m s n h =
    let here : s + 0 ≡ s = omega arith in subst (λ a. m a ≢ 0) here (h.before_end 0 (omega arith))

pub end_eq : (m : Memory) (s : ℕ) → IsString m s 0 → m s ≡ 0
end_eq m s h = let here : s + 0 ≡ s = omega arith in subst (λ a. m a ≡ 0) here h.at_end

strlen_loop-end :
    (n fuel : ℕ) (m : Memory) (p : ℕ)
    → IsString m p n
    → n < fuel
    → strlen_loop fuel m p ≡ some (p + n)
unfolding strlen_loop
strlen_loop-end n zero m p h l = absurd (omega arith)
strlen_loop-end zero (suc fuel) m p h l =
    let here : p + 0 ≡ p = omega arith in rw (end_eq m p h) (rw here refl)
strlen_loop-end (suc n) (suc fuel) m p h l =
    let next : strlen_loop fuel m (suc p) ≡ some (suc p + n) =
      strlen_loop-end n fuel m (suc p) (tail-IsString m p n h) (omega arith) in
    let ne : (m p == 0) ≡ false = ground (arith, head_ne m p n h) in
    let sum : suc p + n ≡ p + suc n = omega arith in rw ne (next ∙ ap some sum)

-- With fuel for the bytes of a string and its null byte, `strlen` returns the string's length.
pub strlen_lem :
    (n fuel : ℕ) (m : Memory) (s : ℕ)
    → s ≢ null
    → IsString m s n
    → n < fuel
    → strlen fuel m s ≡ some n
unfolding strlen
strlen_lem n fuel m s p h l =
    let ok : not (s == null) ≡ true = ground arith in
    let gap : s + n - s ≡ n = omega arith in
    rw ok (rw (strlen_loop-end n fuel m s h l) (ap some gap))

strnlen_loop-lesser :
    (left n : ℕ) (m : Memory) (s length : ℕ)
    → IsString m (s + length) n
    → strnlen_loop left m s length ≡ length + lesser n left
unfolding strnlen_loop
strnlen_loop-lesser zero n m s length h = ground arith
strnlen_loop-lesser (suc left) zero m s length h = rw (end_eq m (s + length) h) (ground arith)
strnlen_loop-lesser (suc left) (suc n) m s length h =
    let ne : (m (s + length) == 0) ≡ false = ground (arith, head_ne m (s + length) n h) in
    let move : suc (s + length) ≡ s + suc length = omega arith in
    rw ne (
      strnlen_loop-lesser left n m s (suc length)
        (subst (λ a. IsString m a n) move (tail-IsString m (s + length) n h))
      ∙ ground arith)

-- `strnlen` of a string is the lesser of its length and the bound.
pub strnlen_lem :
    (m : Memory) (s n maxlen : ℕ) → IsString m s n → strnlen m s maxlen ≡ lesser n maxlen
unfolding strnlen
strnlen_lem m s n maxlen h =
    let here : s ≡ s + 0 = omega arith in
    strnlen_loop-lesser maxlen n m s 0 (subst (λ a. IsString m a n) here h) ∙ omega arith
