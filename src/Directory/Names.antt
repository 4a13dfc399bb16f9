-- ===== src/Directory/Names.antt =====
-- src/lib/string.c and src/filesys/directory.c: when a name is that of an entry.

use cs.Common.{
  ℕ, zero, suc, ◌+◌, ◌<◌, ◌≤◌, ◌≡◌, ◌≢◌, inl, inr, ap, sym, ◌∙◌, true, false, not, ◌&&◌, some, ltb,
  ◌==◌, if◌then◌else◌, Bool-cases, arith, null,
}
use cs.Common.Int.{ℤ, pos, negsuc}
use cs.FixedPoint.{is_zero}
use cs.Strings.{Memory, strcmp, strcmp_loop}
use cs.Strings.Lengths.{IsString, tail-IsString, head_ne}

-- The string of length `n` at `a` stands at `b` too.
abbrev pub IsSame : Memory → ℕ → ℕ → ℕ → Type 0
IsSame m a b n = (i : ℕ) → i ≤ n → m (b + i) ≡ m (a + i)

IsSame-head : (m : Memory) (a b n : ℕ) → IsSame m a b n → m b ≡ m a
IsSame-head m a b n h = sym (ap m (omega arith)) ∙ (h 0 (omega arith) ∙ ap m (omega arith))

IsSame-tail : (m : Memory) (a b n : ℕ) → IsSame m a b (suc n) → IsSame m (suc a) (suc b) n
IsSame-tail m a b n h i l =
    let there : b + suc i ≡ suc b + i = omega arith in
    let here : a + suc i ≡ suc a + i = omega arith in
    sym (ap m there) ∙ (h (suc i) (omega arith) ∙ ap m here)

IsSame-cons :
    (m : Memory) (a b n : ℕ) → m b ≡ m a → IsSame m (suc a) (suc b) n → IsSame m a b (suc n)
IsSame-cons m a b n e h zero l = ap m (omega arith) ∙ (e ∙ ap m (omega arith))
IsSame-cons m a b n e h (suc i) l =
    let there : b + suc i ≡ suc b + i = omega arith in
    let here : a + suc i ≡ suc a + i = omega arith in
    ap m there ∙ (h i (omega arith) ∙ sym (ap m here))

-- A comparison that says whether the strings are the same.
abbrev pub Tells : Memory → ℕ → ℕ → ℕ → ℤ → Type 0
Tells m a b n c = (is_zero c ≡ true → IsSame m a b n) × (IsSame m a b n → is_zero c ≡ true)

at_zero : (m : Memory) (a b i : ℕ) → i ≤ 0 → m b ≡ m a → m (b + i) ≡ m (a + i)
at_zero m a b i k e = ap m (omega arith) ∙ (e ∙ ap m (omega arith))

strcmp_loop-Tells :
    (n fuel : ℕ) (m : Memory) (a b : ℕ)
    → IsString m a n
    → n < fuel
    → (c : ℤ) × (strcmp_loop fuel m a b ≡ some c) × Tells m a b n c
unfolding strcmp_loop
strcmp_loop-Tells n zero m a b h l = absurd (omega arith)
strcmp_loop-Tells zero (suc fuel) m a b h l =
    let nul : m a ≡ 0 = sym (ap m (omega arith)) ∙ h.at_end in
    let stop : (not (m a == 0) && (m a == m b)) ≡ false = ground arith in
    (
      (if ltb (m a) (m b) then negsuc 0 else if ltb (m b) (m a) then pos 1 else pos 0),
      rw stop,
      (λ e i k. at_zero m a b i k (ground arith), λ s. ground (arith, IsSame-head m a b 0 s)),
    )
strcmp_loop-Tells (suc n) (suc fuel) m a b h l =
    let more = head_ne m a n h in
    elim (Bool-cases (m a == m b)) [
      | inl e ↦
          let (c, run, t) =
            strcmp_loop-Tells n fuel m (suc a) (suc b) (tail-IsString m a n h) (omega arith) in
          let on : (not (m a == 0) && (m a == m b)) ≡ true = ground arith in
          (
            c,
            rw on run,
            (λ z. IsSame-cons m a b n (ground arith) (t.0 z), λ s. t.1 (IsSame-tail m a b n s)),
          )
      | inr e ↦
          let off : (not (m a == 0) && (m a == m b)) ≡ false = ground arith in
          (
            (if ltb (m a) (m b) then negsuc 0 else if ltb (m b) (m a) then pos 1 else pos 0),
            rw off,
            (λ z. absurd (ground arith), λ s. ground (arith, IsSame-head m a b (suc n) s)),
          )
    ]

-- `strcmp` of a string with other bytes ends within the string, and is 0 exactly if they are the same.
pub strcmp-Tells :
    (n fuel : ℕ) (m : Memory) (a b : ℕ)
    → a ≢ null
    → b ≢ null
    → IsString m a n
    → n < fuel
    → (c : ℤ) × (strcmp fuel m a b ≡ some c) × Tells m a b n c
unfolding strcmp
strcmp-Tells n fuel m a b p q h l =
    let (ok, fine) : (not (a == null) ≡ true) × (not (b == null) ≡ true) =
      (ground arith, ground arith) in
    let (c, run, t) = strcmp_loop-Tells n fuel m a b h l in (c, rw (ok, fine) run, t)
