-- ===== src/Strings/Copies.antt =====
-- src/lib/string.c: the bounded copies of strings.
use cs.Common.{
  ℕ, ◌+◌, ◌-◌, ◌<◌, ◌≤◌, ◌≡◌, ◌≢◌, ◌⊎◌, inl, inr, refl, sym, ◌∙◌, true, not, some, ◌==◌, update,
  null, arith, lt→ltb,
}
use cs.Strings.{Memory, usable, lesser, copy_up, memcpy, copy_string, strlcpy}
use cs.Strings.Blocks.{IsCopy, copy_up-IsCopy}
use cs.Strings.Lengths.{IsString, strlen_lem}

-- `m'` holds at `dst` the first `k` bytes of the string at `src` as a string, and has changed
-- nothing outside these bytes and the null byte behind them.
pub record IsTruncated (m m' : Memory) (dst src k : ℕ) : Type 0 where
  pub truncated : IsString m' dst k
  pub bytes : (i : ℕ) → i < k → m' (dst + i) ≡ m (src + i)
  pub others : (a : ℕ) → (a < dst) ⊎ (dst + k < a) → m' a ≡ m a

copy_string-IsTruncated :
    (m : Memory) (dst src n room : ℕ)
    → dst ≢ null
    → src ≢ null
    → IsString m src n
    → (dst ≤ src) ⊎ (src + room ≤ dst)
    → (m' : Memory) × (copy_string m dst src n room ≡ some m')
      × IsTruncated m m' dst src (lesser n room)
unfolding copy_string memcpy
copy_string-IsTruncated m dst src n room p q h o =
    let k = lesser n room in
    let (ok, fine) : (usable dst k ≡ true) × (usable src k ≡ true) = (ground arith, ground arith) in
    let (short, fits) : (k ≤ n) × (k ≤ room) = (ground arith, ground arith) in
    let c : IsCopy m (copy_up k m dst src) dst src k =
      copy_up-IsCopy k m dst src (apart dst src room k o fits) in
    (
      update (copy_up k m dst src) (dst + k) 0,
      rw ok (rw fine refl),
      record {
        truncated = record {
          before_end =
              λ i l e. h.before_end i (omega arith) (sym (c.copied i l) ∙ (ground arith ∙ e));
          at_end = ground arith;
        };
        bytes = λ i l. ground (arith, c.copied i l);
        others = λ a s. outer (copy_up k m dst src) m dst k a s c;
      },
    )
  where
    apart :
        (dst src room k : ℕ)
        → (dst ≤ src) ⊎ (src + room ≤ dst)
        → k ≤ room
        → (dst ≤ src) ⊎ (src + k ≤ dst)
    apart dst src room k (inl h) l = inl h
    apart dst src room k (inr h) l = inr (omega arith)

    outer :
        {src : ℕ} (m₁ m : Memory) (dst k a : ℕ)
        → (a < dst) ⊎ (dst + k < a)
        → IsCopy m m₁ dst src k
        → update m₁ (dst + k) 0 a ≡ m a
    outer m₁ m dst k a (inl h) c = ground (arith, c.kept a (inl h))
    outer m₁ m dst k a (inr h) c =
        let far : dst + k ≤ a = omega arith in ground (arith, c.kept a (inr far))

-- `strlcpy` of a string of length `n` into a buffer of `size > 0` bytes that does not lie behind
-- the start of the source and over it returns `n`, with fuel for the string. The buffer then holds
-- the string, cut to `size - 1` bytes and with a null byte at its end, and no byte outside of that
-- has changed.
pub strlcpy-IsTruncated :
    (n fuel : ℕ) (m : Memory) (dst src size : ℕ)
    → dst ≢ null
    → src ≢ null
    → 0 < size
    → IsString m src n
    → (dst ≤ src) ⊎ (src + size ≤ dst)
    → n < fuel
    → (m' : Memory) × (strlcpy fuel m dst src size ≡ some (n, m'))
      × IsTruncated m m' dst src (lesser n (size - 1))
unfolding strlcpy
strlcpy-IsTruncated n fuel m dst src size p q r h o l =
    let (ok, fine) : (not (dst == null) ≡ true) × (not (src == null) ≡ true) =
      (ground arith, ground arith) in
    let (m', run, t) =
      copy_string-IsTruncated m dst src n (size - 1) p q h (apart dst src size o) in
    (
      m',
      rw ok (rw fine (rw (strlen_lem n fuel m src q h l) (rw (lt→ltb 0 size r) (rw run refl)))),
      t,
    )
  where
    apart :
        (dst src size : ℕ)
        → (dst ≤ src) ⊎ (src + size ≤ dst)
        → (dst ≤ src) ⊎ (src + (size - 1) ≤ dst)
    apart dst src size (inl h) = inl h
    apart dst src size (inr h) = inr (omega arith)
