-- ===== src/Strings/Blocks.antt =====
-- src/lib/string.c: what the block functions leave in memory.
use cs.Common.{
  ℕ, zero, suc, ◌+◌, ◌<◌, ◌≤◌, ◌≡◌, ◌≢◌, ◌⊎◌, inl, inr, refl, ◌∙◌, true, some, ltb, ◌==◌,
  if◌then◌else◌, update, null, arith, Bool-cases,
}
use cs.Strings.{Memory, usable, copy_up, copy_down, memmove}

-- `m'` holds at `dst` the `size` bytes that `m` held at `src`, and is `m` elsewhere.
pub record IsCopy (m m' : Memory) (dst src size : ℕ) : Type 0 where
  pub copied : (i : ℕ) → i < size → m' (dst + i) ≡ m (src + i)
  pub kept : (a : ℕ) → (a < dst) ⊎ (dst + size ≤ a) → m' a ≡ m a

copy_up-kept :
    (size : ℕ) (m : Memory) (dst src a : ℕ)
    → (a < dst) ⊎ (dst + size ≤ a)
    → copy_up size m dst src a ≡ m a
unfolding copy_up
copy_up-kept zero m dst src a h = refl
copy_up-kept (suc size) m dst src a (inl h) =
    copy_up-kept size (update m dst (m src)) (suc dst) (suc src) a (inl (omega arith))
    ∙ ground arith
copy_up-kept (suc size) m dst src a (inr h) =
    copy_up-kept size (update m dst (m src)) (suc dst) (suc src) a (inr (omega arith))
    ∙ ground arith

-- Upwards, a byte is read before it is overwritten if the block moves down or the blocks are apart.
pub copy_up-copied :
    (size : ℕ) (m : Memory) (dst src i : ℕ)
    → (dst ≤ src) ⊎ (src + size ≤ dst)
    → i < size
    → copy_up size m dst src (dst + i) ≡ m (src + i)
unfolding copy_up
copy_up-copied zero m dst src i o h = absurd (omega arith)
copy_up-copied (suc size) m dst src zero o h =
    let same : dst + 0 ≡ dst = omega arith in
    let from : src + 0 ≡ src = omega arith in
    rw same (
      rw from (
        copy_up-kept size (update m dst (m src)) (suc dst) (suc src) dst (inl (omega arith))
        ∙ ground arith))
copy_up-copied (suc size) m dst src (suc i) o h =
    let to : dst + suc i ≡ suc dst + i = omega arith in
    let from : src + suc i ≡ suc src + i = omega arith in
    rw to (
      rw from (
        copy_up-copied size (update m dst (m src)) (suc dst) (suc src) i (apart size dst src o)
          (omega arith)
        ∙ other dst src size i m o h))
  where
    apart :
        (size dst src : ℕ)
        → (dst ≤ src) ⊎ (src + suc size ≤ dst)
        → (suc dst ≤ suc src) ⊎ (suc src + size ≤ suc dst)
    apart size dst src (inl p) = inl (omega arith)
    apart size dst src (inr p) = inr (omega arith)

    other :
        (dst src size i : ℕ) (m : Memory)
        → (dst ≤ src) ⊎ (src + suc size ≤ dst)
        → suc i < suc size
        → update m dst (m src) (suc src + i) ≡ m (suc src + i)
    other dst src size i m (inl p) h = ground arith
    other dst src size i m (inr p) h = ground arith

copy_down-kept :
    (size : ℕ) (m : Memory) (dst src a : ℕ)
    → (a < dst) ⊎ (dst + size ≤ a)
    → copy_down size m dst src a ≡ m a
unfolding copy_down
copy_down-kept zero m dst src a h = refl
copy_down-kept (suc size) m dst src a (inl h) =
    copy_down-kept size (update m (dst + size) (m (src + size))) dst src a (inl h) ∙ ground arith
copy_down-kept (suc size) m dst src a (inr h) =
    copy_down-kept size (update m (dst + size) (m (src + size))) dst src a (inr (omega arith))
    ∙ ground arith

copy_down-copied :
    (size : ℕ) (m : Memory) (dst src i : ℕ)
    → src ≤ dst
    → i < size
    → copy_down size m dst src (dst + i) ≡ m (src + i)
unfolding copy_down
copy_down-copied zero m dst src i o h = absurd (omega arith)
copy_down-copied (suc size) m dst src i o h = elim (Bool-cases (i == size)) [
  | inl e ↦
      let last : i ≡ size = ground arith in
      rw last (
        copy_down-kept size (update m (dst + size) (m (src + size))) dst src (dst + size)
          (inr (omega arith))
        ∙ ground arith)
  | inr e ↦
      let before : i < size = ground arith in
      copy_down-copied size (update m (dst + size) (m (src + size))) dst src i o before
      ∙ ground arith
]

pub copy_up-IsCopy :
    (size : ℕ) (m : Memory) (dst src : ℕ)
    → (dst ≤ src) ⊎ (src + size ≤ dst)
    → IsCopy m (copy_up size m dst src) dst src size
copy_up-IsCopy size m dst src o = record {
  copied = λ i h. copy_up-copied size m dst src i o h;
  kept = λ a h. copy_up-kept size m dst src a h;
}

-- `memmove` between two blocks of memory copies the block, however the two overlap, and changes no
-- other byte. The pointer that it returns is the destination if the destination is not below the
-- source; otherwise it is the end of the destination.
pub memmove-IsCopy :
    (m : Memory) (dst src size : ℕ)
    → dst ≢ null
    → src ≢ null
    → (m' : Memory) × (memmove m dst src size
        ≡ some ((if ltb dst src then dst + size else dst), m'))
      × IsCopy m m' dst src size
unfolding memmove
memmove-IsCopy m dst src size p q =
    let (ok, fine) : (usable dst size ≡ true) × (usable src size ≡ true) =
      (ground arith, ground arith) in
    elim (Bool-cases (ltb dst src)) [
      | inl e ↦ (
        copy_up size m dst src,
        rw ok (rw fine (rw e refl)),
        copy_up-IsCopy size m dst src (inl (ground arith)),
      )
      | inr e ↦ (
        copy_down size m dst src,
        rw ok (rw fine (rw e refl)),
        record {
          copied = λ i h. copy_down-copied size m dst src i (ground arith) h;
          kept = λ a h. copy_down-kept size m dst src a h;
        },
      )
    ]
