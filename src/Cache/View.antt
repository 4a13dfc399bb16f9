-- ===== src/Cache/View.antt =====
-- src/filesys/cache.c: the sectors that a cache and its device present.
use mathlib.Core.Path.{subst}
use cs.Common.{
  ℕ, ◌<◌, ◌≡◌, ◌≢◌, refl, ap, sym, ◌∙◌, inl, inr, true, false, ◌&&◌, some, ◌==◌, update, arith,
  Bool-cases, lt→ltb,
}
use cs.Cache.{
  CachedBlockState, unoccupied, in_io, clean, dirty, is_unoccupied, is_in_io, is_dirty, Cache,
  put_block, cache_blocks, write_back, empty_block, check_sector,
}

-- Blocks that are in use hold the bytes of their sectors, one block for each; a sector that no dirty
-- block holds is on the device as it is presented. The sectors in use are on the device.
pub record Presents (c : Cache) (v : ℕ → ℕ → ℕ) : Type 0 where
  pub arm_inside : c.fs_cache_arm < cache_blocks
  pub cached :
      (i o : ℕ)
      → i < cache_blocks
      → is_unoccupied (c.fs_cache i).state ≡ false
      → (c.fs_cache i).bytes o ≡ v (c.fs_cache i).sector o
  pub on_disk :
      (s o : ℕ)
      → ((i : ℕ)
          → i < cache_blocks
          → is_dirty (c.fs_cache i).state ≡ true
          → (c.fs_cache i).sector ≢ s)
      → c.disk s o ≡ v s o
  pub one_each :
      (i j : ℕ)
      → i < cache_blocks
      → j < cache_blocks
      → is_unoccupied (c.fs_cache i).state ≡ false
      → is_unoccupied (c.fs_cache j).state ≡ false
      → (c.fs_cache i).sector ≡ (c.fs_cache j).sector
      → i ≡ j
  pub idle : (i : ℕ) → i < cache_blocks → is_in_io (c.fs_cache i).state ≡ false
  pub on_device :
      (i : ℕ)
      → i < cache_blocks
      → is_unoccupied (c.fs_cache i).state ≡ false
      → (c.fs_cache i).sector < c.disk_size

-- What a change to the clock leaves alone.
pub record SameBlocks (c c' : Cache) : Type 0 where
  pub sector_same : (i : ℕ) → (c'.fs_cache i).sector ≡ (c.fs_cache i).sector
  pub state_same : (i : ℕ) → (c'.fs_cache i).state ≡ (c.fs_cache i).state
  pub bytes_same : (i : ℕ) → (c'.fs_cache i).bytes ≡ (c.fs_cache i).bytes
  pub disk_same : c'.disk ≡ c.disk
  pub size_same : c'.disk_size ≡ c.disk_size

pub Presents-same :
    (c c' : Cache) (v : ℕ → ℕ → ℕ)
    → SameBlocks c c'
    → c'.fs_cache_arm < cache_blocks
    → Presents c v
    → Presents c' v
Presents-same c c' v e arm p = record {
  arm_inside = arm;
  cached = λ i o l u.
      ap (λ f. f o) (e.bytes_same i)
      ∙ (p.cached i o l (ap is_unoccupied (sym (e.state_same i)) ∙ u)
          ∙ ap (λ s. v s o) (sym (e.sector_same i)));
  on_disk = λ s o h.
      ap (λ d. d s o) e.disk_same
      ∙ p.on_disk s o (λ i l d x. h i l (ap is_dirty (e.state_same i) ∙ d) (e.sector_same i ∙ x));
  one_each = λ i j l m x y z.
      p.one_each i j l m (ap is_unoccupied (sym (e.state_same i)) ∙ x)
        (ap is_unoccupied (sym (e.state_same j)) ∙ y)
        (sym (e.sector_same i) ∙ (z ∙ e.sector_same j));
  idle = λ i l. ap is_in_io (e.state_same i) ∙ p.idle i l;
  on_device = λ i l u. omega (
    arith,
    p.on_device i l (ap is_unoccupied (sym (e.state_same i)) ∙ u),
    e.sector_same i,
    e.size_same,
  );
}

clean_or_dirty : (s : CachedBlockState) → is_dirty s ≡ true → is_unoccupied s ≡ false
clean_or_dirty unoccupied h = cc
clean_or_dirty in_io h = refl
clean_or_dirty clean h = refl
clean_or_dirty dirty h = refl

-- The cache after the block `i` has been written back and emptied, with the device `disk`.
emptied-Presents :
    (c c' : Cache) (v : ℕ → ℕ → ℕ) (i : ℕ)
    → i < cache_blocks
    → Presents c v
    → ((j : ℕ) → j ≢ i → c'.fs_cache j ≡ c.fs_cache j)
    → (c'.fs_cache i).state ≡ unoccupied
    → c'.fs_cache_arm ≡ c.fs_cache_arm
    → c'.disk_size ≡ c.disk_size
    → ((s o : ℕ)
        → (is_dirty (c.fs_cache i).state ≡ true → (c.fs_cache i).sector ≢ s)
        → c'.disk s o ≡ c.disk s o)
    → ((o : ℕ)
        → is_dirty (c.fs_cache i).state ≡ true
        → c'.disk (c.fs_cache i).sector o ≡ (c.fs_cache i).bytes o)
    → Presents c' v
emptied-Presents c c' v i inside p others empty arm size far near =
    let ne : (j : ℕ) → is_unoccupied (c'.fs_cache j).state ≡ false → j ≢ i = λ j u e.
      cc (sym u ∙ (ap (λ n. is_unoccupied (c'.fs_cache n).state) e ∙ ap is_unoccupied empty)) in
    let old : (j : ℕ)
        → j ≢ i
        → is_unoccupied (c'.fs_cache j).state ≡ false
        → is_unoccupied (c.fs_cache j).state ≡ false =
      λ j n u. ap (λ b. is_unoccupied b.state) (sym (others j n)) ∙ u in
    record {
      arm_inside = subst (λ a. a < cache_blocks) (sym arm) p.arm_inside;
      cached = λ j o l u.
          let n = ne j u in
          ap (λ b. b.bytes o) (others j n)
          ∙ (p.cached j o l (old j n u) ∙ ap (λ b. v b.sector o) (sym (others j n)));
      on_disk = λ s o h.
          let rest : (j : ℕ)
              → j ≢ i
              → j < cache_blocks
              → is_dirty (c.fs_cache j).state ≡ true
              → (c.fs_cache j).sector ≢ s =
            λ j n l d x.
              h j l (ap (λ b. is_dirty b.state) (others j n) ∙ d)
                (ap (λ b. b.sector) (others j n) ∙ x) in
          elim (Bool-cases (is_dirty (c.fs_cache i).state && ((c.fs_cache i).sector == s))) [
            | inl t ↦
                let (d, e) : (is_dirty (c.fs_cache i).state ≡ true) × ((c.fs_cache i).sector ≡ s) =
                  (ground arith, ground arith) in
                subst (λ k. c'.disk k o ≡ v k o) e
                  (near o d ∙ p.cached i o inside (clean_or_dirty (c.fs_cache i).state d))
            | inr t ↦
                let apart : is_dirty (c.fs_cache i).state ≡ true → (c.fs_cache i).sector ≢ s =
                  λ d e. ground arith in
                far s o apart
                ∙ p.on_disk s o (λ j l d. elim (Bool-cases (j == i)) [
                  | inl q ↦
                      let same : j ≡ i = ground arith in
                      λ x.
                        apart (ap (λ n. is_dirty (c.fs_cache n).state) (sym same) ∙ d)
                          (ap (λ n. (c.fs_cache n).sector) (sym same) ∙ x)
                  | inr q ↦ rest j (λ z. ground arith) l d
                ])
          ];
      one_each = λ j k l m x y z.
          let (n, r) : (j ≢ i) × (k ≢ i) = (ne j x, ne k y) in
          p.one_each j k l m (old j n x) (old k r y)
            (ap (λ b. b.sector) (sym (others j n)) ∙ (z ∙ ap (λ b. b.sector) (others k r)));
      idle = λ j l. elim (Bool-cases (j == i)) [
        | inl q ↦
            let same : j ≡ i = ground arith in
            ap (λ n. is_in_io (c'.fs_cache n).state) same ∙ ap is_in_io empty
        | inr q ↦ ap (λ b. is_in_io b.state) (others j (λ z. ground arith)) ∙ p.idle j l
      ];
      on_device = λ j l u.
          let n = ne j u in
          omega (arith, p.on_device j l (old j n u), ap (λ b. b.sector) (others j n), size);
    }

-- Blocks in use after a change were in use before, with the same sector and lock.
pub record Fewer (c c' : Cache) : Type 0 where
  pub was_used :
      (i : ℕ)
      → is_unoccupied (c'.fs_cache i).state ≡ false
      → is_unoccupied (c.fs_cache i).state ≡ false
  pub sector_kept : (i : ℕ) → (c'.fs_cache i).sector ≡ (c.fs_cache i).sector
  pub held_kept : (i : ℕ) → (c'.fs_cache i).held ≡ (c.fs_cache i).held
  pub size_kept : c'.disk_size ≡ c.disk_size

-- To write a block back and to empty it keeps what the cache presents.
pub evict-Presents :
    (c : Cache) (v : ℕ → ℕ → ℕ) (i : ℕ)
    → i < cache_blocks
    → Presents c v
    → (c' : Cache) × (write_back c i ≡ some c')
      × Presents (empty_block i c') v
      × Fewer c (empty_block i c')
      × (is_unoccupied ((empty_block i c').fs_cache i).state ≡ true)
unfolding write_back empty_block check_sector
evict-Presents c v i l p =
    let idle = p.idle i l in
    elim (Bool-cases (is_dirty (c.fs_cache i).state)) [
      | inl d ↦
          let here = p.on_device i l (clean_or_dirty (c.fs_cache i).state d) in
          let c' = record (put_block c i (record (c.fs_cache i) { state = clean })) {
            disk = update c.disk (c.fs_cache i).sector (c.fs_cache i).bytes;
          } in
          (
            c',
            rw (idle, d, lt→ltb (c.fs_cache i).sector c.disk_size here) refl,
            emptied-Presents c (empty_block i c') v i l p (λ j n. ground arith) (ground arith) refl
                refl (λ s o n. ground (arith, n d)) (λ o e. ground arith),
            record {
              was_used = λ j u. ground arith;
              sector_kept = λ j. ground arith;
              held_kept = λ j. ground arith;
              size_kept = refl;
            },
            ground arith,
          )
      | inr d ↦ (
        c,
        rw idle (rw d refl),
        emptied-Presents c (empty_block i c) v i l p (λ j n. ground arith) (ground arith) refl refl
            (λ s o n. refl) (λ o e. cc),
        record {
          was_used = λ j u. ground arith;
          sector_kept = λ j. ground arith;
          held_kept = λ j. ground arith;
          size_kept = refl;
        },
        ground arith,
      )
    ]
