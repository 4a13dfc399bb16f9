-- ===== src/Cache/Find.antt =====
-- src/filesys/cache.c: what the search for a sector finds.
use mathlib.Core.Path.{subst}
use cs.Common.{
  ℕ, zero, suc, ◌+◌, ◌<◌, ◌≤◌, ◌≡◌, ◌≢◌, refl, ap, sym, ◌∙◌, ◌⊎◌, inl, inr, true, false, not, ◌&&◌,
  none, some, ◌==◌, if◌then◌else◌, arith, Bool-cases,
}
use cs.Cache.{is_unoccupied, CachedBlock, Cache, cache_blocks, find_loop, find_cached_sector}
use cs.Cache.View.{Fewer}

find_loop-some :
    (left i : ℕ) (c : Cache) (s k : ℕ)
    → find_loop left i c s ≡ some k
    → (k < i + left) × (is_unoccupied (c.fs_cache k).state ≡ false) × ((c.fs_cache k).sector ≡ s)
unfolding find_loop
find_loop-some zero i c s k e = cc
find_loop-some (suc left) i c s k e =
    let b = ((c.fs_cache i).sector == s) && not (is_unoccupied (c.fs_cache i).state) in
    elim (Bool-cases b) [
      | inl t ↦
          let found : some i ≡ some k =
            subst (λ b. (if b then some i else find_loop left (suc i) c s) ≡ some k) t e in
          let here : i ≡ k = cc in
          subst
            (λ k.
              (k < i + suc left)
              × (is_unoccupied (c.fs_cache k).state ≡ false)
              × ((c.fs_cache k).sector ≡ s))
            here (omega arith, ground arith, ground arith)
      | inr t ↦
          let (l, u, d) =
            find_loop-some left (suc i) c s k
              (subst (λ b. (if b then some i else find_loop left (suc i) c s) ≡ some k) t e) in
          (omega arith, u, d)
    ]

find_loop-none :
    (left i : ℕ) (c : Cache) (s : ℕ)
    → find_loop left i c s ≡ none
    → (j : ℕ) → i ≤ j
    → j < i + left
    → is_unoccupied (c.fs_cache j).state ≡ false
    → (c.fs_cache j).sector ≢ s
unfolding find_loop
find_loop-none zero i c s e j a b u = absurd (omega arith)
find_loop-none (suc left) i c s e j a b u =
    let t = ((c.fs_cache i).sector == s) && not (is_unoccupied (c.fs_cache i).state) in
    elim (Bool-cases t) [
      | inl y ↦
          let found : some i ≡ none =
            subst (λ b. (if b then some i else find_loop left (suc i) c s) ≡ none) y e in
          cc
      | inr n ↦ elim (Bool-cases (i == j)) [
        | inl h ↦
            let here : i ≡ j = ground arith in
            let used : is_unoccupied (c.fs_cache i).state ≡ false =
              ap (λ k. is_unoccupied (c.fs_cache k).state) here ∙ u in
            λ x.
              let own : (c.fs_cache i).sector ≡ s = ap (λ k. (c.fs_cache k).sector) here ∙ x in
              ground arith
        | inr h ↦
            find_loop-none left (suc i) c s
              (subst (λ b. (if b then some i else find_loop left (suc i) c s) ≡ none) n e) j
              (ground arith) (omega arith) u
      ]
    ]

pub find_cached_sector-none :
    (c : Cache) (s : ℕ)
    → find_cached_sector c s ≡ none
    → (j : ℕ) → j < cache_blocks
    → is_unoccupied (c.fs_cache j).state ≡ false
    → (c.fs_cache j).sector ≢ s
unfolding find_cached_sector
find_cached_sector-none c s e j l u = find_loop-none cache_blocks 0 c s e j (omega arith) l u

pub find_cached_sector-some :
    (c : Cache) (s k : ℕ)
    → find_cached_sector c s ≡ some k
    → (k < cache_blocks)
      × (is_unoccupied (c.fs_cache k).state ≡ false)
      × ((c.fs_cache k).sector ≡ s)
unfolding find_cached_sector
find_cached_sector-some c s k e =
    let (l, u, d) = find_loop-some cache_blocks 0 c s k e in (omega arith, u, d)

no_match :
    (b : CachedBlock) (s : ℕ)
    → (is_unoccupied b.state ≡ true) ⊎ (b.sector ≢ s)
    → ((b.sector == s) && not (is_unoccupied b.state)) ≡ false
no_match b s (inl u) = ground arith
no_match b s (inr n) = ground arith

find_loop-tail :
    (left i : ℕ) (c : Cache) (s : ℕ)
    → find_loop (suc left) i c s ≡ none
    → find_loop left (suc i) c s ≡ none
unfolding find_loop
find_loop-tail left i c s e =
    let t = ((c.fs_cache i).sector == s) && not (is_unoccupied (c.fs_cache i).state) in
    elim (Bool-cases t) [
      | inl y ↦
          let found : some i ≡ none =
            subst (λ b. (if b then some i else find_loop left (suc i) c s) ≡ none) y e in
          cc
      | inr n ↦ subst (λ b. (if b then some i else find_loop left (suc i) c s) ≡ none) n e
    ]

-- A sector that is not in the cache is not in it when fewer blocks are in use.
find_loop-absent :
    (left i : ℕ) (c c' : Cache) (s : ℕ)
    → Fewer c c'
    → find_loop left i c s ≡ none
    → find_loop left i c' s ≡ none
unfolding find_loop
find_loop-absent zero i c c' s f e = refl
find_loop-absent (suc left) i c c' s f e =
    let rest = find_loop-absent left (suc i) c c' s f (find_loop-tail left i c s e) in
    elim (Bool-cases (is_unoccupied (c'.fs_cache i).state)) [
      | inl u ↦ let skip = no_match (c'.fs_cache i) s (inl u) in rw skip rest
      | inr u ↦
          let other : (c.fs_cache i).sector ≢ s =
            find_loop-none (suc left) i c s e i (omega arith) (omega arith) (f.was_used i u) in
          let skip = no_match (c'.fs_cache i) s (inr (λ x. other (sym (f.sector_kept i) ∙ x))) in
          rw skip rest
    ]

pub find_cached_sector-absent :
    (c c' : Cache) (s : ℕ)
    → Fewer c c'
    → find_cached_sector c s ≡ none
    → find_cached_sector c' s ≡ none
unfolding find_cached_sector
find_cached_sector-absent c c' s f e = find_loop-absent cache_blocks 0 c c' s f e
