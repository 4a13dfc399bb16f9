-- ===== src/Cache/Clock.antt =====
-- src/filesys/cache.c: the clock of `get_free_block`.
use cs.Common.{
  ℕ, zero, suc, ◌+◌, ◌-◌, ◌*◌, ◌%◌, ◌<◌, ◌≡◌, refl, ap, sym, ◌∙◌, inl, inr, Bool, true, false,
  Option, none, some, arith, Bool-cases,
}
use cs.Cache.{
  is_unoccupied, CachedBlock, Cache, put_block, cache_blocks, empty_block, try_block, or_again,
  get_free_block,
}
use cs.Cache.View.{Presents, Presents-same, Fewer, SameBlocks, evict-Presents}

-- A turn that takes no block moves on, and leaves the block marked as not accessed unless it is held.
abbrev Turn : Cache → Option ℕ → Cache → Type 0
Turn c none c' =
    (c'.fs_cache_arm ≡ (c.fs_cache_arm + 1) % cache_blocks)
    × ((j : ℕ) → (c.fs_cache j).accessed ≡ false → (c'.fs_cache j).accessed ≡ false)
    × ((c.fs_cache c.fs_cache_arm).held ≡ false → (c'.fs_cache c.fs_cache_arm).accessed ≡ false)
    × ((c.fs_cache c.fs_cache_arm).held ≡ false → (c.fs_cache c.fs_cache_arm).accessed ≡ true)
Turn c (some i) c' =
    (i < cache_blocks)
    × ((c'.fs_cache i).held ≡ false)
    × (is_unoccupied (c'.fs_cache i).state ≡ true)

moved : (c : Cache) (b : CachedBlock) (accessed : Bool) → Cache
moved c b accessed =
    put_block (record c { fs_cache_arm = (c.fs_cache_arm + 1) % cache_blocks }) c.fs_cache_arm
      (record b { accessed = accessed })

Fewer-refl :
    (c c' : Cache)
    → SameBlocks c c'
    → ((i : ℕ) → (c'.fs_cache i).held ≡ (c.fs_cache i).held)
    → Fewer c c'
Fewer-refl c c' e h = record {
  was_used = λ i u. ap is_unoccupied (sym (e.state_same i)) ∙ u;
  sector_kept = e.sector_same;
  held_kept = h;
  size_kept = e.size_same;
}

next_arm : Cache → Cache
next_arm c = record c { fs_cache_arm = (c.fs_cache_arm + 1) % cache_blocks }

next_arm-Presents : (c : Cache) (v : ℕ → ℕ → ℕ) → Presents c v → Presents (next_arm c) v
unfolding next_arm
next_arm-Presents c v p =
    Presents-same c (next_arm c) v
      (record {
        sector_same = λ i. refl;
        state_same = λ i. refl;
        bytes_same = λ i. refl;
        disk_same = refl;
        size_same = refl;
      })
      (omega arith) p

next_arm-Fewer : (c : Cache) → Fewer c (next_arm c)
unfolding next_arm
next_arm-Fewer c = record {
  was_used = λ i u. u;
  sector_kept = λ i. refl;
  held_kept = λ i. refl;
  size_kept = refl;
}

Fewer-trans : (a b c : Cache) → Fewer a b → Fewer b c → Fewer a c
Fewer-trans a b c f g = record {
  was_used = λ i u. f.was_used i (g.was_used i u);
  sector_kept = λ i. g.sector_kept i ∙ f.sector_kept i;
  held_kept = λ i. g.held_kept i ∙ f.held_kept i;
  size_kept = g.size_kept ∙ f.size_kept;
}

clear_accessed : Cache → Cache
clear_accessed c =
    put_block c c.fs_cache_arm (record (c.fs_cache c.fs_cache_arm) { accessed = false })

clear_accessed-SameBlocks : (c : Cache) → SameBlocks c (clear_accessed c)
unfolding clear_accessed
clear_accessed-SameBlocks c = record {
  sector_same = λ i. ground arith;
  state_same = λ i. ground arith;
  bytes_same = λ i. ground arith;
  disk_same = refl;
  size_same = refl;
}

clear_accessed-held :
    (c : Cache) (i : ℕ) → ((clear_accessed c).fs_cache i).held ≡ (c.fs_cache i).held
unfolding clear_accessed
clear_accessed-held c i = ground arith

Step : Cache → (ℕ → ℕ → ℕ) → Type 0
Step c v =
    (o : Option ℕ) × (c' : Cache) × (try_block c ≡ some (o, c'))
    × Presents c' v
    × Fewer c c'
    × Turn c o c'

try_block-Step : (c : Cache) (v : ℕ → ℕ → ℕ) → Presents c v → Step c v
unfolding try_block Step next_arm clear_accessed
try_block-Step c v p =
    let i = c.fs_cache_arm in
    let idle = p.idle i p.arm_inside in
    let on = next_arm c in
    let onward = next_arm-Presents c v p in
    elim (Bool-cases (c.fs_cache i).held) [
      | inl h ↦ (none, on, rw h refl, onward, next_arm-Fewer c, (refl, λ j a. a, λ n. cc, λ n. cc))
      | inr h ↦ elim (Bool-cases (is_unoccupied (c.fs_cache i).state)) [
        | inl u ↦
            (some i, on, rw h (rw idle (rw u refl)), onward, next_arm-Fewer c, (p.arm_inside, h, u))
        | inr u ↦ elim (Bool-cases (c.fs_cache i).accessed) [
          | inl a ↦
              let cleared = clear_accessed c in
              let on' = next_arm cleared in
              let still = Presents-same c cleared v (clear_accessed-SameBlocks c) p.arm_inside p in
              (
                none,
                on',
                rw h (rw idle (rw u (rw a refl))),
                next_arm-Presents cleared v still,
                Fewer-trans c cleared on'
                    (Fewer-refl c cleared (clear_accessed-SameBlocks c) (clear_accessed-held c))
                    (next_arm-Fewer cleared),
                (refl, λ j e. ground arith, λ n. ground arith, λ n. a),
              )
          | inr a ↦
              let (c', run, q, f, e) = evict-Presents on v i p.arm_inside onward in
              (
                some i,
                empty_block i c',
                rw h (rw idle (rw u (rw a (rw run refl)))),
                q,
                Fewer-trans c on (empty_block i c') (next_arm-Fewer c) f,
                (p.arm_inside, f.held_kept i ∙ h, e),
              )
        ]
      ]
    ]

-- What `get_free_block` answers: a block that nobody holds or uses, with what the cache presents kept.
pub record Freed (c : Cache) (v : ℕ → ℕ → ℕ) (fuel : ℕ) : Type 0 where
  pub block : ℕ
  pub after : Cache
  pub run : get_free_block fuel c ≡ some (block, after)
  pub presents : Presents after v
  pub fewer : Fewer c after
  pub inside : block < cache_blocks
  pub free : (after.fs_cache block).held ≡ false
  pub unused : is_unoccupied (after.fs_cache block).state ≡ true

Freed-later :
    (c c₁ : Cache) (v : ℕ → ℕ → ℕ) (fuel : ℕ)
    → try_block c ≡ some (none, c₁)
    → Fewer c c₁
    → Freed c₁ v fuel
    → Freed c v (suc fuel)
unfolding get_free_block or_again
Freed-later c c₁ v fuel e f r = record {
  block = r.block;
  after = r.after;
  run = rw e r.run;
  presents = r.presents;
  fewer = Fewer-trans c c₁ r.after f r.fewer;
  inside = r.inside;
  free = r.free;
  unused = r.unused;
}

Freed-now :
    (c c₁ : Cache) (v : ℕ → ℕ → ℕ) (fuel i : ℕ)
    → try_block c ≡ some (some i, c₁)
    → Presents c₁ v
    → Fewer c c₁
    → Turn c (some i) c₁
    → Freed c v (suc fuel)
unfolding get_free_block or_again
Freed-now c c₁ v fuel i e p f (a, b, d) = record {
  block = i;
  after = c₁;
  run = rw e refl;
  presents = p;
  fewer = f;
  inside = a;
  free = b;
  unused = d;
}

-- One turn, and what follows if it takes no block.
continue :
    (c c₁ : Cache) (v : ℕ → ℕ → ℕ) (fuel : ℕ) (o : Option ℕ)
    → try_block c ≡ some (o, c₁)
    → Presents c₁ v
    → Fewer c c₁
    → Turn c o c₁
    → (Turn c none c₁ → Freed c₁ v fuel)
    → Freed c v (suc fuel)
continue c c₁ v fuel none e p f t rest = Freed-later c c₁ v fuel e f (rest t)
continue c c₁ v fuel (some i) e p f t rest = Freed-now c c₁ v fuel i e p f t

-- `d` turns before the clock comes to a block that nobody holds and that is not marked.
unmarked-Freed :
    (d fuel : ℕ) (c : Cache) (v : ℕ → ℕ → ℕ) (k : ℕ)
    → Presents c v
    → (c.fs_cache k).held ≡ false
    → (c.fs_cache k).accessed ≡ false
    → (c.fs_cache_arm + d) % cache_blocks ≡ k
    → d < fuel
    → Freed c v fuel
unfolding Step
unmarked-Freed d zero c v k p h a e l = absurd (omega arith)
unmarked-Freed zero (suc fuel) c v k p h a e l =
    let (o, c₁, run, q, f, t) = try_block-Step c v p in
    let here : c.fs_cache_arm ≡ k = omega (arith, p.arm_inside) in
    continue c c₁ v fuel o run q f t (λ (_, _, _, marked).
      let m : (c.fs_cache k).accessed ≡ true =
        ap (λ n. (c.fs_cache n).accessed) (sym here)
        ∙ marked (ap (λ n. (c.fs_cache n).held) here ∙ h) in
      absurd (cc (sym a ∙ m)))
unmarked-Freed (suc d) (suc fuel) c v k p h a e l =
    let (o, c₁, run, q, f, t) = try_block-Step c v p in
    continue c c₁ v fuel o run q f t (λ (arm, unmarked, _, _).
      unmarked-Freed d fuel c₁ v k q (f.held_kept k ∙ h) (unmarked k a) (omega arith) (omega arith))

-- `d` turns before the clock comes to a block that nobody holds: it takes it a round later at most.
unheld-Freed :
    (d fuel : ℕ) (c : Cache) (v : ℕ → ℕ → ℕ) (k : ℕ)
    → Presents c v
    → (c.fs_cache k).held ≡ false
    → (c.fs_cache_arm + d) % cache_blocks ≡ k
    → d + cache_blocks < fuel
    → Freed c v fuel
unfolding Step
unheld-Freed d zero c v k p h e l = absurd (omega arith)
unheld-Freed zero (suc fuel) c v k p h e l =
    let (o, c₁, run, q, f, t) = try_block-Step c v p in
    let here : c.fs_cache_arm ≡ k = omega (arith, p.arm_inside) in
    continue c c₁ v fuel o run q f t (λ (arm, _, cleared, _).
      unmarked-Freed 63 fuel c₁ v k q (f.held_kept k ∙ h)
        (ap (λ n. (c₁.fs_cache n).accessed) (sym here)
          ∙ cleared (ap (λ n. (c.fs_cache n).held) here ∙ h))
        (omega (arith, p.arm_inside)) (omega arith))
unheld-Freed (suc d) (suc fuel) c v k p h e l =
    let (o, c₁, run, q, f, t) = try_block-Step c v p in
    continue c c₁ v fuel o run q f t (λ (arm, _, _, _).
      unheld-Freed d fuel c₁ v k q (f.held_kept k ∙ h) (omega arith) (omega arith))

-- With one block that nobody holds, the clock of `get_free_block` stops within two rounds. The block
-- that it answers is neither held nor used, and the cache and the device present the same sectors.
pub get_free_block-Freed :
    (c : Cache) (v : ℕ → ℕ → ℕ) (k : ℕ)
    → Presents c v
    → k < cache_blocks
    → (c.fs_cache k).held ≡ false
    → Freed c v (2 * cache_blocks + 1)
get_free_block-Freed c v k p l h =
    unheld-Freed ((k + cache_blocks - c.fs_cache_arm) % cache_blocks) (2 * cache_blocks + 1) c v k p
      h (omega (arith, p.arm_inside)) (omega arith)
