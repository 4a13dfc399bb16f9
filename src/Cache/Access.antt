-- ===== src/Cache/Access.antt =====
-- src/filesys/cache.c: accesses to one block, and the sectors that the cache presents.

use cs.Common.{
  ℕ, ◌+◌, ◌-◌, ◌<◌, ◌≡◌, ◌≢◌, refl, ap, sym, ◌∙◌, inl, inr, Bool, true, false, ◌&&◌, none, ltb, leb,
  ◌==◌, if◌then◌else◌, arith, Bool-cases, lt→ltb,
}
use cs.Cache.{
  CachedBlockState, is_unoccupied, is_dirty, Cache, cache_blocks, find_cached_sector, copy_in,
  copy_out, access_block, loaded,
}
use cs.Cache.Find.{find_cached_sector-none}
use cs.Cache.View.{Presents, Presents-same}

-- The sectors after the bytes from `from` up to `to` of one have been written from a buffer.
pub written : (ℕ → ℕ → ℕ) → ℕ → ℕ → ℕ → (ℕ → ℕ) → ℕ → ℕ → ℕ
written v sector from to buffer s o =
    if (s == sector) && (leb from o && ltb o to) then buffer (o - from) else v s o

pub presented : Bool → (ℕ → ℕ → ℕ) → ℕ → ℕ → ℕ → (ℕ → ℕ) → ℕ → ℕ → ℕ
presented true v sector from to buffer = written v sector from to buffer
presented false v sector from to buffer = v

dirty_used : (s : CachedBlockState) → is_dirty s ≡ true → is_unoccupied s ≡ false
dirty_used s h = ground arith

other_byte :
    (v : ℕ → ℕ → ℕ) (sector from to : ℕ) (buffer : ℕ → ℕ) (s o : ℕ)
    → s ≢ sector
    → written v sector from to buffer s o ≡ v s o
unfolding written
other_byte v sector from to buffer s o h = ground arith

own_byte :
    (c : Cache) (v : ℕ → ℕ → ℕ) (from to : ℕ) (buffer : ℕ → ℕ) (i sector o : ℕ)
    → (c.fs_cache i).sector ≡ sector
    → (c.fs_cache i).bytes o ≡ v (c.fs_cache i).sector o
    → copy_in (c.fs_cache i).bytes from to buffer o
      ≡ written v sector from to buffer (c.fs_cache i).sector o
unfolding written copy_in
own_byte c v from to buffer i sector o e h = ground (arith, e, h)

-- A free block may be given a sector that no block holds.
pub loaded-Presents :
    (c : Cache) (v : ℕ → ℕ → ℕ) (sector i : ℕ)
    → Presents c v
    → i < cache_blocks
    → is_unoccupied (c.fs_cache i).state ≡ true
    → find_cached_sector c sector ≡ none
    → sector < c.disk_size
    → Presents (loaded sector i c) v
unfolding loaded find_cached_sector
loaded-Presents c v sector i p l u e fits =
    let absent : (j : ℕ)
        → j < cache_blocks
        → is_unoccupied (c.fs_cache j).state ≡ false
        → (c.fs_cache j).sector ≢ sector =
      λ j m w. find_cached_sector-none c sector e j m w in
    let c' = loaded sector i c in
    record {
      arm_inside = p.arm_inside;
      cached = λ j o m w. elim (Bool-cases (j == i)) [
        | inl q ↦
            rw q (p.on_disk sector o (λ k n d. absent k n (dirty_used (c.fs_cache k).state d)))
        | inr q ↦ rw q (p.cached j o m (rw q at w))
      ];
      on_disk = λ s o h. p.on_disk s o (λ k n d x. elim (Bool-cases (k == i)) [
        | inl q ↦
            let same : k ≡ i = ground arith in
            cc (
              sym (dirty_used (c.fs_cache k).state d)
              ∙ (ap (λ n. is_unoccupied (c.fs_cache n).state) same ∙ u))
        | inr q ↦ h k n (rw q d) (rw q x)
      ]);
      one_each = λ j k m n x y z. elim (Bool-cases (j == i)) [
        | inl q ↦ elim (Bool-cases (k == i)) [
          | inl r ↦ ground arith
          | inr r ↦
              let own : sector ≡ (c.fs_cache k).sector = rw (q, r) at z in
              absurd (absent k n (rw r at y) (sym own))
        ]
        | inr q ↦ elim (Bool-cases (k == i)) [
          | inl r ↦
              let own : (c.fs_cache j).sector ≡ sector = rw (q, r) at z in
              absurd (absent j m (rw q at x) own)
          | inr r ↦ p.one_each j k m n (rw q at x) (rw r at y) (rw (q, r) at z)
        ]
      ];
      idle = λ j m. elim (Bool-cases (j == i)) [ inl q ↦ rw q refl | inr q ↦ rw q (p.idle j m) ];
      on_device = λ j m w. elim (Bool-cases (j == i)) [
        | inl q ↦ rw q fits
        | inr q ↦ rw q (p.on_device j m (rw q at w))
      ];
    }

pub loaded-same :
    (c : Cache) (sector i : ℕ)
    → ((loaded sector i c).fs_cache i).sector ≡ sector
      × (is_unoccupied ((loaded sector i c).fs_cache i).state ≡ false)
unfolding loaded
loaded-same c sector i = (ground arith, ground arith)

-- What an access to a block of the sector answers and leaves.
abbrev pub Accessed : (ℕ → ℕ → ℕ) → ℕ → Bool → ℕ → ℕ → (ℕ → ℕ) → (ℕ → ℕ) × Cache → Type 0
Accessed v sector write from to buffer (b, c') =
    Presents c' (presented write v sector from to buffer)
    × (write ≡ false → (j : ℕ) → j < to - from → b j ≡ v sector (from + j))

read-Accessed :
    (c : Cache) (v : ℕ → ℕ → ℕ) (from to : ℕ) (buffer : ℕ → ℕ) (i sector : ℕ)
    → Presents c v
    → i < cache_blocks
    → is_unoccupied (c.fs_cache i).state ≡ false
    → (c.fs_cache i).sector ≡ sector
    → Accessed v sector false from to buffer (access_block false from to buffer i c)
unfolding access_block presented copy_out
read-Accessed c v from to buffer i sector p l u e = (
  Presents-same c (access_block false from to buffer i c).1 v
      (record {
        sector_same = λ j. ground arith;
        state_same = λ j. ground arith;
        bytes_same = λ j. ground arith;
        disk_same = refl;
        size_same = refl;
      })
      p.arm_inside p,
  λ w j h. rw (lt→ltb j (to - from) h) (p.cached i (from + j) l u ∙ ap (λ s. v s (from + j)) e),
)

write-Accessed :
    (c : Cache) (v : ℕ → ℕ → ℕ) (from to : ℕ) (buffer : ℕ → ℕ) (i sector : ℕ)
    → Presents c v
    → i < cache_blocks
    → is_unoccupied (c.fs_cache i).state ≡ false
    → (c.fs_cache i).sector ≡ sector
    → Accessed v sector true from to buffer (access_block true from to buffer i c)
unfolding access_block presented written copy_in
write-Accessed c v from to buffer i sector p l u e =
    let c' = (access_block true from to buffer i c).1 in
    let new = presented true v sector from to buffer in
    let was : (j : ℕ)
        → is_unoccupied (c'.fs_cache j).state ≡ false
        → is_unoccupied (c.fs_cache j).state ≡ false =
      λ j w. elim (Bool-cases (j == i)) [
        | inl q ↦ let same : j ≡ i = ground arith in rw same u
        | inr q ↦ rw q at w
      ] in
    let kept : (j : ℕ) → (c'.fs_cache j).sector ≡ (c.fs_cache j).sector = λ j. ground arith in
    (
      record {
        arm_inside = p.arm_inside;
        cached = λ j o m w. elim (Bool-cases (j == i)) [
          | inl q ↦ rw q (own_byte c v from to buffer i sector o e (p.cached i o l u))
          | inr q ↦
              let apart : (c.fs_cache j).sector ≢ sector = λ x.
                let same : j ≡ i = p.one_each j i m l (rw q at w) u (x ∙ sym e) in ground arith in
              rw q (
                p.cached j o m (rw q at w)
                ∙ sym (other_byte v sector from to buffer (c.fs_cache j).sector o apart))
        ];
        on_disk = λ s o h.
            let apart : s ≢ sector = λ x. h i l (ground arith) (kept i ∙ (e ∙ sym x)) in
            p.on_disk s o (λ k n d x. elim (Bool-cases (k == i)) [
              | inl q ↦
                  let same : k ≡ i = ground arith in
                  apart (sym x ∙ (ap (λ n. (c.fs_cache n).sector) same ∙ e))
              | inr q ↦ h k n (rw q d) (rw q x)
            ])
            ∙ sym (other_byte v sector from to buffer s o apart);
        one_each =
            λ j k m n x y z. p.one_each j k m n (was j x) (was k y) (sym (kept j) ∙ (z ∙ kept k));
        idle = λ j m. elim (Bool-cases (j == i)) [ inl q ↦ rw q refl | inr q ↦ rw q (p.idle j m) ];
        on_device = λ j m w. omega (arith, kept j, p.on_device j m (was j w));
      },
      λ w. cc,
    )

pub access_block-Accessed :
    (write : Bool) (c : Cache) (v : ℕ → ℕ → ℕ) (from to : ℕ) (buffer : ℕ → ℕ) (i sector : ℕ)
    → Presents c v
    → i < cache_blocks
    → is_unoccupied (c.fs_cache i).state ≡ false
    → (c.fs_cache i).sector ≡ sector
    → Accessed v sector write from to buffer (access_block write from to buffer i c)
access_block-Accessed true = write-Accessed
access_block-Accessed false = read-Accessed
