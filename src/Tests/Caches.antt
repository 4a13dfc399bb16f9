-- ===== src/Tests/Caches.antt =====
-- The theorems about src/filesys/cache.c at a full cache.
use cs.Common.{ℕ, refl, inl, inr, true, false, ltb, if◌then◌else◌, arith, Bool-cases}
use cs.Cache.{Cache, dirty, cached_read_write}
use cs.Cache.View.{Presents}
use cs.Cache.Clock.{Freed, get_free_block-Freed}
use cs.Cache.Coherence.{IsAccess, cached_read_write-Accessed}

-- Every block is dirty and accessed: block `i` holds sector `i`, all of bytes 5, and the device has 200
-- sectors of 0.
abbrev full : Cache
full = record {
  fs_cache =
      λ i. record { held = false; sector = i; state = dirty; accessed = true; bytes = λ o. 5 };
  fs_cache_arm = 7;
  disk = λ s o. 0;
  disk_size = 200;
}

abbrev view : ℕ → ℕ → ℕ
view s o = if ltb s 64 then 5 else 0

full-Presents : Presents full view
full-Presents = record {
  arm_inside = omega arith;
  cached = λ i o l u. ground arith;
  on_disk = λ s o h. elim (Bool-cases (ltb s 64)) [
    | inl e ↦ absurd (h s (ground arith) refl refl)
    | inr e ↦ rw e refl
  ];
  one_each = λ i j l m x y z. z;
  idle = λ i l. refl;
  on_device = λ i l u. omega arith;
}

get_free_block-Freed_example : Freed full view 129
get_free_block-Freed_example = get_free_block-Freed full view 3 full-Presents (omega arith) refl

cached_read_write-Accessed_example :
    IsAccess full view 100 true 10 20 (λ j. 8) (cached_read_write 1 full 100 true 10 20 (λ j. 8))
cached_read_write-Accessed_example =
    cached_read_write-Accessed 0 full view 100 true 10 20 (λ j. 8) 3 full-Presents (omega arith)
      (omega arith) (omega arith) refl (λ i e. refl)
