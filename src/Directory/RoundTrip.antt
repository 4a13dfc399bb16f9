-- ===== src/Directory/RoundTrip.antt =====
-- src/filesys/directory.c: `lookup` after `dir_add`.

use cs.Common.{
  ℕ, ◌+◌, ◌*◌, ◌<◌, ◌≤◌, ◌≡◌, ◌^◌, inl, inr, refl, ap, sym, ◌∙◌, Bool, true, false, Option, none,
  some, ◌==◌, Bool-cases, arith, eq_of_==,
}
use cs.Strings.{Memory}
use cs.Inode.{BlockCache, Inode}
use cs.Inode.Reading.{FitsDevice}
use cs.Directory.{get_sector, sector_byte, lookup, dir_add}
use cs.Directory.Lookup.{
  IsLaidOut, OnlyEntry, OnlyEntry-IsLaidOut, slot, HasSlot, IsNamed, IsFound, lookup-IsFound,
}
use cs.Directory.Adding.{IsEntered, IsAdded, dir_add-IsAdded}

-- The four bytes of a sector number stand for it.
get_sector-sector_byte :
    (m : Memory) (e sector : ℕ)
    → sector < 2 ^ 32
    → ((j : ℕ) → j < 4 → m (e + j) ≡ sector_byte sector j)
    → get_sector m e ≡ sector
unfolding get_sector sector_byte
get_sector-sector_byte m e sector l h =
    let here : m e ≡ m (e + 0) = ap m (omega arith) in
    omega (arith, here, h 0 (omega arith), h 1 (omega arith), h 2 (omega arith), h 3 (omega arith))

module _ (cache : BlockCache) (s : cache.Store) (inode : Inode) (e : ℕ) (f : FitsDevice inode)
    (b : ℕ → ℕ) (n sector : ℕ) (free : inode.deny_write_cnt ≡ 0) where
  -- The slot that is found can only be the new one.
  only_new :
      (k i : ℕ) (s' : cache.Store)
      → ((k : ℕ) → HasSlot cache s inode k → ¬ IsNamed cache s inode b n k)
      → IsEntered cache s inode e f b n sector k s'
      → n ≤ 14
      → HasSlot cache s inode i
      → IsNamed cache s' inode b n i
      → i ≡ k
  only_new k i s' fresh entered short here named = elim (Bool-cases (i == k)) [
    | inl same ↦ eq_of_== i k same
    | inr other ↦
        let kept = λ (j : ℕ) (q : j < 20). entered.2 i j (ground arith) here q in
        absurd (
          fresh i here (
            λ z. named.0 (kept 19 (omega arith) ∙ z),
            λ j q. sym (kept (4 + j) (omega arith)) ∙ named.1 j q,
          ))
  ]

  found_sector :
      (k : ℕ) (s' : cache.Store) (o : Option ℕ) (m' : Memory)
      → ((k : ℕ) → HasSlot cache s inode k → ¬ IsNamed cache s inode b n k)
      → HasSlot cache s inode k
      → IsEntered cache s inode e f b n sector k s'
      → n ≤ 14
      → sector < 2 ^ 32
      → IsFound cache s' inode e f b n 0 o m'
      → (ofs : ℕ) × (o ≡ some ofs) × (get_sector m' e ≡ sector)
  found_sector k s' none m' fresh here entered short l found =
      absurd (found k (omega arith) here entered.0)
  found_sector k s' (some ofs) m' fresh here entered short l (i, p, at, has, named, before, read) =
      let same = only_new k i s' fresh entered short has named in
      (
        ofs,
        refl,
        get_sector-sector_byte m' e sector l (λ j q.
            read j (omega arith) ∙ (ap (λ a. slot cache s' inode a j) same ∙ entered.1 j q)),
      )

  -- Where `dir_add` of a name of 1 to 14 bytes succeeds, on a file whose sectors are on the device,
  -- a `lookup` of the name right after it finds an entry, and the sector in it is the one that was
  -- added. `dir_add` returns, as long as there is more fuel than slots.
  pub lookup-dir_add :
      (strings name fuel : ℕ) (m : Memory)
      → IsLaidOut b n name e m
      → 0 < n
      → n < strings
      → inode.disk.length < 20 * fuel
      → sector < 2 ^ 32
      → (ok : Bool) × (m' : Memory) × (s' : cache.Store) × (dir_add cache fuel strings s inode name
            e sector m
          ≡ some (ok, m', s'))
        × (ok ≡ true
            → (ofs : ℕ) × (m'' : Memory) × (lookup cache fuel strings s' inode name e m'
                ≡ some (some ofs, m''))
              × (get_sector m'' e ≡ sector))
  lookup-dir_add strings name fuel m h long l q small =
      let (ok, m', s', done, only, added) =
        dir_add-IsAdded cache s inode e f b n sector free strings name fuel m h long l q in
      (ok, m', s', done, after ok s' m' only added)
    where
      after :
          (ok : Bool) (s' : cache.Store) (m' : Memory)
          → OnlyEntry e m m'
          → IsAdded cache s inode e f b n sector free ok s'
          → ok ≡ true
          → (ofs : ℕ) × (m'' : Memory) × (lookup cache fuel strings s' inode name e m'
              ≡ some (some ofs, m''))
            × (get_sector m'' e ≡ sector)
      after false s' m' only added hit = cc
      after true s' m' only (fresh, (k, here, unused, entered)) hit =
          let (o, m'', run, only', found) =
            lookup-IsFound cache s' inode e f b n strings name fuel m'
              (OnlyEntry-IsLaidOut b n name e m m' only h) l q in
          let (ofs, i, same) = found_sector k s' o m'' fresh here entered h.short small found in
          (ofs, m'', run ∙ ap (λ p. some (p, m'')) i, same)
