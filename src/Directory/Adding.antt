-- ===== src/Directory/Adding.antt =====
-- src/filesys/directory.c: `dir_add`.
use mathlib.Core.Path.{subst}
use cs.Common.{
  ℕ, zero, suc, ◌+◌, ◌*◌, ◌<◌, ◌≤◌, ◌≡◌, ◌≢◌, ◌⊎◌, inl, inr, refl, ap, sym, ◌∙◌, Bool, true, false,
  not, Option, none, some, ltb, leb, ◌==◌, Bool-cases, arith, null, ◌>>=◌, ◌-◌, ltb→lt, eq_of_==,
}
use cs.Strings.{Memory, strlen}
use cs.Strings.Lengths.{strlen_lem}
use cs.Inode.{BlockCache, Inode, lesser}
use cs.Inode.Reading.{FitsDevice}
use cs.Inode.Writing.{IsWritten, inode_write_at-IsWritten}
use cs.Directory.{sector_byte, lookup, free_loop, write_slot, dir_add}
use cs.Directory.Lookup.{
  IsLaidOut, IsLaidOut-IsString, OnlyEntry, OnlyEntry-IsLaidOut, slot, HasSlot, IsNamed, IsFound,
  read_entry-slot, read_entry-end, lookup-IsFound,
}
use cs.Directory.Filling.{fill_entry-IsFilled}

module _ (cache : BlockCache) (s : cache.Store) (inode : Inode) (e : ℕ) (f : FitsDevice inode) where
  -- Slot `k` is the first that is not in use, or the file ends in it.
  abbrev IsFirstFree : ℕ → ℕ → Type 0
  IsFirstFree first k =
      (first ≤ k)
      × ((i : ℕ) → first ≤ i → i < k → slot cache s inode i 19 ≢ 0)
      × ((HasSlot cache s inode k × (slot cache s inode k 19 ≡ 0))
          ⊎ (inode.disk.length < 20 * k + 20))

  IsFirstFree-suc :
      (first k : ℕ)
      → slot cache s inode first 19 ≢ 0
      → IsFirstFree (suc first) k
      → IsFirstFree first k
  IsFirstFree-suc first k used (l, before, here) = (
    omega (arith, l),
    λ i p q z. elim (Bool-cases (i == first)) [
      | inl same ↦ used (subst (λ o. slot cache s inode o 19 ≡ 0) (eq_of_== i first same) z)
      | inr other ↦ before i (ground arith) q z
    ],
    here,
  )

  free_loop-IsFirstFree :
      (fuel first : ℕ) (m : Memory)
      → 0 < fuel
      → inode.disk.length < 20 * (first + fuel)
      → (k : ℕ) × (m' : Memory) × (free_loop cache fuel s inode e m (20 * first)
          ≡ some (20 * k, m'))
        × OnlyEntry e m m'
        × IsFirstFree first k
  unfolding free_loop
  free_loop-IsFirstFree zero first m p q = absurd (omega arith)
  free_loop-IsFirstFree (suc fuel) first m p q =
      elim (Bool-cases (ltb inode.disk.length (20 * first + 20))) [
        | inl past ↦
            let (m', run, only) = read_entry-end cache s inode e f m first (ltb→lt _ _ past) in
            (
              first,
              m',
              rw run,
              only,
              (omega arith, λ i l r. absurd (omega arith), inr (ltb→lt _ _ past)),
            )
        | inr there ↦
            let here : HasSlot cache s inode first = ground arith in
            let (m₁, run, only, read) = read_entry-slot cache s inode e f m first here in
            let flag = read 19 (omega arith) in
            let (k, m', rest, only', free) =
              free_loop-IsFirstFree fuel (suc first) m₁ (omega arith) (omega arith) in
            let next : free_loop cache fuel s inode e m₁ (20 * first + 20) ≡ some (20 * k, m') =
              ap (λ ofs. free_loop cache fuel s inode e m₁ ofs) (omega arith) ∙ rest in
            elim (Bool-cases (m₁ (e + 19) == 0)) [
              | inl z ↦ (
                first,
                m₁,
                rw (run, z),
                only,
                (omega arith, λ i l r. absurd (omega arith), inl (here, sym flag ∙ eq_of_== _ _ z)),
              )
              | inr z ↦ (
                k,
                m',
                rw (run, z) next,
                λ a out. only' a out ∙ only a out,
                IsFirstFree-suc first k (λ unused. ground (arith, flag, unused)) free,
              )
            ]
      ]

  module _ (b : ℕ → ℕ) (n : ℕ) (sector : ℕ) where
    -- Slot `k` has become the entry for the name and the sector, and the other slots are as they were.
    abbrev pub IsEntered : ℕ → cache.Store → Type 0
    IsEntered k s' =
        IsNamed cache s' inode b n k
        × ((j : ℕ) → j < 4 → slot cache s' inode k j ≡ sector_byte sector j)
        × ((i j : ℕ)
            → i ≢ k
            → HasSlot cache s inode i
            → j < 20
            → slot cache s' inode i j ≡ slot cache s inode i j)

    module _ (free : inode.deny_write_cnt ≡ 0) where
      write_slot-kept :
          (s' : cache.Store) (buffer : ℕ → ℕ) (k i j : ℕ)
          → IsWritten cache s s' inode buffer 0 (20 * k) (lesser 20 (inode.disk.length - 20 * k))
          → i ≢ k
          → HasSlot cache s inode i
          → j < 20
          → slot cache s' inode i j ≡ slot cache s inode i j
      write_slot-kept s' buffer k i j w ne h l = elim (Bool-cases (ltb i k)) [
        | inl below ↦ w.kept (20 * i + j) (inl (ground arith))
        | inr above ↦ w.kept (20 * i + j) (inr (ground arith))
      ]

      write_slot-IsEntered :
          (strings name k : ℕ) (m : Memory)
          → IsLaidOut b n name e m
          → n < strings
          → (m' : Memory) × (s' : cache.Store) × (write_slot cache strings s inode name e sector
                (20 * k, m)
              ≡ some (leb (20 * k + 20) inode.disk.length, m', s'))
            × OnlyEntry e m m'
            × ((i j : ℕ)
                → i ≢ k
                → HasSlot cache s inode i
                → j < 20
                → slot cache s' inode i j ≡ slot cache s inode i j)
            × (HasSlot cache s inode k → IsEntered k s')
      unfolding write_slot
      write_slot-IsEntered strings name k m h l =
          let (m', filled, only, r) = fill_entry-IsFilled b n strings name e sector m h l in
          let (s', run, w) =
            inode_write_at-IsWritten cache s inode (λ j. m' (e + j)) 20 (20 * k) f free in
          let whole : (lesser 20 (inode.disk.length - 20 * k) == 20)
              ≡ leb (20 * k + 20) inode.disk.length =
            ground arith in
          let kept = λ (i j : ℕ). write_slot-kept s' (λ j. m' (e + j)) k i j w in
          let written : HasSlot cache s inode k
              → (j : ℕ) → j < 20
              → slot cache s' inode k j ≡ m' (e + j) =
            λ there j q. w.written j (ground arith) ∙ ap m' (omega arith) in
          (
            m',
            s',
            rw (filled, run, whole),
            only,
            kept,
            λ there. (
              (
                λ z. omega (arith, z, written there 19 (omega arith), r.in_use),
                λ i q. written there (4 + i) (omega (arith, h.short)) ∙ r.name_bytes i q,
              ),
              λ j q. written there j (omega arith) ∙ r.sector_bytes j q,
              kept,
            ),
          )

      -- What `dir_add` has done: the name is entered in a slot that was not in use; or no slot has
      -- changed, since the name has a slot already or none is free.
      abbrev pub IsAdded : Bool → cache.Store → Type 0
      IsAdded true s' =
          ((k : ℕ) → HasSlot cache s inode k → ¬ IsNamed cache s inode b n k)
          × ((k : ℕ) × HasSlot cache s inode k × (slot cache s inode k 19 ≡ 0) × IsEntered k s')
      IsAdded false s' =
          (((k : ℕ) × HasSlot cache s inode k × IsNamed cache s inode b n k)
            ⊎ ((k : ℕ) → HasSlot cache s inode k → slot cache s inode k 19 ≢ 0))
          × ((i j : ℕ)
              → HasSlot cache s inode i
              → j < 20
              → slot cache s' inode i j ≡ slot cache s inode i j)

      -- After a `lookup` that has found nothing.
      add_new :
          (strings name fuel : ℕ) (m : Memory)
          → IsLaidOut b n name e m
          → n < strings
          → inode.disk.length < 20 * fuel
          → ((k : ℕ) → HasSlot cache s inode k → ¬ IsNamed cache s inode b n k)
          → (ok : Bool) × (m' : Memory) × (s' : cache.Store) × ((free_loop cache fuel s inode e m 0
                >>= write_slot cache strings s inode name e sector)
              ≡ some (ok, m', s'))
            × OnlyEntry e m m'
            × IsAdded ok s'
      add_new strings name fuel m h l q fresh =
          let (k, m₁, run, only, first) =
            free_loop-IsFirstFree fuel 0 m (omega arith) (omega arith) in
          let (m', s', wrote, only', kept, entered) =
            write_slot-IsEntered strings name k m₁ (OnlyEntry-IsLaidOut b n name e m m₁ only h) l in
          elim (first.2) [
            | inl there ↦ (
              true,
              m',
              s',
              rw run (wrote ∙ ap (λ t. some (t, m', s')) (ground (arith, there.0))),
              λ a out. only' a out ∙ only a out,
              (fresh, (k, there.0, there.1, entered (there.0))),
            )
            | inr past ↦ (
              false,
              m',
              s',
              rw run (wrote ∙ ap (λ t. some (t, m', s')) (ground (arith, past))),
              λ a out. only' a out ∙ only a out,
              (
                inr (λ i here. first.1 i (omega arith) (omega arith)),
                λ i j here. kept i j (omega arith) here,
              ),
            )
          ]

      after_lookup :
          (strings name fuel : ℕ) (m m' : Memory) (o : Option ℕ)
          → IsLaidOut b n name e m'
          → n < strings
          → inode.disk.length < 20 * fuel
          → OnlyEntry e m m'
          → lookup cache fuel strings s inode name e m ≡ some (o, m')
          → IsFound cache s inode e f b n 0 o m'
          → m name ≢ 0
          → name ≢ null
          → strlen strings m name ≡ some n
          → n ≤ 14
          → (ok : Bool) × (m₁ : Memory) × (s' : cache.Store) × (dir_add cache fuel strings s inode
                name e sector m
              ≡ some (ok, m₁, s'))
            × OnlyEntry e m m₁
            × IsAdded ok s'
      unfolding dir_add
      after_lookup strings name fuel m m' none h l q only run found some_name there long short =
          let (ok, m₁, s', done, only', added) =
            add_new strings name fuel m' h l q (λ k here. found k (omega arith) here) in
          let (a, c, d) : (not (name == null) ≡ true)
              × ((m name == 0) ≡ false)
              × (ltb 14 n ≡ false) =
            (ground arith, ground arith, ground arith) in
          (ok, m₁, s', rw (a, c, long, d, run) done, λ i out. only' i out ∙ only i out, added)
      after_lookup strings name fuel m m' (some ofs) h l q only run found some_name there long
            short =
          let (a, c, d) : (not (name == null) ≡ true)
              × ((m name == 0) ≡ false)
              × (ltb 14 n ≡ false) =
            (ground arith, ground arith, ground arith) in
          (
            false,
            m',
            s,
            rw (a, c, long, d, run),
            only,
            (inl (found.0, found.3, found.4), λ i j u v. refl),
          )

      -- With the file's sectors on the device and writes not denied, for a name of 1 to 14 bytes in
      -- memory apart from the local entry, and with more fuel than slots, `dir_add` returns. It
      -- succeeds if no slot is in use for the name and a slot is free, and has then entered name and
      -- sector in a free slot; else it fails. No other slot changes, and of the memory only the entry.
      pub dir_add-IsAdded :
          (strings name fuel : ℕ) (m : Memory)
          → IsLaidOut b n name e m
          → 0 < n
          → n < strings
          → inode.disk.length < 20 * fuel
          → (ok : Bool) × (m' : Memory) × (s' : cache.Store) × (dir_add cache fuel strings s inode
                name e sector m
              ≡ some (ok, m', s'))
            × OnlyEntry e m m'
            × IsAdded ok s'
      dir_add-IsAdded strings name fuel m h long l q =
          let (o, m', run, only, found) =
            lookup-IsFound cache s inode e f b n strings name fuel m h l q in
          after_lookup strings name fuel m m' o (OnlyEntry-IsLaidOut b n name e m m' only h) l q
            only run found
            (λ z. h.before_end 0 long (sym (h.bytes 0 (omega arith)) ∙ (ap m (omega arith) ∙ z)))
            h.name_exists
            (strlen_lem n strings m name h.name_exists (IsLaidOut-IsString b n name e m h) l)
            h.short
