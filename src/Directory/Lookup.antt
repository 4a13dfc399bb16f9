-- ===== src/Directory/Lookup.antt =====
-- src/filesys/directory.c: `lookup`.
use mathlib.Core.Path.{subst}
use cs.Common.{
  ℕ, zero, suc, ◌+◌, ◌*◌, ◌<◌, ◌≤◌, ◌≡◌, ◌≢◌, ◌⊎◌, inl, inr, refl, ap, sym, ◌∙◌, Bool, true, false,
  not, ◌&&◌, Option, none, some, ltb, leb, ◌==◌, Bool-cases, arith, null, ◌-◌, ltb→lt, eq_of_==,
}
use cs.FixedPoint.{is_zero}
use cs.Strings.{Memory}
use cs.Strings.Lengths.{IsString}
use cs.Inode.{BlockCache, Inode, lesser}
use cs.Inode.Reading.{FitsDevice, content, inode_read_at-content}
use cs.Directory.{put_block, read_entry, is_entry, lookup_loop, lookup}
use cs.Directory.Names.{strcmp-Tells}

-- The name with the bytes `b` and the length `n` is in memory, and room for 15 bytes there lies apart
-- from the local entry.
pub record IsLaidOut (b : ℕ → ℕ) (n name e : ℕ) (m : Memory) : Type 0 where
  pub name_exists : name ≢ null
  pub entry_exists : e ≢ null
  pub short : n ≤ 14
  pub bytes : (i : ℕ) → i ≤ n → m (name + i) ≡ b i
  pub before_end : (i : ℕ) → i < n → b i ≢ 0
  pub at_end : b n ≡ 0
  pub apart : (name + 15 ≤ e) ⊎ (e + 20 ≤ name)

-- The memory differs at most in the entry.
abbrev pub OnlyEntry : ℕ → Memory → Memory → Type 0
OnlyEntry e m m' = (a : ℕ) → (a < e) ⊎ (e + 20 ≤ a) → m' a ≡ m a

pub OnlyEntry-IsLaidOut :
    (b : ℕ → ℕ) (n name e : ℕ) (m m' : Memory)
    → OnlyEntry e m m'
    → IsLaidOut b n name e m
    → IsLaidOut b n name e m'
OnlyEntry-IsLaidOut b n name e m m' o h = record {
  name_exists = h.name_exists;
  entry_exists = h.entry_exists;
  short = h.short;
  bytes = λ i l. o (name + i) (side i (omega (arith, h.short)) h.apart) ∙ h.bytes i l;
  before_end = h.before_end;
  at_end = h.at_end;
  apart = h.apart;
}
  where
    side :
        (i : ℕ) → i ≤ 14 → (name + 15 ≤ e) ⊎ (e + 20 ≤ name) → (name + i < e) ⊎ (e + 20 ≤ name + i)
    side i l (inl h) = inl (omega arith)
    side i l (inr h) = inr (omega arith)

pub IsLaidOut-IsString :
    (b : ℕ → ℕ) (n name e : ℕ) (m : Memory) → IsLaidOut b n name e m → IsString m name n
IsLaidOut-IsString b n name e m h = record {
  before_end = λ i l z. h.before_end i l (sym (h.bytes i (omega arith)) ∙ z);
  at_end = h.bytes n (omega arith) ∙ h.at_end;
}

pub put_block-at :
    (m : Memory) (e size : ℕ) (b : ℕ → ℕ) (j : ℕ) → j < size → put_block m e size b (e + j) ≡ b j
unfolding put_block
put_block-at m e size b j l =
    let test : (leb e (e + j) && ltb (e + j) (e + size)) ≡ true = ground arith in
    rw test (ap b (omega arith))

pub put_block-out :
    (m : Memory) (e size : ℕ) (b : ℕ → ℕ) (a : ℕ)
    → (a < e) ⊎ (e + size ≤ a)
    → put_block m e size b a ≡ m a
unfolding put_block
put_block-out m e size b a (inl h) = ground arith
put_block-out m e size b a (inr h) = ground arith

module _ (cache : BlockCache) (s : cache.Store) (inode : Inode) where
  abbrev pub slot : ℕ → ℕ → ℕ
  slot k j = content cache s inode (20 * k + j)

  -- The file has slot `k`.
  abbrev pub HasSlot : ℕ → Type 0
  HasSlot k = 20 * k + 20 ≤ inode.disk.length

  -- Slot `k` is in use for the name.
  abbrev pub IsNamed : (ℕ → ℕ) → ℕ → ℕ → Type 0
  IsNamed b n k = (slot k 19 ≢ 0) × ((i : ℕ) → i ≤ n → slot k (4 + i) ≡ b i)

  module _ (e : ℕ) (f : FitsDevice inode) where
    pub read_entry-slot :
        (m : Memory) (k : ℕ)
        → HasSlot k
        → (m' : Memory) × (read_entry cache s inode e m (20 * k) ≡ some (true, m'))
          × OnlyEntry e m m'
          × ((j : ℕ) → j < 20 → m' (e + j) ≡ slot k j)
    unfolding read_entry
    read_entry-slot m k h =
        let (b, run, same) = inode_read_at-content cache s inode (λ j. m (e + j)) 20 (20 * k) f in
        let all : lesser 20 (inode.disk.length - 20 * k) ≡ 20 = ground arith in
        (
          put_block m e 20 b,
          rw run (rw all),
          put_block-out m e 20 b,
          λ j l. put_block-at m e 20 b j l ∙ same j (omega arith),
        )

    pub read_entry-end :
        (m : Memory) (k : ℕ)
        → inode.disk.length < 20 * k + 20
        → (m' : Memory) × (read_entry cache s inode e m (20 * k) ≡ some (false, m'))
          × OnlyEntry e m m'
    unfolding read_entry
    read_entry-end m k h =
        let (b, run, same) = inode_read_at-content cache s inode (λ j. m (e + j)) 20 (20 * k) f in
        let part : (lesser 20 (inode.disk.length - 20 * k) == 20) ≡ false = ground arith in
        (
          put_block m e 20 b,
          rw run (ap (λ t. some (t, put_block m e 20 b)) part),
          put_block-out m e 20 b,
        )

    -- The test on the entry in memory is a test on its slot.
    is_entry-IsNamed :
        (b : ℕ → ℕ) (n strings name : ℕ) (m : Memory) (k : ℕ)
        → IsLaidOut b n name e m
        → n < strings
        → ((j : ℕ) → j < 20 → m (e + j) ≡ slot k j)
        → (hit : Bool) × (is_entry strings name e m ≡ some hit)
          × (hit ≡ true → IsNamed b n k)
          × (IsNamed b n k → hit ≡ true)
    unfolding is_entry
    is_entry-IsNamed b n strings name m k h l read =
        let (c, run, t) =
          strcmp-Tells n strings m name (e + 4) h.name_exists (omega arith)
            (IsLaidOut-IsString b n name e m h) l in
        let flag = read 19 (omega arith) in
        elim (Bool-cases (m (e + 19) == 0)) [
          | inl z ↦ (false, rw z, λ i. cc, λ i. absurd (i.0 (sym flag ∙ eq_of_== (m (e + 19)) 0 z)))
          | inr z ↦ (
            is_zero c,
            rw (z, run),
            λ i. (
              λ u. ground (arith, flag, u),
              λ j q.
                  sym (read (4 + j) (spare j q)) ∙ (ap m (omega arith) ∙ (t.0 i j q ∙ h.bytes j q)),
            ),
            λ i. t.1 (λ j q.
                ap m (omega arith) ∙ (read (4 + j) (spare j q) ∙ (i.1 j q ∙ sym (h.bytes j q)))),
          )
        ]
      where
        spare : (j : ℕ) → j ≤ n → 4 + j < 20
        spare j q = omega (arith, h.short)

    -- What `lookup` from slot `first` on may answer: the first slot in use for the name, which is in
    -- memory at `e` then, or that there is none.
    abbrev pub IsFound : (ℕ → ℕ) → ℕ → ℕ → Option ℕ → Memory → Type 0
    IsFound b n first none m' = (k : ℕ) → first ≤ k → HasSlot k → ¬ IsNamed b n k
    IsFound b n first (some ofs) m' =
        (k : ℕ) × (first ≤ k)
        × (ofs ≡ 20 * k)
        × HasSlot k
        × IsNamed b n k
        × ((i : ℕ) → first ≤ i → i < k → ¬ IsNamed b n i)
        × ((j : ℕ) → j < 20 → m' (e + j) ≡ slot k j)

    later :
        (b : ℕ → ℕ) (n first : ℕ) (o : Option ℕ) (m' : Memory)
        → ¬ IsNamed b n first
        → IsFound b n (suc first) o m'
        → IsFound b n first o m'
    later b n first none m' miss found = λ k l h named. elim (Bool-cases (k == first)) [
      | inl i ↦ miss (subst (IsNamed b n) (eq_of_== k first i) named)
      | inr i ↦ found k (ground arith) h named
    ]
    later b n first (some ofs) m' miss (k, l, at, h, named, before, read) = (
      k,
      omega (arith, l),
      at,
      h,
      named,
      λ i p q named. elim (Bool-cases (i == first)) [
        | inl z ↦ miss (subst (IsNamed b n) (eq_of_== i first z) named)
        | inr z ↦ before i (ground arith) q named
      ],
      read,
    )

    lookup_loop-IsFound :
        (b : ℕ → ℕ) (n strings name fuel first : ℕ) (m : Memory)
        → IsLaidOut b n name e m
        → n < strings
        → 0 < fuel
        → inode.disk.length < 20 * (first + fuel)
        → (o : Option ℕ) × (m' : Memory) × (lookup_loop cache fuel strings s inode name e m
              (20 * first)
            ≡ some (o, m'))
          × OnlyEntry e m m'
          × IsFound b n first o m'
    unfolding lookup_loop
    lookup_loop-IsFound b n strings name zero first m h l p q = absurd (omega arith)
    lookup_loop-IsFound b n strings name (suc fuel) first m h l p q =
        elim (Bool-cases (ltb inode.disk.length (20 * first + 20))) [
          | inl past ↦
              let (m', run, only) = read_entry-end m first (ltb→lt _ _ past) in
              (none, m', rw run, only, λ k l' h'. absurd (omega (arith, ltb→lt _ _ past)))
          | inr there ↦
              let here : HasSlot first = ground arith in
              let (m₁, run, only, read) = read_entry-slot m first here in
              let h₁ = OnlyEntry-IsLaidOut b n name e m m₁ only h in
              let (hit, test, sound, whole) =
                is_entry-IsNamed b n strings name m₁ first h₁ l read in
              let (o, m', rest, only', found) =
                lookup_loop-IsFound b n strings name fuel (suc first) m₁ h₁ l (omega arith)
                  (omega arith) in
              let next : lookup_loop cache fuel strings s inode name e m₁ (20 * first + 20)
                  ≡ some (o, m') =
                ap (λ ofs. lookup_loop cache fuel strings s inode name e m₁ ofs) (omega arith)
                ∙ rest in
              elim (Bool-cases hit) [
                | inl y ↦ (
                  some (20 * first),
                  m₁,
                  rw (run, test, y),
                  only,
                  (first, omega arith, refl, here, sound y, λ i u v. absurd (omega arith), read),
                )
                | inr y ↦ (
                  o,
                  m',
                  rw (run, test, y) next,
                  λ a out. only' a out ∙ only a out,
                  later b n first o m' (λ named. cc (whole named, y)) found,
                )
              ]
        ]

    -- With the file's sectors on the device, a name of at most 14 bytes that lies apart from the
    -- local entry, and more fuel than slots, `lookup` returns. It finds the first slot that is in
    -- use for the name, which is then in the entry, or says rightly that there is none. Only the entry changes.
    pub lookup-IsFound :
        (b : ℕ → ℕ) (n strings name fuel : ℕ) (m : Memory)
        → IsLaidOut b n name e m
        → n < strings
        → inode.disk.length < 20 * fuel
        → (o : Option ℕ) × (m' : Memory) × (lookup cache fuel strings s inode name e m
            ≡ some (o, m'))
          × OnlyEntry e m m'
          × IsFound b n 0 o m'
    unfolding lookup
    lookup-IsFound b n strings name fuel m h l q =
        let (o, m', run, only, found) =
          lookup_loop-IsFound b n strings name fuel 0 m h l (omega arith) (omega arith) in
        let ok : not (name == null) ≡ true = ground (arith, h.name_exists) in
        (o, m', rw ok run, only, found)
