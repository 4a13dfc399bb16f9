-- ===== src/Directory/Filling.antt =====
-- src/filesys/directory.c: the entry that `dir_add` fills in.
use mathlib.Core.Path.{subst}
use cs.Common.{
  ℕ, ◌+◌, ◌<◌, ◌≤◌, ◌≡◌, ◌⊎◌, inl, inr, ap, sym, ◌∙◌, true, false, some, ◌==◌, Bool-cases, arith,
  eq_of_==, update,
}
use cs.Strings
use cs.Strings.{Memory, strlcpy, strlen}
use cs.Strings.Copies.{IsTruncated, strlcpy-IsTruncated}
use cs.Directory.{put_block, sector_byte, fill_entry}
use cs.Directory.Lookup.{
  IsLaidOut, put_block-at, put_block-out, IsLaidOut-IsString, OnlyEntry, OnlyEntry-IsLaidOut,
}

-- The entry at `e` is in use for the name and the sector.
pub record IsFilled (b : ℕ → ℕ) (n e sector : ℕ) (m : Memory) : Type 0 where
  pub sector_bytes : (j : ℕ) → j < 4 → m (e + j) ≡ sector_byte sector j
  pub name_bytes : (i : ℕ) → i ≤ n → m (e + (4 + i)) ≡ b i
  pub in_use : m (e + 19) ≡ 1

string_apart :
    (name e : ℕ) → (name + 15 ≤ e) ⊎ (e + 20 ≤ name) → (e + 4 ≤ name) ⊎ (name + 15 ≤ e + 4)
string_apart name e (inl h) = inr (omega arith)
string_apart name e (inr h) = inl (omega arith)

-- The memory after the name is copied, and then the sector.
copied-IsFilled :
    (b : ℕ → ℕ) (n name e sector : ℕ) (m m₂ : Memory)
    → IsLaidOut b n name e m
    → IsTruncated (update m (e + 19) 1) m₂ (e + 4) name n
    → OnlyEntry e m (put_block m₂ e 4 (sector_byte sector))
      × IsFilled b n e sector (put_block m₂ e 4 (sector_byte sector))
copied-IsFilled b n name e sector m m₂ h t = (
  λ a out. out_of_4 a out ∙ (t.others a (out_of_name a out h.short) ∙ ground arith),
  record {
    sector_bytes = λ j q. put_block-at m₂ e 4 (sector_byte sector) j q;
    name_bytes = λ i q. behind (4 + i) (omega arith) ∙ name_byte i q (Bool-cases (i == n));
    in_use =
        behind 19 (omega arith) ∙ (t.others (e + 19) (inr (omega (arith, h.short))) ∙ ground arith);
  },
)
  where
    behind : (i : ℕ) → 4 ≤ i → put_block m₂ e 4 (sector_byte sector) (e + i) ≡ m₂ (e + i)
    behind i l = put_block-out m₂ e 4 (sector_byte sector) (e + i) (inr (omega arith))

    out_of_4 : (a : ℕ) → (a < e) ⊎ (e + 20 ≤ a) → put_block m₂ e 4 (sector_byte sector) a ≡ m₂ a
    out_of_4 a (inl l) = put_block-out m₂ e 4 (sector_byte sector) a (inl l)
    out_of_4 a (inr l) = put_block-out m₂ e 4 (sector_byte sector) a (inr (omega arith))

    out_of_name : (a : ℕ) → (a < e) ⊎ (e + 20 ≤ a) → n ≤ 14 → (a < e + 4) ⊎ (e + 4 + n < a)
    out_of_name a (inl l) s = inl (omega arith)
    out_of_name a (inr l) s = inr (omega arith)

    name_kept : (i : ℕ) → i ≤ 14 → update m (e + 19) 1 (name + i) ≡ m (name + i)
    name_kept i l = ground (arith, h.apart)

    name_byte : (i : ℕ) → i ≤ n → ((i == n) ≡ true) ⊎ ((i == n) ≡ false) → m₂ (e + (4 + i)) ≡ b i
    name_byte i q (inl same) =
        let last : i ≡ n = eq_of_== i n same in
        ap m₂ (omega (arith, last)) ∙ (t.truncated.at_end ∙ (sym h.at_end ∙ ap b (sym last)))
    name_byte i q (inr other) =
        ap m₂ (omega arith)
        ∙ (t.bytes i (ground arith) ∙ (name_kept i (omega (arith, h.short)) ∙ h.bytes i q))

pub fill_entry-IsFilled :
    (b : ℕ → ℕ) (n strings name e sector : ℕ) (m : Memory)
    → IsLaidOut b n name e m
    → n < strings
    → (m' : Memory) × (fill_entry strings name e sector m ≡ some m')
      × OnlyEntry e m m'
      × IsFilled b n e sector m'
unfolding fill_entry
fill_entry-IsFilled b n strings name e sector m h l =
    let m₁ = update m (e + 19) 1 in
    let only : OnlyEntry e m m₁ = λ a out. ground arith in
    let h₁ = OnlyEntry-IsLaidOut b n name e m m₁ only h in
    let (m₂, run, t) =
      strlcpy-IsTruncated n strings m₁ (e + 4) name 15 (omega arith) h.name_exists (omega arith)
        (IsLaidOut-IsString b n name e m₁ h₁) (string_apart name e h.apart) l in
    let all : Strings.lesser n 14 ≡ n = ground (arith, h.short) in
    let (kept, filled) =
      copied-IsFilled b n name e sector m m₂ h (subst (IsTruncated m₁ m₂ (e + 4) name) all t) in
    (put_block m₂ e 4 (sector_byte sector), rw run, kept, filled)
