-- ===== src/Inode/Table.antt =====
-- src/filesys/inode.c: the open inodes and how often each is open.
use cs.Common.{
  ℕ, suc, ◌<◌, ◌≤◌, ◌≡◌, ◌≢◌, refl, ap, sym, ◌∙◌, inl, inr, true, false, none, some, List, [], ◌∷◌,
  ◌==◌, if◌then◌else◌, update, mem, Bool-cases, Option-cases, arith,
}
use mathlib.Core.Path.{subst}
use cs.Inode.{Inode, InodeDisk, OpenInodes, put, find_open, inode_reopen, opened, inode_open}

-- No two open inodes are of one sector, and each is open and denied at most as often as open.
pub record IsTable (t : OpenInodes) : Type 0 where
  pub one_each :
      (a b : ℕ)
      → mem a t.open_inodes ≡ true
      → mem b t.open_inodes ≡ true
      → (t.inodes a).sector ≡ (t.inodes b).sector
      → a ≡ b
  pub opened_once : (a : ℕ) → mem a t.open_inodes ≡ true → 0 < (t.inodes a).open_cnt
  pub denied :
      (a : ℕ) → mem a t.open_inodes ≡ true → (t.inodes a).deny_write_cnt ≤ (t.inodes a).open_cnt

find_open-some :
    (f : ℕ → Inode) (es : List ℕ) (k a : ℕ)
    → find_open f es k ≡ some a
    → (mem a es ≡ true) × ((f a).sector ≡ k)
unfolding find_open
find_open-some f [] k a h = cc
find_open-some f (e ∷ es) k a h = elim (Bool-cases ((f e).sector == k)) [
  | inl s ↦
      let found : some e ≡ some a =
        subst (λ b. (if b then some e else find_open f es k) ≡ some a) s h in
      let i : e ≡ a = cc in
      subst (λ x. (mem x (e ∷ es) ≡ true) × ((f x).sector ≡ k)) i (ground arith)
  | inr s ↦
      let (m, p) =
        find_open-some f es k a
          (subst (λ b. (if b then some e else find_open f es k) ≡ some a) s h) in
      (ground arith, p)
]

find_open-none :
    (f : ℕ → Inode) (es : List ℕ) (k : ℕ)
    → find_open f es k ≡ none
    → (a : ℕ) → mem a es ≡ true
    → (f a).sector ≢ k
unfolding find_open
find_open-none f [] k h a m = cc
find_open-none f (e ∷ es) k h a m = elim (Bool-cases ((f e).sector == k)) [
  | inl s ↦
      let stop : some e ≡ none = subst (λ b. (if b then some e else find_open f es k) ≡ none) s h in
      absurd (ground arith)
  | inr s ↦
      let rest =
        find_open-none f es k (subst (λ b. (if b then some e else find_open f es k) ≡ none) s h)
          a in
      elim (Bool-cases (a == e)) [
        | inl q ↦ let i : a ≡ e = ground arith in rw i (λ x. ground arith)
        | inr q ↦ rest (ground arith)
      ]
]

-- A table after the inode at one address has been replaced by one of the same sector.
put-IsTable :
    (t : OpenInodes) (a : ℕ) (i : Inode)
    → IsTable t
    → i.sector ≡ (t.inodes a).sector
    → 0 < i.open_cnt
    → i.deny_write_cnt ≤ i.open_cnt
    → IsTable (put t a i)
put-IsTable t a i h s o d = record {
  one_each = λ x y p q e. h.one_each x y p q (sym (same x) ∙ (e ∙ same y));
  opened_once = λ x p. ground (arith, h.opened_once x p);
  denied = λ x p. ground (arith, h.denied x p);
}
  where
    same : (x : ℕ) → (update t.inodes a i x).sector ≡ (t.inodes x).sector
    same x = elim (Bool-cases (x == a)) [
      | inl e ↦ let j : x ≡ a = ground arith in rw e (rw j s)
      | inr e ↦ rw e refl
    ]

-- What opening a sector answers: with no memory for an inode of a new sector, nothing.
pub record IsOpened (t t' : OpenInodes) (k : ℕ) (a : ℕ) : Type 0 where
  pub table : IsTable t'
  pub on_list : mem a t'.open_inodes ≡ true
  pub of_sector : (t'.inodes a).sector ≡ k
  pub only_it : (b : ℕ) → mem b t'.open_inodes ≡ true → (t'.inodes b).sector ≡ k → b ≡ a

reopened :
    (t : OpenInodes) (a k : ℕ)
    → IsTable t
    → mem a t.open_inodes ≡ true
    → (t.inodes a).sector ≡ k
    → IsOpened t (inode_reopen t a) k a
unfolding inode_reopen
reopened t a k h m s =
    let i = t.inodes a in
    let t' = inode_reopen t a in
    let table : IsTable t' =
      put-IsTable t a
        (record {
          sector = i.sector;
          open_cnt = suc i.open_cnt;
          removed = i.removed;
          deny_write_cnt = i.deny_write_cnt;
          disk = i.disk;
        })
        h refl (omega arith) (omega (arith, h.denied a m)) in
    let own : (t'.inodes a).sector ≡ k = ground arith in
    record {
      table = table;
      on_list = m;
      of_sector = own;
      only_it = λ b p e. table.one_each b a p m (e ∙ sym own);
    }

put_front :
    (t : OpenInodes) (a k : ℕ) (disk : InodeDisk)
    → IsTable t
    → find_open t.inodes t.open_inodes k ≡ none
    → mem a t.open_inodes ≡ false
    → IsOpened t (opened t k (some a) disk none).1 k a
unfolding opened
put_front t a k disk h free new =
    let t' = (opened t k (some a) disk none).1 in
    let other = find_open-none t.inodes t.open_inodes k free in
    let own : (t'.inodes a).sector ≡ k = ground arith in
    let old : (x : ℕ) → x ≢ a → mem x t'.open_inodes ≡ true → mem x t.open_inodes ≡ true =
      λ x n m. ground arith in
    let kept : (x : ℕ) → x ≢ a → t'.inodes x ≡ t.inodes x = λ x n. ground arith in
    let only : (b : ℕ) → mem b t'.open_inodes ≡ true → (t'.inodes b).sector ≡ k → b ≡ a = λ b m e.
      elim (Bool-cases (b == a)) [
        | inl s ↦ ground arith
        | inr s ↦
            let n : b ≢ a = λ q. ground arith in
            absurd (other b (old b n m) (sym (ap (λ i. i.sector) (kept b n)) ∙ e))
      ] in
    record {
      table = record {
        one_each = λ x y p q e. elim (Bool-cases (x == a)) [
          | inl s ↦
              let i : x ≡ a = ground arith in
              i ∙ sym (only y q (sym e ∙ (ap (λ z. (t'.inodes z).sector) i ∙ own)))
          | inr s ↦ elim (Bool-cases (y == a)) [
            | inl r ↦
                let i : y ≡ a = ground arith in
                only x p (e ∙ (ap (λ z. (t'.inodes z).sector) i ∙ own)) ∙ sym i
            | inr r ↦
                let (n, m) : (x ≢ a) × (y ≢ a) = ((λ z. ground arith), (λ z. ground arith)) in
                h.one_each x y (old x n p) (old y m q)
                  (sym (ap (λ i. i.sector) (kept x n)) ∙ (e ∙ ap (λ i. i.sector) (kept y m)))
          ]
        ];
        opened_once = λ x p. elim (Bool-cases (x == a)) [
          | inl s ↦ ground arith
          | inr s ↦
              let n : x ≢ a = λ q. ground arith in
              subst (λ i. 0 < i.open_cnt) (sym (kept x n)) (h.opened_once x (old x n p))
        ];
        denied = λ x p. elim (Bool-cases (x == a)) [
          | inl s ↦ ground arith
          | inr s ↦
              let n : x ≢ a = λ q. ground arith in
              subst (λ i. i.deny_write_cnt ≤ i.open_cnt) (sym (kept x n)) (h.denied x (old x n p))
        ];
      };
      on_list = ground arith;
      of_sector = own;
      only_it = only;
    }

-- In a table with one inode for each sector, opening a sector with memory at hand answers the one
-- inode of the sector in the new table, which is again such a table.
pub inode_open-IsOpened :
    (t : OpenInodes) (k fresh : ℕ) (disk : InodeDisk)
    → IsTable t
    → mem fresh t.open_inodes ≡ false
    → (a : ℕ) × (t' : OpenInodes) × (inode_open t k (some fresh) disk ≡ (some a, t'))
      × IsOpened t t' k a
unfolding inode_open opened
inode_open-IsOpened t k fresh disk h new =
    elim (Option-cases (find_open t.inodes t.open_inodes k)) [
      | inl none_open ↦ (
        fresh,
        (opened t k (some fresh) disk none).1,
        ap (opened t k (some fresh) disk) none_open,
        put_front t fresh k disk h none_open new,
      )
      | inr found ↦
          let (a, e) = found in
          let (m, s) = find_open-some t.inodes t.open_inodes k a e in
          (a, inode_reopen t a, ap (opened t k (some fresh) disk) e, reopened t a k h m s)
    ]
