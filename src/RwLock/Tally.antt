-- ===== src/RwLock/Tally.antt =====
-- src/threads/synch.c: counting the threads that are at given points.
use cs.Common.{
  ℕ, zero, suc, ◌+◌, ◌≤◌, ◌≡◌, refl, some, List, [], ◌∷◌, arith, ◌==◌, Bool-cases, inl, inr, ap,
  get_elem?, set,
}
use cs.RwLock.{Point}

abbrev pub tally : (Point → ℕ) → List Point → ℕ
tally f [] = 0
tally f (p ∷ ps) = f p + tally f ps

pub tally-set :
    (f : Point → ℕ) (ps : List Point) (i : ℕ) (p q : Point)
    → get_elem? ps i ≡ some p
    → tally f (set ps i q) + f p ≡ tally f ps + f q
tally-set f [] i p q e = cc
tally-set f (r ∷ ps) zero p q e = let same : r ≡ p = cc in omega (arith, ap f same)
tally-set f (r ∷ ps) (suc i) p q e = omega (arith, tally-set f ps i p q e)

pub tally-at :
    (f : Point → ℕ) (ps : List Point) (i : ℕ) (p : Point)
    → get_elem? ps i ≡ some p
    → f p ≤ tally f ps
tally-at f [] i p e = cc
tally-at f (r ∷ ps) zero p e = let same : r ≡ p = cc in omega (arith, ap f same)
tally-at f (r ∷ ps) (suc i) p e = omega (arith, tally-at f ps i p e)

pub tally_mono :
    (f g : Point → ℕ) (ps : List Point) → ((p : Point) → f p ≤ g p) → tally f ps ≤ tally g ps
tally_mono f g [] h = omega arith
tally_mono f g (p ∷ ps) h = omega (arith, h p, tally_mono f g ps h)

pub tally_sum :
    (f g h : Point → ℕ) (ps : List Point)
    → ((p : Point) → f p + g p ≤ h p)
    → tally f ps + tally g ps ≤ tally h ps
tally_sum f g h [] l = omega arith
tally_sum f g h (p ∷ ps) l = omega (arith, l p, tally_sum f g h ps l)

pub tally_cover :
    (f g h : Point → ℕ) (ps : List Point)
    → ((p : Point) → f p ≤ g p + h p)
    → tally f ps ≤ tally g ps + tally h ps
tally_cover f g h [] l = omega arith
tally_cover f g h (p ∷ ps) l = omega (arith, l p, tally_cover f g h ps l)

pub tally-found :
    (f : Point → ℕ) (ps : List Point)
    → 1 ≤ tally f ps
    → (i : ℕ) × (p : Point) × (get_elem? ps i ≡ some p) × (1 ≤ f p)
tally-found f [] h = absurd (omega arith)
tally-found f (p ∷ ps) h = elim (Bool-cases (f p == 0)) [
  | inl e ↦ let (i, q, at, l) = tally-found f ps (ground arith) in (suc i, q, at, l)
  | inr e ↦ (0, p, refl, ground arith)
]
