-- ===== src/Donation/Chain.antt =====
-- src/threads/thread.c: how far `donate_priority` donates.

use cs.Common.{
  ℕ, zero, suc, ◌<◌, ◌≡◌, ◌≢◌, inl, inr, true, false, some, arith, ◌==◌, null, ap, ◌∙◌, Bool-cases,
}
use cs.Common.Int.{◌≤ℤ◌}
use cs.Threads.{Kernel}
use cs.Sched.{priority_of}
use cs.Donation.{donate_to, donate_loop, donate_priority}

-- The lock that a thread waits on, and the holder of that lock.
abbrev pub awaited : Kernel → ℕ → ℕ
awaited k t = (k.thread t).lock_waiting_on

abbrev pub blocker : Kernel → ℕ → ℕ
blocker k t = (k.lock (awaited k t)).holder

-- `u` stands on the way from `t` along the locks that threads wait on.
pub data Blocks (k : Kernel) : ℕ → ℕ → Type 0 where
  here : {t : ℕ} → Blocks k t t
  next : {t u : ℕ} → awaited k t ≢ null → Blocks k (blocker k t) u → Blocks k t u

-- No deadlock: a rank falls along the way, and what is waited on is held.
pub record IsAcyclic (k : Kernel) (rank : ℕ → ℕ) : Type 0 where
  pub falls : (t : ℕ) → awaited k t ≢ null → rank (blocker k t) < rank t
  pub is_held : (t : ℕ) → awaited k t ≢ null → blocker k t ≢ null

-- A round changes priorities alone, and lowers none.
donate_to-awaited : (k : Kernel) (t l u : ℕ) → awaited (donate_to t l k) u ≡ awaited k u
unfolding donate_to
donate_to-awaited k t l u = ground arith

donate_to-holder : (k : Kernel) (t l m : ℕ) → ((donate_to t l k).lock m).holder ≡ (k.lock m).holder
unfolding donate_to
donate_to-holder k t l m = ground arith

donate_to-le : (k : Kernel) (t l u : ℕ) → priority_of k u ≤ℤ priority_of (donate_to t l k) u
unfolding donate_to
donate_to-le k t l u = ground arith

donate_to-donated :
    (k : Kernel) (t l : ℕ) → priority_of k t ≤ℤ priority_of (donate_to t l k) (k.lock l).holder
unfolding donate_to
donate_to-donated k t l = ground arith

donate_to-blocker : (k : Kernel) (t l u : ℕ) → blocker (donate_to t l k) u ≡ blocker k u
donate_to-blocker k t l u =
    ap (λ a. ((donate_to t l k).lock a).holder) (donate_to-awaited k t l u)
    ∙ donate_to-holder k t l (awaited k u)

donate_to-IsAcyclic :
    (k : Kernel) (t l : ℕ) (rank : ℕ → ℕ) → IsAcyclic k rank → IsAcyclic (donate_to t l k) rank
donate_to-IsAcyclic k t l rank a = record {
  falls = λ u ne. rw (donate_to-blocker k t l u) (a.falls u (rw (donate_to-awaited k t l u) at ne));
  is_held =
      λ u ne. rw (donate_to-blocker k t l u) (a.is_held u (rw (donate_to-awaited k t l u) at ne));
}

donate_to-Blocks : (k : Kernel) (t l : ℕ) {v u : ℕ} → Blocks k v u → Blocks (donate_to t l k) v u
donate_to-Blocks k t l here = here
donate_to-Blocks k t l (next {t = v} ne b) =
    next (rw (donate_to-awaited k t l v) ne)
      (rw (donate_to-blocker k t l v) (donate_to-Blocks k t l b))

-- What the loop from `t` gives.
record Donated (t : ℕ) (k k' : Kernel) : Type 0 where
  grows : (u : ℕ) → priority_of k u ≤ℤ priority_of k' u
  reaches : (u : ℕ) → Blocks k t u → priority_of k t ≤ℤ priority_of k' u

Donated-stop : (t : ℕ) (k : Kernel) → (awaited k t == null) ≡ true → Donated t k k
Donated-stop t k e = record { grows = λ u. omega arith; reaches = λ u. stop }
  where
    stop : {u : ℕ} → Blocks k t u → priority_of k t ≤ℤ priority_of k u
    stop here = omega arith
    stop (next ne b) = absurd (ground arith)

Donated-step :
    (t : ℕ) (k k' : Kernel)
    → Donated (blocker k t) (donate_to t (awaited k t) k) k'
    → Donated t k k'
Donated-step t k k' d = record {
  grows = λ u. omega (arith, donate_to-le k t (awaited k t) u, d.grows u);
  reaches = λ u. reach;
}
  where
    reach : {u : ℕ} → Blocks k t u → priority_of k t ≤ℤ priority_of k' u
    reach here = omega (arith, donate_to-le k t (awaited k t) t, d.grows t)
    reach (next {u} ne b) = omega (
      arith,
      donate_to-donated k t (awaited k t),
      d.reaches u (donate_to-Blocks k t (awaited k t) b),
    )

donate_loop-Donated :
    (fuel t : ℕ) (k : Kernel) (rank : ℕ → ℕ)
    → IsAcyclic k rank
    → rank t < fuel
    → (k' : Kernel) × (donate_loop fuel t k ≡ some k') × Donated t k k'
unfolding donate_loop
donate_loop-Donated zero t k rank a enough = absurd (omega arith)
donate_loop-Donated (suc fuel) t k rank a enough = elim (Bool-cases (awaited k t == null)) [
  | inl stop ↦ (k, rw stop, Donated-stop t k stop)
  | inr more ↦
      let ne : awaited k t ≢ null = ground arith in
      let held : (blocker k t == null) ≡ false = ground (arith, a.is_held t ne) in
      let (k', e, d) =
        donate_loop-Donated fuel (blocker k t) (donate_to t (awaited k t) k) rank
          (donate_to-IsAcyclic k t (awaited k t) rank a) (omega (arith, a.falls t ne)) in
      (k', rw more (rw held e), Donated-step t k k' d)
]

-- Where the waiting threads form no cycle and each awaited lock is held, `donate_priority` ends within
-- as many rounds as the rank of the running thread. No thread's priority falls, and every thread on
-- the way along the awaited locks gets at least the priority of the running thread.
pub donate_priority-reaches :
    (k : Kernel) (rank : ℕ → ℕ) (fuel : ℕ)
    → IsAcyclic k rank
    → rank k.current < fuel
    → (k' : Kernel) × (donate_priority fuel k ≡ some k')
      × ((u : ℕ) → priority_of k u ≤ℤ priority_of k' u)
      × ((u : ℕ) → Blocks k k.current u → priority_of k k.current ≤ℤ priority_of k' u)
unfolding donate_priority
donate_priority-reaches k rank fuel a enough =
    let (k', e, d) = donate_loop-Donated fuel k.current k rank a enough in
    (k', e, d.grows, d.reaches)
