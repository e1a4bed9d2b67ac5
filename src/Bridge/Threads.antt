-- ===== src/Bridge/Threads.antt =====
-- The threads of one process, numbered from 0: where each stands, and how many stand somewhere.
use native.Mathlib.Decide.{dec_lt, ℕ_discrete}
use mathlib.Core.Logic.{ite}
use glacis_webhook_service.Base.{
  ℕ, zero, suc, ◌+◌, ◌≤◌, ◌<◌, ◌≡◌, refl, arith, Bool, true, false, subst,
}

-- One thread moves.
abbrev pub move {ℓ} : {P : Type ℓ} → (ℕ → P) → ℕ → P → ℕ → P
move at i p j = ite (ℕ_discrete i j) p (at j)

-- What holds where the thread has moved, and where the others stand, holds at every thread.
pub moved_at {ℓ κ} :
    {P : Type ℓ} (Q : ℕ → P → Type κ) (at : ℕ → P) (i : ℕ) (p : P) (j : ℕ)
    → Q i p
    → Q j (at j)
    → Q j (move at i p j)
moved_at Q at i p j h k = elim (ℕ_discrete i j) as (λ d. Q j (ite d p (at j))) [
  | yes e ↦ subst (λ x. Q x p) e h
  | no n ↦ k
]

abbrev one_if : Bool → ℕ
one_if true = 1
one_if false = 0

module _ {ℓ} {P : Type ℓ} (test : P → Bool) where
  -- How many of the first `n` threads stand where the test holds.
  pub count : ℕ → (ℕ → P) → ℕ
  count zero at = 0
  count (suc n) at = one_if (test (at n)) + count n at

  count-out : (n : ℕ) (at : ℕ → P) (i : ℕ) (p : P) → n ≤ i → count n (move at i p) ≡ count n at
  unfolding count
  count-out zero at i p h = refl
  count-out (suc n) at i p h = ground (arith, count-out n at i p)

  pub count-move :
      (n : ℕ) (at : ℕ → P) (i : ℕ) (p : P)
      → i < n
      → count n (move at i p) + one_if (test (at i)) ≡ count n at + one_if (test p)
  unfolding count
  count-move zero at i p h = absurd (omega arith)
  count-move (suc n) at i p h = elim (dec_lt i n) [
    | yes below ↦ ground (arith, count-move n at i p below)
    | no last ↦ ground (arith, count-out n at i p)
  ]

  pub count-none : (n : ℕ) (p : P) → test p ≡ false → count n (λ i. p) ≡ 0
  unfolding count
  count-none zero p h = refl
  count-none (suc n) p h = ground (arith, count-none n p h)
