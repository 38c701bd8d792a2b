-- ===== src/Prelude/Loops.antt =====
-- `while (test) body` with fuel, and its invariant rule.
use Prim.Native.Nat.{ℕ, zero, suc, ◌<◌}
use mathlib.Core.Path.{◌≡◌}
use mathlib.Core.Bool.{Bool, true, false}
use native.Mathlib.Omega.{arith}

module _ {ℓ} {State : Type ℓ} where
  -- at most so many rounds
  unfoldable pub while : ℕ → (State → Bool) → (State → State) → State → State
  while zero test round now = now
  while (suc rounds) test round now = elim (test now) [
    | false ↦ now
    | true ↦ while rounds test round (round now)
  ]

  -- If each round keeps the invariant and brings a measure down, and there are more rounds than the
  -- measure at the start, then the loop ends by its test.
  pub while_inv {κ} :
      (Holds : State → Type κ) (left : State → ℕ) (test : State → Bool) (round : State → State)
      → ((now : State)
          → Holds now
          → test now ≡ true
          → Holds (round now) × (left (round now) < left now))
      → (rounds : ℕ) (now : State) → left now < rounds
      → Holds now
      → Holds (while rounds test round now) × (test (while rounds test round now) ≡ false)
  unfolding while
  while_inv Holds left test round one zero now less start = absurd (omega arith)
  while_inv Holds left test round one (suc rounds) now less start =
      ground (arith, while_inv Holds left test round one rounds (round now), one now start)
