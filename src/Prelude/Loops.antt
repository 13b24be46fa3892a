-- ===== src/Prelude/Loops.antt =====
-- The counted loop `for (i = start; i < start + rounds; ++i) state = body(i, state)`.
use Prim.Native.Nat.{ℕ, zero, suc, ◌+◌, ◌<◌, ◌≤◌}
use mathlib.Core.Path.{◌≡◌}
use native.Mathlib.Omega.{arith}
use mathlib.Core.Path.{subst}

unfoldable pub for_range {ℓ} : {S : Type ℓ} → (rounds start : ℕ) → (ℕ → S → S) → S → S
for_range zero start body state = state
for_range (suc rounds) start body state = for_range rounds (suc start) body (body start state)

-- An invariant that every round keeps holds at the end.
pub for_range_rule {ℓ κ} :
    {S : Type ℓ} (P : ℕ → S → Type κ) (body : ℕ → S → S) (rounds start stop : ℕ) (state : S)
    → start + rounds ≡ stop
    → ((i : ℕ) (s : S) → start ≤ i → i < stop → P i s → P (suc i) (body i s))
    → P start state
    → P stop (for_range rounds start body state)
unfolding for_range
for_range_rule P body zero start stop state e keep h =
    subst (λ j. P j state) (let end : start ≡ stop = omega arith in end) h
for_range_rule P body (suc rounds) start stop state e keep h =
    for_range_rule P body rounds (suc start) stop (body start state) (omega arith)
      (λ i s low high p. keep i s (omega arith) high p)
      (keep start state (omega arith) (omega arith) h)
