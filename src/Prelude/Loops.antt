-- ===== src/Prelude/Loops.antt =====
-- Recursion on a number that falls.
use Prim.Native.Nat.{ℕ, zero, suc, ◌<◌}
use mathlib.Core.WellFounded.{Acc}
use native.Mathlib.Omega.{arith}

-- Every number up to `bound` is accessible.
reachable : (bound n : ℕ) → n < bound → Acc ◌<◌ n
reachable zero n h = absurd (omega arith)
reachable (suc bound) n h = Acc.intro n (λ m below. reachable bound m (omega arith))

unfoldable pub falls : (n : ℕ) → Acc ◌<◌ n
unfolding reachable
falls n = reachable (suc n) n (omega arith)
