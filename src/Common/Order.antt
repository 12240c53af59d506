-- ===== src/Common/Order.antt =====
-- The order of the native numbers is well founded, for loops that shrink a number.
use Prim.Native.Nat.{ℕ, zero, suc, ◌<◌}
use mathlib.Core.WellFounded.{Acc, WellFounded}
use native.Mathlib.Omega.{arith}

reach_below : (bound n : ℕ) → n < bound → Acc ◌<◌ n
reach_below zero n h = elim h [ ]
reach_below (suc bound) n h = Acc.intro n (λ m less. reach_below bound m (omega arith))

unfoldable pub lt_wf : WellFounded ◌<◌
unfolding reach_below
lt_wf = record { apply = λ n. reach_below (suc n) n (omega arith) }
