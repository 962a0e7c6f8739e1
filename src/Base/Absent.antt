-- ===== src/Base/Absent.antt =====
-- Lists of addresses without repetitions.
use Prim.Native.Nat.{ℕ}
use mathlib.Core.Logic.{◌≢◌}
use mathlib.Core.List.{List, [], ◌∷◌}

-- `p` is not in the list.
pub data IsAbsent (p : ℕ) : List ℕ → Type 0 where
  absent_nil : IsAbsent p []
  absent_cons : {q : ℕ} {qs : List ℕ} → p ≢ q → IsAbsent p qs → IsAbsent p (q ∷ qs)
