-- ===== src/Base/Arrays.antt =====
-- C arrays as functions of the index. Where the program can index out of range, the model of that
-- operation says what happens; a function has no range of its own.
use Prim.Native.Nat.{ℕ}
use mathlib.Core.Path.{◌≡◌, fun_ext}
use native.Mathlib.Omega.{arith}
use fast_memory_allocator.Base.Tests.{◌==◌, if◌then◌else◌}

module _ {ℓ} {A : Type ℓ} where
  abbrev pub update : (ℕ → A) → ℕ → A → ℕ → A
  update f i v j = if i == j then v else f j

  pub update_at : (f : ℕ → A) (i : ℕ) (v : A) → update f i v i ≡ v
  update_at f i v = ground arith

  pub update-update : (f : ℕ → A) (i : ℕ) (v w : A) → update (update f i v) i w ≡ update f i w
  update-update f i v w = fun_ext λ j. ground arith

  -- Writing back what an array holds changes nothing.
  pub update_self : (f : ℕ → A) (i : ℕ) (v : A) → f i ≡ v → update f i v ≡ f
  update_self f i v e = fun_ext λ j. ground arith
