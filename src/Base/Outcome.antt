-- ===== src/Base/Outcome.antt =====
-- What holds of the result of code that may fail, if there is one.
use mathlib.Core.Path.{◌≡◌, refl, subst}
use mathlib.Core.Bool.{Bool, true, false}
use mathlib.Core.Option.{Option, none, some}
use fast_memory_allocator.Base.Tests.{◌>>=◌, if◌then◌else◌}

pub data OnResult {ℓ ℓ'} {A : Type ℓ} (P : A → Type ℓ') : Option A → Type (ℓ ⊔ ℓ') where
  no_result : OnResult P none
  result : {x : A} → P x → OnResult P (some x)

module _ {ℓ ℓ'} {A : Type ℓ} {P : A → Type ℓ'} where
  pub on_result : {x : A} → OnResult P (some x) → P x
  on_result (result p) = p

  pub on_equal : {m : Option A} {x : A} → m ≡ some x → OnResult P m → P x
  on_equal e h = on_result (subst (OnResult P) e h)

  pub on_weaken {ℓ''} :
      {Q : A → Type ℓ''} {m : Option A}
      → OnResult P m
      → ((x : A) → P x → OnResult Q (some x))
      → OnResult Q m
  on_weaken no_result h = no_result
  on_weaken (result {x} p) h = h x p

  -- The last step of a chain.
  pub on_last : (m : Option A) → OnResult P (m >>= λ x. some x) → OnResult P m
  on_last none h = h
  on_last (some x) h = h

  -- Both branches of a test.
  pub on_either :
      (b : Bool) {m n : Option A}
      → (b ≡ true → OnResult P m)
      → (b ≡ false → OnResult P n)
      → OnResult P (if b then m else n)
  on_either true h h' = h refl
  on_either false h h' = h' refl

module _ {ℓ ℓ' κ} {A : Type ℓ} {B : Type κ} {Q : B → Type ℓ'} where
  -- A step of a chain, with what is known of its result or with nothing.
  pub on_bind {ℓ''} :
      {P : A → Type ℓ''} {m : Option A} {f : A → Option B}
      → OnResult P m
      → ((x : A) → P x → OnResult Q (f x))
      → OnResult Q (m >>= f)
  on_bind no_result step = no_result
  on_bind {P} (result {x} p) step = step x p

  pub on_then :
      (m : Option A) {f : A → Option B} → ((x : A) → OnResult Q (f x)) → OnResult Q (m >>= f)
  on_then none step = no_result
  on_then (some x) step = step x

-- A chain of which each result of the first part fails in the second.
pub bind_none {ℓ κ ℓ'} :
    {A : Type ℓ} {B : Type κ} {P : A → Type ℓ'} {m : Option A} {f : A → Option B}
    → OnResult P m
    → ((x : A) → P x → f x ≡ none)
    → (m >>= f) ≡ none
bind_none no_result h = refl
bind_none (result {x} p) h = h x p

-- The same for code whose failure is accounted for: it returns such a result, or `F` holds.
pub data OnRun {ℓ ℓ'} {A : Type ℓ} (F : Type 0) (P : A → Type ℓ') : Option A → Type (ℓ ⊔ ℓ') where
  stopped : F → OnRun F P none
  yields : {x : A} → P x → OnRun F P (some x)

module _ {ℓ ℓ'} {F : Type 0} {A : Type ℓ} {P : A → Type ℓ'} where
  pub run_equal : {m : Option A} {x : A} → m ≡ some x → OnRun F P m → P x
  run_equal {x} e h = go (subst (OnRun F P) e h)
    where
      go : OnRun F P (some x) → P x
      go (yields p) = p

  pub run_stopped : {m : Option A} → m ≡ none → OnRun F P m → F
  run_stopped e h = go (subst (OnRun F P) e h)
    where
      go : OnRun F P none → F
      go (stopped f) = f

  pub run_weaken {ℓ''} :
      {Q : A → Type ℓ''} {m : Option A}
      → OnRun F P m
      → ((x : A) → P x → OnRun F Q (some x))
      → OnRun F Q m
  run_weaken (stopped f) h = stopped f
  run_weaken (yields {x} p) h = h x p

  pub run_either :
      (b : Bool) {m n : Option A}
      → (b ≡ true → OnRun F P m)
      → (b ≡ false → OnRun F P n)
      → OnRun F P (if b then m else n)
  run_either true h h' = h refl
  run_either false h h' = h' refl

pub run_bind {ℓ ℓ' ℓ'' κ} :
    {F : Type 0} {A : Type ℓ} {B : Type κ} {P : A → Type ℓ''} {Q : B → Type ℓ'} {m : Option A}
    {f : A → Option B}
    → OnRun F P m
    → ((x : A) → P x → OnRun F Q (f x))
    → OnRun F Q (m >>= f)
run_bind (stopped h) step = stopped h
run_bind {P} (yields {x} p) step = step x p

-- Another account of the failures.
pub run_because {ℓ ℓ'} :
    {F G : Type 0} {A : Type ℓ} {P : A → Type ℓ'} {m : Option A}
    → (F → G)
    → OnRun F P m
    → OnRun G P m
run_because h (stopped f) = stopped (h f)
run_because h (yields p) = yields p
