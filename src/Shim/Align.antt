-- ===== src/Shim/Align.antt =====
-- Over-aligned allocation: where `shim_memalign` shifts the pointer to, and which alignments
-- `shim_posix_memalign` takes.
use native.Mathlib.Nat.{
  mod_self, div-add-mod', mod-lt, mul-mod_left, one-le-pow, pow-le-pow_right, pow-suc,
}
use Prim.Native.Nat.{bit_and}
use fast_memory_allocator.Base.{
  ℕ, zero, suc, ◌+◌, ◌-◌, ◌/◌, ◌%◌, ◌^◌, ◌≤◌, ◌<◌, ◌≡◌, ◌≢◌, refl, ap, ◌∙◌, false, Option, none,
  some, ltb, leb, ◌==◌, arith, Bool-cases, Option-cases, ==_iff, inl, inr, ◌⊎◌,
}
use fast_memory_allocator.Base.Words.{u64, sub64, not64, max64}
use fast_memory_allocator.Base.Bits.{bit_and_step}
use fast_memory_allocator.Base.Bits.Mask.{bit_and_low}
use fast_memory_allocator.Common.{Runtime}
use fast_memory_allocator.Common.Pages.{clear_low}
use fast_memory_allocator.Span.{Ptr, null}
use fast_memory_allocator.RangeMap.{Allocator}
use fast_memory_allocator.SpanHeap.{Mapper}
use fast_memory_allocator.Cmalloc.{Heap, cmalloc}
use fast_memory_allocator.Shim.{
  shim_memalign, shim_posix_memalign, is_bad_alignment, einval, enomem, store_pointer,
}

-- A pointer to `size` bytes at a multiple of `alignment`, inside the block at `raw` that is larger
-- by all but one byte of the alignment.
pub record IsShifted (alignment size : ℕ) (raw ptr : Ptr) : Type 0 where
  pub aligned : ptr % alignment ≡ 0
  pub after : raw ≤ ptr
  pub inside : ptr + size ≤ raw + (size + alignment - 1)

-- The rounding in `shim_memalign`.
rounded_up :
    (k size : ℕ) (raw : Ptr)
    → k < 64
    → raw + (size + 2 ^ k - 1) < 2 ^ 64
    → IsShifted (2 ^ k) size raw (bit_and (sub64 (u64 (raw + 2 ^ k)) 1) (not64 (sub64 (2 ^ k) 1)))
rounded_up k size raw lt below =
    let pos = one-le-pow k 2 (omega arith) in
    let top = raw + 2 ^ k - 1 in
    let sum : sub64 (u64 (raw + 2 ^ k)) 1 ≡ top = omega (arith, pos) in
    let mask : sub64 (2 ^ k) 1 ≡ 2 ^ k - 1 = omega (arith, pos) in
    let cut = clear_low k top lt (omega (arith, pos)) in
    let whole = div-add-mod' top (2 ^ k) in
    let rest = mod-lt top pos in
    rw (sum, mask, cut)
      (record {
        aligned = mul-mod_left (top / 2 ^ k) (2 ^ k);
        after = omega (arith, whole, rest, pos);
        inside = omega (arith, whole, pos);
      })

module _ (a : Allocator) (o : Mapper) (r : Runtime) where
  pub record IsMemalign (alignment size : ℕ) (raw : Ptr) (h1 : Heap a o)
      (result : Option (Ptr × Heap a o)) : Type 0 where
    pub ptr : Ptr
    pub returns : result ≡ some (ptr, h1)
    pub shifted : IsShifted alignment size raw ptr

  -- For an alignment of 2 ^ k above 16 the pointer that `shim_memalign` returns is a multiple of it,
  -- and the requested bytes behind it lie inside the block that `cmalloc` gave, if the sum of size
  -- and alignment and the end of the block are below 2 ^ 64.
  pub shim_memalign-IsMemalign :
      (k size : ℕ) (raw : Ptr) (h h1 : Heap a o)
      → 16 < 2 ^ k
      → k < 64
      → size + 2 ^ k < 2 ^ 64
      → cmalloc a o r (size + 2 ^ k - 1) h ≡ some (raw, h1)
      → raw ≢ null
      → raw + (size + 2 ^ k - 1) < 2 ^ 64
      → IsMemalign (2 ^ k) size raw h1 (shim_memalign a o r (2 ^ k) size h)
  unfolding shim_memalign
  shim_memalign-IsMemalign k size raw h h1 large lt fits runs real below =
      let wide : leb (2 ^ k) 16 ≡ false = ground arith in
      let room : ltb (sub64 max64 (2 ^ k)) size ≡ false = ground arith in
      let request : sub64 (u64 (size + 2 ^ k)) 1 ≡ size + 2 ^ k - 1 = omega arith in
      let there : (raw == null) ≡ false = ground arith in
      record {
        ptr = bit_and (sub64 (u64 (raw + 2 ^ k)) 1) (not64 (sub64 (2 ^ k) 1));
        returns = rw (wide, room, request, runs, there) refl;
        shifted = rounded_up k size raw lt below;
      }

-- A power of two from 8 on.
pub record IsAlignment (n : ℕ) : Type 0 where
  pub exponent : ℕ
  pub large : 3 ≤ exponent
  pub power : n ≡ 2 ^ exponent

bit_and_same : (fuel n : ℕ) → n < 2 ^ fuel → bit_and n n ≡ n
bit_and_same zero n lt = let e : n ≡ 0 = omega arith in rw (e, bit_and_step) refl
bit_and_same (suc fuel) n lt =
    bit_and_step n n ∙ omega (arith, bit_and_same fuel (n / 2) (omega (arith, pow-suc 2 fuel)))

-- A number that has no bit in common with its predecessor is a power of two.
one_bit : (fuel n : ℕ) → n < 2 ^ fuel → 0 < n → bit_and n (n - 1) ≡ 0 → (k : ℕ) × (n ≡ 2 ^ k)
one_bit zero n lt pos e = absurd (omega arith)
one_bit (suc fuel) n lt pos e = elim (Bool-cases ((n % 2) == 0)) [
  | inl even ↦
      let half : (n - 1) / 2 ≡ n / 2 - 1 = ground arith in
      let rest : bit_and (n / 2) (n / 2 - 1) ≡ 0 =
        omega (arith, e, bit_and_step n (n - 1), ap (λ (x : ℕ). bit_and (n / 2) x) half) in
      let (k, power) = one_bit fuel (n / 2) (omega (arith, pow-suc 2 fuel)) (ground arith) rest in
      (suc k, ground (arith, power, pow-suc 2 k))
  | inr odd ↦
      let half : (n - 1) / 2 ≡ n / 2 = ground arith in
      let rest : n / 2 ≡ 0 = omega (
        arith,
        e,
        bit_and_step n (n - 1),
        ap (λ (x : ℕ). bit_and (n / 2) x) half,
        bit_and_same fuel (n / 2) (omega (arith, pow-suc 2 fuel)),
      ) in
      (0, ground (arith, rest))
]

good_power : (k : ℕ) → 3 ≤ k → k < 64 → is_bad_alignment (2 ^ k) ≡ false
unfolding is_bad_alignment
good_power k le lt =
    let large = pow-le-pow_right {n = 2} (omega arith) {i = 3} {j = k} le in
    let mask : sub64 (2 ^ k) 1 ≡ 2 ^ k - 1 =
      omega (arith, pow-le-pow_right {n = 2} (omega arith) {i = k} {j = 63} (omega arith), large) in
    let none_left : bit_and (2 ^ k) (2 ^ k - 1) ≡ 0 = bit_and_low k (2 ^ k) ∙ mod_self (2 ^ k) in
    rw (mask, none_left) (ground (arith, large))

good_alignment : (n : ℕ) → n < 2 ^ 64 → IsAlignment n → is_bad_alignment n ≡ false
good_alignment n lt good =
    let k = good.exponent in
    ap is_bad_alignment good.power
    ∙ good_power k good.large (elim (Bool-cases (ltb k 64)) [
      | inl e ↦ ground arith
      | inr e ↦
          let big = pow-le-pow_right {n = 2} (omega arith) {i = 64} {j = k} (ground arith) in
          let power = good.power in absurd (omega (arith, big, power))
    ])

-- The test of `shim_posix_memalign` for its alignment.
test-IsAlignment : (n : ℕ) → n < 2 ^ 64 → is_bad_alignment n ≡ false → IsAlignment n
unfolding is_bad_alignment
test-IsAlignment n lt good =
    let mask : sub64 n 1 ≡ n - 1 = ground arith in
    let (k, power) = one_bit 64 n lt (ground arith) (ground (arith, mask)) in
    record {
      exponent = k;
      large = elim (Bool-cases (leb 3 k)) [
        | inl e ↦ ground arith
        | inr e ↦
            let small = pow-le-pow_right {n = 2} (omega arith) {i = k} {j = 2} (ground arith) in
            absurd (ground (arith, small, power))
      ];
      power = power;
    }

module _ (a : Allocator) (o : Mapper) (r : Runtime) where
  -- The answers of `shim_posix_memalign`.
  pub data IsPosix (out : Ptr) (alignment size : ℕ) (h : Heap a o)
      : Option (ℕ × Heap a o) → Type 0 where
    invalid :
        (out ≡ null) ⊎ ¬ (IsAlignment alignment) → IsPosix out alignment size h (some (einval, h))
    no_memory :
        {h1 : Heap a o}
        → out ≢ null
        → IsAlignment alignment
        → shim_memalign a o r alignment size h ≡ some (null, h1)
        → IsPosix out alignment size h (some (enomem, h1))
    stored :
        {ptr : Ptr} {h1 : Heap a o}
        → out ≢ null
        → IsAlignment alignment
        → ptr ≢ null
        → shim_memalign a o r alignment size h ≡ some (ptr, h1)
        → IsPosix out alignment size h
            (some (0, record h1 { memory = store_pointer out ptr h1.memory }))
    assertion_failed :
        out ≢ null
        → IsAlignment alignment
        → shim_memalign a o r alignment size h ≡ none
        → IsPosix out alignment size h none

  -- `shim_posix_memalign` returns EINVAL exactly for a NULL target or an alignment that is no power
  -- of two from 8 on, and changes nothing then; else ENOMEM if `shim_memalign` gives NULL, or 0 with
  -- the pointer stored at the target.
  pub shim_posix_memalign-IsPosix :
      (out : Ptr) (alignment size : ℕ) (h : Heap a o)
      → alignment < 2 ^ 64
      → IsPosix out alignment size h (shim_posix_memalign a o r out alignment size h)
  unfolding shim_posix_memalign
  shim_posix_memalign-IsPosix out alignment size h lt = elim (Bool-cases (out == null)) [
    | inl e ↦ rw e (invalid (inl ((==_iff out null).0 e)))
    | inr there ↦ elim (Bool-cases (is_bad_alignment alignment)) [
      | inl bad ↦
          rw (there, bad) (invalid (inr λ good. ground (arith, good_alignment alignment lt good)))
      | inr ok ↦
          let good = test-IsAlignment alignment lt ok in
          let real : out ≢ null = ground arith in
          elim (Option-cases (shim_memalign a o r alignment size h)) [
            | inl fails ↦ rw (there, ok, fails) (assertion_failed real good fails)
            | inr ((ptr, h1), runs) ↦ elim (Bool-cases (ptr == null)) [
              | inl e ↦
                  rw (there, ok, runs, e)
                    (no_memory real good
                      (rw runs (ap (λ (x : Ptr). some (x, h1)) ((==_iff ptr null).0 e))))
              | inr e ↦ rw (there, ok, runs, e) (stored real good (ground arith) runs)
            ]
          ]
    ]
  ]
