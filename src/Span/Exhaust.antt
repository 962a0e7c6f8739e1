-- ===== src/Span/Exhaust.antt =====
-- A whole span's worth of calls of `allocate_block`.
use fast_memory_allocator.Base.{
  ℕ, zero, suc, ◌+◌, ◌*◌, ◌≤◌, ◌<◌, ◌≡◌, arith, ltb, leb, ◌==◌, ◌&&◌, sym, ◌∙◌, Bool-cases, ==_iff,
  inl, inr, ap, List, [], ◌∷◌, ap₂, ◌++◌, count-zero_elim, count-false,
}
use fast_memory_allocator.Base.Words.{u64}
use fast_memory_allocator.Span.{Span, Ptr, null, allocate_block, initialize_blocks}
use fast_memory_allocator.Span.Blocks.{is_free, IsWellFormed}
use fast_memory_allocator.Span.Allocate.{
  IsTaken, allocate_block_cases, base-same, block_size-same, block_count-same,
}
use fast_memory_allocator.Span.Initialize.{initialize_blocks-IsWellFormed}

-- The addresses that `n` calls of `allocate_block` return, in order.
unfoldable pub take_blocks : ℕ → Span → List Ptr
take_blocks zero s = []
take_blocks (suc n) s = let (p, t) = allocate_block s in p ∷ take_blocks n t

-- The addresses of `n` consecutive blocks from block `k` on, of blocks of `size` bytes at `base`.
abbrev pub consecutive : Ptr → ℕ → ℕ → ℕ → List Ptr
consecutive base size k zero = []
consecutive base size k (suc n) = u64 (base + u64 (k * size)) ∷ consecutive base size (k + 1) n

module _ (s : Span) (wf : IsWellFormed s) (k : ℕ) where
  -- The blocks from `k` on are free, and no others.
  abbrev pub IsFreeFrom : Type 0
  IsFreeFrom = (b : ℕ) → is_free s b ≡ (leb k b && ltb b s.block_count)

  module _ (from : IsFreeFrom) where
    pos_of_lt : k < s.block_count → 0 < s.free_count
    pos_of_lt lt = elim (Bool-cases (s.free_count == 0)) [
      | inl empty ↦
          let counted = sym wf.counted ∙ (==_iff s.free_count 0).0 empty in
          let clear = count-zero_elim s.block_count k (is_free s) counted lt in
          ground (arith, from k)
      | inr has ↦ ground arith
    ]

    zero_of_eq : k ≡ s.block_count → s.free_count ≡ 0
    zero_of_eq e =
        wf.counted ∙ count-false s.block_count (is_free s) (λ i lt. ground (arith, from i))

    block_is : {p : Ptr} {t : Span} (taken : IsTaken s p t) → k < s.block_count → taken.block ≡ k
    block_is taken lt = ground (arith, taken.was_free, from taken.block, taken.lowest k, from k)

take_blocks_lem :
    (n k : ℕ) (s : Span)
    → IsWellFormed s
    → k + n ≡ s.block_count
    → ((b : ℕ) → is_free s b ≡ (leb k b && ltb b s.block_count))
    → take_blocks (suc n) s ≡ consecutive s.base s.block_size k n ++ (null ∷ [])
unfolding take_blocks
take_blocks_lem zero k s wf e from =
    let full = (allocate_block_cases s wf).1 (zero_of_eq s wf k from (omega arith)) in rw full
take_blocks_lem (suc n) k s wf e from =
    let taken = (allocate_block_cases s wf).0 (pos_of_lt s wf k from (omega arith)) in
    let t = (allocate_block s).1 in
    let first : taken.block ≡ k = block_is s wf k from taken (omega arith) in
    let count : t.block_count ≡ s.block_count = block_count-same taken.shape in
    let rest =
      take_blocks_lem n (k + 1) t taken.well_formed (omega (arith, count))
        (λ b. ground (arith, taken.marked b, from b, first, count)) in
    ap₂ ◌∷◌ (taken.address_eq ∙ ap (λ b. u64 (s.base + u64 (b * s.block_size))) first) (
      rest
      ∙ ap₂ (λ b z. consecutive b z (k + 1) n ++ (null ∷ [])) (base-same taken.shape)
          (block_size-same taken.shape))

-- Starting from a freshly initialised span, `allocate_block` returns its blocks one after the other
-- in the order of their addresses, each once, and then NULL.
pub take_blocks-initialize :
    (s : Span)
    → 0 < s.block_count
    → s.block_count ≤ 4096
    → take_blocks (suc s.block_count) (initialize_blocks s)
      ≡ consecutive s.base s.block_size 0 s.block_count ++ (null ∷ [])
take_blocks-initialize s pos small =
    let (wf, counted, free, shape) = initialize_blocks-IsWellFormed s pos small in
    let all =
      take_blocks_lem s.block_count 0 (initialize_blocks s) wf
        (omega (arith, block_count-same shape))
        (λ b. ground (arith, free b, block_count-same shape)) in
    all
    ∙ ap₂ (λ b z. consecutive b z 0 s.block_count ++ (null ∷ [])) (base-same shape)
        (block_size-same shape)
