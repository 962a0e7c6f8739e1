-- ===== src/Span/Allocate.antt =====
-- `allocate_block`: it takes the lowest free block, if there is one.
use fast_memory_allocator.Base.{
  ℕ, ◌+◌, ◌*◌, ◌/◌, ◌%◌, ◌^◌, ◌<◌, ◌≡◌, ◌≢◌, refl, true, false, not, arith, ltb, ◌==◌,
  if◌then◌else◌, count, count_one_more, count-le, count-pos_elim, count-zero_elim, Bool-cases,
  ==_iff, inl, inr, eq_false, ltb→lt, sym, ap, ◌∙◌,
}
use fast_memory_allocator.Base.Words.{bit, ctz64, u64}
use fast_memory_allocator.Base.Bits.Word.{
  ctz64_lem, below_ctz64, bit-clear_bit, clear_bit-lt, word_ext64, ne-zero_of_bit,
}
use fast_memory_allocator.Base.Bits.{bit-zero}
use fast_memory_allocator.Span.{
  Span, Ptr, allocate_block, first_block_index, mark_allocated, null, bitmap_bit_index,
}
use fast_memory_allocator.Span.Blocks.{bit_of, is_free, IsWellFormed, bit_index_lem}

module _ (s : Span) (wf : IsWellFormed s) where
  -- A word is marked as not empty exactly when one of its blocks is free.
  pub nonfull_of_free : (b : ℕ) → b < 4096 → is_free s b ≡ true → s.nonfull_bitmap ≢ 0
  unfolding bit_of
  nonfull_of_free b h free =
      let w = b / 64 in
      let nz : s.block_bitmap w ≢ 0 = ne-zero_of_bit (s.block_bitmap w) (b % 64) free in
      let set : bit s.nonfull_bitmap w ≡ true = ground (arith, wf.nonfull_marks w) in
      ne-zero_of_bit s.nonfull_bitmap w set

  -- With no free block every word is empty, and so is the upper level.
  no_block_free : s.free_count ≡ 0 → (b : ℕ) → b < 4096 → is_free s b ≡ false
  no_block_free empty b h = elim (Bool-cases (ltb b s.block_count)) [
    | inl inside ↦
        count-zero_elim s.block_count b (is_free s) (sym (wf.counted) ∙ empty) (ltb→lt b _ inside)
    | inr outside ↦ ground (arith, wf.within b h)
  ]

  empty_word : s.free_count ≡ 0 → (w : ℕ) → w < 64 → s.block_bitmap w ≡ 0
  unfolding bit_of
  empty_word empty w h = word_ext64 (s.block_bitmap w) 0 (wf.words_fit w h) (omega arith) λ i lt.
      let quotient : (w * 64 + i) / 64 ≡ w = omega arith in
      let remainder : (w * 64 + i) % 64 ≡ i = omega arith in
      let clear = no_block_free empty (w * 64 + i) (omega arith) in
      (rw (quotient, remainder) at clear) ∙ sym (bit-zero i)

  pub nonfull_of_none : s.free_count ≡ 0 → s.nonfull_bitmap ≡ 0
  nonfull_of_none empty =
      word_ext64 s.nonfull_bitmap 0 wf.nonfull_fits (omega arith)
        λ w lt. ground (arith, wf.nonfull_marks w lt, empty_word empty w lt, bit-zero w)

  pub nonfull_of_pos : 0 < s.free_count → s.nonfull_bitmap ≢ 0
  nonfull_of_pos pos =
      let (b, lt, free) = count-pos_elim s.block_count (is_free s) (omega (arith, wf.counted)) in
      nonfull_of_free b (omega (arith, wf.count_le)) free

  module _ (some_free : s.nonfull_bitmap ≢ 0) where
    abbrev pub word_at : ℕ
    word_at = ctz64 s.nonfull_bitmap

    abbrev pub bit_at : ℕ
    bit_at = ctz64 (s.block_bitmap word_at)

    pub word_at_lem : (word_at < 64) × (s.block_bitmap word_at ≢ 0)
    word_at_lem =
        let found = ctz64_lem s.nonfull_bitmap wf.nonfull_fits some_free in
        (found.0, ground (arith, found, wf.nonfull_marks word_at))

    pub bit_at_lem : (bit_at < 64) × (bit (s.block_bitmap word_at) bit_at ≡ true)
    bit_at_lem =
        ctz64_lem (s.block_bitmap word_at) (wf.words_fit word_at (word_at_lem.0)) (word_at_lem.1)

    first_lem : first_block_index s ≡ bit_at + word_at * 64
    unfolding first_block_index
    first_lem = omega (arith, word_at_lem.0, bit_at_lem.0)

    pub first_word : first_block_index s / 64 ≡ word_at
    first_word = omega (arith, first_lem, bit_at_lem.0)

    pub first_bit : first_block_index s % 64 ≡ bit_at
    first_bit = omega (arith, first_lem, bit_at_lem.0)

    -- The block taken is free, and every block before it is not.
    pub first_is_free : is_free s (first_block_index s) ≡ true
    unfolding bit_of
    first_is_free = rw (first_word, first_bit) (bit_at_lem.1)

    pub first_lt : first_block_index s < 4096
    first_lt = omega (arith, first_lem, word_at_lem.0, bit_at_lem.0)

    pub before_first : (j : ℕ) → j < first_block_index s → is_free s j ≡ false
    unfolding bit_of
    before_first j h = elim (Bool-cases (ltb (j / 64) word_at)) [
      | inl earlier ↦
          let clear : bit s.nonfull_bitmap (j / 64) ≡ false =
            below_ctz64 s.nonfull_bitmap (j / 64) (ground arith) in
          let empty : s.block_bitmap (j / 64) ≡ 0 =
            ground (arith, wf.nonfull_marks (j / 64), word_at_lem.0) in
          rw empty (bit-zero (j % 64))
      | inr same ↦
          let w : j / 64 ≡ word_at = ground (arith, first_lem, bit_at_lem.0) in
          rw w
            (below_ctz64 (s.block_bitmap word_at) (j % 64) (omega (arith, first_lem, bit_at_lem.0)))
    ]

    abbrev pub taken : Span
    taken = mark_allocated word_at (first_block_index s) s

    -- Exactly the first free block stops being free.
    pub is_free-taken :
        (j : ℕ) → is_free taken j ≡ (if first_block_index s == j then false else is_free s j)
    unfolding mark_allocated bit_of
    is_free-taken j = rw (bit_index_lem) (
        ground (
          arith,
          first_word,
          first_bit,
          word_at_lem,
          bit_at_lem,
          bit-clear_bit (s.block_bitmap word_at) (first_block_index s % 64) (j % 64),
        ))

    counts : s.free_count ≡ count s.block_count (is_free taken) + 1
    counts =
        let first = first_block_index s in
        let one_more =
          count_one_more s.block_count first (is_free taken) (is_free s)
            (wf.within first first_lt first_is_free) (ground (arith, is_free-taken first))
            first_is_free (λ i ne. ground (arith, is_free-taken i)) in
        omega (arith, wf.counted, one_more)

    pub free_count-taken : taken.free_count + 1 ≡ s.free_count
    unfolding mark_allocated
    free_count-taken =
        omega (arith, counts, wf.counted, wf.count_le, count-le s.block_count (is_free s))

    taken-nonfull : (w : ℕ) → w < 64 → bit taken.nonfull_bitmap w ≡ not (taken.block_bitmap w == 0)
    unfolding mark_allocated
    taken-nonfull w h = simp bit_index_lem (
        ground
          (arith, word_at_lem, wf.nonfull_marks w, bit-clear_bit s.nonfull_bitmap (word_at % 64) w))

    word_fits : (w : ℕ) → w < 64 → taken.block_bitmap w < 2 ^ 64
    unfolding mark_allocated
    word_fits w h = ground (
      arith,
      wf.words_fit w h,
      clear_bit-lt (s.block_bitmap word_at) (bitmap_bit_index (first_block_index s))
          (wf.words_fit word_at (word_at_lem.0)),
    )

    nonfull_fits : taken.nonfull_bitmap < 2 ^ 64
    unfolding mark_allocated
    nonfull_fits = ground (
      arith,
      wf.nonfull_fits,
      clear_bit-lt s.nonfull_bitmap (bitmap_bit_index word_at) wf.nonfull_fits,
    )

    pub taken-IsWellFormed : IsWellFormed taken
    taken-IsWellFormed = record {
      count_le = unfold mark_allocated in wf.count_le;
      words_fit = λ w h. word_fits w h;
      nonfull_fits = nonfull_fits;
      nonfull_marks = taken-nonfull;
      within = unfold mark_allocated in λ b h free. wf.within b h (ground (arith, is_free-taken b));
      counted = unfold mark_allocated in omega (arith, counts, free_count-taken);
    }

-- The fields that the block operations leave alone.
pub record SameShape (s t : Span) : Type 0 where
  pub rest_same :
      record s {
        free_count = t.free_count;
        nonfull_bitmap = t.nonfull_bitmap;
        block_bitmap = t.block_bitmap;
      }
      ≡ t

-- What `allocate_block` does to a span that has a free block.
pub record IsTaken (s : Span) (address : Ptr) (t : Span) : Type 0 where
  pub block : ℕ
  pub in_range : block < s.block_count
  pub was_free : is_free s block ≡ true
  pub lowest : (j : ℕ) → j < block → is_free s j ≡ false
  pub address_eq : address ≡ u64 (s.base + u64 (block * s.block_size))
  pub marked : (j : ℕ) → is_free t j ≡ (if block == j then false else is_free s j)
  pub one_less : t.free_count + 1 ≡ s.free_count
  pub well_formed : IsWellFormed t
  pub shape : SameShape s t

-- Both cases of `allocate_block`.
pub allocate_block_cases :
    (s : Span)
    → IsWellFormed s
    → (0 < s.free_count → IsTaken s (allocate_block s).0 (allocate_block s).1)
      × (s.free_count ≡ 0 → allocate_block s ≡ (null, s))
allocate_block_cases s wf = (has, full)
  where
    has : 0 < s.free_count → IsTaken s (allocate_block s).0 (allocate_block s).1
    has pos =
        let ne = nonfull_of_pos s wf pos in
        unfold allocate_block in
        rw (eq_false ne) (record {
          block = first_block_index s;
          in_range = wf.within _ (first_lt s wf ne) (first_is_free s wf ne);
          was_free = first_is_free s wf ne;
          lowest = before_first s wf ne;
          address_eq = refl;
          marked = is_free-taken s wf ne;
          one_less = free_count-taken s wf ne;
          well_formed = taken-IsWellFormed s wf ne;
          shape = record { rest_same = unfold mark_allocated in refl };
        })

    full : s.free_count ≡ 0 → allocate_block s ≡ (null, s)
    full none_free = unfold allocate_block in rw (nonfull_of_none s wf none_free)

-- The two outcomes of `allocate_block`.
pub data IsAllocation (s : Span) (r : Ptr × Span) : Type 0 where
  one_block : IsTaken s r.0 r.1 → IsAllocation s r
  no_block : s.free_count ≡ 0 → r ≡ (null, s) → IsAllocation s r

-- On a well-formed span `allocate_block` takes the lowest free block and no other, counts it and
-- keeps the span well-formed; or no block is free, and it returns NULL and changes nothing.
pub allocate_block-IsAllocation : (s : Span) → IsWellFormed s → IsAllocation s (allocate_block s)
allocate_block-IsAllocation s wf = elim (Bool-cases (s.free_count == 0)) [
  | inl none_free ↦
      let e = (==_iff s.free_count 0).0 none_free in no_block e ((allocate_block_cases s wf).1 e)
  | inr some_free ↦ one_block ((allocate_block_cases s wf).0 (ground arith))
]

module _ {s t : Span} (same : SameShape s t) where
  pub base-same : t.base ≡ s.base
  base-same = sym (ap (λ (u : Span). u.base) same.rest_same)

  pub block_size-same : t.block_size ≡ s.block_size
  block_size-same = sym (ap (λ (u : Span). u.block_size) same.rest_same)

  pub block_count-same : t.block_count ≡ s.block_count
  block_count-same = sym (ap (λ (u : Span). u.block_count) same.rest_same)
