-- ===== src/Span/Initialize.antt =====
-- The bitmaps that `cmalloc_initialize_span` fills: every block of the span is free.
use fast_memory_allocator.Base.{
  ℕ, zero, suc, ◌+◌, ◌-◌, ◌*◌, ◌/◌, ◌%◌, ◌^◌, ◌≤◌, ◌<◌, ◌≡◌, refl, true, arith, ltb, leb, ◌==◌,
  ◌||◌, ◌&&◌, if◌then◌else◌, update, count-true, sym, ◌∙◌, Bool-cases, inl, inr, ap,
}
use fast_memory_allocator.Base.Words.{bit, u64, sub64, set_bit, bit_mask}
use fast_memory_allocator.Base.Bits.{bit_ones, bit-zero}
use fast_memory_allocator.Base.Bits.Word.{bit-set_bit, set_bit-lt, ne-zero_of_bit, pow-lt}
use fast_memory_allocator.Span.{Span, free_blocks, fill_words, initialize_blocks, bitmap_bit_index}
use fast_memory_allocator.Span.Blocks.{bit_of, is_free, IsWellFormed, bit_index_lem}
use fast_memory_allocator.Span.Allocate.{SameShape}
use native.Mathlib.Nat.{one-le-pow}

-- The bits of a word of the initial bitmap.
bit-free_blocks :
    (n last i j : ℕ)
    → j < 64
    → bit (free_blocks n last i) j ≡ (if (i == n - 1) && ltb last 64 then ltb j last else true)
unfolding free_blocks
bit-free_blocks n last i j h = elim (Bool-cases ((i == n - 1) && ltb last 64)) [
  | inl partial ↦
      let mask : sub64 (bit_mask last) 1 ≡ 2 ^ last - 1 =
        ground (arith, pow-lt last, one-le-pow last 2) in
      rw (partial, mask) (bit_ones last j)
  | inr whole ↦ rw whole (bit_ones 64 j ∙ ground arith)
]

free_blocks-lt : (n last i : ℕ) → free_blocks n last i < 2 ^ 64
unfolding free_blocks
free_blocks-lt n last i = ground arith

-- What the loop has done when it ends.
record IsFilled (n last left k : ℕ) (s t : Span) : Type 0 where
  words :
      (w : ℕ)
      → t.block_bitmap w
        ≡ (if leb k w && ltb w (k + left) then free_blocks n last w else s.block_bitmap w)
  marks :
      (w : ℕ)
      → w < 64
      → bit t.nonfull_bitmap w ≡ ((leb k w && ltb w (k + left)) || bit s.nonfull_bitmap w)
  fits : t.nonfull_bitmap < 2 ^ 64
  count_same : t.free_count ≡ s.free_count
  shape : SameShape s t

fill_words-IsFilled :
    (n last left k : ℕ) (s : Span)
    → k + left ≤ 64
    → s.nonfull_bitmap < 2 ^ 64
    → IsFilled n last left k s (fill_words n last left k s)
unfolding fill_words
fill_words-IsFilled n last zero k s room fits = record {
  words = λ w. ground arith;
  marks = λ w h. ground arith;
  fits = fits;
  count_same = refl;
  shape = record { rest_same = refl };
}
fill_words-IsFilled n last (suc left) k s room fits =
    let s' : Span = record s {
      block_bitmap = update s.block_bitmap k (free_blocks n last k);
      nonfull_bitmap = set_bit s.nonfull_bitmap (bitmap_bit_index k);
    } in
    let fits' : s'.nonfull_bitmap < 2 ^ 64 =
      set_bit-lt s.nonfull_bitmap _ fits (omega (arith, bit_index_lem k)) in
    let rest = fill_words-IsFilled n last left (k + 1) s' (omega arith) fits' in
    record {
      words = λ w. ground (arith, rest.words w);
      marks = λ w h. ground (
        arith,
        rest.marks w h,
        bit_index_lem k,
        bit-set_bit s.nonfull_bitmap (bitmap_bit_index k) w,
      );
      fits = rest.fits;
      count_same = rest.count_same;
      shape = record { rest_same = rest.shape.rest_same };
    }

module _ (s : Span) (pos : 0 < s.block_count) (small : s.block_count ≤ 4096) where
  abbrev n : ℕ
  n = (s.block_count + 63) / 64

  abbrev last : ℕ
  last = s.block_count - (n - 1) * 64

  abbrev cleared : Span
  cleared = record s { free_count = s.block_count; nonfull_bitmap = 0; block_bitmap = λ i. 0 }

  abbrev filled : Span
  filled = fill_words n last n 0 cleared

  runs : initialize_blocks s ≡ filled
  unfolding initialize_blocks
  runs =
      let words : u64 (s.block_count + 63) / 64 ≡ n = omega arith in
      let rest : sub64 s.block_count (sub64 n 1 * 64) ≡ last = omega arith in rw (words, rest)

  is : IsFilled n last n 0 cleared filled
  is = fill_words-IsFilled n last n 0 cleared (omega arith) (omega arith)

  filled_bit : (w j : ℕ) → j < 64 → bit (filled.block_bitmap w) j ≡ ltb (w * 64 + j) s.block_count
  filled_bit w j h = ground (arith, is.words w, bit-free_blocks n last w j, bit-zero j)

  filled_free : (b : ℕ) → is_free filled b ≡ ltb b s.block_count
  unfolding bit_of
  filled_free b = filled_bit (b / 64) (b % 64) (omega arith) ∙ ground arith

  same_count : filled.block_count ≡ s.block_count
  same_count = sym (ap (λ (t : Span). t.block_count) is.shape.rest_same)

  filled-IsWellFormed : IsWellFormed filled
  filled-IsWellFormed = record {
    count_le = omega (arith, same_count);
    words_fit = λ w h. ground (arith, is.words w, free_blocks-lt n last w);
    nonfull_fits = is.fits;
    nonfull_marks = λ w h. elim (Bool-cases (ltb w n)) [
      | inl used ↦
          let ne = ne-zero_of_bit (filled.block_bitmap w) 0 (ground (arith, filled_bit w 0)) in
          ground (arith, is.marks w h, bit-zero w)
      | inr unused ↦ ground (arith, is.words w, is.marks w h, bit-zero w)
    ];
    within = λ b h free. ground (arith, filled_free b, same_count);
    counted = rw same_count (
        is.count_same
        ∙ sym (count-true s.block_count (is_free filled) (λ i lt. ground (arith, filled_free i))));
  }

-- A span initialised with 1 to 4096 blocks is well-formed, all of its blocks are free and it has no
-- others; no field but the bitmaps and the count of free blocks changes.
pub initialize_blocks-IsWellFormed :
    (s : Span)
    → 0 < s.block_count
    → s.block_count ≤ 4096
    → let t = initialize_blocks s in
      IsWellFormed t
      × (t.free_count ≡ s.block_count)
      × ((b : ℕ) → is_free t b ≡ ltb b s.block_count)
      × SameShape s t
initialize_blocks-IsWellFormed s pos small = rw (runs s pos small) (
  filled-IsWellFormed s pos small,
  (is s pos small).count_same,
  filled_free s pos small,
  record { rest_same = (is s pos small).shape.rest_same },
)
