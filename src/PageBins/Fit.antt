-- ===== src/PageBins/Fit.antt =====
-- The search finds the smallest page count, from the one asked for on, whose bin is marked.
use fast_memory_allocator.Base.{
  ℕ, zero, suc, ◌+◌, ◌*◌, ◌/◌, ◌%◌, ◌^◌, ◌≤◌, ◌<◌, ◌≡◌, ◌≢◌, Bool, true, false, ◌&&◌, arith, ltb,
  leb, ◌==◌, ap, ◌∙◌, Bool-cases, ==_iff, ltb→lt, inl, inr,
}
use fast_memory_allocator.Base.Words.{bit, ctz64, keep_from}
use fast_memory_allocator.Base.Bits.{bit-zero}
use fast_memory_allocator.Base.Bits.Word.{ctz64_lem, below_ctz64, bit-keep_from, keep_from-lt}
use fast_memory_allocator.Span.Blocks.{bit_of, bit_index_lem}
use fast_memory_allocator.PageBins.{
  PageBins, no_fitting_page_sequence, first_in_word, read_word, scan_words,
  find_best_fitting_uninitialized_span, page_bit_index,
}

-- Whether the bin of `page_count` is marked as not empty.
abbrev pub is_marked : PageBins → ℕ → Bool
is_marked b page_count = bit_of b.non_empty_bitmap page_count

-- `r` is the first marked index from `lo` on that is not in a word before `word_index`.
data IsFirst (bitmap : ℕ → ℕ) (lo word_index : ℕ) : ℕ → Type 0 where
  found :
      {r : ℕ}
      → r < 8193
      → lo ≤ r
      → bit_of bitmap r ≡ true
      → ((i : ℕ) → lo ≤ i → word_index * 64 ≤ i → i < r → bit_of bitmap i ≡ false)
      → IsFirst bitmap lo word_index r
  missing :
      ((i : ℕ) → lo ≤ i → word_index * 64 ≤ i → i < 8193 → bit_of bitmap i ≡ false)
      → IsFirst bitmap lo word_index no_fitting_page_sequence

-- `word` holds the marked indices of word `word_index` that are at least `lo`.
abbrev IsMasked : (ℕ → ℕ) → ℕ → ℕ → ℕ → Type 0
IsMasked bitmap lo word_index word =
    (j : ℕ) → j < 64 → bit word j ≡ (bit (bitmap word_index) j && leb lo (word_index * 64 + j))

module _ (bitmap : ℕ → ℕ) (lo word_index word : ℕ) (fits : word < 2 ^ 64)
    (masked : IsMasked bitmap lo word_index word) where
  masked_at : (i : ℕ) → lo ≤ i → i / 64 ≡ word_index → bit_of bitmap i ≡ bit word (i % 64)
  unfolding bit_of
  masked_at i le e = rw e (ground (arith, masked (i % 64)))

  first_in_word-IsFirst : word ≢ 0 → IsFirst bitmap lo word_index (first_in_word word_index word)
  unfolding first_in_word
  first_in_word-IsFirst ne =
      let hit = ctz64_lem word fits ne in
      let r = word_index * 64 + ctz64 word in
      let quotient : r / 64 ≡ word_index = omega (arith, hit.0) in
      let remainder : r % 64 ≡ ctz64 word = omega (arith, hit.0) in
      let le : lo ≤ r = ground (arith, hit, masked (ctz64 word)) in
      let before : (i : ℕ) → lo ≤ i → word_index * 64 ≤ i → i < r → bit_of bitmap i ≡ false =
        λ i ge same lt.
          masked_at i ge (omega (arith, hit.0))
          ∙ below_ctz64 word (i % 64) (omega (arith, hit.0)) in
      elim (Bool-cases (ltb r 8193)) [
        | inl inside ↦ rw inside (
            found (ltb→lt r 8193 inside) le
              (masked_at r le quotient ∙ ap (bit word) remainder ∙ hit.1) before)
        | inr outside ↦ rw outside (missing (λ i ge same lt. before i ge same (ground arith)))
      ]

  nothing_here : word ≡ 0 → (i : ℕ) → lo ≤ i → i / 64 ≡ word_index → bit_of bitmap i ≡ false
  nothing_here e i le same = masked_at i le same ∙ ap (λ w. bit w (i % 64)) e ∙ bit-zero (i % 64)

-- A word without a hit is passed over.
IsFirst-skip :
    {bitmap : ℕ → ℕ} {lo word_index r : ℕ}
    → ((i : ℕ) → lo ≤ i → i / 64 ≡ word_index → bit_of bitmap i ≡ false)
    → IsFirst bitmap lo (word_index + 1) r
    → IsFirst bitmap lo word_index r
IsFirst-skip {word_index} clear (found lt le on before) = found lt le on λ i ge from below.
    elim (Bool-cases (i / 64 == word_index)) [
      | inl here ↦ clear i ge ((==_iff (i / 64) word_index).0 here)
      | inr later ↦ before i ge (ground arith) below
    ]
IsFirst-skip {word_index} clear (missing none_there) = missing λ i ge from below.
    elim (Bool-cases (i / 64 == word_index)) [
      | inl here ↦ clear i ge ((==_iff (i / 64) word_index).0 here)
      | inr later ↦ none_there i ge (ground arith) below
    ]

read_word_lem : (word_index answer : ℕ) → word_index < 129 → read_word word_index answer ≡ answer
unfolding read_word
read_word_lem word_index answer lt = ground arith

module _ (bitmap : ℕ → ℕ) (fit : (w : ℕ) → w < 129 → bitmap w < 2 ^ 64) (lo : ℕ) where
  scan_words-IsFirst :
      (fuel word_index word : ℕ)
      → word_index < 129
      → 129 ≤ word_index + fuel
      → lo ≤ (word_index + 1) * 64
      → word < 2 ^ 64
      → IsMasked bitmap lo word_index word
      → IsFirst bitmap lo word_index (scan_words fuel bitmap word_index word)
  unfolding scan_words
  scan_words-IsFirst zero word_index word lt enough le fits masked = absurd (omega arith)
  scan_words-IsFirst (suc fuel) word_index word lt enough le fits masked =
      elim (Bool-cases (word == 0)) [
        | inr hit ↦
            rw hit (first_in_word-IsFirst bitmap lo word_index word fits masked (ground arith))
        | inl empty ↦
            let clear =
              nothing_here bitmap lo word_index word fits masked ((==_iff word 0).0 empty) in
            elim (Bool-cases (leb 129 (word_index + 1))) [
              | inl last ↦
                  rw (empty, last) (missing λ i ge from below. clear i ge (ground (arith, last)))
              | inr more ↦
                  let in_bitmap : word_index + 1 < 129 = ground (arith, more) in
                  rw (empty, more, read_word_lem (word_index + 1) _ in_bitmap)
                    (IsFirst-skip clear (
                      scan_words-IsFirst fuel (word_index + 1) (bitmap (word_index + 1)) in_bitmap
                        (omega arith) (omega arith) (fit (word_index + 1) in_bitmap)
                        (λ j h. ground arith)))
            ]
      ]

-- The answer to a search for a bin of at least `page_count` pages.
pub data IsBestFit (b : PageBins) (page_count : ℕ) : ℕ → Type 0 where
  fits :
      {r : ℕ}
      → r < 8193
      → page_count ≤ r
      → is_marked b r ≡ true
      → ((i : ℕ) → page_count ≤ i → i < r → is_marked b i ≡ false)
      → IsBestFit b page_count r
  no_fit :
      ((i : ℕ) → page_count ≤ i → i < 8193 → is_marked b i ≡ false)
      → IsBestFit b page_count no_fitting_page_sequence

of_first : {b : PageBins} {lo r : ℕ} → IsFirst b.non_empty_bitmap lo (lo / 64) r → IsBestFit b lo r
of_first (found lt le on before) = fits lt le on (λ i ge. before i ge (omega arith))
of_first (missing none_there) = no_fit (λ i ge. none_there i ge (omega arith))

-- For a page count below MAX_BINNED_PAGES the search ends without a read past the bitmap, and finds
-- the smallest marked page count from there on, or that there is none.
pub find_best_fitting_uninitialized_span-IsBestFit :
    (b : PageBins) (page_count : ℕ)
    → ((w : ℕ) → w < 129 → b.non_empty_bitmap w < 2 ^ 64)
    → page_count < 8193
    → IsBestFit b page_count (find_best_fitting_uninitialized_span page_count b)
unfolding find_best_fitting_uninitialized_span
find_best_fitting_uninitialized_span-IsBestFit b page_count fit lt =
    let w = page_count / 64 in
    let word = keep_from (b.non_empty_bitmap w) (page_bit_index page_count) in
    let index : page_bit_index page_count ≡ page_count % 64 = bit_index_lem page_count in
    let inside : w < 129 = omega arith in
    rw (read_word_lem w _ inside) (
      of_first (
        scan_words-IsFirst b.non_empty_bitmap fit page_count 129 w word inside (omega arith)
          (omega arith) (keep_from-lt _ _ (fit w inside))
          (λ j h.
            ground
              (arith, index, bit-keep_from (b.non_empty_bitmap w) (page_bit_index page_count) j))))
