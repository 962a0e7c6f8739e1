-- ===== src/Span/Free.antt =====
-- `free_block`: it marks the block that an address lies in as free, and undoes `allocate_block`.
use native.Mathlib.Nat.{mul-add-div_right, div-eq_of_lt}
use fast_memory_allocator.Base.{
  ℕ, ◌+◌, ◌-◌, ◌*◌, ◌/◌, ◌%◌, ◌^◌, ◌≤◌, ◌<◌, ◌≡◌, ◌≢◌, refl, true, false, not, arith, ◌==◌,
  if◌then◌else◌, count, update, count_one_more, count-le, eq_false, ◌∙◌, Option, some, fun_ext, ap,
}
use fast_memory_allocator.Base.Words.{bit, ctz64, u64, sub64, set_bit, clear_bit}
use fast_memory_allocator.Base.Bits.Word.{
  bit-set_bit, set_bit-lt, bit-clear_bit, clear_bit-lt, word_ext64, ne-zero_of_bit, ctz64_lem,
}
use fast_memory_allocator.Span.{
  Span, Ptr, allocate_block, free_block, bitmap_bit_index, first_block_index, mark_allocated,
}
use fast_memory_allocator.Span.Blocks.{bit_of, is_free, IsWellFormed, bit_index_lem}
use fast_memory_allocator.Span.Allocate.{
  SameShape, nonfull_of_pos, first_lt, first_is_free, first_word, first_bit, word_at_lem,
  bit_at_lem, free_count-taken,
}

-- The span with block `b` marked as free, as the code stores it.
abbrev freed : ℕ → Span → Span
freed b s = record s {
  free_count = u64 (s.free_count + 1);
  block_bitmap =
      update s.block_bitmap (b / 64) (set_bit (s.block_bitmap (b / 64)) (bitmap_bit_index b));
  nonfull_bitmap = set_bit s.nonfull_bitmap (bitmap_bit_index (b / 64));
}

-- An address inside block `b` leads back to `b`.
abbrev pub IsInBlock : Span → ℕ → Ptr → Type 0
IsInBlock s b p = (s.base + b * s.block_size ≤ p) × (p < s.base + b * s.block_size + s.block_size)

block_of_address :
    (s : Span) (b : ℕ) (p : Ptr) → p < 2 ^ 64 → IsInBlock s b p → sub64 p s.base / s.block_size ≡ b
block_of_address s b p fits inside =
    let off = p - (s.base + b * s.block_size) in
    let rel : sub64 p s.base ≡ b * s.block_size + off = omega arith in
    let pos : 0 < s.block_size = omega arith in
    rw rel (
      mul-add-div_right pos b off
      ∙ omega (arith, div-eq_of_lt {n = off} {m = s.block_size} (omega arith)))

free_block_lem :
    (s : Span) (b : ℕ) (p : Ptr)
    → b < 4096
    → p < 2 ^ 64
    → IsInBlock s b p
    → free_block p s ≡ some (freed b s)
unfolding free_block
free_block_lem s b p lt fits inside = rw (block_of_address s b p fits inside) (ground arith)

module _ (s : Span) (wf : IsWellFormed s) (b : ℕ) (in_range : b < s.block_count)
    (allocated : is_free s b ≡ false) where
  lt : b < 4096
  lt = omega (arith, wf.count_le)

  abbrev word : ℕ
  word = s.block_bitmap (b / 64)

  is_free-freed : (j : ℕ) → is_free (freed b s) j ≡ (if b == j then true else is_free s j)
  unfolding bit_of
  is_free-freed j = simp bit_index_lem (ground (arith, bit-set_bit word (b % 64) (j % 64)))

  freed_counts : count s.block_count (is_free (freed b s)) ≡ s.free_count + 1
  freed_counts =
      let one_more =
        count_one_more s.block_count b (is_free s) (is_free (freed b s)) in_range allocated
          (ground (arith, is_free-freed b)) (λ i ne. ground (arith, is_free-freed i)) in
      omega (arith, wf.counted, one_more)

  freed_nonfull :
      (w : ℕ) → w < 64 → bit (freed b s).nonfull_bitmap w ≡ not ((freed b s).block_bitmap w == 0)
  freed_nonfull w h =
      let ne : set_bit word (b % 64) ≢ 0 =
        ne-zero_of_bit _ (b % 64) (ground (arith, bit-set_bit word (b % 64) (b % 64))) in
      simp bit_index_lem
        (ground (arith, lt, wf.nonfull_marks w, bit-set_bit s.nonfull_bitmap (b / 64 % 64) w))

  freed-IsWellFormed : IsWellFormed (freed b s)
  freed-IsWellFormed = record {
    count_le = wf.count_le;
    words_fit = λ w h. ground (
      arith,
      wf.words_fit w h,
      bit_index_lem b,
      set_bit-lt word (bitmap_bit_index b) (wf.words_fit (b / 64) (omega (arith, lt))),
    );
    nonfull_fits =
        set_bit-lt s.nonfull_bitmap _ wf.nonfull_fits (omega (arith, bit_index_lem (b / 64)));
    nonfull_marks = freed_nonfull;
    within = λ j h free. ground (arith, is_free-freed j, wf.within j h, in_range);
    counted =
        omega (arith, freed_counts, count-le s.block_count (is_free (freed b s)), wf.count_le);
  }

-- What `free_block` does to a span one of whose blocks is returned.
pub record IsGivenBack (s : Span) (block : ℕ) (result : Option Span) : Type 0 where
  pub after : Span
  pub returns : result ≡ some after
  pub marked : (j : ℕ) → is_free after j ≡ (if block == j then true else is_free s j)
  pub one_more : after.free_count ≡ s.free_count + 1
  pub well_formed : IsWellFormed after
  pub shape : SameShape s after

-- Given any address inside an allocated block of a well-formed span, `free_block` stays within the
-- bitmaps, marks that block as free and no other, and keeps the span well-formed.
pub free_block-IsGivenBack :
    (s : Span) (b : ℕ) (p : Ptr)
    → IsWellFormed s
    → b < s.block_count
    → is_free s b ≡ false
    → p < 2 ^ 64
    → IsInBlock s b p
    → IsGivenBack s b (free_block p s)
free_block-IsGivenBack s b p wf in_range allocated fits inside = record {
  after = freed b s;
  returns = free_block_lem s b p (omega (arith, wf.count_le)) fits inside;
  marked = is_free-freed s wf b in_range allocated;
  one_more = omega (arith, wf.counted, wf.count_le, count-le s.block_count (is_free s));
  well_formed = freed-IsWellFormed s wf b in_range allocated;
  shape = record { rest_same = refl };
}

pub set-clear_bit : (w i : ℕ) → w < 2 ^ 64 → i < 64 → bit w i ≡ true → set_bit (clear_bit w i) i ≡ w
set-clear_bit w i h lt on =
    word_ext64 _ w (set_bit-lt _ i (clear_bit-lt w i h) lt) h
      λ j jlt. ground (arith, bit-set_bit (clear_bit w i) i j, bit-clear_bit w i j)

pub set_bit_self : (w i : ℕ) → w < 2 ^ 64 → i < 64 → bit w i ≡ true → set_bit w i ≡ w
set_bit_self w i h lt on =
    word_ext64 _ w (set_bit-lt w i h lt) h λ j jlt. ground (arith, bit-set_bit w i j)

module _ (s : Span) (wf : IsWellFormed s) (pos : 0 < s.free_count) where
  abbrev ne : s.nonfull_bitmap ≢ 0
  ne = nonfull_of_pos s wf pos

  abbrev first : ℕ
  first = first_block_index s

  abbrev w : ℕ
  w = ctz64 s.nonfull_bitmap

  abbrev t : Span
  t = mark_allocated w first s

  restored_words : (freed first t).block_bitmap ≡ s.block_bitmap
  unfolding mark_allocated
  restored_words = fun_ext λ j. simp bit_index_lem (
      ground (
        arith,
        first_word s wf ne,
        first_bit s wf ne,
        bit_at_lem s wf ne,
        set-clear_bit (s.block_bitmap w) (first % 64) (wf.words_fit w (word_at_lem s wf ne).0),
      ))

  restored_nonfull : (freed first t).nonfull_bitmap ≡ s.nonfull_bitmap
  unfolding mark_allocated
  restored_nonfull =
      let on = ctz64_lem s.nonfull_bitmap wf.nonfull_fits ne in
      let index : w % 64 ≡ w = omega (arith, on.0) in
      simp (bit_index_lem, first_word s wf ne, index)
        (ground (
          arith,
          on,
          set-clear_bit s.nonfull_bitmap w wf.nonfull_fits,
          set_bit_self s.nonfull_bitmap w wf.nonfull_fits,
        ))

  restored : freed first t ≡ s
  unfolding mark_allocated
  restored = λ i. record s {
    free_count = count_back i;
    block_bitmap = restored_words i;
    nonfull_bitmap = restored_nonfull i;
  }
    where
      count_back : (freed first t).free_count ≡ s.free_count
      count_back = omega (
        arith,
        free_count-taken s wf ne,
        wf.counted,
        wf.count_le,
        count-le s.block_count (is_free s),
      )

-- Freeing the block that `allocate_block` has just returned gives the span back as it was.
pub free-allocate :
    (s : Span)
    → IsWellFormed s
    → 0 < s.free_count
    → 0 < s.block_size
    → s.base + s.block_count * s.block_size ≤ 2 ^ 64
    → let (p, t) = allocate_block s in free_block p t ≡ some s
unfolding allocate_block mark_allocated
free-allocate s wf pos sized fits =
    let ne' = nonfull_of_pos s wf pos in
    let below = wf.within _ (first_lt s wf ne') (first_is_free s wf ne') in
    let room : first_block_index s * s.block_size + s.block_size ≤ s.block_count * s.block_size =
      grind (arith, below) in
    rw (eq_false ne') (
      free_block_lem (t s wf pos) (first_block_index s) _ (first_lt s wf ne') (omega arith)
        (omega arith)
      ∙ ap some (restored s wf pos))
