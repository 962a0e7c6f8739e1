-- ===== src/SpanHeap/Roles/Reach.antt =====
-- The span heap as its clients use it: spans are initialised, their blocks are taken and freed, and
-- spans with a bin are cached again. Which spans are in a client's hands is kept beside the heap.
use fast_memory_allocator.Base.{
  ℕ, ◌/◌, ◌%◌, ◌^◌, ◌≤◌, ◌<◌, ◌≡◌, ◌≢◌, refl, sym, ap, ◌∙◌, subst, Bool, true, false, Option, none,
  some, [], ◌==◌, arith, update, Bool-cases, Option-cases, ==_iff, inl, inr, on_equal,
}
use fast_memory_allocator.Base.Bits.{bit-zero}
use fast_memory_allocator.Span.Blocks.{bit_of}
use fast_memory_allocator.Common.{Runtime, round_down_page_index}
use fast_memory_allocator.Span.{Ptr, null, Span}
use fast_memory_allocator.RangeMap.{Allocator}
use fast_memory_allocator.RangeMap.Ledger.{IsAllocator}
use fast_memory_allocator.PageBins.Marks.{IsTracked}
use fast_memory_allocator.SpanHeap.{
  Mapper, SpanHeap, put_span, span_size, request_pages, cmalloc_cache_span, cmalloc_initialize_span,
  cmalloc_get_span,
}
use fast_memory_allocator.SpanHeap.Owner.{in_pages, same_pages}
use fast_memory_allocator.SpanHeap.Roles.Given.{apart_lem}
use fast_memory_allocator.SpanHeap.Roles.Alloc.{Answers}
use fast_memory_allocator.SpanHeap.Roles.Client.{
  cmalloc_initialize_span-IsGiven, cmalloc_cache_span-IsHeap,
}
use fast_memory_allocator.SpanHeap.Roles.Frame.{frame_at}
use fast_memory_allocator.SpanHeap.Roles.Steps.{used-IsCompatible}
use fast_memory_allocator.RangeMap.Supply.{Serves}
use fast_memory_allocator.SpanHeap.Served.{MapsChunk, most_calls, cmalloc_initialize_span-supplied}
use fast_memory_allocator.SpanHeap.Roles.{
  Role, unborn, in_use, cached, IsMapper, IsHeap, stack_nil, has_page,
}

-- The static variables of src/span.c before the first call.
abbrev pub initial : {a : Allocator} {o : Mapper} → (Ptr → Span) → a.Store → o.Kernel → SpanHeap a o
initial spans store kernel = record {
  page_map = none;
  data_arena = [];
  bins = record { uninitialized_span_bin = λ n. null; non_empty_bitmap = λ w. 0 };
  spans = spans;
  store = store;
  kernel = kernel;
}

module _ {a : Allocator} (o : Mapper) (r : Runtime) (u : IsAllocator a) where
  -- The heaps that clients can bring about without giving back a span that is too large for the bins.
  pub data Reach : SpanHeap a o → (Ptr → Bool) → Type 0 where
    started :
        {spans : Ptr → Span} {store : a.Store} {kernel : o.Kernel}
        → u.IsSound store
        → Reach (initial spans store kernel) (λ p. false)
    handed :
        {w w' : SpanHeap a o} {live : Ptr → Bool} {p : Ptr} (c : Option ℕ) (requested : ℕ)
        → Reach w live
        → Answers o r (request_pages a o r (span_size c requested)) w.kernel
        → cmalloc_initialize_span a o r c requested w ≡ some (p, w')
        → Reach w' (update live p true)
    changed :
        {w : SpanHeap a o} {live : Ptr → Bool} (p : Ptr) (s : Span)
        → Reach w live
        → live p ≡ true
        → s.base ≡ (w.spans p).base
        → s.page_count ≡ (w.spans p).page_count
        → Reach (put_span p s w) live
    returned :
        {w w' : SpanHeap a o} {live : Ptr → Bool} {p : Ptr}
        → Reach w live
        → live p ≡ true
        → (w.spans p).page_count < 8193
        → cmalloc_cache_span a o r p w ≡ some w'
        → Reach w' (update live p false)

module _ {a : Allocator} {o : Mapper} {r : Runtime} (u : IsAllocator a) (k : IsMapper o r)
    (small : r.page_shift ≤ 20) where
  -- The spans in a client's hands have that role.
  pub record IsShared (w : SpanHeap a o) (live : Ptr → Bool) : Type 0 where
    pub role : Ptr → Role
    pub heap : IsHeap u k w role
    pub used : (p : Ptr) → live p ≡ true → role p ≡ in_use

  no_bins-IsTracked :
      IsTracked (record { uninitialized_span_bin = λ n. null; non_empty_bitmap = λ w. 0 })
  unfolding bit_of
  no_bins-IsTracked = record { words_fit = λ w lt. omega arith; marks = λ n lt. bit-zero (n % 64) }

  initial-IsHeap :
      (spans : Ptr → Span) (store : a.Store) (kernel : o.Kernel)
      → u.IsSound store
      → IsHeap u k (initial spans store kernel) (λ p. unborn)
  initial-IsHeap spans store kernel ok = record {
    sound = ok;
    tracked = no_bins-IsTracked;
    no_null = refl;
    born = λ p live. absurd (live refl);
    trie = λ m e. cc;
    stacks = λ n lt. ([], stack_nil);
    sizes = λ p n e. cc;
    placed = λ p live. absurd (live refl);
    owns = λ p i live. absurd (live refl);
    known = λ i lt there. absurd (there refl);
  }

  pub Reach-IsShared : {w : SpanHeap a o} {live : Ptr → Bool} → Reach o r u w live → IsShared w live
  Reach-IsShared (started {spans} {store} {kernel} ok) = record {
    role = λ p. unborn;
    heap = initial-IsHeap spans store kernel ok;
    used = λ p h. ground arith;
  }
  Reach-IsShared (handed {w} {w'} {live} {p} c requested before answers e) =
      let was = Reach-IsShared before in
      let h =
        on_equal e
          (cmalloc_initialize_span-IsGiven u k c requested w was.role small was.heap answers) in
      record {
        role = h.role';
        heap = h.heap;
        used = λ q now. elim (Bool-cases (p == q)) [
          | inl same ↦ subst (λ x. h.role' x ≡ in_use) ((==_iff p q).0 same) h.now_used
          | inr other ↦ (h.kept q (was.used q (rw other at now))).used
        ];
      }
  Reach-IsShared (changed {w} {live} p s before now base count) =
      let was = Reach-IsShared before in
      record {
        role = was.role;
        heap = frame_at u k was.heap p s (used-IsCompatible (was.used p now) base (omega arith));
        used = was.used;
      }
  Reach-IsShared (returned {w} {w'} {live} {p} before now lt e) =
      let was = Reach-IsShared before in
      record {
        role = update was.role p (cached (w.spans p).page_count);
        heap = on_equal e (cmalloc_cache_span-IsHeap u k p w was.role was.heap (was.used p now) lt);
        used = λ q there. elim (Bool-cases (p == q)) [
          | inl same ↦ absurd (ground arith)
          | inr other ↦ rw other (was.used q (rw other at there))
        ];
      }

  in_span :
      (w : SpanHeap a o) {live : Ptr → Bool} (p : Ptr) (addr : ℕ) (shared : IsShared w live)
      → live p ≡ true
      → has_page r (w.spans p) (addr / 2 ^ r.page_shift)
        ≡ in_pages r (w.spans p).base (w.spans p).page_count addr
  in_span w p addr shared now =
      let there : shared.role p ≢ unborn = λ e. ground (arith, shared.used p now) in
      same_pages a o r (w.spans p).base (w.spans p).page_count addr
        (shared.heap.placed p there).aligned

  -- In every heap that clients can bring about, no address is in the pages of two spans that are in
  -- use. The pages have at most 2 ^ 20 bytes, mmap and the allocator of metadata keep their
  -- interfaces, a large request is one that mmap answers, and no span too large for the bins is given
  -- back.
  pub Reach-apart :
      (w : SpanHeap a o) (live : Ptr → Bool) (p q : Ptr) (addr : ℕ)
      → Reach o r u w live
      → live p ≡ true
      → live q ≡ true
      → p ≢ q
      → in_pages r (w.spans p).base (w.spans p).page_count addr ≡ true
      → in_pages r (w.spans q).base (w.spans q).page_count addr ≡ false
  Reach-apart w live p q addr run here there ne has =
      let s = Reach-IsShared run in
      let apart =
        apart_lem u k w p q (addr / 2 ^ r.page_shift) s.heap ne (λ e. ground (arith, s.used p here))
          (λ e. ground (arith, s.used q there)) (in_span w p addr s here ∙ has) in
      sym (in_span w q addr s there) ∙ apart

  -- In such a heap `cmalloc_get_span` returns, for an address in the pages of a span in use, that
  -- span.
  pub Reach-get_span :
      (w : SpanHeap a o) (live : Ptr → Bool) (p : Ptr) (addr : ℕ)
      → Reach o r u w live
      → live p ≡ true
      → in_pages r (w.spans p).base (w.spans p).page_count addr ≡ true
      → cmalloc_get_span a o r addr w ≡ some p
  unfolding cmalloc_get_span round_down_page_index
  Reach-get_span w live p addr run here has =
      let s = Reach-IsShared run in
      let there : s.role p ≢ unborn = λ e. ground (arith, s.used p here) in
      let owner = s.heap.owns p (addr / 2 ^ r.page_shift) there (in_span w p addr s here ∙ has) in
      elim (Option-cases w.page_map) [
        | inl e ↦ absurd (there (ap s.role (sym owner ∙ rw e refl) ∙ s.heap.no_null))
        | inr (m, e) ↦ rw e (ap some (rw e at owner))
      ]

  -- A span of `n` pages that was not in use, with those in use where they were.
  pub record IsNew (w : SpanHeap a o) (live : Ptr → Bool) (n : ℕ) (p : Ptr) (w' : SpanHeap a o)
      : Type 0 where
    pub real : p ≢ null
    pub was_free : live p ≡ false
    pub count : (w'.spans p).page_count ≡ n
    pub base_same : (q : Ptr) → live q ≡ true → (w'.spans q).base ≡ (w.spans q).base
    pub count_same : (q : Ptr) → live q ≡ true → (w'.spans q).page_count ≡ (w.spans q).page_count

  -- In such a heap `cmalloc_initialize_span` returns a span of the requested number of `n` pages that
  -- was not in use, and leaves base and page count of those in use. The conditions are that the
  -- next 2 * n + 16388 calls for metadata give memory, that mmap answers for 8193 pages or more, and
  -- that for fewer it answers if no cached span has enough pages, so that a chunk is mapped.
  pub Reach-IsNew :
      (w : SpanHeap a o) (live : Ptr → Bool) (c : Option ℕ) (requested : ℕ)
      → Reach o r u w live
      → Answers o r (request_pages a o r (span_size c requested)) w.kernel
      → MapsChunk a o r (request_pages a o r (span_size c requested)) w
      → Serves a (most_calls a o r (request_pages a o r (span_size c requested))) w.store
      → (p : Ptr) × (w' : SpanHeap a o) × (cmalloc_initialize_span a o r c requested w
          ≡ some (p, w'))
        × IsNew w live (request_pages a o r (span_size c requested)) p w'
  Reach-IsNew w live c requested run answers chunk serves =
      let s = Reach-IsShared run in
      let ((p, w'), runs) =
        cmalloc_initialize_span-supplied a o r c requested w s.heap.tracked chunk serves in
      let h =
        on_equal runs
          (cmalloc_initialize_span-IsGiven u k c requested w s.role small s.heap answers) in
      (
        p,
        w',
        runs,
        record {
          real = h.real;
          was_free = elim (Bool-cases (live p)) [
            | inl now ↦ absurd (h.was_free (s.used p now))
            | inr other ↦ other
          ];
          count = h.count;
          base_same = λ q now. (h.kept q (s.used q now)).base_same;
          count_same = λ q now. (h.kept q (s.used q now)).count_same;
        },
      )
