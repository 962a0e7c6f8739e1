-- ===== src/SpanHeap/Owner.antt =====
-- The page map finds the span of an address: what the mapping of a span's pages does to the lookups
-- of `cmalloc_get_span`, and the same for a span that is mapped on its own.
use native.Mathlib.Nat.{
  one-le-pow, add-mul, mul-div_cancel, div-add-mod', le-div_iff_mul-le, div-lt_iff_lt-mul,
}
use fast_memory_allocator.Base.{
  ℕ, ◌+◌, ◌*◌, ◌/◌, ◌%◌, ◌^◌, ◌≤◌, ◌<◌, ◌≡◌, ◌≢◌, refl, sym, ap, ◌∙◌, Bool, arith, Option, some,
  leb, ltb, ◌&&◌, if◌then◌else◌,
}
use fast_memory_allocator.Base.Words.{u64}
use fast_memory_allocator.Common.{Runtime, round_down_page_index}
use fast_memory_allocator.Span.{Ptr, null, Span}
use fast_memory_allocator.RangeMap.{Allocator, L1Node, cmalloc_map_range}
use fast_memory_allocator.RangeMap.Counts.{IsTrie}
use fast_memory_allocator.RangeMap.Supply.{Serves, Serves-le}
use fast_memory_allocator.RangeMap.Ranges.{in_keys, cmalloc_map_range-IsRange}
use fast_memory_allocator.SpanHeap.{Mapper, SpanHeap, map_pages, cmalloc_get_span}

-- Whether `addr` is in the `count` pages from `base` on.
abbrev pub in_pages : Runtime → Ptr → ℕ → ℕ → Bool
in_pages r base count addr = leb base addr && ltb addr (base + count * 2 ^ r.page_shift)

module _ (a : Allocator) (o : Mapper) (r : Runtime) where
  abbrev page : ℕ
  page = 2 ^ r.page_shift

  -- A run that ended well: the addresses in the `count` pages from `base` on are those of `p`, and
  -- every other address is where it was.
  pub record IsOwner (p base : Ptr) (count : ℕ) (w : SpanHeap a o) (result : Option (SpanHeap a o))
      : Type 0 where
    pub map : L1Node
    pub store : a.Store
    pub returns : result ≡ some (record w { page_map = some map; store = store })
    pub trie : IsTrie map
    pub finds :
        (addr : ℕ)
        → addr < 2 ^ 35 * page
        → cmalloc_get_span a o r addr (record w { page_map = some map; store = store })
          ≡ (if in_pages r base count addr then some p else cmalloc_get_span a o r addr w)

  page_pos : 0 < page
  page_pos = one-le-pow r.page_shift 2 (omega arith)

  starts_at : (base : ℕ) → base % page ≡ 0 → base / page * page ≡ base
  starts_at base aligned = omega (arith, div-add-mod' base page)

  stops_at : (base count : ℕ) → base % page ≡ 0 → (base / page + count) * page ≡ base + count * page
  stops_at base count aligned =
      add-mul (base / page) count page ∙ ap (λ b. b + count * page) (starts_at base aligned)

  -- Page numbers stay below 2 ^ 35, the keys of the page map.
  pub keys_fit :
      (base count : ℕ)
      → base % page ≡ 0
      → base + count * page ≤ 2 ^ 35 * page
      → base / page + count ≤ 2 ^ 35
  keys_fit base count aligned fits =
      let total = mul-div_cancel (2 ^ 35) page_pos in
      let whole = (le-div_iff_mul-le {x = base / page + count} {y = 2 ^ 35 * page} page_pos).1 in
      omega (arith, total, whole (omega (arith, stops_at base count aligned)))

  -- An address lies in pages that start at a multiple of the page size if its page number does.
  pub same_pages :
      (base count addr : ℕ)
      → base % page ≡ 0
      → in_keys (base / page) (base / page + count) (addr / page) ≡ in_pages r base count addr
  same_pages base count addr aligned =
      let start : base / page * page ≡ base = starts_at base aligned in
      let stop = stops_at base count aligned in
      ground (
        arith,
        start,
        stop,
        le-div_iff_mul-le {k = page} {x = base / page} {y = addr} page_pos,
        div-lt_iff_lt-mul {k = page} {x = addr} {y = base / page + count} page_pos,
      )

  -- `map_pages` by the calls it makes.
  map_pages_by :
      (p : Ptr) (w : SpanHeap a o) (m m' : L1Node) (to : ℕ) (st : a.Store)
      → w.page_map ≡ some m
      → u64 ((w.spans p).base / page + (w.spans p).page_count) ≡ to
      → cmalloc_map_range a m p ((w.spans p).base / page) to w.store ≡ some (m', st)
      → map_pages a o r p w ≡ some (record w { page_map = some m'; store = st })
  unfolding map_pages round_down_page_index
  map_pages_by p w m m' to st there e runs = rw (there, e, runs) refl

  -- Mapping the pages of a span makes it the owner of exactly these pages.
  pub map_pages-IsOwner :
      (p : Ptr) (w : SpanHeap a o) (m : L1Node)
      → Serves a (2 * (w.spans p).page_count) w.store
      → w.page_map ≡ some m
      → IsTrie m
      → p ≢ null
      → (w.spans p).base % page ≡ 0
      → (w.spans p).base + (w.spans p).page_count * page ≤ 2 ^ 35 * page
      → IsOwner p (w.spans p).base (w.spans p).page_count w (map_pages a o r p w)
  unfolding map_pages round_down_page_index cmalloc_get_span
  map_pages-IsOwner p w m serves there trie real aligned fits =
      let first = (w.spans p).base / page in
      let to = first + (w.spans p).page_count in
      let le : to ≤ 2 ^ 35 = keys_fit (w.spans p).base (w.spans p).page_count aligned fits in
      let same = same_pages (w.spans p).base (w.spans p).page_count in
      let e : u64 to ≡ to = omega arith in
      let range =
        cmalloc_map_range-IsRange a m p first to w.store
          (Serves-le a _ _ w.store (omega arith) serves) trie real (omega arith) le in
      record {
        map = range.after;
        store = range.store;
        returns = map_pages_by p w m range.after to range.store there e range.returns;
        trie = range.trie;
        finds = λ addr lt.
            let key = (div-lt_iff_lt-mul {x = addr} {y = 2 ^ 35} page_pos).1 lt in
            rw (there, sym (same addr aligned), range.lookup (addr / page) key) (ground arith);
      }

  -- A run that ended well with a span of its own for `n` pages from `base` on: every address in
  -- these pages is found to be the span's, and every other one is found as before.
  pub record IsDirect (base n : ℕ) (w : SpanHeap a o) (result : Option (Ptr × SpanHeap a o))
      : Type 0 where
    pub span : Ptr
    pub after : SpanHeap a o
    pub returns : result ≡ some (span, after)
    pub real : span ≢ null
    pub base_same : (after.spans span).base ≡ base
    pub count_same : (after.spans span).page_count ≡ n
    pub bins_same : after.bins ≡ w.bins
    pub finds :
        (addr : ℕ)
        → addr < 2 ^ 35 * page
        → cmalloc_get_span a o r addr after
          ≡ (if in_pages r base n addr then some span else cmalloc_get_span a o r addr w)
