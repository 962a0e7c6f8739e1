-- ===== src/Cmalloc/Remove.antt =====
-- src/cmalloc.c: `bin_remove` of a span anywhere in a bin.
use mathlib.Core.List.{◌++◌}
use fast_memory_allocator.Base.{
  ℕ, ◌≡◌, ◌≢◌, refl, sym, ap, ◌∙◌, subst, arith, true, false, List, [], ◌∷◌, ◌==◌, if◌then◌else◌,
  update, update_at, Bool-cases, ==_iff, inl, inr,
}
use fast_memory_allocator.Span.{Ptr, null, Span}
use fast_memory_allocator.RangeMap.{Allocator}
use fast_memory_allocator.SpanHeap.{Mapper}
use fast_memory_allocator.Cmalloc.{Heap, span_at, bin_remove}
use fast_memory_allocator.Cmalloc.Bins.{IsBin, head_apart, back, link}
use fast_memory_allocator.Cmalloc.Unlink.{
  head_after, IsUnlinked, middle, IsAbsent-parts, first_back, back_in, unlink, null-IsAbsent,
}

-- The two assignments to the neighbours.
abbrev set_link : Ptr → Ptr → (Ptr → Span) → Ptr → Span
set_link q next f =
    if q == null then f else update f q (record (f q) { next_in_size_class_bin = next })

abbrev set_back : Ptr → Ptr → (Ptr → Span) → Ptr → Span
set_back q prev f =
    if q == null then f else update f q (record (f q) { prev_in_size_class_bin = prev })

other_link : (q next x : Ptr) (f : Ptr → Span) → x ≢ q → set_link q next f x ≡ f x
other_link q next x f ne = elim (Bool-cases (q == null)) [
  | inl e ↦ rw e refl
  | inr e ↦ let other : (q == x) ≡ false = ground arith in rw (e, other) refl
]

other_back : (q prev x : Ptr) (f : Ptr → Span) → x ≢ q → set_back q prev f x ≡ f x
other_back q prev x f ne = elim (Bool-cases (q == null)) [
  | inl e ↦ rw e refl
  | inr e ↦ let other : (q == x) ≡ false = ground arith in rw (e, other) refl
]

link_at :
    (q next : Ptr) (f : Ptr → Span)
    → q ≢ null
    → set_link q next f q ≡ record (f q) { next_in_size_class_bin = next }
link_at q next f real = let e : (q == null) ≡ false = ground arith in rw e (update_at f q _)

back_at :
    (q prev : Ptr) (f : Ptr → Span)
    → q ≢ null
    → set_back q prev f q ≡ record (f q) { prev_in_size_class_bin = prev }
back_at q prev f real = let e : (q == null) ≡ false = ground arith in rw e (update_at f q _)

other_at : (p x : Ptr) (c : Span) (f : Ptr → Span) → x ≢ p → update f p c x ≡ f x
other_at p x c f ne = let e : (p == x) ≡ false = ground arith in rw e refl

-- The neighbours of `p`, where they are not NULL, are different from it and from each other.
assigned-IsUnlinked :
    (f : Ptr → Span) (p : Ptr) (c : Span)
    → back (f p) ≢ p
    → p ≢ link (f p)
    → (back (f p) ≢ null → back (f p) ≢ link (f p))
    → IsUnlinked f
        (update (set_back (link (f p)) (back (f p)) (set_link (back (f p)) (link (f p)) f)) p c)
        p
assigned-IsUnlinked f p c ne_back ne_link ne_both =
    let prev = back (f p) in
    let next = link (f p) in
    let f1 = set_link prev next f in
    let f2 = set_back next prev f1 in
    record {
      other = λ x n n' n''.
          other_at p x c f2 n'' ∙ other_back next prev x f1 n' ∙ other_link prev next x f n;
      behind = λ real.
          let here = other_at p next c f2 (λ e. ne_link (sym e)) ∙ back_at next prev f1 real in
          let same : f1 next ≡ f next = elim (Bool-cases (prev == null)) [
            | inl e ↦ ap (λ (x : Ptr). set_link x next f next) ((==_iff prev null).0 e)
            | inr e ↦ other_link prev next next f (λ e'. ne_both (ground arith) (sym e'))
          ] in
          (ap back here, ap link here ∙ ap link same);
      before = λ real.
          let here =
            other_at p prev c f2 ne_back
            ∙ other_back next prev prev f1 (ne_both real)
            ∙ link_at prev next f real in
          (ap link here, ap back here);
    }

module _ (a : Allocator) (o : Mapper) (i : ℕ) (h : Heap a o) where
  bin_remove_spans :
      (p : Ptr)
      → let s = span_at h p in
        (bin_remove a o i p h).spans.spans
        ≡ update
            (set_back (link s) (back s) (set_link (back s) (link s) h.spans.spans))
            p
            (record (set_back (link s) (back s) (set_link (back s) (link s) h.spans.spans) p) {
              prev_in_size_class_bin = null;
              next_in_size_class_bin = null;
            })
  unfolding bin_remove
  bin_remove_spans p = elim (Bool-cases (back (span_at h p) == null)) [
    | inl first ↦ elim (Bool-cases (link (span_at h p) == null)) [
      | inl last ↦ rw (first, last) refl
      | inr more ↦ rw (first, more) refl
    ]
    | inr mid ↦ elim (Bool-cases (link (span_at h p) == null)) [
      | inl last ↦ rw (mid, last) refl
      | inr more ↦ rw (mid, more) refl
    ]
  ]

  bin_remove_head :
      (before : List Ptr) (p : Ptr) (after : List Ptr)
      → IsBin h.spans.spans null (h.thread_local_bin i) (before ++ (p ∷ after))
      → (bin_remove a o i p h).thread_local_bin i
        ≡ head_after before (link (span_at h p)) (h.thread_local_bin i)
  unfolding bin_remove
  bin_remove_head [] p after bin =
      let first : (back (span_at h p) == null) ≡ true = (==_iff _ null).1 (first_back bin) in
      elim (Bool-cases (link (span_at h p) == null)) [
        | inl last ↦ rw (first, last) (update_at h.thread_local_bin i _)
        | inr more ↦ rw (first, more) (update_at h.thread_local_bin i _)
      ]
  bin_remove_head (q ∷ qs) p after bin =
      let ne : null ≢ back (span_at h p) = back_in q qs null p after (null-IsAbsent bin) bin in
      let mid : (back (span_at h p) == null) ≡ false = ground arith in
      elim (Bool-cases (link (span_at h p) == null)) [
        | inl last ↦ rw (mid, last) refl
        | inr more ↦ rw (mid, more) refl
      ]

  -- Removing a span of a bin, wherever it stands, leaves the others, in their order.
  pub bin_remove-IsBin :
      (before : List Ptr) (p : Ptr) (after : List Ptr)
      → IsBin h.spans.spans null (h.thread_local_bin i) (before ++ (p ∷ after))
      → let h' = bin_remove a o i p h in
        IsBin h'.spans.spans null (h'.thread_local_bin i) (before ++ after)
  bin_remove-IsBin before p after bin =
      let m = middle before (null-IsAbsent bin) bin in
      let (ne, out) = IsAbsent-parts m.back_apart in
      let un =
        assigned-IsUnlinked h.spans.spans p _ ne (head_apart m.rest m.apart m.real)
          (head_apart m.rest out) in
      subst (λ x. IsBin ((bin_remove a o i p h).spans.spans) null x (before ++ after))
        (sym (bin_remove_head before p after bin))
        (subst
          (λ g.
            IsBin g null (head_after before (link (span_at h p)) (h.thread_local_bin i))
              (before ++ after))
          (sym (bin_remove_spans p)) (unlink before p after un (null-IsAbsent bin) bin))
