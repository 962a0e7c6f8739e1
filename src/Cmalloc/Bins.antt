-- ===== src/Cmalloc/Bins.antt =====
-- src/cmalloc.c: a bin of the thread as a doubly linked list of spans, and what `bin_push` does to
-- that list.
use fast_memory_allocator.Base.{
  IsAbsent, absent_nil, absent_cons, ℕ, ◌≡◌, ◌≢◌, refl, ap, ◌∙◌, arith, List, [], ◌∷◌, ◌==◌, update,
  update_at, Bool-cases, ==_iff, inl, inr,
}
use fast_memory_allocator.Span.{Ptr, null, Span}
use fast_memory_allocator.RangeMap.{Allocator}
use fast_memory_allocator.SpanHeap.{Mapper}
use fast_memory_allocator.Cmalloc.{Heap, span_at, bin_push}

-- The links from `head` on lead through these spans, all different, and back to `prev`.
pub data IsBin (spans : Ptr → Span) : Ptr → Ptr → List Ptr → Type 0 where
  bin_nil : {prev : Ptr} → IsBin spans prev null []
  bin_cons :
      {prev p next : Ptr} {qs : List Ptr}
      → p ≢ null
      → IsAbsent p qs
      → (spans p).prev_in_size_class_bin ≡ prev
      → (spans p).next_in_size_class_bin ≡ next
      → IsBin spans p next qs
      → IsBin spans prev p (p ∷ qs)

-- A span outside the list can change.
update-IsBin :
    {spans : Ptr → Span} (p : Ptr) (s : Span) {prev head : Ptr} {qs : List Ptr}
    → IsAbsent p qs
    → IsBin spans prev head qs
    → IsBin (update spans p s) prev head qs
update-IsBin p s absent_nil bin_nil = bin_nil
update-IsBin {spans} p s (absent_cons ne out) (bin_cons {p = q} real apart back next rest) =
    let same : update spans p s q ≡ spans q = ground arith in
    bin_cons real apart (ap (λ (u : Span). u.prev_in_size_class_bin) same ∙ back)
      (ap (λ (u : Span). u.next_in_size_class_bin) same ∙ next) (update-IsBin p s out rest)

-- The first span of a list gets another link back.
relink :
    {spans : Ptr → Span} {prev head : Ptr} {qs : List Ptr} (prev' : Ptr)
    → head ≢ null
    → IsBin spans prev head qs
    → IsBin
        (update spans head (record (spans head) { prev_in_size_class_bin = prev' }))
        prev'
        head
        qs
relink prev' ne bin_nil = absurd (ne refl)
relink {spans} prev' ne (bin_cons {p} real apart back next rest) =
    let s : Span = record (spans p) { prev_in_size_class_bin = prev' } in
    let at = update_at spans p s in
    bin_cons real apart (ap (λ (u : Span). u.prev_in_size_class_bin) at)
      (ap (λ (u : Span). u.next_in_size_class_bin) at ∙ next) (update-IsBin p s apart rest)

-- A head that the list does not hold is NULL.
pub head_apart :
    {spans : Ptr → Span} {prev head p : Ptr} {qs : List Ptr}
    → IsBin spans prev head qs
    → IsAbsent p qs
    → p ≢ null
    → p ≢ head
head_apart bin_nil out real = real
head_apart (bin_cons r apart back next rest) (absent_cons ne out) real = ne

abbrev pub back : Span → Ptr
back s = s.prev_in_size_class_bin

abbrev pub link : Span → Ptr
link s = s.next_in_size_class_bin

-- An empty list has no link back.
last_of :
    {spans : Ptr → Span} {prev head : Ptr} {qs : List Ptr} (prev' : Ptr)
    → IsBin spans prev head qs
    → head ≡ null
    → IsBin spans prev' head qs
last_of prev' bin_nil e = bin_nil
last_of prev' (bin_cons real out behind next others) e = absurd (real e)

module _ (a : Allocator) (o : Mapper) (i : ℕ) (h : Heap a o) where
  -- Pushing a span that a bin does not hold puts it at the front of the bin's list.
  pub bin_push-IsBin :
      (p : Ptr) (qs : List Ptr)
      → p ≢ null
      → IsAbsent p qs
      → IsBin h.spans.spans null (h.thread_local_bin i) qs
      → let h' = bin_push a o i p h in IsBin h'.spans.spans null (h'.thread_local_bin i) (p ∷ qs)
  unfolding bin_push
  bin_push-IsBin p qs real out bin =
      let head = h.thread_local_bin i in
      let s : Span = record (span_at h p) {
        prev_in_size_class_bin = null;
        next_in_size_class_bin = head;
      } in
      let f = update h.spans.spans p s in
      let moved : IsBin f null head qs = update-IsBin p s out bin in
      let ne : p ≢ head = head_apart bin out real in
      let at : f p ≡ s = update_at h.spans.spans p s in
      elim (Bool-cases (head == null)) [
        | inl last ↦
            rw (last, update_at h.thread_local_bin i p)
              (bin_cons real out (ap back at) (ap link at)
                (last_of p moved ((==_iff head null).0 last)))
        | inr more ↦
            let g = update f head (record (f head) { prev_in_size_class_bin = p }) in
            let same : g p ≡ s = ground (arith, at) in
            rw (more, update_at h.thread_local_bin i p)
              (bin_cons real out (ap back same) (ap link same) (relink p (ground arith) moved))
      ]
