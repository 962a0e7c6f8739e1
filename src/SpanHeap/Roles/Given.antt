-- ===== src/SpanHeap/Roles/Given.antt =====
-- What a branch of `alloc_span` gives, and the steps by which a span gets its pages or its bin.
use fast_memory_allocator.Base.{
  ℕ, ◌<◌, ◌≡◌, ◌≢◌, refl, sym, ◌∙◌, subst, true, false, Option, some, ◌==◌, arith, update,
  update_at, Bool-cases, inl, inr, OnResult, result, on_last, ◌>>=◌,
}
use fast_memory_allocator.Common.{Runtime}
use fast_memory_allocator.Span.{Ptr, null, Span}
use fast_memory_allocator.RangeMap.{Allocator, L1Node}
use fast_memory_allocator.RangeMap.Ledger.{IsAllocator}
use fast_memory_allocator.RangeMap.Supply.{is_request}
use fast_memory_allocator.SpanHeap.{
  Mapper, SpanHeap, put_span, put_head, pop_bin, link_split, push_remainder, map_pages,
}
use fast_memory_allocator.SpanHeap.Roles.{
  Role, unborn, in_use, cached, has_page, IsMapper, IsPaginated, IsHeap,
}
use fast_memory_allocator.SpanHeap.Roles.Frame.{linked-IsCompatible, frame_at}
use fast_memory_allocator.SpanHeap.Roles.Moves.{
  page-lt, pop-IsHeap, top-cached, push-IsHeap, birth-IsHeap,
}
use fast_memory_allocator.SpanHeap.Roles.Steps.{unborn-IsCompatible, pop_bin_step, map_pages_step}

unborn_of : (role : Role) → ¬ (role ≢ unborn) → role ≡ unborn
unborn_of unborn h = refl
unborn_of in_use h = absurd (h (λ e. cc))
unborn_of (cached n) h = absurd (h (λ e. cc))

module _ {a : Allocator} {o : Mapper} {r : Runtime} (u : IsAllocator a) (k : IsMapper o r) where
  -- A span in use stays in use, with its pages.
  pub record IsKept (f f' : Ptr → Span) (role' : Ptr → Role) (q : Ptr) : Type 0 where
    pub used : role' q ≡ in_use
    pub base_same : (f' q).base ≡ (f q).base
    pub count_same : (f' q).page_count ≡ (f q).page_count

  -- A span of `n` pages that was not in use is handed out.
  pub record IsGiven (w : SpanHeap a o) (role : Ptr → Role) (n : ℕ) (p : Ptr) (w' : SpanHeap a o)
      : Type 0 where
    pub role' : Ptr → Role
    pub heap : IsHeap u k w' role'
    pub real : p ≢ null
    pub was_free : role p ≢ in_use
    pub now_used : role' p ≡ in_use
    pub count : (w'.spans p).page_count ≡ n
    pub kept : (q : Ptr) → role q ≡ in_use → IsKept w.spans w'.spans role' q

  -- Two spans have no page in common.
  pub apart_lem :
      (w : SpanHeap a o) {role : Ptr → Role} (p q : Ptr) (i : ℕ)
      → IsHeap u k w role
      → p ≢ q
      → role p ≢ unborn
      → role q ≢ unborn
      → has_page r (w.spans p) i ≡ true
      → has_page r (w.spans q) i ≡ false
  apart_lem w p q i heap ne live live' has = elim (Bool-cases (has_page r (w.spans q) i)) [
    | inl both ↦ absurd (ne (sym (heap.owns p i live has) ∙ heap.owns q i live' both))
    | inr other ↦ other
  ]

  -- A span taken whole out of the bin of its page count.
  pub pop_bin-IsGiven :
      (n : ℕ) (w : SpanHeap a o) (role : Ptr → Role)
      → n < 8193
      → IsHeap u k w role
      → w.bins.uninitialized_span_bin n ≢ null
      → OnResult (λ (p, w'). IsGiven w role n p w') (pop_bin a o r n w)
  pop_bin-IsGiven n w role lt heap real =
      let top = w.bins.uninitialized_span_bin n in
      on_last (pop_bin a o r n w) (
        pop_bin_step u k n w (λ x. some x)
          (
            real,
            let here = top-cached u k heap n lt real in
                result (record {
                  role' = update role top in_use;
                  heap = pop-IsHeap u k heap n lt real;
                  real = real;
                  was_free = λ e. ground (arith, here);
                  now_used = update_at role top in_use;
                  count = heap.sizes top n here;
                  kept =
                      λ q used. record { used = ground arith; base_same = refl; count_same = refl };
                }),
          ))

  pub link_split-IsHeap :
      (p split : Ptr) (w : SpanHeap a o) (role : Ptr → Role)
      → IsHeap u k w role
      → IsHeap u k (link_split a o r p split w) role
  unfolding link_split
  link_split-IsHeap p split w role heap =
      let next = (w.spans p).phys_next in
      elim (Bool-cases (next == null)) [
        | inl e ↦ rw e (frame_at u k heap p _ (linked-IsCompatible refl refl refl))
        | inr e ↦ rw e (
            frame_at u k
              (frame_at u k heap next (record (w.spans next) { phys_prev = split })
                (linked-IsCompatible refl refl refl))
              p _ (linked-IsCompatible refl refl refl))
      ]

  -- No span gets another base or page count.
  pub link_split_same :
      (p split q : Ptr) (w : SpanHeap a o)
      → (((link_split a o r p split w).spans q).base ≡ (w.spans q).base)
        × (((link_split a o r p split w).spans q).page_count ≡ (w.spans q).page_count)
  unfolding link_split
  link_split_same p split q w = (ground arith, ground arith)

  -- A new span goes into the bin of its page count, with pages that no other span has.
  pub push_remainder-IsHeap :
      (p : Ptr) (n : ℕ) (w : SpanHeap a o) (m : L1Node) (role : Ptr → Role)
      → IsHeap u k w role
      → w.page_map ≡ some m
      → n < 8193
      → p ≢ null
      → role p ≡ unborn
      → u.IsHeld w.store p
      → IsPaginated r (w.spans p)
      → (w.spans p).page_count ≡ n
      → (w.spans p).next_in_uninitialized_bin ≡ w.bins.uninitialized_span_bin n
      → ((q : Ptr) (i : ℕ)
          → role q ≢ unborn
          → has_page r (w.spans p) i ≡ true
          → has_page r (w.spans q) i ≡ false)
      → ((i : ℕ) → has_page r (w.spans p) i ≡ true → k.mapped w.kernel i ≡ true)
      → OnResult
          (λ w'. IsHeap u k w' (update (update role p in_use) p (cached n)) × (w'.spans ≡ w.spans))
          (push_remainder a o r p n w)
  unfolding push_remainder
  push_remainder-IsHeap p n w m role heap there lt real new held pages count link free mapped =
      map_pages_step u k p (put_head n p w) m _ there heap.sound (heap.trie m there) real pages
        λ m' st' run.
          let born = birth-IsHeap u k heap p m m' st' real new held pages free mapped there run in
          result (push-IsHeap u k born p n lt (update_at role p in_use) count link, refl)

  -- A span with a new address is unborn, and is none of those there are.
  pub new-unborn :
      (w : SpanHeap a o) (role : Ptr → Role) (size : ℕ)
      → is_request size ≡ true
      → IsHeap u k w role
      → (a.alloc_metadata size w.store).0 ≢ null
      → role (a.alloc_metadata size w.store).0 ≡ unborn
  new-unborn w role size req heap new = unborn_of _ λ live.
      u.fresh size req w.store heap.sound new (heap.born (a.alloc_metadata size w.store).0 live)

  -- A page of a span is mapped.
  pub page_mapped :
      (w : SpanHeap a o) {role : Ptr → Role} (q : Ptr) (i : ℕ)
      → IsHeap u k w role
      → role q ≢ unborn
      → has_page r (w.spans q) i ≡ true
      → k.mapped w.kernel i ≡ true
  page_mapped w q i heap live has =
      heap.known i (page-lt a o r (w.spans q) i (heap.placed q live) has)
        (λ e. live (ground (arith, heap.owns q i live has, heap.no_null)))

  -- A new span gets pages that no other span has.
  pub adopt_step {ℓ} :
      {B : Type 0} {Q : B → Type ℓ} (p : Ptr) (s : Span) (w : SpanHeap a o) (m : L1Node)
      (role : Ptr → Role) (f : SpanHeap a o → Option B)
      → IsHeap u k w role
      → w.page_map ≡ some m
      → p ≢ null
      → role p ≡ unborn
      → u.IsHeld w.store p
      → IsPaginated r s
      → ((q : Ptr) (i : ℕ)
          → role q ≢ unborn
          → has_page r s i ≡ true
          → has_page r (w.spans q) i ≡ false)
      → ((i : ℕ) → has_page r s i ≡ true → k.mapped w.kernel i ≡ true)
      → ((m' : L1Node) (st' : a.Store)
          → IsHeap u k
              (record (put_span p s w) { page_map = some m'; store = st' })
              (update role p in_use)
          → OnResult Q (f (record (put_span p s w) { page_map = some m'; store = st' })))
      → OnResult Q (map_pages a o r p (put_span p s w) >>= f)
  adopt_step p s w m role f heap there real new held pages free mapped rest =
      let at = update_at w.spans p s in
      let pages' = subst (IsPaginated r) (sym at) pages in
      let heap' = frame_at u k heap p s (unborn-IsCompatible new) in
      map_pages_step u k p (put_span p s w) m f there heap.sound (heap.trie m there) real pages'
        λ m' st' run. rest m' st' (
          birth-IsHeap u k heap' p m m' st' real new held pages'
            (λ q i live has.
              let other : (p == q) ≡ false = ground (arith, new) in
              rw other (free q i live (subst (λ x. has_page r x i ≡ true) at has)))
            (λ i has. mapped i (subst (λ x. has_page r x i ≡ true) at has)) there run)
