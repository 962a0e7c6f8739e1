-- ===== src/Cmalloc/Unlink.antt =====
-- A doubly linked list without one of its spans: what `bin_remove` of src/cmalloc.c makes of a bin's
-- links.
use mathlib.Core.List.{◌++◌}
use fast_memory_allocator.Base.{
  IsAbsent, absent_nil, absent_cons, ◌≡◌, ◌≢◌, refl, sym, ap, subst, ◌∙◌, List, [], ◌∷◌,
}
use fast_memory_allocator.Span.{Ptr, null, Span}
use fast_memory_allocator.Cmalloc.Bins.{IsBin, bin_nil, bin_cons, head_apart, back, link}

-- The head of the list `before ++ after` that is left of one with head `head`.
abbrev pub head_after : List Ptr → Ptr → Ptr → Ptr
head_after [] next head = next
head_after (q ∷ qs) next head = head

absent_mid :
    (before : List Ptr) (x p : Ptr) (after : List Ptr) → IsAbsent x (before ++ (p ∷ after)) → x ≢ p
absent_mid [] x p after (absent_cons ne out) = ne
absent_mid (q ∷ qs) x p after (absent_cons ne out) = absent_mid qs x p after out

drop-IsAbsent :
    (before : List Ptr) (x p : Ptr) (after : List Ptr)
    → IsAbsent x (before ++ (p ∷ after))
    → IsAbsent x (before ++ after)
drop-IsAbsent [] x p after (absent_cons ne out) = out
drop-IsAbsent (q ∷ qs) x p after (absent_cons ne out) =
    absent_cons ne (drop-IsAbsent qs x p after out)

behind-IsAbsent :
    (before : List Ptr) (x p : Ptr) (after : List Ptr)
    → IsAbsent x (before ++ (p ∷ after))
    → IsAbsent x after
behind-IsAbsent [] x p after (absent_cons ne out) = out
behind-IsAbsent (q ∷ qs) x p after (absent_cons ne out) = behind-IsAbsent qs x p after out

-- The neighbours of a span in a list.
pub record IsMiddle (spans : Ptr → Span) (p : Ptr) (after : List Ptr) : Type 0 where
  pub real : p ≢ null
  pub back_apart : IsAbsent (back (spans p)) (p ∷ after)
  pub apart : IsAbsent p after
  pub rest : IsBin spans p (link (spans p)) after

pub middle :
    {spans : Ptr → Span} (before : List Ptr) {prev head p : Ptr} {after : List Ptr}
    → IsAbsent prev (before ++ (p ∷ after))
    → IsBin spans prev head (before ++ (p ∷ after))
    → IsMiddle spans p after
middle {spans} [] {prev} {head} {p} {after} out (bin_cons real apart behind next rest) = record {
  real = real;
  back_apart = subst (λ x. IsAbsent x (p ∷ after)) (sym behind) out;
  apart = apart;
  rest = subst (λ x. IsBin spans p x after) (sym next) rest;
}
middle (q ∷ qs) (absent_cons ne out) (bin_cons real apart behind next rest) = middle qs apart rest

-- What the removal of `p` makes of the spans.
pub record IsUnlinked (f g : Ptr → Span) (p : Ptr) : Type 0 where
  pub other : (x : Ptr) → x ≢ back (f p) → x ≢ link (f p) → x ≢ p → g x ≡ f x
  pub behind :
      link (f p) ≢ null
      → (back (g (link (f p))) ≡ back (f p)) × (link (g (link (f p))) ≡ link (f (link (f p))))
  pub before :
      back (f p) ≢ null
      → (link (g (back (f p))) ≡ link (f p)) × (back (g (back (f p))) ≡ back (f (back (f p))))

keep_after :
    {f g : Ptr → Span} {p prev head : Ptr} {qs : List Ptr}
    → IsUnlinked f g p
    → IsAbsent (back (f p)) qs
    → IsAbsent (link (f p)) qs
    → IsAbsent p qs
    → IsBin f prev head qs
    → IsBin g prev head qs
keep_after un out out' out'' bin_nil = bin_nil
keep_after {f} {g} un (absent_cons ne out) (absent_cons ne' out') (absent_cons ne'' out'')
      (bin_cons {p = q} real apart behind next rest) =
    let same : g q ≡ f q = un.other q (λ e. ne (sym e)) (λ e. ne' (sym e)) (λ e. ne'' (sym e)) in
    bin_cons real apart (ap back same ∙ behind) (ap link same ∙ next)
      (keep_after un out out' out'' rest)

pub IsAbsent-parts : {x q : Ptr} {qs : List Ptr} → IsAbsent x (q ∷ qs) → (x ≢ q) × IsAbsent x qs
IsAbsent-parts (absent_cons ne out) = (ne, out)

pub first_back :
    {f : Ptr → Span} {prev head p : Ptr} {qs : List Ptr}
    → IsBin f prev head (p ∷ qs)
    → back (f p) ≡ prev
first_back (bin_cons real apart behind next rest) = behind

-- The spans behind `p` follow its predecessor.
close_gap :
    {f g : Ptr → Span} {p head : Ptr} {after : List Ptr}
    → IsUnlinked f g p
    → head ≡ link (f p)
    → IsAbsent (back (f p)) after
    → IsAbsent p after
    → IsBin f p head after
    → IsBin g (back (f p)) head after
close_gap un e out out' bin_nil = bin_nil
close_gap {f} {g} {p} un e (absent_cons ne out) (absent_cons ne' out')
      (bin_cons {p = q} {qs = left} real apart behind next rest) =
    let there = un.behind (λ z. real (e ∙ z)) in
    bin_cons real apart (ap (λ (x : Ptr). back (g x)) e ∙ there.0)
      (ap (λ (x : Ptr). link (g x)) e ∙ there.1 ∙ ap (λ (x : Ptr). link (f x)) (sym e) ∙ next)
      (keep_after un out (subst (λ x. IsAbsent x left) e apart) out' rest)

-- The predecessor of `p` is one of those before it.
pub back_in :
    {f : Ptr → Span} (q : Ptr) (before : List Ptr) (x p : Ptr) (after : List Ptr) {prev head : Ptr}
    → IsAbsent x (q ∷ (before ++ (p ∷ after)))
    → IsBin f prev head (q ∷ (before ++ (p ∷ after)))
    → x ≢ back (f p)
back_in q [] x p after (absent_cons ne out)
      (bin_cons real apart behind next (bin_cons real' apart' behind' next' rest)) =
    λ e. ne (e ∙ behind')
back_in q (q' ∷ qs) x p after (absent_cons ne out) (bin_cons real apart behind next rest) =
    back_in q' qs x p after out rest

pub unlink :
    {f g : Ptr → Span} (before : List Ptr) (p : Ptr) (after : List Ptr) {prev head : Ptr}
    → IsUnlinked f g p
    → IsAbsent prev (before ++ (p ∷ after))
    → IsBin f prev head (before ++ (p ∷ after))
    → IsBin g prev (head_after before (link (f p)) head) (before ++ after)
unlink {f} {g} [] p after {prev} un out bin =
    let m = middle [] out bin in
    let (ne, apart) = IsAbsent-parts m.back_apart in
    subst (λ x. IsBin g x (link (f p)) after) (first_back bin)
      (close_gap un refl apart m.apart m.rest)
unlink {f} {g} (q ∷ []) p after {prev} un out (bin_cons {next} real apart behind link_eq rest) =
    let e : back (f p) ≡ q = first_back rest in
    let there = un.before (λ z. real (sym e ∙ z)) in
    bin_cons real (drop-IsAbsent [] q p after apart)
      (ap (λ (x : Ptr). back (g x)) (sym e) ∙ there.1 ∙ ap (λ (x : Ptr). back (f x)) e ∙ behind)
      (ap (λ (x : Ptr). link (g x)) (sym e) ∙ there.0) (unlink [] p after un apart rest)
unlink {f} {g} (q ∷ (q' ∷ qs)) p after un out (bin_cons real apart behind next rest) =
    let m = middle (q' ∷ qs) apart rest in
    let same : g q ≡ f q =
      un.other q (back_in q' qs q p after apart rest)
        (head_apart m.rest (behind-IsAbsent (q' ∷ qs) q p after apart) real)
        (absent_mid (q' ∷ qs) q p after apart) in
    bin_cons real (drop-IsAbsent (q' ∷ qs) q p after apart) (ap back same ∙ behind)
      (ap link same ∙ next) (unlink (q' ∷ qs) p after un apart rest)

pub null-IsAbsent :
    {f : Ptr → Span} {prev head : Ptr} {qs : List Ptr} → IsBin f prev head qs → IsAbsent null qs
null-IsAbsent bin_nil = absent_nil
null-IsAbsent (bin_cons real apart behind next rest) =
    absent_cons (λ e. real (sym e)) (null-IsAbsent rest)
