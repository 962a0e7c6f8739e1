-- ===== src/SpanHeap/Roles/Runs.antt =====
-- The pages of the two parts of a span that is split.
use native.Mathlib.Nat.{
  one-le-pow, pow-le-pow_right, add-mul, add-sub_of_le, add-mul-mod_self_right, add-mul-div_right,
}
use fast_memory_allocator.Base.{
  ℕ, ◌+◌, ◌-◌, ◌*◌, ◌/◌, ◌%◌, ◌^◌, ◌≤◌, ◌<◌, ◌≡◌, sym, true, false, ap, ◌∙◌, arith,
}
use fast_memory_allocator.Base.Words.{u64, sub64}
use fast_memory_allocator.Common.{Runtime}
use fast_memory_allocator.Span.{Span}
use fast_memory_allocator.SpanHeap.Roles.{IsPaginated, has_page, in_run}

module _ (r : Runtime) (small : r.page_shift ≤ 20) where
  abbrev page : ℕ
  page = 2 ^ r.page_shift

  pub page_pos : 0 < page
  page_pos = one-le-pow r.page_shift 2 (omega arith)

  pub page_le : page ≤ 2 ^ 20
  page_le = pow-le-pow_right {n = 2} (omega arith) {i = r.page_shift} small

  -- `n` pages from `base` on, and the rest of the `m` pages.
  module _ (base n m : ℕ) (le : n ≤ m) (aligned : base % page ≡ 0)
      (fits : base + m * page ≤ 2 ^ 35 * page) where
    parts_lem : n * page + (m - n) * page ≡ m * page
    parts_lem = sym (add-mul n (m - n) page) ∙ ap (λ (x : ℕ). x * page) (add-sub_of_le le)

    pub end_lem : u64 (base + u64 (n * page)) ≡ base + n * page
    end_lem = omega (arith, parts_lem, page_le, fits)

    pub end_aligned : (base + n * page) % page ≡ 0
    end_aligned = add-mul-mod_self_right base n page ∙ aligned

    pub end_page : (base + n * page) / page ≡ base / page + n
    end_page = add-mul-div_right base n page_pos

    pub rest_fits : base + n * page + (m - n) * page ≤ 2 ^ 35 * page
    rest_fits = omega (arith, parts_lem, fits)

    pub rest_lem : m < 2 ^ 64 → sub64 m n ≡ m - n
    rest_lem lt = omega arith

  -- A span `s` that takes over the pages of `t` behind the first `n`.
  module _ (t s : Span) (n : ℕ) (pages : IsPaginated r t) (le : n ≤ t.page_count)
      (base_eq : s.base ≡ t.base + n * page) (count_eq : s.page_count ≡ t.page_count - n) where
    first_eq : s.base / page ≡ t.base / page + n
    first_eq =
        ap (λ (b : ℕ). b / page) base_eq
        ∙ end_page t.base n t.page_count le pages.aligned pages.fits

    pub rest-IsPaginated : IsPaginated r s
    rest-IsPaginated = record {
      aligned = rw base_eq (end_aligned t.base n t.page_count le pages.aligned pages.fits);
      fits = rw (base_eq, count_eq) (rest_fits t.base n t.page_count le pages.aligned pages.fits);
    }

    -- Each page of the rest was one of all, and is none of the first `n`.
    pub rest_page :
        (i : ℕ) → has_page r s i ≡ true → (has_page r t i ≡ true) × (in_run r t.base n i ≡ false)
    rest_page i has = (ground (arith, first_eq), ground (arith, first_eq))
