-- ===== src/Metadata/Refusals.antt =====
-- Failures of mmap as src/metadata.c meets them, counted in requests from a state on.
use fast_memory_allocator.Base.{ℕ, suc, ◌≡◌, ◌⊎◌, inl, inr}
use fast_memory_allocator.SpanHeap.{Mapper, map_failed}
use fast_memory_allocator.Metadata.{Arena, failed_chunk, meta_chunk_size}

-- One of the next `n` requests for a chunk gets MAP_FAILED.
pub data Refuses (o : Mapper) : ℕ → o.Kernel → Type 0 where
  refuses_now :
      {n : ℕ} {kernel : o.Kernel}
      → (o.mmap meta_chunk_size kernel).0 ≡ map_failed
      → Refuses o (suc n) kernel
  refuses_later :
      {n : ℕ} {kernel : o.Kernel}
      → Refuses o n (o.mmap meta_chunk_size kernel).1
      → Refuses o (suc n) kernel

-- `meta_arena` is MAP_FAILED, or one of the next `n` requests for a chunk makes it so.
abbrev pub CannotMap : (o : Mapper) → ℕ → Arena o → Type 0
CannotMap o n st = (st.meta_arena ≡ failed_chunk) ⊎ Refuses o n st.kernel

-- The second state is reached from the first with one request for a chunk at most.
abbrev pub Spends : (o : Mapper) → Arena o → Arena o → Type 0
Spends o st st' = (n : ℕ) → CannotMap o n st' → CannotMap o (suc n) st

module _ {o : Mapper} where
  pub Refuses-suc : {n : ℕ} {kernel : o.Kernel} → Refuses o n kernel → Refuses o (suc n) kernel
  Refuses-suc (refuses_now fails) = refuses_now fails
  Refuses-suc (refuses_later later) = refuses_later (Refuses-suc later)

  pub CannotMap-suc : (n : ℕ) (st : Arena o) → CannotMap o n st → CannotMap o (suc n) st
  CannotMap-suc n st (inl failed) = inl failed
  CannotMap-suc n st (inr refuses) = inr (Refuses-suc refuses)
