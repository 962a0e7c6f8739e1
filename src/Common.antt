-- ===== src/Common.antt =====
-- src/common.h, and `cmalloc_runtime_init` of src/cmalloc.c: the page size, rounding, alignment, and
-- the size classes with the lookup table. What `sysconf` returns is an argument.
pub mod Pages
pub mod Classes
pub mod Table
pub mod Tests
use fast_memory_allocator.Base.{
  ℕ, zero, suc, ◌+◌, ◌-◌, ◌*◌, ◌/◌, ◌%◌, ◌^◌, bit_and, Bool, true, false, ◌&&◌, Option, none, some,
  List, [], ◌∷◌, ltb, ◌==◌, if◌then◌else◌, update,
}
use fast_memory_allocator.Base.Words.{u64, sub64, not64, trailing_zeros}

-- The page size is what `sysconf` returns.
abbrev pub get_system_page_size : ℕ → ℕ
get_system_page_size sysconf_page_size = sysconf_page_size

-- `get_system_page_shift`: `__builtin_ctz((unsigned int) size)`
unfoldable pub get_system_page_shift : ℕ → ℕ
get_system_page_shift size = trailing_zeros 32 (size % 2 ^ 32)

-- `cmalloc_page_size`, `cmalloc_page_shift` and `cmalloc_size_class_table`, zero before the start.
pub record Runtime : Type 0 where
  pub page_size : ℕ
  pub page_shift : ℕ
  pub size_class_table : ℕ → ℕ

abbrev pub byte_alignment : ℕ
byte_alignment = 16

abbrev pub max_size_class : ℕ
max_size_class = 32768

abbrev pub max_span_block_count : ℕ
max_span_block_count = 4096

abbrev pub size_classes : List ℕ
size_classes =
    16 ∷ 32 ∷ 48 ∷ 64 ∷ 80 ∷ 96 ∷ 112 ∷ 128 ∷ 144 ∷ 160 ∷ 176 ∷ 192 ∷ 208 ∷ 224 ∷ 240 ∷ 256 ∷ 288
    ∷ 320 ∷ 352 ∷ 384 ∷ 416 ∷ 448 ∷ 480 ∷ 512 ∷ 576 ∷ 640 ∷ 704 ∷ 768 ∷ 832 ∷ 896 ∷ 960 ∷ 1024
    ∷ 1152 ∷ 1280 ∷ 1408 ∷ 1536 ∷ 1792 ∷ 2048 ∷ 2560 ∷ 3072 ∷ 3584 ∷ 4096 ∷ 5120 ∷ 6144 ∷ 7168
    ∷ 8192 ∷ 16384 ∷ 32768 ∷ []

abbrev pub size_class_span_size : List ℕ
size_class_span_size =
    65536 ∷ 65536 ∷ 65536 ∷ 65536 ∷ 65536 ∷ 65536 ∷ 65536 ∷ 65536 ∷ 65536 ∷ 65536 ∷ 65536 ∷ 65536
    ∷ 65536 ∷ 65536 ∷ 65536 ∷ 65536 ∷ 131072 ∷ 131072 ∷ 131072 ∷ 131072 ∷ 131072 ∷ 131072 ∷ 131072
    ∷ 131072 ∷ 131072 ∷ 131072 ∷ 131072 ∷ 131072 ∷ 131072 ∷ 131072 ∷ 131072 ∷ 131072 ∷ 262144
    ∷ 262144 ∷ 262144 ∷ 262144 ∷ 262144 ∷ 262144 ∷ 524288 ∷ 524288 ∷ 524288 ∷ 524288 ∷ 524288
    ∷ 524288 ∷ 524288 ∷ 524288 ∷ 1048576 ∷ 1048576 ∷ []

abbrev pub size_class_block_count : List ℕ
size_class_block_count =
    4096 ∷ 2048 ∷ 1365 ∷ 1024 ∷ 819 ∷ 682 ∷ 585 ∷ 512 ∷ 455 ∷ 409 ∷ 372 ∷ 341 ∷ 315 ∷ 292 ∷ 273
    ∷ 256 ∷ 455 ∷ 409 ∷ 372 ∷ 341 ∷ 315 ∷ 292 ∷ 273 ∷ 256 ∷ 227 ∷ 204 ∷ 186 ∷ 170 ∷ 157 ∷ 146 ∷ 136
    ∷ 128 ∷ 227 ∷ 204 ∷ 186 ∷ 170 ∷ 146 ∷ 128 ∷ 204 ∷ 170 ∷ 146 ∷ 128 ∷ 102 ∷ 85 ∷ 73 ∷ 64 ∷ 64 ∷ 32
    ∷ []

-- An entry of one of the constant tables; no caller reads past the end.
unfoldable pub entry : List ℕ → ℕ → ℕ
entry [] i = 0
entry (x ∷ xs) zero = x
entry (x ∷ xs) (suc i) = entry xs i

-- SIZE_CLASSES[i], SIZE_CLASS_SPAN_SIZE[i] and SIZE_CLASS_BLOCK_COUNT[i]
unfoldable pub class_size : ℕ → ℕ
unfolding entry
class_size i = entry size_classes i

unfoldable pub class_span_size : ℕ → ℕ
unfolding entry
class_span_size i = entry size_class_span_size i

unfoldable pub class_block_count : ℕ → ℕ
unfolding entry
class_block_count i = entry size_class_block_count i

abbrev pub size_class_count : ℕ
size_class_count = 48

abbrev pub size_class_table_len : ℕ
size_class_table_len = max_size_class / 2 ^ 4 + 1

-- The inner loop of `cmalloc_runtime_init`, with at most `fuel` rounds.
unfoldable pub advance : ℕ → ℕ → ℕ → ℕ
advance zero largest cls = cls
advance (suc fuel) largest cls =
    let rest = advance fuel largest (cls + 1) in
    if ltb cls size_class_count && ltb (class_size cls) largest then rest else cls

-- The loop over the table from entry `b`, with `left` entries to fill. 48 rounds are enough for the
-- inner loop, since it stops at SIZE_CLASS_COUNT.
unfoldable pub fill : ℕ → ℕ → ℕ → (ℕ → ℕ) → ℕ → ℕ
fill zero b cls table = table
fill (suc left) b cls table =
    let cls' = advance size_class_count (b * 2 ^ 4) cls in
    fill left (b + 1) cls'
      (update table b ((if ltb cls' size_class_count then cls' else 0) % 2 ^ 8))

unfoldable pub cmalloc_runtime_init : ℕ → Runtime → Runtime
cmalloc_runtime_init sysconf_page_size r =
    if r.page_size == 0
    then record {
      page_size = get_system_page_size sysconf_page_size;
      page_shift = get_system_page_shift (get_system_page_size sysconf_page_size);
      size_class_table = fill size_class_table_len 0 0 r.size_class_table;
    }
    else r

-- The constructor of src/cmalloc.c; setting up the mutex is left out.
abbrev pub cmalloc_constructor : ℕ → Runtime → Runtime
cmalloc_constructor sysconf_page_size r = cmalloc_runtime_init sysconf_page_size r

unfoldable pub round_down_page_index : Runtime → ℕ → ℕ
round_down_page_index r ptr = ptr / 2 ^ r.page_shift

unfoldable pub round_up_page_index : Runtime → ℕ → ℕ
round_up_page_index r ptr = sub64 (u64 (ptr + r.page_size)) 1 / 2 ^ r.page_shift

unfoldable pub round_up_page : Runtime → ℕ → ℕ
round_up_page r num = bit_and (u64 (num + sub64 r.page_size 1)) (not64 (sub64 r.page_size 1))

unfoldable pub round_down_page : Runtime → ℕ → ℕ
round_down_page r num = bit_and num (not64 (sub64 r.page_size 1))

-- `none` is LARGE_CLASS_SIZE_INDEX, -1, which no table entry can be.
unfoldable pub get_size_class_index : Runtime → ℕ → Option ℕ
get_size_class_index r size =
    if ltb max_size_class size
    then none
    else some (r.size_class_table (u64 (size + (byte_alignment - 1)) / 2 ^ 4))

unfoldable pub align_up : ℕ → ℕ
align_up val = bit_and (u64 (val + (byte_alignment - 1))) (not64 (byte_alignment - 1))

unfoldable pub align_down : ℕ → ℕ
align_down val = bit_and val (not64 (byte_alignment - 1))

-- For a pointer below 2 ^ 63, where `intptr_t` does not overflow.
abbrev pub align_up_ptr : ℕ → ℕ
align_up_ptr ptr = align_up ptr

abbrev pub align_down_ptr : ℕ → ℕ
align_down_ptr ptr = align_down ptr
