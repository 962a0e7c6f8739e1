-- ===== src/Common/Tests.antt =====
-- The functions of src/common.h at concrete values, and the theorems about them at a concrete start.
use fast_memory_allocator.Base.{◌≡◌, refl, ◌+◌, ◌-◌, ◌^◌, ◌%◌, ◌/◌, ◌≤◌, ◌<◌, arith}
use fast_memory_allocator.Base.Words.{trailing_zeros}
use fast_memory_allocator.Common.{
  Runtime, get_system_page_shift, cmalloc_runtime_init, get_size_class_index, round_up_page,
  advance, class_size, class_span_size, class_block_count, round_down_page_index,
  round_up_page_index,
}
use fast_memory_allocator.Common.Pages.{IsPaged, round_up_page_lem, round_up_page_wraps}
use fast_memory_allocator.Common.Classes.{class_rows}
use fast_memory_allocator.Common.Table.{
  IsReady, IsClassOf, cmalloc_runtime_init-IsReady, get_size_class_index-IsClassOf,
}

abbrev at_load : Runtime
at_load = record { page_size = 0; page_shift = 0; size_class_table = λ b. 0 }

abbrev started : Runtime
started = cmalloc_runtime_init (2 ^ 12) at_load

abbrev small_pages : Runtime
small_pages = record { page_size = 4096; page_shift = 12; size_class_table = λ b. 0 }

small_pages-IsPaged : IsPaged small_pages
small_pages-IsPaged = record { shift_small = omega arith; size_eq = refl }

page_tests :
    (round_up_page small_pages 65537 ≡ 69632)
    × (round_up_page_index small_pages 65537 ≡ 17)
    × (round_down_page_index small_pages 65537 ≡ 16)
    × (get_system_page_shift 16384 ≡ 14)
unfolding round_up_page round_up_page_index round_down_page_index get_system_page_shift
    trailing_zeros
page_tests = (refl, refl, refl, refl)

class_of_100 : (advance 48 112 0 ≡ 6) × (class_size 6 ≡ 112)
unfolding advance class_size
class_of_100 = (refl, refl)

round_up_page_lem_example :
    (5000 ≤ round_up_page small_pages 5000)
    × (round_up_page small_pages 5000 < 5000 + 4096)
    × (round_up_page small_pages 5000 % 4096 ≡ 0)
round_up_page_lem_example = round_up_page_lem small_pages small_pages-IsPaged 5000 (omega arith)

round_up_page_wraps_example : round_up_page small_pages (2 ^ 64 - 1) ≡ 0
round_up_page_wraps_example =
    round_up_page_wraps small_pages small_pages-IsPaged (2 ^ 64 - 1) (omega arith) (omega arith)

cmalloc_runtime_init-IsReady_example :
    IsReady started × (cmalloc_runtime_init 16384 started ≡ started)
cmalloc_runtime_init-IsReady_example =
    cmalloc_runtime_init-IsReady 12 16384 at_load (omega arith) (omega arith) refl

started-IsReady : IsReady started
started-IsReady = (cmalloc_runtime_init-IsReady 12 16384 at_load (omega arith) (omega arith) refl).0

get_size_class_index-IsClassOf_example : IsClassOf 100 (get_size_class_index started 100)
get_size_class_index-IsClassOf_example = get_size_class_index-IsClassOf started 100 started-IsReady

class_rows_example :
    (0 < class_size 6)
    × (class_size 6 % 16 ≡ 0)
    × (0 < class_span_size 6)
    × (class_span_size 6 % 65536 ≡ 0)
    × (class_block_count 6 ≡ class_span_size 6 / class_size 6)
    × (2 ≤ class_block_count 6)
    × (class_block_count 6 ≤ 4096)
class_rows_example = class_rows 6 (omega arith)
