-- ===== src/Vbar/Pages.antt =====
-- Page numbers, sizes and ranges of src/model-vbar.c.
pub mod Ranges
use comfy_aimdo_xpu.Base.{
  ℕ, ◌-◌, ◌*◌, ◌/◌, ◌%◌, ◌^◌, Bool, ◌||◌, Option, none, some, ltb, ◌==◌, not, if◌then◌else◌,
}
use comfy_aimdo_xpu.Base
use comfy_aimdo_xpu.Devctx.{Page, Vbar, add64}

-- 32 << 20
abbrev pub vbar_page_size : ℕ
vbar_page_size = 2 ^ 25

abbrev pub uint64_max : ℕ
uint64_max = 2 ^ 64 - 1

abbrev pub vbar_get_page_nr : ℕ → ℕ
vbar_get_page_nr x = x / vbar_page_size

abbrev pub vbar_get_page_nr_up : ℕ → ℕ
vbar_get_page_nr_up x = vbar_get_page_nr (add64 x (vbar_page_size - 1))

unfoldable pub vbar_page_count : ℕ → Option ℕ
vbar_page_count size =
    let pages = add64 size (vbar_page_size - 1) / vbar_page_size in
    if ltb (uint64_max - (vbar_page_size - 1)) size
    then none
    else if ltb uint64_max pages
    then none
    else some pages

-- The sizes of `ModelVBAR` and `ResidentPage` are the compiler's.
unfoldable pub vbar_metadata_allocation_size : (sizeof_vbar sizeof_page nr_pages : ℕ) → Option ℕ
vbar_metadata_allocation_size sizeof_vbar sizeof_page nr_pages =
    if ltb ((uint64_max - sizeof_vbar) / sizeof_page) nr_pages
    then none
    else some (add64 sizeof_vbar ((nr_pages * sizeof_page) % 2 ^ 64))

-- First page, and the page after the last.
unfoldable pub vbar_fault_page_range : Vbar → (offset size : ℕ) → Option (ℕ × ℕ)
unfolding vbar_page_count
vbar_fault_page_range mv offset size =
    let reserved_size = (mv.nr_pages * vbar_page_size) % 2 ^ 64 in
    if ltb (uint64_max / vbar_page_size) mv.nr_pages
    then none
    else if ltb reserved_size offset || ltb (reserved_size - offset) size
    then none
    else elim (vbar_page_count (add64 offset size)) [
      | none ↦ none
      | some page_end ↦ some (offset / vbar_page_size, page_end)
    ]

abbrev pub vbar_page_is_mapped : Page → Bool
vbar_page_is_mapped rp = not (rp.handle == 0)
