-- ===== src/Tests/Pages.antt =====
-- Page ranges of the VBAR of `Device`.
use comfy_aimdo_xpu.Base.{ℕ, ◌+◌, ◌*◌, ◌^◌, ◌≡◌, refl, arith, ◌≤◌, ◌<◌, none, ◌≢◌, some, ◌⊎◌, ◌↔◌}
use comfy_aimdo_xpu.Tests.Device.{weights}
use comfy_aimdo_xpu.Vbar.Pages.{
  vbar_page_count, vbar_fault_page_range, vbar_metadata_allocation_size, vbar_page_size,
}
use comfy_aimdo_xpu.Vbar.Pages.Ranges.{
  vbar_fault_page_range_bounds, vbar_page_count_least, vbar_fault_page_range_accepts,
}

-- 33 MiB take two pages.
vbar_page_count_least_example :
    ((vbar_page_count (33 * 2 ^ 20) ≡ none) × (2 ^ 64 < 33 * 2 ^ 20 + vbar_page_size))
    ⊎ ((pages : ℕ) × (vbar_page_count (33 * 2 ^ 20) ≡ some pages)
        × (33 * 2 ^ 20 ≤ pages * vbar_page_size)
        × (pages * vbar_page_size < 33 * 2 ^ 20 + vbar_page_size))
vbar_page_count_least_example = vbar_page_count_least (33 * 2 ^ 20) (omega arith)

vbar_fault_page_range_accepts_example :
    (vbar_fault_page_range weights 5 (2 ^ 25) ≢ none) ↔ (5 + 2 ^ 25 ≤ 3 * vbar_page_size)
vbar_fault_page_range_accepts_example =
    vbar_fault_page_range_accepts weights 5 (2 ^ 25) (omega arith)

range_straddles : vbar_fault_page_range weights 5 (2 ^ 25) ≡ some (0, 2)
unfolding vbar_fault_page_range vbar_page_count
range_straddles = refl

vbar_fault_page_range_bounds_example :
    (0 ≤ 2)
    × (2 ≤ 3)
    × (0 * vbar_page_size ≤ 5)
    × (5 < (0 + 1) * vbar_page_size)
    × (5 + 2 ^ 25 ≤ 2 * vbar_page_size)
    × (2 * vbar_page_size < 5 + 2 ^ 25 + vbar_page_size)
vbar_fault_page_range_bounds_example =
    vbar_fault_page_range_bounds weights 5 (2 ^ 25) (omega arith) range_straddles

metadata_of_three : vbar_metadata_allocation_size 96 24 3 ≡ some 168
unfolding vbar_metadata_allocation_size
metadata_of_three = refl
