-- ===== src/Vbar/Pages/Ranges.antt =====
-- The bounds of the page arithmetic of src/model-vbar.c.
use comfy_aimdo_xpu.Base.{
  ℕ, ◌+◌, ◌-◌, ◌*◌, ◌/◌, ◌^◌, ◌≤◌, ◌<◌, ◌≡◌, ◌≢◌, ◌↔◌, ◌⊎◌, none, some, arith, Bool-cases, inl, inr,
  ltb,
}
use comfy_aimdo_xpu.Devctx.{Vbar}
use comfy_aimdo_xpu.Vbar.Pages.{
  vbar_page_size, uint64_max, vbar_page_count, vbar_fault_page_range, vbar_metadata_allocation_size,
}

-- A 64-bit size is rounded up to the least number of pages that holds it, and is refused exactly
-- when the rounding would wrap.
pub vbar_page_count_least :
    (size : ℕ)
    → size < 2 ^ 64
    → ((vbar_page_count size ≡ none) × (2 ^ 64 < size + vbar_page_size))
      ⊎ ((pages : ℕ) × (vbar_page_count size ≡ some pages)
          × (size ≤ pages * vbar_page_size)
          × (pages * vbar_page_size < size + vbar_page_size))
unfolding vbar_page_count
vbar_page_count_least size h = elim (Bool-cases (ltb (uint64_max - (vbar_page_size - 1)) size)) [
  | inl e ↦ inl (rw e, ground arith)
  | inr e ↦
      inr ((size + vbar_page_size - 1) / vbar_page_size, ground arith, ground arith, ground arith)
]

-- Where the reservation is below 2 ^ 64 bytes, the page range of a fault is given exactly when the
-- bytes lie in the reservation, sums taken without wrapping.
pub vbar_fault_page_range_accepts :
    (mv : Vbar) (offset size : ℕ)
    → mv.nr_pages * vbar_page_size < 2 ^ 64
    → (vbar_fault_page_range mv offset size ≢ none) ↔ (offset + size ≤ mv.nr_pages * vbar_page_size)
unfolding vbar_fault_page_range
vbar_fault_page_range_accepts mv offset size h = (ground arith, ground arith)

-- Where the reservation is below 2 ^ 64 bytes, the range that is given covers the bytes, lies in
-- the page table, and holds no page more.
pub vbar_fault_page_range_bounds :
    (mv : Vbar) (offset size : ℕ) {first last : ℕ}
    → mv.nr_pages * vbar_page_size < 2 ^ 64
    → vbar_fault_page_range mv offset size ≡ some (first, last)
    → (first ≤ last)
      × (last ≤ mv.nr_pages)
      × (first * vbar_page_size ≤ offset)
      × (offset < (first + 1) * vbar_page_size)
      × (offset + size ≤ last * vbar_page_size)
      × (last * vbar_page_size < offset + size + vbar_page_size)
unfolding vbar_fault_page_range
vbar_fault_page_range_bounds mv offset size h e = ground arith

-- For nonempty pages and a header below 2 ^ 64 bytes, the page table's size in bytes does not wrap
-- where it is given.
pub vbar_metadata_allocation_size_exact :
    (sizeof_vbar sizeof_page nr_pages : ℕ) {bytes : ℕ}
    → sizeof_vbar < 2 ^ 64
    → 0 < sizeof_page
    → vbar_metadata_allocation_size sizeof_vbar sizeof_page nr_pages ≡ some bytes
    → (bytes ≡ sizeof_vbar + nr_pages * sizeof_page) × (bytes < 2 ^ 64)
unfolding vbar_metadata_allocation_size
vbar_metadata_allocation_size_exact sizeof_vbar sizeof_page nr_pages hv hp e = grind arith
