-- ===== src/TwoPhase/Consumers.antt =====
-- Pins and unpins of the Windows XPU build: what `vbar_fault_locked`, `vbar_unpin_range`,
-- `vbar_register_consumer_stream` and `vbar_unpin_stream` of src/model-vbar.c do to each page.
use comfy_aimdo_xpu.Base.{
  ℕ, Bool, if◌then◌else◌, ◌==◌, ◌&&◌, not, false, ◌-◌, true, min, ◌||◌, ltb, leb,
}
use comfy_aimdo_xpu.Retire.{
  all_pages, each_page, XpuPage, vbar_page_cancel_eviction, XpuVbar, vbar_retire_record,
  mapping_mapped, xpu_page_is_mapped,
}
use comfy_aimdo_xpu.Devctx.{incr32, add64}
use comfy_aimdo_xpu.Vbar.Pages.{vbar_get_page_nr, vbar_get_page_nr_up, uint64_max}

-- A fault finds the page mapped.
unfoldable pub fault_hit : XpuPage → XpuPage
unfolding vbar_page_cancel_eviction
fault_hit rp =
    let rp1 = vbar_page_cancel_eviction rp in record rp1 { pin_count = incr32 rp1.pin_count }

-- A fault has got memory for the page.
unfoldable pub fault_mapped : XpuPage → XpuPage
fault_mapped rp = record rp {
  mapped = mapping_mapped;
  evicting = false;
  serial = add64 rp.serial 1;
  pin_count = incr32 rp.pin_count;
}

-- One round of `vbar_unpin_range`.
unfoldable pub drop_pin : XpuPage → XpuPage
drop_pin rp = if rp.pin_count == 0 then rp else record rp { pin_count = rp.pin_count - 1 }

-- The consumer of a pinned page is written down: `known` and `token` are what
-- `vbar_consumer_dependency` says of its stream, `async` is `vbar_async_reclaim_enabled()`.
unfoldable pub record_consumer : (known async : Bool) (token : ℕ) → XpuPage → XpuPage
unfolding vbar_page_cancel_eviction vbar_retire_record
record_consumer known async token rp =
    let rp1 = vbar_page_cancel_eviction rp in
    if not known
    then (if rp1.capture_holds == 0 then record rp1 { retire_unknown = true } else rp1)
    else if async
    then vbar_retire_record rp1 token
    else rp1

abbrev pub can_register : XpuPage → Bool
can_register rp = xpu_page_is_mapped rp && not (rp.pin_count == 0)

unfoldable pub register_page : (known async : Bool) (token : ℕ) → XpuPage → XpuPage
unfolding record_consumer
register_page known async token rp =
    if can_register rp then record_consumer known async token rp else rp

unfoldable pub unpin_consumer : (known async : Bool) (token : ℕ) → XpuPage → XpuPage
unfolding record_consumer
unpin_consumer known async token rp =
    let rp1 = record_consumer known async token rp in
    if rp.pin_count == 0 then rp else record rp1 { pin_count = rp1.pin_count - 1 }

unfoldable pub vbar_register_consumer_stream :
    (known async : Bool) (token : ℕ) → XpuVbar → (offset size : ℕ) → Bool × XpuVbar
unfolding all_pages each_page register_page
vbar_register_consumer_stream known async token mv offset size =
    let first = vbar_get_page_nr offset in
    let page_end = vbar_get_page_nr_up (add64 offset size) in
    let count = min page_end mv.nr_pages - first in
    if size == 0 || ltb (uint64_max - size) offset then (false, mv) else (
      all_pages can_register count mv first
          && leb page_end mv.nr_pages
          && (known || page_end == first),
      each_page (register_page known async token) count mv first,
    )

-- In this build it frees nothing, so the loop of `mod1` that follows changes no page.
unfoldable pub xpu_unpin_stream :
    (known async : Bool) (token : ℕ) → XpuVbar → (offset size : ℕ) → XpuVbar
unfolding each_page unpin_consumer
xpu_unpin_stream known async token mv offset size =
    let first = vbar_get_page_nr offset in
    let page_end = vbar_get_page_nr_up (add64 offset size) in
    each_page (unpin_consumer known async token) (min page_end mv.nr_pages - first) mv first
