-- ===== src/Tests/Owners.antt =====
-- The calls of an owner on the VBAR of `Device`.
use comfy_aimdo_xpu.Base.{ℕ, ◌+◌, ◌^◌, ◌≡◌, ◌≢◌, ◌<◌, ◌⊎◌, true, none, some, refl, arith, ◌∷◌, []}
use comfy_aimdo_xpu.Base.Int.{pos, ◌+ℤ◌, ◌-ℤ◌}
use comfy_aimdo_xpu.Tests.Device.{device, device_gives, loaded, loaded_accounts}
use comfy_aimdo_xpu.Devctx.Budget.{
  budget_deficit, deficit_of, deficit_delta, cuda_budget_deficit, poll_device, deficit_simple,
}
use comfy_aimdo_xpu.Vbar.Pages.{vbar_fault_page_range}
use comfy_aimdo_xpu.Vbar.Reclaim.{vbars_free_internal}
use comfy_aimdo_xpu.Vbar.Surplus.{vbars_free_for_vbar}
use comfy_aimdo_xpu.Vbar.Fault.{vbar_fault, fault_success}
use comfy_aimdo_xpu.Vbar.Owner.{vbar_unpin_stream, vbar_set_watermark, vbar_free_memory}
use comfy_aimdo_xpu.Vbar.Lifecycle.Priority.{Moved, vbar_prioritize-Moved}
use comfy_aimdo_xpu.Vbar.Invariant.{Inv}
use comfy_aimdo_xpu.Vbar.Fault.Pins.{SamePins}
use comfy_aimdo_xpu.Vbar.Reclaim.Evicting.{InRange}
use comfy_aimdo_xpu.Vbar.Owner.Unpinning.{Unpinned, vbar_unpin_stream-Unpinned}
use comfy_aimdo_xpu.Vbar.Lifecycle.{vbar_allocate, vbar_prioritize, vbar_free}
use comfy_aimdo_xpu.Vbar.Owner.Watermark.{GoneOrPinned, vbar_unpin_stream-GoneOrPinned}
use comfy_aimdo_xpu.Devctx.{State, page}
use comfy_aimdo_xpu.Vbar.Lifecycle.Death.{Dead, vbar_free-Dead}
use comfy_aimdo_xpu.Vbar.Reclaim.Progress.{Reclaimed, vbars_free_internal-Reclaimed}
use comfy_aimdo_xpu.Vbar.Owner.RoundTrip.{vbar_unpin_stream-fault}
use comfy_aimdo_xpu.Vbar.Owner.SetWatermark.{WatermarkSet, vbar_set_watermark-WatermarkSet}
use comfy_aimdo_xpu.Vbar.Evict.Steps.{Evicts}
use comfy_aimdo_xpu.Vbar.Lifecycle.Birth.{Unborn, Born, vbar_allocate-Born}
use comfy_aimdo_xpu.Vbar.Owner.Memory.{Reported, vbar_free_memory-Reported}
use comfy_aimdo_xpu.Vbar.Evict.{mod1, lower_watermark}

owned-InRange : InRange loaded
owned-InRange v i = omega arith

owned_pinnable : (m : ℕ) → (page loaded 7 m).pin_count + 1 < 2 ^ 32
owned_pinnable m = ground arith

reclaim_done : (vbars_free_internal device loaded (pos 1) none true).0 ≡ true
unfolding vbars_free_internal mod1 lower_watermark
reclaim_done = refl

vbars_free_internal-Reclaimed_example :
    Reclaimed loaded (vbars_free_internal device loaded (pos 1) none true).1 none true 1
vbars_free_internal-Reclaimed_example =
    vbars_free_internal-Reclaimed device loaded (pos 1) none true owned-InRange (omega arith)
      reclaim_done

fault_done : (vbar_fault device loaded 7 0 5).0 ≡ fault_success
unfolding vbar_fault vbar_fault_page_range vbars_free_internal budget_deficit deficit_of ◌+ℤ◌
    deficit_delta ◌-ℤ◌ cuda_budget_deficit poll_device deficit_simple vbars_free_for_vbar
fault_done = refl

vbar_unpin_stream-fault_example :
    SamePins loaded (vbar_unpin_stream device (vbar_fault device loaded 7 0 5).2 7 0 5).1
vbar_unpin_stream-fault_example =
    vbar_unpin_stream-fault device device_gives 0 loaded 7 0 5 loaded_accounts refl owned_pinnable
      fault_done

vbar_unpin_stream-Unpinned_example :
    Unpinned loaded (vbar_unpin_stream device loaded 7 0 5).1 7 0 5
    × Inv 0 (vbar_unpin_stream device loaded 7 0 5).1
vbar_unpin_stream-Unpinned_example =
    vbar_unpin_stream-Unpinned device 0 loaded 7 0 5 loaded_accounts refl (omega arith)

vbar_free_memory-Reported_example :
    let (bytes, t) = vbar_free_memory device loaded 7 5 in
    Evicts loaded t × ((bytes ≡ none) ⊎ ((n : ℕ) × (bytes ≡ some n) × Reported loaded t 7 1 n))
vbar_free_memory-Reported_example = vbar_free_memory-Reported device loaded 7 5 owned-InRange refl

vbar_set_watermark-WatermarkSet_example :
    let (ok, t) = vbar_set_watermark device loaded 7 5 in WatermarkSet 0 loaded 7 1 ok t
vbar_set_watermark-WatermarkSet_example =
    vbar_set_watermark-WatermarkSet device 0 loaded 7 5 loaded_accounts refl

-- The watermark comes down to one page, below the second, which an unpinning then takes back.
abbrev lowered_state : State ℕ
lowered_state = record loaded { vbars = λ v. record (loaded.vbars v) { watermark = 1 } }

lowered_accounts : Inv 0 lowered_state
lowered_accounts = record {
  distinct = (refl, tt);
  valid = λ v i. record { within = omega arith; fits = omega arith; counted = refl };
  accounted = refl;
}

unpin_done : (vbar_unpin_stream device lowered_state 7 0 (2 ^ 26)).0 ≡ true
unfolding vbar_unpin_stream mod1
unpin_done = refl

vbar_unpin_stream-GoneOrPinned_example :
    GoneOrPinned (vbar_unpin_stream device lowered_state 7 0 (2 ^ 26)).1 7 1
vbar_unpin_stream-GoneOrPinned_example =
    vbar_unpin_stream-GoneOrPinned device 0 lowered_state 7 0 (2 ^ 26) 1 lowered_accounts refl
      (omega arith) unpin_done
      (record { in_table = omega arith; begins = omega arith; reaches = omega arith }) (omega arith)

vbar_free-Dead_example : Dead 0 loaded (vbar_free device loaded 7) 7
vbar_free-Dead_example = vbar_free-Dead device 0 loaded 7 loaded_accounts refl

vbar_allocate-Born_example :
    let (r, t) = vbar_allocate device 96 24 loaded 5 0 none in
    ((r ≡ 0) × Unborn loaded t) ⊎ ((r ≢ 0) × Born 0 loaded t r 5)
vbar_allocate-Born_example =
    vbar_allocate-Born device 0 96 24 loaded 5 0 none loaded_accounts (omega arith) (omega arith)
      (λ bytes w. refl)

vbar_prioritize-Moved_example :
    Moved 0 loaded (vbar_prioritize loaded 7 5) 7
    × ((vbar_prioritize loaded 7 5).order ≡ 7 ∷ [])
    × (((vbar_prioritize loaded 7 5).vbars 7).watermark ≡ 3)
vbar_prioritize-Moved_example = vbar_prioritize-Moved 0 loaded 7 5 loaded_accounts refl
