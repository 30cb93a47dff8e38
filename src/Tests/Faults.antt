-- ===== src/Tests/Faults.antt =====
-- Faults and reclaims of the VBAR of `Device`.
use comfy_aimdo_xpu.Base.{ℕ, ◌*◌, ◌^◌, ◌≡◌, true, none, refl, arith, ◌+◌, ◌-◌, ◌∷◌, ◌<◌, []}
use comfy_aimdo_xpu.Base.Int.{pos, ◌+ℤ◌, ◌-ℤ◌}
use comfy_aimdo_xpu.Vbar.Pages.{vbar_page_size, vbar_fault_page_range}
use comfy_aimdo_xpu.Tests.Device.{device, device_gives, loaded, loaded_accounts}
use comfy_aimdo_xpu.Vbar.Reclaim.Evicting.{InRange, vbars_free_internal-Evicts}
use comfy_aimdo_xpu.Devctx.{page}
use comfy_aimdo_xpu.Vbar.Fault.Contract.{Outcome, vbar_fault-Outcome}
use comfy_aimdo_xpu.Vbar.Evict.Steps.{Evicts}
use comfy_aimdo_xpu.Vbar.Invariant.{Inv}
use comfy_aimdo_xpu.Vbar.Fault.{vbar_fault}
use comfy_aimdo_xpu.Vbar.Reclaim.{vbars_free_internal}
use comfy_aimdo_xpu.Vbar.Surplus.{vbars_free_for_vbar}
use comfy_aimdo_xpu.Vbar.Surplus.Evicting.{vbars_free_for_vbar-Evicts}
use comfy_aimdo_xpu.Vbar.Evict.Accounts.{Evicts-Inv}
use comfy_aimdo_xpu.Devctx.Budget.{
  budget_deficit, deficit_of, deficit_delta, cuda_budget_deficit, poll_device, deficit_simple,
}
use comfy_aimdo_xpu.Vbar.Surplus.Served.{Served}

loaded-InRange : InRange loaded
loaded-InRange v i = omega arith

loaded_pinnable : (m : ℕ) → (page loaded 7 m).pin_count + 1 < 2 ^ 32
loaded_pinnable m = ground arith

vbar_fault-Outcome_example :
    Outcome 0 loaded 7 5
      (3 * vbar_page_size - 5)
      (vbar_fault device loaded 7 5 (3 * vbar_page_size - 5))
vbar_fault-Outcome_example =
    vbar_fault-Outcome device device_gives 0 loaded 7 5 (3 * vbar_page_size - 5) loaded_accounts
      refl loaded_pinnable

vbars_free_internal-Evicts_example :
    Evicts loaded (vbars_free_internal device loaded (pos 1) none true).1
vbars_free_internal-Evicts_example =
    vbars_free_internal-Evicts device loaded (pos 1) none true loaded-InRange

vbars_free_for_vbar-Evicts_example : Evicts loaded (vbars_free_for_vbar device loaded 7 3 (pos 0)).1
vbars_free_for_vbar-Evicts_example =
    vbars_free_for_vbar-Evicts device loaded 7 3 (pos 0) loaded-InRange

Evicts-Inv_example : Inv 0 (vbars_free_internal device loaded (pos 1) none true).1
Evicts-Inv_example =
    Evicts-Inv 0 loaded_accounts
      (vbars_free_internal-Evicts device loaded (pos 1) none true loaded-InRange)

-- The whole VBAR is brought in: the third page's serial goes from 4 to 5.
vbar_fault_signature : (vbar_fault device loaded 7 0 (3 * vbar_page_size)).1 ≡ 1 ∷ 1 ∷ 5 ∷ []
unfolding vbar_fault vbar_fault_page_range vbars_free_internal budget_deficit deficit_of ◌+ℤ◌
    deficit_delta ◌-ℤ◌ cuda_budget_deficit poll_device deficit_simple vbars_free_for_vbar
vbar_fault_signature = refl
