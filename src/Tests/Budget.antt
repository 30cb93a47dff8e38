-- ===== src/Tests/Budget.antt =====
-- The budget of the device of `Device`.
use comfy_aimdo_xpu.Base.{◌+◌, ◌*◌, ◌^◌, ◌≡◌, refl, arith, ◌↔◌, ◌⊎◌, ◌≢◌, ◌≤◌}
use comfy_aimdo_xpu.Tests.Device.{device, loaded}
use comfy_aimdo_xpu.Devctx.Budget.Fits.{IsSized, budget_deficit_polled}
use comfy_aimdo_xpu.Devctx.Budget.{budget_deficit, three_stooges, vram_headroom}
use comfy_aimdo_xpu.Base.Int.{◌≤ℤ◌, pos, ◌+ℤ◌}
use comfy_aimdo_xpu.Gpu.{success}
use comfy_aimdo_xpu.Devctx.{add64}
use comfy_aimdo_xpu.Devctx.Budget.Allocation.{three_stooges_balance, MoreMemory, SameMemory}
use comfy_aimdo_xpu.Tests.Counting.{no_access, one_page, no_access_ledger, one_live}

loaded-IsSized : IsSized loaded
loaded-IsSized = omega arith

budget_deficit_polled_example : ((budget_deficit device loaded (2 ^ 25)).0 ≤ℤ pos 0) ↔ (
    (pos (2 * 2 ^ 25 + 2 ^ 25 + 0) +ℤ pos (2 ^ 28) ≤ℤ pos (2 ^ 34))
    × (vram_headroom + 2 ^ 25 + 0 ≤ 2 ^ 33))
budget_deficit_polled_example =
    budget_deficit_polled device loaded (2 ^ 25) (2 ^ 33) (2 ^ 34) 2 loaded-IsSized (omega arith)
      (omega arith) refl (omega arith) refl

three_stooges_balance_example :
    let (err, h, s') = three_stooges no_access one_page (2 ^ 40) (2 ^ 25) 0 0 in
    ((err ≡ success)
      × MoreMemory no_access no_access_ledger one_live s'.world h (2 ^ 25)
      × (s'.total_vram_usage ≡ add64 one_page.total_vram_usage (2 ^ 25)))
    ⊎ ((err ≢ success)
        × SameMemory no_access no_access_ledger one_live s'.world
        × (s'.total_vram_usage ≡ one_page.total_vram_usage)
        × (h ≡ 0))
three_stooges_balance_example =
    three_stooges_balance no_access no_access_ledger one_page (2 ^ 40) (2 ^ 25) 0 0 (λ w. refl)
      (λ w. refl)
