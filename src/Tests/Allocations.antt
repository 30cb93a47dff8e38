-- ===== src/Tests/Allocations.antt =====
-- Allocations on the device of `Device`, with a driver that gives one address.
use comfy_aimdo_xpu.Base.Int.{◌+ℤ◌, ◌-ℤ◌}
use comfy_aimdo_xpu.Devctx.Budget.{
  budget_deficit, deficit_of, deficit_delta, cuda_budget_deficit, poll_device, deficit_simple,
}
use comfy_aimdo_xpu.Vbar.Reclaim.{vbars_free_internal}
use comfy_aimdo_xpu.Base.{ℕ, ◌^◌, ◌+◌, [], true, ◌∷◌, ◌≡◌, none, ◌%◌, arith, refl, false}
use comfy_aimdo_xpu.Allocator.{
  Routes, accounted_alloc_size, aimdo_cuda_malloc, account_free, Allocations, account_alloc,
  aimdo_cuda_free,
}
use comfy_aimdo_xpu.Allocator.Contract.{
  FreeOutcome, AllocOutcome, aimdo_cuda_free-Outcome, aimdo_cuda_malloc-Outcome,
}
use comfy_aimdo_xpu.Allocator.Table.{
  Refines, outstanding, enter, take_out, account-Refines, account_free-account_alloc,
}
use comfy_aimdo_xpu.Tests.Device.{device, loaded, loaded_accounts}
use comfy_aimdo_xpu.Vbar.Invariant.{Inv}
use comfy_aimdo_xpu.Gpu.{success}
use comfy_aimdo_xpu.Devctx.{add64}
use comfy_aimdo_xpu.VramBuffer.Accounts.{Inv-more}

abbrev one_address : Routes ℕ
one_address = record {
  true_alloc = λ size w. (success, 2 ^ 30, w);
  true_free = λ ptr w. (success, w);
  true_alloc_async = λ size stream w. (success, 2 ^ 30, w);
  true_free_async = λ ptr stream w. (success, w);
  entry_malloc = λ w. (true, w);
  free_rogue = λ ptr a. (none, a);
  graph_alloc = λ size stream a. (none, a);
  graph_free = λ ptr stream a. (none, a);
}

abbrev no_entries : Allocations ℕ
no_entries = record { context = loaded; size_table = λ h. [] }

-- Three bytes are outstanding at the address, accounted as 1 KiB.
abbrev three_bytes : Allocations ℕ
three_bytes = record {
  context = record loaded { total_vram_usage = add64 loaded.total_vram_usage 1024; world = 2 };
  size_table = λ h. record { ptr = 2 ^ 30; size = 3 } ∷ [];
}

account-Refines_example :
    Refines
      (account_alloc true 5 3 no_entries)
      (enter 5 3 (outstanding no_entries))
      (add64 loaded.total_vram_usage (accounted_alloc_size 3))
    × Refines
        (account_free 5 no_entries)
        (take_out 5 (outstanding no_entries))
        loaded.total_vram_usage
account-Refines_example = account-Refines true 5 3 no_entries

account_free-account_alloc_example :
    let b = account_free 5 (account_alloc true 5 3 three_bytes) in
    ((p : ℕ) → outstanding b p ≡ outstanding three_bytes p)
    × (b.context.total_vram_usage ≡ three_bytes.context.total_vram_usage % 2 ^ 64)
account_free-account_alloc_example = account_free-account_alloc 5 3 three_bytes

aimdo_cuda_malloc-Outcome_example :
    AllocOutcome
      (λ w. (success, 2 ^ 30, w))
      (λ w. (true, w))
      0
      3
      no_entries
      (aimdo_cuda_malloc device one_address true true 77 3 no_entries)
aimdo_cuda_malloc-Outcome_example =
    aimdo_cuda_malloc-Outcome device one_address 0 3 no_entries 77 loaded_accounts

-- The allocation succeeds there.
malloc_succeeds : (aimdo_cuda_malloc device one_address true true 77 3 no_entries).0 ≡ success
unfolding aimdo_cuda_malloc vbars_free_internal budget_deficit deficit_of ◌+ℤ◌ deficit_delta ◌-ℤ◌
    cuda_budget_deficit poll_device deficit_simple
malloc_succeeds = refl

three_charged : Inv (0 + accounted_alloc_size 3) three_bytes.context
unfolding accounted_alloc_size
three_charged = Inv-more 0 1024 loaded 2 loaded_accounts

aimdo_cuda_free-Outcome_example :
    FreeOutcome 0 3
      (2 ^ 30)
      three_bytes
      (aimdo_cuda_free one_address true true (2 ^ 30) three_bytes)
aimdo_cuda_free-Outcome_example =
    aimdo_cuda_free-Outcome one_address 0 3 (2 ^ 30) [] three_bytes (omega arith) refl refl
      three_charged

-- Without memory for the entry, the charge stays after the free.
lost_charge :
    (account_free 5 (account_alloc false 5 3 no_entries)).context.total_vram_usage
    ≡ loaded.total_vram_usage + 1024
unfolding account_free account_alloc accounted_alloc_size
lost_charge = refl
