-- ===== src/Tests/Buffers.antt =====
-- A buffer of 24 MiB on the device of `Device`.
use comfy_aimdo_xpu.Base.{◌+◌, ◌*◌, ◌^◌, ◌≡◌, ◌≤◌, true, refl, arith, inl, ℕ, [], false, inr}
use comfy_aimdo_xpu.Tests.Device.{device, device_gives, loaded, loaded_accounts}
use comfy_aimdo_xpu.VramBuffer.{VramBuffer, vrambuf_grow, vrambuf_destroy}
use comfy_aimdo_xpu.Vbar.Invariant.{Inv}
use comfy_aimdo_xpu.Devctx.{State}
use comfy_aimdo_xpu.VramBuffer.Accounts.{IsSound}
use comfy_aimdo_xpu.VramBuffer.Chunks.{Grown}
use comfy_aimdo_xpu.VramBuffer.Growth.{vrambuf_grow-Grown}
use comfy_aimdo_xpu.Base.Int.{◌+ℤ◌, ◌-ℤ◌}
use comfy_aimdo_xpu.Devctx.Budget.{
  budget_deficit, deficit_of, deficit_delta, cuda_budget_deficit, poll_device, deficit_simple,
  three_stooges,
}
use comfy_aimdo_xpu.Vbar.Reclaim.{vbars_free_internal}
use comfy_aimdo_xpu.VramBuffer.Table.{Buffers, alloc_fn}
use comfy_aimdo_xpu.VramBuffer.Table.Contract.{BufferOutcome, alloc_fn-Outcome}
use comfy_aimdo_xpu.Tests.Counting.{no_access, Outside, no_access_ledger, one_page, one_live}
use comfy_aimdo_xpu.VramBuffer.Destroy.{GivenBack, vrambuf_destroy-GivenBack}

abbrev half_full : VramBuffer
half_full = record {
  base_ptr = 2 ^ 41;
  max_size = 24 * 2 ^ 20;
  allocated = 16 * 2 ^ 20;
  handle_count = 1;
  device = 0;
  handles = λ n. 5;
}

half_full-IsSound : IsSound half_full
half_full-IsSound = record {
  within = omega arith;
  sized = omega arith;
  counted = omega arith;
  tight = omega arith;
  whole = inl (omega arith);
}

-- The second chunk is the 8 MiB up to the end.
grown_to_the_end :
    (vrambuf_grow device true loaded half_full (17 * 2 ^ 20)).1.allocated ≡ 24 * 2 ^ 20
unfolding vrambuf_grow vbars_free_internal budget_deficit deficit_of ◌+ℤ◌ deficit_delta ◌-ℤ◌
    cuda_budget_deficit poll_device deficit_simple three_stooges
grown_to_the_end = refl

vrambuf_grow-Grown_example :
    let (ok, buf', t) = vrambuf_grow device true loaded half_full (17 * 2 ^ 20) in
    Grown device device_gives 0 half_full buf' t × (ok ≡ true → 17 * 2 ^ 20 ≤ buf'.allocated)
vrambuf_grow-Grown_example =
    vrambuf_grow-Grown device device_gives 0 true loaded half_full (17 * 2 ^ 20) loaded_accounts
      half_full-IsSound

-- A buffer of 8 MiB whose one handle is the one that is live.
abbrev eight_mib : VramBuffer
eight_mib = record {
  base_ptr = 2 ^ 41;
  max_size = 8 * 2 ^ 20;
  allocated = 8 * 2 ^ 20;
  handle_count = 1;
  device = 0;
  handles = λ n. 1;
}

eight_mib-IsSound : IsSound eight_mib
eight_mib-IsSound = record {
  within = omega arith;
  sized = omega arith;
  counted = omega arith;
  tight = omega arith;
  whole = inr refl;
}

abbrev buffer_only : State Outside
buffer_only = record one_page { total_vram_usage = 8 * 2 ^ 20 }

buffer_only_accounts : Inv (0 + 8 * 2 ^ 20) buffer_only
buffer_only_accounts = record {
  distinct = tt;
  valid = λ v i. absurd (ground arith);
  accounted = refl;
}

vrambuf_destroy-GivenBack_example :
    let t = (vrambuf_destroy no_access true buffer_only eight_mib).1 in
    GivenBack no_access no_access_ledger eight_mib one_live t.world
    × Inv 0 t
    × (t.vbars ≡ buffer_only.vbars)
vrambuf_destroy-GivenBack_example =
    vrambuf_destroy-GivenBack no_access no_access_ledger 0 buffer_only eight_mib eight_mib-IsSound
      buffer_only_accounts (λ w. refl) (λ j w l. refl)

abbrev no_buffers : Buffers ℕ
no_buffers = record { context = loaded; vmm_table = λ h. []; allocations_dirty = false }

alloc_fn-Outcome_example :
    BufferOutcome 0 (2 ^ 25) no_buffers (alloc_fn device 56 true (2 ^ 25) 0 no_buffers)
alloc_fn-Outcome_example =
    alloc_fn-Outcome device device_gives 0 56 (2 ^ 25) 0 no_buffers (omega arith) loaded_accounts
