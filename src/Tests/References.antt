-- ===== src/Tests/References.antt =====
-- An allocation of 2 MiB with two references, on the device of `Device`.
use comfy_aimdo_xpu.Base.{ℕ, ◌≡◌, ◌^◌, arith, ◌+◌, [], ◌∷◌, true, some, refl}
use comfy_aimdo_xpu.VmmRef.{
  PhysicalAllocation, physical_page_unref, Physical, shares_address, PhysicalPage,
}
use comfy_aimdo_xpu.VmmRef.Counted.{IsLive, Left, after_unref, physical_page_unref-Left}
use comfy_aimdo_xpu.Tests.Device.{device}

abbrev first : PhysicalPage
first = record { name = 21; address = 2 ^ 40 }

abbrev twice : PhysicalAllocation
twice = record {
  handle = 3;
  bytes = 2 ^ 21;
  refs = 2;
  references = record { name = 22; address = 2 ^ 40 } ∷ first ∷ [];
}

abbrev shared : Physical ℕ
shared = record { total_vram_usage = 5 + 2 ^ 21; allocation = some twice; world = 1 }

shared-IsLive : IsLive 5 twice shared
shared-IsLive = record {
  alive = refl;
  counted = refl;
  referenced = λ e. absurd cc;
  small = (omega arith, omega arith);
  charged = omega arith;
}

physical_page_unref-Left_example :
    let (result, t) = physical_page_unref device twice first shared in
    Left 5 twice (after_unref result 21 (22 ∷ 21 ∷ [])) t
physical_page_unref-Left_example =
    physical_page_unref-Left device 5 twice first shared shared-IsLive refl

-- The other reference has the same address, so that nothing is unmapped.
stays_mapped : shares_address first twice.references ≡ true
unfolding shares_address
stays_mapped = refl
