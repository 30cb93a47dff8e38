-- ===== src/Devctx/Budget.antt =====
-- How much memory is short: `cuda_budget_deficit` of src/control.c, and `budget_deficit` and
-- `three_stooges` of src/plat.h.
pub mod Fits
pub mod Allocation
use comfy_aimdo_xpu.Base.{
  ℕ, ◌-◌, ◌*◌, ◌/◌, ◌%◌, ◌^◌, Bool, true, false, not, none, some, ltb, if◌then◌else◌,
}
use comfy_aimdo_xpu.Base.Int.{ℤ, pos, negsuc, ◌+ℤ◌, ◌-ℤ◌, signed64, max_ℤ}
use comfy_aimdo_xpu.Gpu.{Gpu, CuResult, success, check_cu}
use comfy_aimdo_xpu.Devctx.{State, add64, sub64}

abbrev pub vram_headroom : ℕ
vram_headroom = 256 * 1024 * 1024

abbrev pub integrated_ram_headroom_min : ℕ
integrated_ram_headroom_min = 2 * 1024 * 1024 * 1024

abbrev pub integrated_ram_headroom_max : ℕ
integrated_ram_headroom_max = 8 * 1024 * 1024 * 1024

-- -(1 << 60)
abbrev pub integrated_simple_only_deficit : ℤ
integrated_simple_only_deficit = negsuc (2 ^ 60 - 1)

unfoldable pub calculate_integrated_ram_headroom : ℕ → ℕ
calculate_integrated_ram_headroom total_bytes =
    let headroom = total_bytes / 16 in
    if ltb headroom integrated_ram_headroom_min
    then integrated_ram_headroom_min
    else if ltb integrated_ram_headroom_max headroom
    then integrated_ram_headroom_max
    else headroom

module _ {W : Type 0} where
  -- `deficit_simple` and `deficit_delta`, and the larger of the two with the extra headroom.
  unfoldable pub deficit_simple : State W → ℕ → ℤ
  deficit_simple s size =
      signed64 (add64 s.total_vram_usage size) +ℤ s.simple_vram_headroom -ℤ signed64 s.vram_capacity

  unfoldable pub deficit_delta : State W → ℕ → ℤ
  deficit_delta s size =
      s.deficit_sync
      +ℤ signed64 s.total_vram_usage
      -ℤ signed64 s.total_vram_last_check
      +ℤ signed64 size

  unfoldable pub deficit_of : State W → ℕ → ℤ
  deficit_of s size =
      max_ℤ (deficit_simple s size) (deficit_delta s size) +ℤ signed64 s.extra_vram_headroom

module _ {W : Type 0} (gpu : Gpu W) where
  -- The poll of an integrated device, once its time has come.
  unfoldable pub poll_integrated : State W → Bool × State W
  poll_integrated s =
      let (available, w) = gpu.mem_available s.world in
      elim available [
        | none ↦ (false, record s { deficit_sync = integrated_simple_only_deficit; world = w })
        | some kib ↦ (
          true,
          record s {
            deficit_sync = signed64 s.integrated_ram_headroom -ℤ signed64 ((kib * 1024) % 2 ^ 64);
            world = w;
          },
        )
      ]

  -- The poll of a discrete device.
  unfoldable pub poll_device : State W → Bool × State W
  poll_device s =
      let (r, free, total, w) = gpu.mem_get_info s.world in
      if check_cu r
      then (true, record s { deficit_sync = pos vram_headroom -ℤ signed64 free; world = w })
      else (false, record s { world = w })

  unfoldable pub cuda_budget_deficit : State W → Bool × State W
  cuda_budget_deficit s =
      let (now, w) = gpu.get_tick s.world in
      let polled = record s {
        control_timestamp_last_check = now;
        total_vram_last_check = s.total_vram_usage;
        world = w;
      } in
      if ltb (sub64 now s.control_timestamp_last_check) 2000
      then (true, record s { world = w })
      else if s.integrated_device
      then poll_integrated polled
      else poll_device polled

  -- On Linux `poll_budget_deficit` is `cuda_budget_deficit`.
  unfoldable pub budget_deficit : State W → ℕ → ℤ × State W
  budget_deficit s size = let s' = (cuda_budget_deficit s).1 in (deficit_of s' size, s')

  -- Undo of `three_stooges` from the label `fail_mmap`, and from `fail_access`.
  unfoldable pub release_failed : State W → (handle : ℕ) → State W
  release_failed s handle = record s { world = (gpu.mem_release handle s.world).1 }

  unfoldable pub unmap_failed : State W → (vaddr size handle : ℕ) → State W
  unfolding release_failed
  unmap_failed s vaddr size handle =
      release_failed (record s { world = (gpu.mem_unmap vaddr size s.world).1 }) handle

  -- Create physical memory, map it and open it for access. `handle` is what the caller's variable
  -- held: it is written only on success.
  unfoldable pub three_stooges : State W → (vaddr size device handle : ℕ) → CuResult × ℕ × State W
  unfolding release_failed unmap_failed
  three_stooges s vaddr size device handle =
      let (created, h, w1) = gpu.mem_create size device s.world in
      let (mapped, w2) = gpu.mem_map vaddr size h w1 in
      let (opened, w3) = gpu.mem_set_access vaddr size device w2 in
      if not (check_cu created)
      then (created, handle, record s { world = w1 })
      else if not (check_cu mapped)
      then (mapped, handle, release_failed (record s { world = w2 }) h)
      else if not (check_cu opened)
      then (opened, handle, unmap_failed (record s { world = w3 }) vaddr size h)
      else (success, h, record s { total_vram_usage = add64 s.total_vram_usage size; world = w3 })
