-- ===== src/Devctx/Budget/Fits.antt =====
-- What the sign of a budget deficit says: `budget_deficit` of src/plat.h with `cuda_budget_deficit`
-- of src/control.c.
use comfy_aimdo_xpu.Base.{
  ℕ, ◌+◌, ◌%◌, ◌^◌, ◌≤◌, ◌<◌, ◌≡◌, ◌↔◌, true, false, arith, ltb→lt, ltb→le, le→ltb, Bool-cases, inl,
  inr,
}
use comfy_aimdo_xpu.Base.Int.{ℤ, pos, ◌+ℤ◌, ◌-ℤ◌, ◌≤ℤ◌, signed64, ltb_ℤ, max_ℤ, int_laws, +ℤ_parts}
use comfy_aimdo_xpu.Gpu.{Gpu, success}
use comfy_aimdo_xpu.Devctx.{State, sub64}
use comfy_aimdo_xpu.Devctx.Budget.{
  vram_headroom, deficit_simple, deficit_delta, deficit_of, budget_deficit, cuda_budget_deficit,
  poll_device,
}

-- Byte counts of the state are below 2 ^ 62, as are those of any device.
pub record IsSized {W : Type 0} (s : State W) : Type 0 where
  pub capacity : s.vram_capacity < 2 ^ 62
  pub usage : s.total_vram_usage < 2 ^ 62
  pub last_check : s.total_vram_last_check < 2 ^ 62
  pub extra : s.extra_vram_headroom < 2 ^ 62

signed64_small : (n : ℕ) → n < 2 ^ 63 → signed64 n ≡ pos n
signed64_small n h = ground arith

max_bound : (a b c : ℤ) → (max_ℤ a b +ℤ c ≤ℤ pos 0) ↔ ((a +ℤ c ≤ℤ pos 0) × (b +ℤ c ≤ℤ pos 0))
max_bound a b c = elim (Bool-cases (ltb_ℤ b a)) [
  | inl e ↦
      let less = ltb→lt _ _ e in
      rw e (λ h. (h, omega (arith, +ℤ_parts a c, +ℤ_parts b c)), λ h. h.0)
  | inr e ↦
      let le = ltb→le _ _ e in rw e (λ h. (omega (arith, +ℤ_parts a c, +ℤ_parts b c), h), λ h. h.1)
]

module _ {W : Type 0} where
  deficit_simple_lem :
      (s : State W) (size : ℕ)
      → IsSized s
      → size < 2 ^ 62
      → deficit_simple s size
        ≡ pos (s.total_vram_usage + size) +ℤ s.simple_vram_headroom -ℤ pos s.vram_capacity
  unfolding deficit_simple
  deficit_simple_lem s size v h =
      let e : (s.total_vram_usage + size) % 2 ^ 64 ≡ s.total_vram_usage + size = omega arith in
      rw (e, signed64_small (s.total_vram_usage + size) (omega arith))
        (rw (signed64_small s.vram_capacity (omega arith)))

  deficit_delta_lem :
      (s : State W) (size : ℕ)
      → IsSized s
      → size < 2 ^ 62
      → deficit_delta s size
        ≡ s.deficit_sync +ℤ pos s.total_vram_usage -ℤ pos s.total_vram_last_check +ℤ pos size
  unfolding deficit_delta
  deficit_delta_lem s size v h = rw (
    signed64_small s.total_vram_usage (omega arith),
    signed64_small s.total_vram_last_check (omega arith),
    signed64_small size (omega arith),
  )

  -- Where sizes are below 2 ^ 62, the deficit is at most 0 exactly when the allocation with its
  -- headrooms fits both in the device's capacity and in what the last poll found free.
  pub deficit_of-le_zero :
      (s : State W) (size : ℕ)
      → IsSized s
      → size < 2 ^ 62
      → (deficit_of s size ≤ℤ pos 0) ↔ (
          (pos (s.total_vram_usage + size + s.extra_vram_headroom) +ℤ s.simple_vram_headroom
            ≤ℤ pos s.vram_capacity)
          × (s.deficit_sync +ℤ pos (s.total_vram_usage + size + s.extra_vram_headroom)
              ≤ℤ pos s.total_vram_last_check))
  unfolding deficit_of
  deficit_of-le_zero s size v h =
      let simple = deficit_simple_lem s size v h in
      let delta = deficit_delta_lem s size v h in
      let extra = signed64_small s.extra_vram_headroom (omega arith) in
      let m =
        max_bound (deficit_simple s size) (deficit_delta s size) (signed64 s.extra_vram_headroom) in
      (
        λ d.
            let p = rw (simple, extra) at ((m.0 d).0) in
            let q = rw (delta, extra) at ((m.0 d).1) in (omega int_laws, omega int_laws),
        λ f. m.1 (rw (simple, extra) (omega int_laws), rw (delta, extra) (omega int_laws)),
      )

-- The state after a successful poll of a discrete device.
abbrev polled : {W : Type 0} → State W → (now free : ℕ) → W → State W
polled s now free w = record s {
  control_timestamp_last_check = now;
  total_vram_last_check = s.total_vram_usage;
  deficit_sync = pos vram_headroom -ℤ pos free;
  world = w;
}

module _ {W : Type 0} (gpu : Gpu W) where
  cuda_budget_deficit-polled :
      (s : State W) (free total : ℕ) (w : W)
      → free < 2 ^ 62
      → s.integrated_device ≡ false
      → 2000 ≤ sub64 (gpu.get_tick s.world).0 s.control_timestamp_last_check
      → gpu.mem_get_info (gpu.get_tick s.world).1 ≡ (success, free, total, w)
      → cuda_budget_deficit gpu s ≡ (true, polled s (gpu.get_tick s.world).0 free w)
  unfolding cuda_budget_deficit poll_device
  cuda_budget_deficit-polled s free total w hf hi ht hg =
      rw (le→ltb 2000 _ ht, hi, hg, signed64_small free (omega arith))

  -- Where sizes are below 2 ^ 62, the last poll is two seconds old and the driver answers, a
  -- discrete device's deficit is at most 0 exactly when the allocation fits in the capacity under
  -- the simple headroom and, with 256 MiB to spare, in the memory that the driver has just reported
  -- free.
  pub budget_deficit_polled :
      (s : State W) (size free total : ℕ) (w : W)
      → IsSized s
      → size < 2 ^ 62
      → free < 2 ^ 62
      → s.integrated_device ≡ false
      → 2000 ≤ sub64 (gpu.get_tick s.world).0 s.control_timestamp_last_check
      → gpu.mem_get_info (gpu.get_tick s.world).1 ≡ (success, free, total, w)
      → ((budget_deficit gpu s size).0 ≤ℤ pos 0) ↔ (
          (pos (s.total_vram_usage + size + s.extra_vram_headroom) +ℤ s.simple_vram_headroom
            ≤ℤ pos s.vram_capacity)
          × (vram_headroom + size + s.extra_vram_headroom ≤ free))
  unfolding budget_deficit
  budget_deficit_polled s size free total w v hs hf hi ht hg =
      let e = cuda_budget_deficit-polled s free total w hf hi ht hg in
      let t = polled s (gpu.get_tick s.world).0 free w in
      let sized : IsSized t = record {
        capacity = v.capacity;
        usage = v.usage;
        last_check = v.usage;
        extra = v.extra;
      } in
      let iff = deficit_of-le_zero t size sized hs in
      rw e
        (λ d. ((iff.0 d).0, omega (int_laws, (iff.0 d).1)), λ f. iff.1 (f.0, omega (int_laws, f.1)))
