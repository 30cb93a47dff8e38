-- ===== src/Vbar/Fault/Calls.antt =====
-- What the calls that a fault makes do to the state: polls and failed mappings are eviction steps,
-- a mapping that succeeds creates a page.
use comfy_aimdo_xpu.Base.{
  ℕ, ◌≡◌, ◌≢◌, ◌⊎◌, inl, inr, Bool-cases, Option-cases, ltb, if_both, ==-ne, true, if◌then◌else◌,
  refl, arith,
}
use comfy_aimdo_xpu.Gpu.{Gpu, GivesHandles, success, check_cu}
use comfy_aimdo_xpu.Devctx.{State, sub64}
use comfy_aimdo_xpu.Devctx.Budget.{
  budget_deficit, cuda_budget_deficit, poll_device, poll_integrated, three_stooges,
}
use comfy_aimdo_xpu.Vbar.Evict.{set_world, page_address}
use comfy_aimdo_xpu.Vbar.Evict.Steps.{Evicts, here, next, outside, polled}
use comfy_aimdo_xpu.Vbar.Fault.{map_page, count_new_page, vbar_page_size}
use comfy_aimdo_xpu.Vbar.Fault.NewPage.{new_page}
use comfy_aimdo_xpu.Devctx.Budget.Allocation.{three_stooges_cases}

module _ {W : Type 0} (gpu : Gpu W) where
  poll_device-Evicts :
      (s : State W) (checked stamp : ℕ) (w : W)
      → let t = record s {
        total_vram_last_check = checked;
        control_timestamp_last_check = stamp;
        world = w;
      } in
        Evicts s (poll_device gpu t).1
  unfolding poll_device
  poll_device-Evicts s checked stamp w =
      let (r, free, total, w1) = gpu.mem_get_info w in
      elim (Bool-cases (check_cu r)) [
        | inl e ↦ rw e (next here (polled checked stamp _ w1))
        | inr e ↦ rw e (next here (polled checked stamp s.deficit_sync w1))
      ]

  poll_integrated-Evicts :
      (s : State W) (checked stamp : ℕ) (w : W)
      → let t = record s {
        total_vram_last_check = checked;
        control_timestamp_last_check = stamp;
        world = w;
      } in
        Evicts s (poll_integrated gpu t).1
  unfolding poll_integrated
  poll_integrated-Evicts s checked stamp w =
      let (available, w1) = gpu.mem_available w in
      elim (Option-cases available) [
        | inl e ↦ rw (e, poll_integrated) (next here (polled checked stamp _ w1))
        | inr (kib, e) ↦ rw (e, poll_integrated) (next here (polled checked stamp _ w1))
      ]

  pub budget_deficit-Evicts : (s : State W) (size : ℕ) → Evicts s (budget_deficit gpu s size).1
  unfolding budget_deficit cuda_budget_deficit
  budget_deficit-Evicts s size =
      let (now, w) = gpu.get_tick s.world in
      let t = record s {
        control_timestamp_last_check = now;
        total_vram_last_check = s.total_vram_usage;
        world = w;
      } in
      if_both (λ r. Evicts s r.1) (ltb (sub64 now s.control_timestamp_last_check) 2000)
        (true, record s { world = w })
        (if s.integrated_device then poll_integrated gpu t else poll_device gpu t)
        (next here (outside w))
        (if_both (λ r. Evicts s r.1) s.integrated_device (poll_integrated gpu t) (poll_device gpu t)
          (poll_integrated-Evicts s s.total_vram_usage now w)
          (poll_device-Evicts s s.total_vram_usage now w))

module _ {W : Type 0} (gpu : Gpu W) (gives : GivesHandles gpu) where
  pub map_page_cases :
      (s : State W) (v n : ℕ)
      → let (err, s') = map_page gpu s v n in
        (w : W) × (((h : ℕ) × (err ≡ success)
            × (h ≢ 0)
            × (count_new_page s' v n ≡ new_page s v n h w))
          ⊎ ((err ≢ success) × (s' ≡ set_world s w)))
  unfolding map_page new_page
  map_page_cases s v n =
      let mv = s.vbars v in
      let rp = mv.residency_map n in
      let (w, c) =
        three_stooges_cases gpu gives s (page_address mv n) vbar_page_size mv.device rp.handle in
      let made = three_stooges gpu s (page_address mv n) vbar_page_size mv.device rp.handle in
      (
        w,
        elim c [
          | inl (e, nz, eq) ↦ inl (made.1, e, nz, rw (e, eq) refl)
          | inr (ne, eq) ↦ inr (ne, rw (==-ne _ _ ne) eq)
        ],
      )

  -- A poll moves no watermark.
  pub budget_deficit-watermark :
      (s : State W) (size v : ℕ)
      → ((budget_deficit gpu s size).1.vbars v).watermark ≡ (s.vbars v).watermark
  unfolding budget_deficit cuda_budget_deficit poll_device poll_integrated
  budget_deficit-watermark s size v = ground arith
