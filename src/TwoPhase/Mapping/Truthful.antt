-- ===== src/TwoPhase/Mapping/Truthful.antt =====
-- The usage against the handles that pages own, over `mod1` and `vbar_map_new_page` of
-- src/model-vbar.c in the Windows XPU build.
use comfy_aimdo_xpu.Base.{
  ℕ, ◌+◌, ◌*◌, ◌%◌, ◌^◌, ◌≡◌, ◌≢◌, ◌⊎◌, inl, inr, arith, false, ◌==◌, Bool-cases, refl,
  if◌then◌else◌, ◌∙◌,
}
use comfy_aimdo_xpu.Gpu.{Gpu, check_cu}
use comfy_aimdo_xpu.TwoPhase.{XpuState, page, set_page, set_world}
use comfy_aimdo_xpu.Vbar.Pages.{vbar_page_size}
use comfy_aimdo_xpu.Retire.{XpuPage, mapping_mapped}
use comfy_aimdo_xpu.TwoPhase.Mapping.{
  close_mapping, vbar_restore_page_mapping, xpu_page_address, mapping_unknown, set_mapped,
}

-- Whether a page owns physical memory.
abbrev pub owned : XpuPage → ℕ
owned rp = if rp.handle == 0 then 0 else 1

-- `t` has the handle and the usage of `s`, and every page but `n` of `v`.
pub record Kept {W : Type 0} (s t : XpuState W) (v n : ℕ) : Type 0 where
  pub usage : t.total_vram_usage ≡ s.total_vram_usage
  pub handle : (page t v n).handle ≡ (page s v n).handle
  pub others : (u m : ℕ) → (u ≢ v) ⊎ (m ≢ n) → page t u m ≡ page s u m
  pub order : t.order ≡ s.order

-- From `s` to `t` only the page `n` of `v` has changed, and the usage by what the page owns.
pub record Truthful {W : Type 0} (s t : XpuState W) (v n : ℕ) : Type 0 where
  pub usage :
      (t.total_vram_usage + vbar_page_size * owned (page s v n)) % 2 ^ 64
      ≡ (s.total_vram_usage + vbar_page_size * owned (page t v n)) % 2 ^ 64
  pub others : (u m : ℕ) → (u ≢ v) ⊎ (m ≢ n) → page t u m ≡ page s u m
  pub order : t.order ≡ s.order

module _ {W : Type 0} where
  pub Kept-refl : (s : XpuState W) (v n : ℕ) → Kept s s v n
  Kept-refl s v n = record { usage = refl; handle = refl; others = λ u m h. refl; order = refl }

  pub Kept-set_world : (s : XpuState W) (v n : ℕ) (w : W) → Kept s (set_world s w) v n
  Kept-set_world s v n w = record {
    usage = refl;
    handle = refl;
    others = λ u m h. refl;
    order = refl;
  }

  pub Kept-trans : {s t u : XpuState W} {v n : ℕ} → Kept s t v n → Kept t u v n → Kept s u v n
  Kept-trans p q = record {
    usage = q.usage ∙ p.usage;
    handle = q.handle ∙ p.handle;
    others = λ u m h. q.others u m h ∙ p.others u m h;
    order = q.order ∙ p.order;
  }

  -- A write to the page that leaves its handle.
  pub Kept-set_page :
      (s : XpuState W) (v n : ℕ) (rp : XpuPage) (w : W)
      → rp.handle ≡ (page s v n).handle
      → Kept s (set_page (set_world s w) v n rp) v n
  Kept-set_page s v n rp w e = record {
    usage = refl;
    handle = ground (arith, e);
    others = λ u m h. ground (arith, h);
    order = refl;
  }

  pub Truthful-trans :
      {s t u : XpuState W} {v n : ℕ} → Truthful s t v n → Truthful t u v n → Truthful s u v n
  Truthful-trans p q = record {
    usage = omega (arith, p.usage, q.usage);
    others = λ u m h. q.others u m h ∙ p.others u m h;
    order = q.order ∙ p.order;
  }

  pub Truthful-Kept : {s t : XpuState W} {v n : ℕ} → Kept s t v n → Truthful s t v n
  Truthful-Kept k = record {
    usage = ground (arith, k.usage, k.handle);
    others = k.others;
    order = k.order;
  }

module _ {W : Type 0} (gpu : Gpu W) where
  -- The mapping that could not be opened is closed, or nobody knows.
  pub close_mapping-Kept :
      (s : XpuState W) (v n : ℕ)
      → (page s v n).mapped ≡ mapping_unknown
      → let (closed, t) = close_mapping gpu s v n in
        Kept s t v n × (closed ≡ (page t v n).mapped) × (closed ≢ mapping_mapped)
  unfolding close_mapping
  close_mapping-Kept s v n e =
      let (err, w) = gpu.mem_unmap (xpu_page_address (s.vbars v) n) vbar_page_size s.world in
      elim (Bool-cases (check_cu err)) [
        | inl ok ↦ rw ok (Kept-set_page s v n _ w refl, ground arith, ground arith)
        | inr bad ↦ rw bad (Kept-set_page s v n _ w refl, ground (arith, e), ground arith)
      ]

  pub restore-Kept :
      (s : XpuState W) (v n : ℕ)
      → (page s v n).handle ≢ 0
      → let (restored, t) = vbar_restore_page_mapping gpu s v n false in
        Kept s t v n × (restored ≡ (page t v n).mapped)
  unfolding vbar_restore_page_mapping
  restore-Kept s v n nz =
      let mv = s.vbars v in
      let rp = page s v n in
      let vaddr = xpu_page_address mv n in
      let (mapped, w1) = gpu.mem_map vaddr vbar_page_size rp.handle s.world in
      let (opened, w2) = gpu.mem_set_access vaddr vbar_page_size mv.device w1 in
      let s2 = set_mapped (set_world s w2) v n mapping_unknown in
      let k2 : Kept s s2 v n = Kept-set_page s v n _ w2 refl in
      let z : (rp.handle == 0) ≡ false = ground arith in
      elim (Bool-cases (check_cu mapped)) [
        | inr bad ↦ rw (z, bad) (Kept-set_page s v n _ w1 refl, ground arith)
        | inl ok ↦ elim (Bool-cases (check_cu opened)) [
          | inl ok2 ↦ rw (z, ok, ok2) (Kept-trans k2 (Kept-set_page s2 v n _ w2 refl), ground arith)
          | inr bad2 ↦
              let c = close_mapping-Kept s2 v n (ground arith) in
              rw (z, ok, bad2) (Kept-trans k2 c.0, c.1)
        ]
      ]
