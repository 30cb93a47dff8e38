-- ===== src/TwoPhase/Mapping/Reclaimed.antt =====
-- What `mod1` of src/model-vbar.c leaves in the Windows XPU build, whatever the driver refuses.
use comfy_aimdo_xpu.Base.{
  ℕ, Bool, false, Bool-cases, ◌==◌, ◌∙◌, inl, ap, if◌then◌else◌, inr, arith, refl, ◌≡◌, ◌≢◌, true,
  sym, ◌*◌, ◌%◌, ◌^◌, min, Option-cases,
}
use comfy_aimdo_xpu.Gpu.{Gpu, check_cu}
use comfy_aimdo_xpu.TwoPhase.Mapping.{
  forget_page, xpu_write_back, keep_unreleased, take_page, uncount_resident,
  vbar_restore_page_mapping, xpu_page_address, set_mapped, set_unknown, mapping_unmapped, xpu_mod1,
  clear_xpu_pin, is_freed, xpu_can_free,
}
use comfy_aimdo_xpu.TwoPhase.{XpuState, page, set_world}
use comfy_aimdo_xpu.TwoPhase.Mapping.Truthful.{
  Kept, Truthful, Truthful-trans, Truthful-Kept, Kept-refl, restore-Kept, Kept-trans, Kept-set_page,
  Kept-set_world,
}
use comfy_aimdo_xpu.Vbar.Pages.{vbar_page_size}
use comfy_aimdo_xpu.Retire.{mapping_mapped}
use comfy_aimdo_xpu.Devctx.{sub64}

module _ {W : Type 0} where
  Kept-uncount : (s : XpuState W) (v n : ℕ) → Kept s (uncount_resident s v) v n
  Kept-uncount s v n = elim (Bool-cases ((s.vbars v).resident_count == 0)) [
    | inl e ↦ rw e (Kept-refl s v n)
    | inr e ↦ rw e (record {
      usage = refl;
      handle = ground arith;
      others = λ u m h. ground arith;
      order = refl;
    })
  ]

  -- `t` has lost the handle of the page if it was freed, and has kept it if not.
  pub record Reclaimed (s t : XpuState W) (v n : ℕ) (is_gone : Bool) : Type 0 where
    pub truthful : Truthful s t v n
    pub handle : (page t v n).handle ≡ (if is_gone then 0 else (page s v n).handle)

  Reclaimed-Kept : {s t : XpuState W} {v n : ℕ} → Kept s t v n → Reclaimed s t v n false
  Reclaimed-Kept k = record { truthful = Truthful-Kept k; handle = k.handle }

  pub Reclaimed-after :
      {s t u : XpuState W} {v n : ℕ} {is_gone : Bool}
      → Kept s t v n
      → Reclaimed t u v n is_gone
      → Reclaimed s u v n is_gone
  Reclaimed-after {is_gone} k r = record {
    truthful = Truthful-trans (Truthful-Kept k) r.truthful;
    handle = r.handle ∙ ap (λ h. if is_gone then 0 else h) k.handle;
  }

  Reclaimed-then :
      {s t u : XpuState W} {v n : ℕ} {is_gone : Bool}
      → Reclaimed s t v n is_gone
      → Kept t u v n
      → Reclaimed s u v n is_gone
  Reclaimed-then r k = record {
    truthful = Truthful-trans r.truthful (Truthful-Kept k);
    handle = k.handle ∙ r.handle;
  }

  forget_page-Reclaimed :
      (s : XpuState W) (v n : ℕ)
      → (page s v n).handle ≢ 0
      → Reclaimed s (forget_page s v n) v n true
  unfolding forget_page
  forget_page-Reclaimed s v n nz = record {
    truthful = record { usage = ground (arith, nz); others = λ u m h. ground arith; order = refl };
    handle = ground arith;
  }

module _ {W : Type 0} (gpu : Gpu W) where
  keep_unreleased-Kept :
      (s : XpuState W) (v n : ℕ) → (page s v n).handle ≢ 0 → Kept s (keep_unreleased gpu s v n) v n
  unfolding keep_unreleased
  keep_unreleased-Kept s v n nz =
      let (restored, s1) = vbar_restore_page_mapping gpu s v n false in
      let k = (restore-Kept gpu s v n nz).0 in
      let k1 = Kept-trans k (
        Kept-trans (Kept-set_page s1 v n _ s1.world refl)
          (Kept-uncount (set_unknown s1 v n) v n)) in
      elim (Bool-cases (restored == mapping_mapped)) [
        | inl e ↦ rw e (Kept-trans k (Kept-set_page s1 v n _ s1.world refl))
        | inr e ↦
            rw e
              (Kept-trans k1 (Kept-set_page (uncount_resident (set_unknown s1 v n) v) v n _ _ refl))
      ]

  take_page-Reclaimed :
      (s : XpuState W) (v n : ℕ)
      → (page s v n).handle ≢ 0
      → let (gone, t) = take_page gpu s v n in Reclaimed s t v n gone
  unfolding take_page
  take_page-Reclaimed s v n nz =
      let (unmapped, w1) = gpu.mem_unmap (xpu_page_address (s.vbars v) n) vbar_page_size s.world in
      let s1 = set_mapped (set_world s w1) v n mapping_unmapped in
      let (released, w2) = gpu.mem_release (page s v n).handle w1 in
      let s2 = set_world s1 w2 in
      let k2 : Kept s s2 v n = Kept-set_page s v n _ w2 refl in
      let nz2 : (page s2 v n).handle ≢ 0 = λ z. nz (sym k2.handle ∙ z) in
      elim (Bool-cases (check_cu unmapped)) [
        | inr e ↦ rw e (Reclaimed-Kept (Kept-set_page s v n _ w1 refl))
        | inl e ↦ elim (Bool-cases (check_cu released)) [
          | inr f ↦ rw (e, f) (Reclaimed-Kept (Kept-trans k2 (keep_unreleased-Kept s2 v n nz2)))
          | inl f ↦ rw (e, f) (Reclaimed-after k2 (forget_page-Reclaimed s2 v n nz2))
        ]
      ]

  xpu_write_back-Kept :
      (s : XpuState W) (v n : ℕ) → Kept s (xpu_write_back gpu s (s.vbars v) n).1 v n
  unfolding xpu_write_back
  xpu_write_back-Kept s v n =
      let offset = (n * vbar_page_size) % 2 ^ 64 in
      let size = min vbar_page_size (sub64 (s.vbars v).pageout_size offset) in
      let (synced, w1) = gpu.ctx_synchronize s.world in
      elim (Option-cases (s.vbars v).pageout_callback) [
        | inl e ↦ rw e (Kept-refl s v n)
        | inr (callback, e) ↦ elim (Bool-cases (check_cu synced)) [
          | inl f ↦ rw (e, f) (Kept-set_world s v n (gpu.pageout callback offset size w1).1)
          | inr f ↦ rw (e, f) (Kept-set_world s v n w1)
        ]
      ]

  clear_xpu_pin-Kept :
      (b : Bool) (s : XpuState W) (v n : ℕ) → Kept s (if b then clear_xpu_pin s v n else s) v n
  unfolding clear_xpu_pin
  clear_xpu_pin-Kept true s v n = Kept-set_page s v n _ s.world refl
  clear_xpu_pin-Kept false s v n = Kept-refl s v n

  -- Whatever the driver refuses on the way, `mod1` takes the usage down by one page exactly when
  -- it reports a page freed, and then the page has lost its handle; else the page keeps the handle
  -- that it owns and the usage stays. No other page and no priority changes.
  pub xpu_mod1-Reclaimed :
      (s : XpuState W) (v n : ℕ) (do_free do_unpin : Bool)
      → let (result, t) = xpu_mod1 gpu s v n do_free do_unpin in Reclaimed s t v n (is_freed result)
  unfolding xpu_mod1
  xpu_mod1-Reclaimed s v n do_free do_unpin =
      let (saved, s1) = xpu_write_back gpu s (s.vbars v) n in
      let (taken, s2) = take_page gpu s1 v n in
      let k = xpu_write_back-Kept s v n in
      elim (Bool-cases (xpu_can_free (s.vbars v) (page s v n) do_free do_unpin)) [
        | inr e ↦ rw e (Reclaimed-Kept (clear_xpu_pin-Kept do_unpin s v n))
        | inl e ↦
            let nz : (page s v n).handle ≢ 0 = λ z. ground arith in
            let r = Reclaimed-after k (take_page-Reclaimed s1 v n (λ z. nz (sym k.handle ∙ z))) in
            elim (Bool-cases saved) [
              | inr f ↦ rw (e, f) (Reclaimed-Kept k)
              | inl f ↦ elim (Bool-cases taken) [
                | inl g ↦
                    rw (e, f, g) (Reclaimed-then (rw g at r) (clear_xpu_pin-Kept do_unpin s2 v n))
                | inr g ↦ rw (e, f, g) (rw g at r)
              ]
            ]
      ]
