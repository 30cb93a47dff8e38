-- ===== src/Vbar/Owner/SetWatermark.antt =====
-- `vbar_set_watermark` of src/model-vbar.c as a whole.
use comfy_aimdo_xpu.Base.{
  ℕ, zero, suc, ◌+◌, ◌-◌, ◌≡◌, ◌≤◌, ◌<◌, ◌⊎◌, inl, inr, arith, min, Bool, false, sum_over-pointwise,
  ◌∈◌, true, leb, ◌∙◌, refl, Bool-cases, ltb, ltb→le,
}
use comfy_aimdo_xpu.Gpu.{Gpu}
use comfy_aimdo_xpu.Vbar.Owner.{vbar_set_watermark, set_watermark, mod_pages, mod_outcome}
use comfy_aimdo_xpu.Devctx.{State}
use comfy_aimdo_xpu.Vbar.Evict.{
  Mod, one_time_dirty, synchronize, mod1, writeback_failed, retained, freed,
}
use comfy_aimdo_xpu.Vbar.Owner.Watermark.{GoneOrPinned, mod_pages-GoneOrPinned}
use comfy_aimdo_xpu.Vbar.Invariant.{Inv}
use comfy_aimdo_xpu.Vbar.Fault.Pins.{SamePins, SamePins-trans, SamePins-Evicts}
use comfy_aimdo_xpu.Vbar.Pages.{vbar_get_page_nr_up}
use comfy_aimdo_xpu.Vbar.Evict.Steps.{Evicts, next, here, dirtied, outside, Evicts-trans}
use comfy_aimdo_xpu.Vbar.Evict.Single.{mod1-watermark}
use comfy_aimdo_xpu.Vbar.Owner.Unpinning.{mod_pages-Evicts}
use comfy_aimdo_xpu.Vbar.Evict.Spares.{Evicts-shape}
use comfy_aimdo_xpu.Vbar.Evict.Accounts.{Evicts-Inv}

module _ {W : Type 0} where
  pub Inv-set_watermark :
      (other : ℕ) (s : State W) (v w : ℕ)
      → w ≤ (s.vbars v).nr_pages
      → Inv other s
      → Inv other (set_watermark s v w)
  unfolding set_watermark
  Inv-set_watermark other s v w l h = record {
    distinct = h.distinct;
    valid = λ u i. ground (arith, h.valid u i);
    accounted = ground (
      arith,
      h.accounted,
      sum_over-pointwise (λ u. (s.vbars u).resident_count)
          (λ u. ((set_watermark s v w).vbars u).resident_count) s.order (λ u. ground arith),
    );
  }

  SamePins-set_watermark : (s : State W) (v w : ℕ) → SamePins s (set_watermark s v w)
  unfolding set_watermark
  SamePins-set_watermark s v w = record { pins = λ u m. ground arith }

  GoneOrPinned-set_watermark :
      (s : State W) (v w m : ℕ) → GoneOrPinned s v m → GoneOrPinned (set_watermark s v w) v m
  unfolding set_watermark
  GoneOrPinned-set_watermark s v w m h = record { either = ground (arith, h.either) }

  watermark-set_watermark : (s : State W) (v w : ℕ) → ((set_watermark s v w).vbars v).watermark ≡ w
  unfolding set_watermark
  watermark-set_watermark s v w = ground arith

-- What `vbar_set_watermark` leaves, where it would set the watermark to `watermark`.
pub record WatermarkSet {W : Type 0} (other : ℕ) (s : State W) (v watermark : ℕ) (ok : Bool)
    (t : State W) : Type 0 where
  pub inv : Inv other t
  pub pins : SamePins s t
  pub outcome :
      ((ok ≡ false) × ((t.vbars v).watermark ≡ (s.vbars v).watermark))
      ⊎ ((ok ≡ true)
          × ((t.vbars v).watermark ≡ watermark)
          × ((m : ℕ) → watermark ≤ m → m < (s.vbars v).watermark → GoneOrPinned t v m))

module _ {W : Type 0} (gpu : Gpu W) where
  mod_pages-watermark :
      (count : ℕ) (s : State W) (v n bound u : ℕ)
      → ((mod_pages gpu count s v n bound).1.vbars u).watermark ≡ (s.vbars u).watermark
  unfolding mod_pages
  mod_pages-watermark zero s v n bound u = refl
  mod_pages-watermark (suc count) s v n bound u =
      let (freed?, s1) = mod1 gpu s v n (leb bound n) false in
      let e : (s1.vbars u).watermark ≡ (s.vbars u).watermark =
        mod1-watermark gpu s v n (leb bound n) u in
      outcome freed? s1 (mod_pages gpu count s1 v (n + 1) bound) e
        (mod_pages-watermark count s1 v (n + 1) bound u ∙ e)
    where
      outcome :
          (k : Mod) (s1 : State W) (r : Bool × State W)
          → (s1.vbars u).watermark ≡ (s.vbars u).watermark
          → (r.1.vbars u).watermark ≡ (s.vbars u).watermark
          → ((mod_outcome k s1 r).1.vbars u).watermark ≡ (s.vbars u).watermark
      outcome writeback_failed s1 r p q = p
      outcome retained s1 r p q = q
      outcome freed s1 r p q = q

  -- From true accounts, on a listed VBAR: on true the watermark is the rounded size, at most the
  -- whole VBAR, and each page between it and the old watermark has no memory or is pinned; on
  -- false, after a failed writeback, the watermark is the old one. Either way no pin changes and
  -- the accounts stay true.
  pub vbar_set_watermark-WatermarkSet :
      (other : ℕ) (s : State W) (v size : ℕ)
      → Inv other s
      → v ∈ s.order
      → let (ok, t) = vbar_set_watermark gpu s v size in
        WatermarkSet other s v (min (vbar_get_page_nr_up size) (s.vbars v).nr_pages) ok t
  unfolding vbar_set_watermark one_time_dirty synchronize
  vbar_set_watermark-WatermarkSet other s v size inv i =
      let mv = s.vbars v in
      let w = min (vbar_get_page_nr_up size) mv.nr_pages in
      let s1 = one_time_dirty s in
      let s1' = synchronize gpu s1 in
      let p1 : Evicts s s1 = next here dirtied in
      let p1' : Evicts s s1' = next p1 (outside _) in
      let (ok?, s2) = mod_pages gpu (mv.watermark - w) s1' v w 0 in
      let fits : mv.watermark - w ≤ (s1'.vbars v).nr_pages - w =
        omega (arith, (inv.valid v i).within) in
      let p2 : Evicts s s2 =
        Evicts-trans p1' (mod_pages-Evicts gpu (mv.watermark - w) s1' v w 0 i fits here) in
      let low2 : w ≤ (s2.vbars v).nr_pages = rw ((Evicts-shape p2 v).nr_pages) (omega arith) in
      elim (Bool-cases (ltb w mv.watermark)) [
        | inr e ↦ rw e (record {
          inv = Inv-set_watermark other s1 v w (omega arith) (Evicts-Inv other inv p1);
          pins = SamePins-trans (SamePins-Evicts p1) (SamePins-set_watermark s1 v w);
          outcome =
              inr (
                refl,
                watermark-set_watermark s1 v w,
                λ m l u. absurd (omega (arith, ltb→le _ _ e)),
              );
        })
        | inl e ↦ elim (Bool-cases ok?) [
          | inr e2 ↦
              rw (e, e2)
                (record {
                  inv = Evicts-Inv other inv p2;
                  pins = SamePins-Evicts p2;
                  outcome = inl (refl, mod_pages-watermark (mv.watermark - w) s1' v w 0 v);
                })
          | inl e2 ↦
              rw (e, e2)
                (record {
                  inv = Inv-set_watermark other s2 v w low2 (Evicts-Inv other inv p2);
                  pins = SamePins-trans (SamePins-Evicts p2) (SamePins-set_watermark s2 v w);
                  outcome = inr (
                    refl,
                    watermark-set_watermark s2 v w,
                    λ m l u. GoneOrPinned-set_watermark s2 v w m (
                        mod_pages-GoneOrPinned gpu (mv.watermark - w) s1' v w 0 m i fits e2 l
                          (omega arith) (omega arith)),
                  );
                })
        ]
      ]
