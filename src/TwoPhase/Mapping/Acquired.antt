-- ===== src/TwoPhase/Mapping/Acquired.antt =====
-- What `vbar_map_new_page` of src/model-vbar.c leaves, whatever the driver refuses.
use comfy_aimdo_xpu.Base.{
  ℕ, sym, arith, ◌≡◌, ◌∙◌, false, ◌≢◌, ◌⊎◌, Bool-cases, refl, inl, inr, if◌then◌else◌, ◌==◌, Bool,
  true,
}
use comfy_aimdo_xpu.TwoPhase.{XpuState, page, set_world}
use comfy_aimdo_xpu.Gpu.{Gpu, CuResult, check_cu, GivesHandles, success, unknown}
use comfy_aimdo_xpu.TwoPhase.Mapping.Truthful.{
  Truthful, Kept, Kept-set_world, close_mapping-Kept, restore-Kept, Truthful-Kept, Kept-set_page,
  Kept-refl,
}
use comfy_aimdo_xpu.TwoPhase.Mapping.{
  release_new, charge_page, set_handle, mapping_unknown, vbar_map_new_page, map_absent_page,
  close_mapping, mapping_unmapped, xpu_page_address, set_mapped,
}
use comfy_aimdo_xpu.Retire.{xpu_page_is_mapped, mapping_mapped}
use comfy_aimdo_xpu.Vbar.Pages.{vbar_page_size}

-- The page that had no handle in `s` owns one in `t`, which is not yet charged.
record Owing {W : Type 0} (s t : XpuState W) (v n : ℕ) : Type 0 where
  before : (page s v n).handle ≡ 0
  after : (page t v n).handle ≢ 0
  usage : t.total_vram_usage ≡ s.total_vram_usage
  others : (u m : ℕ) → (u ≢ v) ⊎ (m ≢ n) → page t u m ≡ page s u m
  order : t.order ≡ s.order

module _ {W : Type 0} where
  Owing-Kept : {s t u : XpuState W} {v n : ℕ} → Owing s t v n → Kept t u v n → Owing s u v n
  Owing-Kept o k = record {
    before = o.before;
    after = λ z. o.after (sym k.handle ∙ z);
    usage = k.usage ∙ o.usage;
    others = λ u m h. k.others u m h ∙ o.others u m h;
    order = k.order ∙ o.order;
  }

  charge_page-Truthful :
      {s t : XpuState W} {v n : ℕ} → Owing s t v n → Truthful s (charge_page t) v n
  charge_page-Truthful o = record {
    usage = ground (arith, o.before, o.after, o.usage);
    others = o.others;
    order = o.order;
  }

  set_handle-Owing :
      (s : XpuState W) (v n handle : ℕ) (w : W)
      → (page s v n).handle ≡ 0
      → handle ≢ 0
      → Owing s (set_handle (set_world s w) v n handle) v n
  set_handle-Owing s v n handle w z nz = record {
    before = z;
    after = ground arith;
    usage = refl;
    others = λ u m h. ground (arith, h);
    order = refl;
  }

  Truthful-dropped :
      {s t : XpuState W} {v n : ℕ} (w : W)
      → Owing s t v n
      → Truthful s (set_handle (set_world t w) v n 0) v n
  Truthful-dropped {s} {t} {v} {n} w o = record {
    usage = ground (arith, o.before, o.usage);
    others = λ u m h. ground (arith, h, o.others u m h);
    order = o.order;
  }

-- The usage is true, and the page is mapped exactly where the call succeeds.
pub record Acquired {W : Type 0} (s t : XpuState W) (v n : ℕ) (result : CuResult) : Type 0 where
  pub truthful : Truthful s t v n
  pub mapped : xpu_page_is_mapped (page t v n) ≡ check_cu result

restored-Acquired :
    {W : Type 0} {s t : XpuState W} {v n : ℕ} (restored : ℕ)
    → Kept s t v n
    → restored ≡ (page t v n).mapped
    → (page s v n).handle ≢ 0
    → Acquired s t v n (if restored == mapping_mapped then success else unknown)
restored-Acquired restored k r nz = elim (Bool-cases (restored == mapping_mapped)) [
  | inl g ↦ rw g (record { truthful = Truthful-Kept k; mapped = ground (arith, k.handle, r) })
  | inr g ↦ rw g (record { truthful = Truthful-Kept k; mapped = ground (arith, k.handle, r) })
]

Acquired-branches :
    {W : Type 0} {s : XpuState W} {v n : ℕ} {x y z : CuResult × XpuState W} (a b : Bool)
    → (a ≡ true → Acquired s x.1 v n x.0)
    → (a ≡ false → b ≡ true → Acquired s y.1 v n y.0)
    → (a ≡ false → Acquired s z.1 v n z.0)
    → let (result, t) = if a then x else if b then y else z in Acquired s t v n result
Acquired-branches true b p q r = p refl
Acquired-branches false true p q r = q refl refl
Acquired-branches false false p q r = r refl

module _ {W : Type 0} (gpu : Gpu W) where
  release_new-Acquired :
      {s t : XpuState W} {v n : ℕ} (err : CuResult)
      → check_cu err ≡ false
      → Owing s t v n
      → (page t v n).mapped ≢ mapping_mapped
      → Acquired s (release_new gpu t v n) v n err
  unfolding release_new
  release_new-Acquired {s} {t} {v} {n} err bad o m =
      let (released, w) = gpu.mem_release (page t v n).handle t.world in
      elim (Bool-cases (check_cu released)) [
        | inl e ↦ rw e (record { truthful = Truthful-dropped w o; mapped = ground (arith, bad) })
        | inr e ↦ rw e (record {
          truthful = charge_page-Truthful (Owing-Kept o (Kept-set_world t v n w));
          mapped = ground (arith, bad, m);
        })
      ]

  opened_failed-Acquired :
      {s t : XpuState W} {v n : ℕ} (err : CuResult)
      → check_cu err ≡ false
      → Owing s t v n
      → (page t v n).mapped ≡ mapping_unknown
      → let (closed, u) = close_mapping gpu t v n in
        Acquired s
          (if closed == mapping_unmapped then release_new gpu u v n else charge_page u)
          v
          n
          err
  opened_failed-Acquired {s} {t} {v} {n} err bad o m =
      let (closed, u) = close_mapping gpu t v n in
      let (k, closes, never) = close_mapping-Kept gpu t v n m in
      let o2 = Owing-Kept o k in
      let un : (page u v n).mapped ≢ mapping_mapped = λ z. never (closes ∙ z) in
      elim (Bool-cases (closed == mapping_unmapped)) [
        | inl e ↦ rw e (release_new-Acquired err bad o2 un)
        | inr e ↦
            rw e (record { truthful = charge_page-Truthful o2; mapped = ground (arith, bad, un) })
      ]

  map_absent_page-Acquired :
      (s : XpuState W) (v n : ℕ)
      → GivesHandles gpu
      → (page s v n).handle ≡ 0
      → (page s v n).mapped ≡ mapping_unmapped
      → let (result, t) = map_absent_page gpu s v n in Acquired s t v n result
  unfolding map_absent_page
  map_absent_page-Acquired s v n gives z un =
      let mv = s.vbars v in
      let vaddr = xpu_page_address mv n in
      let (created, handle, w1) = gpu.mem_create vbar_page_size mv.device s.world in
      let s1 = set_handle (set_world s w1) v n handle in
      let (mapped, w2) = gpu.mem_map vaddr vbar_page_size handle w1 in
      let (opened, w3) = gpu.mem_set_access vaddr vbar_page_size mv.device w2 in
      let s3 = set_mapped (set_world s1 w3) v n mapping_unknown in
      elim (Bool-cases (check_cu created)) [
        | inr e ↦ rw e (record {
          truthful = Truthful-Kept (Kept-set_world s v n w1);
          mapped = ground (arith, e, z);
        })
        | inl e ↦
            let nz : handle ≢ 0 =
              gives.nonzero vbar_page_size mv.device s.world (ground (arith, e)) in
            let o = set_handle-Owing s v n handle w1 z nz in
            let o3 : Owing s s3 v n = Owing-Kept o (Kept-set_page s1 v n _ w3 refl) in
            elim (Bool-cases (check_cu mapped)) [
              | inr f ↦
                  rw (e, f)
                    (release_new-Acquired mapped f (Owing-Kept o (Kept-set_world s1 v n w2))
                      (ground (arith, un)))
              | inl f ↦ elim (Bool-cases (check_cu opened)) [
                | inr g ↦ rw (e, f, g) (opened_failed-Acquired opened g o3 (ground arith))
                | inl g ↦
                    rw (e, f, g)
                      (record {
                        truthful =
                            charge_page-Truthful (Owing-Kept o3 (Kept-set_page s3 v n _ w3 refl));
                        mapped = ground (arith, nz);
                      })
              ]
            ]
      ]

  -- Whatever the driver refuses on the way, the usage goes up by one page exactly when the page has
  -- come to own a handle, the page is mapped exactly when the call succeeds, and no other page and
  -- no priority changes. The page is not mapped before, is unmapped if it has no handle, and the
  -- driver gives no null handle.
  pub vbar_map_new_page-Acquired :
      (s : XpuState W) (v n : ℕ)
      → GivesHandles gpu
      → (page s v n).mapped ≢ mapping_mapped
      → ((page s v n).handle ≡ 0 → (page s v n).mapped ≡ mapping_unmapped)
      → let (result, t) = vbar_map_new_page gpu s v n in Acquired s t v n result
  unfolding vbar_map_new_page
  vbar_map_new_page-Acquired s v n gives off un =
      let rp = page s v n in
      Acquired-branches (rp.handle == 0) (rp.mapped == mapping_unknown)
        (λ e. let z : rp.handle ≡ 0 = ground arith in map_absent_page-Acquired s v n gives z (un z))
        (λ e f. record { truthful = Truthful-Kept (Kept-refl s v n); mapped = ground (arith, off) })
        (λ e.
          let (k, r) = restore-Kept gpu s v n (ground arith) in
          restored-Acquired _ k r (ground arith))
