-- ===== src/TwoPhase/Candidates/Idle.antt =====
-- Scans of src/model-vbar.c that find no page.
use comfy_aimdo_xpu.TwoPhase.Reclaim.{batch_pages}
use comfy_aimdo_xpu.TwoPhase.Candidates.{
  freeze_vbars, vbar_freeze_retired_candidates, freeze_pages, retired_skips, retired_floor,
  retired_ready,
}
use comfy_aimdo_xpu.Base.{
  ℕ, Option, Bool, ◌≢◌, List, ◌∈◌, length, true, ◌≡◌, ◌≤◌, arith, false, [], ◌∷◌, ◌<◌, Bool-cases,
  min, inl, ◌-◌, ◌==◌, suc, inr, not, ◌&&◌, length-append, subst, leb, zero, refl,
}
use comfy_aimdo_xpu.Retire.{XpuPage, XpuVbar}
use comfy_aimdo_xpu.TwoPhase.{XpuState, page}

-- No page from `floor` on is ready, of the VBARs that are not passed over.
pub record NoneReady {W : Type 0} (skip : ℕ → XpuVbar → Bool) (floor : XpuVbar → ℕ)
    (ready : XpuPage → Bool) (order : List ℕ) (s : XpuState W) : Type 0 where
  pub unready :
      (v m : ℕ)
      → v ∈ order
      → skip v (s.vbars v) ≡ false
      → floor (s.vbars v) ≤ m
      → m < (s.vbars v).nr_pages
      → ready (page s v m) ≡ false

module _ {W : Type 0} where
  freeze_pages-none :
      (ready : XpuPage → Bool) (v floor n wanted : ℕ) (s : XpuState W)
      → wanted ≢ 0
      → let (found, t) = freeze_pages ready v floor n wanted s in
        length found ≡ 0 → (t ≡ s) × ((m : ℕ) → floor ≤ m → m < n → ready (page s v m) ≡ false)
  unfolding freeze_pages
  freeze_pages-none ready v floor zero wanted s w = λ e. (refl, λ m l u. absurd (omega arith))
  freeze_pages-none ready v floor (suc n) wanted s w =
      let rp = page s v n in
      elim (Bool-cases (not (wanted == 0) && leb (suc floor) (suc n) && ready rp)) [
        | inl f ↦ rw f (λ e. absurd (omega (arith, e)))
        | inr f ↦ rw f (λ e.
            let (same, rest) = freeze_pages-none ready v floor n wanted s w e in
            (
              same,
              λ m l u. elim (Bool-cases (n == m)) [
                | inr ne ↦ rest m l (ground (arith, ne))
                | inl eq ↦
                    let at : n ≡ m = ground (arith, eq) in
                    subst (λ k. ready (page s v k) ≡ false) at (ground (arith, f, w, l, at))
              ],
            ))
      ]

  freeze_vbars-NoneReady :
      (skip : ℕ → XpuVbar → Bool) (floor : XpuVbar → ℕ) (ready : XpuPage → Bool) (order : List ℕ)
      (wanted : ℕ) (s : XpuState W)
      → wanted ≢ 0
      → length (freeze_vbars skip floor ready order wanted s).0 ≡ 0
      → NoneReady skip floor ready order s
  unfolding freeze_vbars
  freeze_vbars-NoneReady skip floor ready [] wanted s w =
      λ e. record { unready = λ v m i. absurd (ground arith) }
  freeze_vbars-NoneReady skip floor ready (v ∷ rest) wanted s w =
      elim (Bool-cases (skip v (s.vbars v))) [
        | inl f ↦ rw f (λ e.
            let r = freeze_vbars-NoneReady skip floor ready rest (wanted - 0) s (omega arith) e in
            record {
              unready = λ u m i ns l h. elim (Bool-cases (v == u)) [
                | inr ne ↦ r.unready u m (ground arith) ns l h
                | inl eq ↦ absurd (ground arith)
              ];
            })
        | inr f ↦
            let mv = s.vbars v in
            let (here, s1) = freeze_pages ready v (floor mv) mv.nr_pages wanted s in
            let (more, s2) = freeze_vbars skip floor ready rest (wanted - length here) s1 in
            rw f (λ e.
              let none_here : length here ≡ 0 = omega (arith, e, length-append here more) in
              let (same, idle) =
                freeze_pages-none ready v (floor mv) mv.nr_pages wanted s w none_here in
              let r =
                freeze_vbars-NoneReady skip floor ready rest (wanted - length here) s1
                  (omega (arith, none_here)) (omega (arith, e, length-append here more)) in
              let r1 : NoneReady skip floor ready rest s =
                subst (NoneReady skip floor ready rest) same r in
              record {
                unready = λ u m i ns l h. elim (Bool-cases (v == u)) [
                  | inr ne ↦ r1.unready u m (ground arith) ns l h
                  | inl eq ↦
                      let at : v ≡ u = ground (arith, eq) in
                      subst
                        (λ a.
                          floor (s.vbars a) ≤ m
                          → m < (s.vbars a).nr_pages
                          → ready (page s a m) ≡ false)
                        at (idle m) l h
                ];
              })
      ]

  -- A scan for retired pages that has the lock, wants a page and finds none.
  pub vbar_freeze_retired_candidates-NoneReady :
      (n : ℕ) (completed : ℕ → ℕ) (count : ℕ) (preserved : Option ℕ) (s : XpuState W)
      → n ≢ 0
      → length (vbar_freeze_retired_candidates true n completed count preserved batch_pages s).0 ≡ 0
      → NoneReady (retired_skips preserved) retired_floor (retired_ready completed count) s.order s
  unfolding vbar_freeze_retired_candidates
  vbar_freeze_retired_candidates-NoneReady n completed count preserved s nz e = record {
    unready =
        (freeze_vbars-NoneReady (retired_skips preserved) retired_floor
          (retired_ready completed count) s.order (min batch_pages n)
          (record s { vbars_dirty = true }) (ground arith) e).unready;
  }
