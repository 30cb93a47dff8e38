-- ===== src/TwoPhase/Candidates/Scan.antt =====
-- What the scans and the cancellations of src/model-vbar.c leave of the usage, and how much a scan
-- may take.
use comfy_aimdo_xpu.Base.{
  ℕ, Option, List, [], arith, Bool, ◌∷◌, suc, length, ◌≤◌, Bool-cases, ◌≡◌, inl, inr, refl, ◌-◌,
  not, length-append, ◌==◌, ◌∙◌, ◌&&◌, leb, zero, min, true, false, Option-cases,
}
use comfy_aimdo_xpu.TwoPhase.Candidates.{
  freeze_vbars, vbar_freeze_reference_candidates, freeze_pages, Candidate, freeze_page,
  vbar_freeze_retired_candidates, vbar_freeze_model_candidates, vbar_cancel_candidates,
  cancel_candidate, vbar_find_identity_locked, synchronized_ready, is_preserved, retired_skips,
  retired_floor, retired_ready,
}
use comfy_aimdo_xpu.TwoPhase.{XpuState, page, set_page}
use comfy_aimdo_xpu.Retire.{XpuVbar, XpuPage}
use comfy_aimdo_xpu.TwoPhase.Reclaim.{batch_pages}

module _ {W : Type 0} where
  -- A scan takes at most what is wanted, and no memory yet.
  pub record Scanned (s : XpuState W) (wanted : ℕ) (found : List Candidate) (t : XpuState W)
      : Type 0 where
    pub few : length found ≤ wanted
    pub usage : t.total_vram_usage ≡ s.total_vram_usage

  Scanned-nothing : (s : XpuState W) (wanted : ℕ) → Scanned s wanted [] s
  Scanned-nothing s wanted = record { few = omega arith; usage = refl }

  freeze_pages-Scanned :
      (ready : XpuPage → Bool) (v floor page_nr wanted : ℕ) (s : XpuState W)
      → let (found, t) = freeze_pages ready v floor page_nr wanted s in Scanned s wanted found t
  unfolding freeze_pages
  freeze_pages-Scanned ready v floor zero wanted s = Scanned-nothing s wanted
  freeze_pages-Scanned ready v floor (suc page_nr) wanted s =
      let rp = page s v page_nr in
      let takes = not (wanted == 0) && leb (suc floor) (suc page_nr) && ready rp in
      let s1 = set_page s v page_nr (freeze_page rp) in
      elim (Bool-cases takes) [
        | inl e ↦
            let h = freeze_pages-Scanned ready v floor page_nr (wanted - 1) s1 in
            rw e (record { few = ground (arith, h.few); usage = h.usage })
        | inr e ↦
            let h = freeze_pages-Scanned ready v floor page_nr wanted s in
            rw e (record { few = h.few; usage = h.usage })
      ]

  freeze_vbars-Scanned :
      (skip : ℕ → XpuVbar → Bool) (floor : XpuVbar → ℕ) (ready : XpuPage → Bool) (order : List ℕ)
      (wanted : ℕ) (s : XpuState W)
      → let (found, t) = freeze_vbars skip floor ready order wanted s in Scanned s wanted found t
  unfolding freeze_vbars
  freeze_vbars-Scanned skip floor ready [] wanted s = Scanned-nothing s wanted
  freeze_vbars-Scanned skip floor ready (v ∷ rest) wanted s =
      elim (Bool-cases (skip v (s.vbars v))) [
        | inl e ↦
            let h = freeze_vbars-Scanned skip floor ready rest (wanted - 0) s in
            rw e (record { few = omega (arith, h.few); usage = h.usage })
        | inr e ↦
            let mv = s.vbars v in
            let (here, s1) = freeze_pages ready v (floor mv) mv.nr_pages wanted s in
            let g = freeze_pages-Scanned ready v (floor mv) mv.nr_pages wanted s in
            let h = freeze_vbars-Scanned skip floor ready rest (wanted - length here) s1 in
            rw e (record {
              few = omega (
                arith,
                g.few,
                h.few,
                length-append here (freeze_vbars skip floor ready rest (wanted - length here) s1).0,
              );
              usage = h.usage ∙ g.usage;
            })
      ]

  -- A scan that takes at most as many pages as are needed.
  pub record IsScan (freeze : (pages_needed : ℕ) → XpuState W → List Candidate × XpuState W)
      : Type 0 where
    pub scanned :
        (pages_needed : ℕ) (s : XpuState W)
        → let (found, t) = freeze pages_needed s in Scanned s pages_needed found t

  freeze_vbars-within :
      (skip : ℕ → XpuVbar → Bool) (floor : XpuVbar → ℕ) (ready : XpuPage → Bool) (order : List ℕ)
      (n : ℕ) (s t : XpuState W)
      → t.total_vram_usage ≡ s.total_vram_usage
      → let (found, u) = freeze_vbars skip floor ready order (min batch_pages n) t in
        Scanned s n found u
  freeze_vbars-within skip floor ready order n s t e =
      let h = freeze_vbars-Scanned skip floor ready order (min batch_pages n) t in
      record { few = omega (arith, h.few); usage = h.usage ∙ e }

  pub reference-IsScan :
      (preserved : Option ℕ)
      → IsScan (λ n s. vbar_freeze_reference_candidates n preserved batch_pages s)
  unfolding vbar_freeze_reference_candidates
  reference-IsScan preserved = record {
    scanned = λ n s.
        freeze_vbars-within (λ v mv. is_preserved preserved v) (λ mv. mv.watermark_limit)
          synchronized_ready s.order n s (record s { vbars_dirty = true }) refl;
  }

  pub retired-IsScan :
      (got_lock : Bool) (completed : ℕ → ℕ) (count : ℕ) (preserved : Option ℕ)
      → IsScan
          (λ n s. vbar_freeze_retired_candidates got_lock n completed count preserved batch_pages s)
  unfolding vbar_freeze_retired_candidates
  retired-IsScan true completed count preserved = record {
    scanned = λ n s.
        freeze_vbars-within (retired_skips preserved) retired_floor (retired_ready completed count)
          s.order n s (record s { vbars_dirty = true }) refl;
  }
  retired-IsScan false completed count preserved = record { scanned = λ n s. Scanned-nothing s n }

  pub model-IsScan :
      (identity first last : ℕ)
      → IsScan (λ n s. vbar_freeze_model_candidates identity first last n batch_pages s)
  unfolding vbar_freeze_model_candidates
  model-IsScan identity first last = record {
    scanned = λ n s. elim (Option-cases (vbar_find_identity_locked s identity)) [
      | inl e ↦ rw (vbar_freeze_model_candidates, e) (Scanned-nothing s n)
      | inr (v, e) ↦ elim (Bool-cases (s.vbars v).closing) [
        | inl f ↦ rw (vbar_freeze_model_candidates, e, f) (Scanned-nothing s n)
        | inr f ↦
            let h =
              freeze_pages-Scanned synchronized_ready v first (min last (s.vbars v).nr_pages)
                (min batch_pages n) s in
            rw (vbar_freeze_model_candidates, e, f)
              (record { few = omega (arith, h.few); usage = h.usage })
      ]
    ];
  }

  pub vbar_cancel_candidates-usage :
      (candidates : List Candidate) (s : XpuState W)
      → (vbar_cancel_candidates candidates s).total_vram_usage ≡ s.total_vram_usage
  unfolding vbar_cancel_candidates cancel_candidate
  vbar_cancel_candidates-usage [] s = refl
  vbar_cancel_candidates-usage (c ∷ rest) s =
      vbar_cancel_candidates-usage rest (cancel_candidate s c) ∙ one
    where
      one : (cancel_candidate s c).total_vram_usage ≡ s.total_vram_usage
      one = elim (Option-cases (vbar_find_identity_locked s c.vbar_identity)) [
        | inl e ↦ rw (cancel_candidate, e) refl
        | inr (v, e) ↦ elim (Bool-cases (leb (s.vbars v).nr_pages c.page_nr)) [
          | inl f ↦ rw (cancel_candidate, e, f) refl
          | inr f ↦ rw (cancel_candidate, e, f) refl
        ]
      ]
