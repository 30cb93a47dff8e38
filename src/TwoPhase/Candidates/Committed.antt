-- ===== src/TwoPhase/Candidates/Committed.antt =====
-- What `vbar_commit_candidates` of src/model-vbar.c frees.
use comfy_aimdo_xpu.Base.{
  ℕ, Bool, ◌≡◌, ◌≤◌, ◌+◌, List, arith, length, true, ◌*◌, Option-cases, [], ◌∷◌, ◌%◌, ◌≢◌, ◌^◌, inl,
  inr, refl, false, Bool-cases, leb, if◌then◌else◌,
}
use comfy_aimdo_xpu.TwoPhase.Candidates.{
  may_commit, vbar_commit_candidates, commit_candidate, Candidate, vbar_find_identity_locked,
}
use comfy_aimdo_xpu.Gpu.{Gpu}
use comfy_aimdo_xpu.TwoPhase.{XpuState, page}
use comfy_aimdo_xpu.Retire.{XpuVbar, XpuPage}
use comfy_aimdo_xpu.Vbar.Pages.{vbar_page_size}
use comfy_aimdo_xpu.TwoPhase.Mapping.{stop_evicting, xpu_mod1, is_freed}
use comfy_aimdo_xpu.TwoPhase.Mapping.Truthful.{Kept-set_page}
use comfy_aimdo_xpu.TwoPhase.Mapping.Reclaimed.{Reclaimed, Reclaimed-after, xpu_mod1-Reclaimed}

module _ {W : Type 0} where
  -- From `s` to `t` as many pages are gone from the usage as are counted, at most `limit`.
  pub record Frees (s t : XpuState W) (count limit : ℕ) : Type 0 where
    pub few : count ≤ limit
    pub usage : (t.total_vram_usage + vbar_page_size * count) % 2 ^ 64 ≡ s.total_vram_usage % 2 ^ 64

  pub Frees-none :
      (s t : XpuState W) (limit : ℕ) → t.total_vram_usage ≡ s.total_vram_usage → Frees s t 0 limit
  Frees-none s t limit e = record { few = omega arith; usage = ground (arith, e) }

  pub Frees-then :
      {s t u : XpuState W} {m n a b : ℕ} → Frees s t m a → Frees t u n b → Frees s u (m + n) (a + b)
  Frees-then p q = record {
    few = omega (arith, p.few, q.few);
    usage = omega (arith, p.usage, q.usage);
  }

  Frees-Reclaimed :
      {s t : XpuState W} {v n : ℕ} (gone : Bool)
      → (page s v n).handle ≢ 0
      → Reclaimed s t v n gone
      → Frees s t (if gone then 1 else 0) 1
  Frees-Reclaimed {s} {t} {v} {n} true nz r = record {
    few = omega arith;
    usage = ground (arith, nz, r.truthful.usage, r.handle);
  }
  Frees-Reclaimed {s} {t} {v} {n} false nz r = record {
    few = omega arith;
    usage = ground (arith, nz, r.truthful.usage, r.handle);
  }

may_commit-handle :
    (mv : XpuVbar) (rp : XpuPage) (c : Candidate) → may_commit mv rp c ≡ true → rp.handle ≢ 0
unfolding may_commit
may_commit-handle mv rp c h = ground arith

module _ {W : Type 0} (gpu : Gpu W) where
  commit_candidate-Frees :
      (s : XpuState W) (c : Candidate)
      → let (count, t) = commit_candidate gpu s c in Frees s t count 1
  unfolding commit_candidate
  commit_candidate-Frees s c = elim (Option-cases (vbar_find_identity_locked s c.vbar_identity)) [
    | inl e ↦ rw (commit_candidate, e) (Frees-none s s 1 refl)
    | inr (v, e) ↦
        let mv = s.vbars v in
        let n = c.page_nr in
        let rp = page s v n in
        let s1 = stop_evicting s v n in
        let (result, t) = xpu_mod1 gpu s1 v n true false in
        let k = Kept-set_page s v n (record rp { evicting = false }) s.world refl in
        elim (Bool-cases (leb mv.nr_pages n)) [
          | inl f ↦ rw (commit_candidate, e, f) (Frees-none s s 1 refl)
          | inr f ↦ elim (Bool-cases (may_commit mv rp c)) [
            | inr g ↦ rw (commit_candidate, e, f, g) (Frees-none s _ 1 refl)
            | inl g ↦
                rw (commit_candidate, e, f, g)
                  (Frees-Reclaimed (is_freed result) (may_commit-handle mv rp c g)
                    (Reclaimed-after k (xpu_mod1-Reclaimed gpu s1 v n true false)))
          ]
        ]
  ]

  -- The commit reports exactly the pages by which the usage goes down, at most one for each
  -- candidate, whatever the driver refuses and whatever has become of the candidates.
  pub vbar_commit_candidates-Frees :
      (candidates : List Candidate) (s : XpuState W)
      → let (count, t) = vbar_commit_candidates gpu candidates s in
        Frees s t count (length candidates)
  unfolding vbar_commit_candidates
  vbar_commit_candidates-Frees [] s = Frees-none s s 0 refl
  vbar_commit_candidates-Frees (c ∷ rest) s =
      let (here, s1) = commit_candidate gpu s c in
      let h = Frees-then (commit_candidate-Frees s c) (vbar_commit_candidates-Frees rest s1) in
      record { few = omega (arith, h.few); usage = h.usage }
