-- ===== src/TwoPhase/Candidates.antt =====
-- Pages frozen as candidates, cancelled or committed: `vbar_freeze_*_candidates`,
-- `vbar_cancel_candidates` and `vbar_commit_candidates` of src/model-vbar.c.
pub mod Scan
pub mod Idle
pub mod Committed
use comfy_aimdo_xpu.Base.{
  ℕ, Bool, List, Option, [], ◌∷◌, ◌==◌, ◌&&◌, ◌||◌, none, true, min, if◌then◌else◌, ◌+◌, false,
  some, ◌-◌, not, suc, leb, ltb, length, ◌++◌, zero,
}
use comfy_aimdo_xpu.Retire.{
  vbar_retire_complete, XpuPage, vbar_page_cancel_eviction, XpuVbar, xpu_page_is_mapped,
  consumer_held,
}
use comfy_aimdo_xpu.Gpu.{Gpu}
use comfy_aimdo_xpu.TwoPhase.Mapping.{xpu_mod1, stop_evicting, is_freed}
use comfy_aimdo_xpu.Devctx.{add64}
use comfy_aimdo_xpu.TwoPhase.{XpuState, page, set_page}

-- `VbarEvictionCandidate`
pub record Candidate : Type 0 where
  pub vbar_identity : ℕ
  pub page_nr : ℕ
  pub handle : ℕ
  pub serial : ℕ
  pub eviction_generation : ℕ

unfoldable pub find_identity_from : (ℕ → XpuVbar) → List ℕ → (identity : ℕ) → Option ℕ
find_identity_from vbars [] identity = none
find_identity_from vbars (v ∷ rest) identity =
    if (vbars v).identity == identity then some v else find_identity_from vbars rest identity

-- Which pages the scans may freeze.
abbrev pub may_freeze : XpuPage → Bool
may_freeze rp =
    xpu_page_is_mapped rp && rp.pin_count == 0 && not (consumer_held rp) && not rp.evicting

unfoldable pub retired_ready : (completed : ℕ → ℕ) → (count : ℕ) → XpuPage → Bool
unfolding vbar_retire_complete
retired_ready completed count rp = may_freeze rp && vbar_retire_complete rp completed count

unfoldable pub synchronized_ready : XpuPage → Bool
synchronized_ready rp = may_freeze rp && not rp.retire_unknown

unfoldable pub freeze_page : XpuPage → XpuPage
freeze_page rp = record rp { evicting = true; eviction_generation = add64 rp.eviction_generation 1 }

abbrev pub candidate_of : XpuVbar → (page_nr : ℕ) → XpuPage → Candidate
candidate_of mv page_nr rp = record {
  vbar_identity = mv.identity;
  page_nr = page_nr;
  handle = rp.handle;
  serial = rp.serial;
  eviction_generation = rp.eviction_generation;
}

-- The test of `vbar_commit_candidates`, with the candidate's page at hand.
unfoldable pub may_commit : XpuVbar → XpuPage → Candidate → Bool
may_commit mv rp c =
    mv.copy_holds == 0
    && rp.evicting
    && rp.pin_count == 0
    && not (consumer_held rp)
    && xpu_page_is_mapped rp
    && rp.handle == c.handle
    && rp.serial == c.serial
    && rp.eviction_generation == c.eviction_generation

unfoldable pub cancel_page : Candidate → XpuPage → XpuPage
unfolding vbar_page_cancel_eviction
cancel_page c rp =
    if rp.evicting && rp.eviction_generation == c.eviction_generation
    then vbar_page_cancel_eviction rp
    else rp

abbrev pub is_preserved : Option ℕ → ℕ → Bool
is_preserved preserved v = elim preserved [ none ↦ false | some p ↦ v == p ]

-- What the scan for retired pages passes over, and where it stops in a VBAR.
abbrev pub retired_skips : (preserved : Option ℕ) → ℕ → XpuVbar → Bool
retired_skips preserved v mv =
    is_preserved preserved v
    || not (mv.copy_holds == 0)
    || elim mv.pageout_callback [ none ↦ false | some _ ↦ true ]

abbrev pub retired_floor : XpuVbar → ℕ
retired_floor mv = if ltb mv.watermark mv.watermark_limit then mv.watermark else mv.watermark_limit

module _ {W : Type 0} where
  unfoldable pub vbar_find_identity_locked : XpuState W → (identity : ℕ) → Option ℕ
  unfolding find_identity_from
  vbar_find_identity_locked s identity = find_identity_from s.vbars s.order identity

  -- The scan of one VBAR, from `page_nr` down to `floor`, for as many pages as are `wanted`.
  unfoldable pub freeze_pages :
      (ready : XpuPage → Bool)
      → (v floor : ℕ) → (page_nr wanted : ℕ) → XpuState W
      → List Candidate × XpuState W
  unfolding freeze_page
  freeze_pages ready v floor zero wanted s = ([], s)
  freeze_pages ready v floor (suc page_nr) wanted s =
      let rp = page s v page_nr in
      let frozen = freeze_page rp in
      let takes = not (wanted == 0) && leb (suc floor) (suc page_nr) && ready rp in
      let (more, t) =
        freeze_pages ready v floor page_nr (if takes then wanted - 1 else wanted)
          (if takes then set_page s v page_nr frozen else s) in
      if takes then (candidate_of (s.vbars v) page_nr frozen ∷ more, t) else (more, t)

  -- The scan of all VBARs, lowest priority first; `skip` says which are passed over.
  unfoldable pub freeze_vbars :
      (skip : ℕ → XpuVbar → Bool)
      → (floor : XpuVbar → ℕ) → (ready : XpuPage → Bool) → List ℕ
      → (wanted : ℕ) → XpuState W
      → List Candidate × XpuState W
  unfolding freeze_pages
  freeze_vbars skip floor ready [] wanted s = ([], s)
  freeze_vbars skip floor ready (v ∷ rest) wanted s =
      let mv = s.vbars v in
      let (here, s1) =
        if skip v mv then ([], s) else freeze_pages ready v (floor mv) mv.nr_pages wanted s in
      let (more, s2) = freeze_vbars skip floor ready rest (wanted - length here) s1 in
      (here ++ more, s2)

  -- `got_lock` is what `vbar_state_try_lock()` says.
  unfoldable pub vbar_freeze_retired_candidates :
      (got_lock : Bool)
      → (pages_needed : ℕ) → (completed : ℕ → ℕ) → (completed_count : ℕ) → (preserved : Option ℕ)
      → (capacity : ℕ) → XpuState W
      → List Candidate × XpuState W
  unfolding freeze_vbars retired_ready
  vbar_freeze_retired_candidates got_lock pages_needed completed completed_count preserved capacity
        s =
      if got_lock
      then freeze_vbars (retired_skips preserved) retired_floor
          (retired_ready completed completed_count) s.order (min capacity pages_needed)
          (record s { vbars_dirty = true })
      else ([], s)

  unfoldable pub vbar_freeze_reference_candidates :
      (pages_needed : ℕ)
      → (preserved : Option ℕ) → (capacity : ℕ) → XpuState W
      → List Candidate × XpuState W
  unfolding freeze_vbars synchronized_ready
  vbar_freeze_reference_candidates pages_needed preserved capacity s =
      freeze_vbars (λ v mv. is_preserved preserved v) (λ mv. mv.watermark_limit) synchronized_ready
        s.order (min capacity pages_needed) (record s { vbars_dirty = true })

  unfoldable pub vbar_freeze_model_candidates :
      (identity first last pages_needed capacity : ℕ) → XpuState W → List Candidate × XpuState W
  unfolding freeze_pages synchronized_ready vbar_find_identity_locked
  vbar_freeze_model_candidates identity first last pages_needed capacity s =
      elim (vbar_find_identity_locked s identity) [
        | none ↦ ([], s)
        | some v ↦
            let mv = s.vbars v in
            if mv.closing
            then ([], s)
            else freeze_pages synchronized_ready v first (min last mv.nr_pages)
                (min capacity pages_needed) s
      ]

  -- A change of the page of a candidate, if its VBAR is still there.
  unfoldable pub cancel_candidate : XpuState W → Candidate → XpuState W
  unfolding cancel_page vbar_find_identity_locked
  cancel_candidate s c = elim (vbar_find_identity_locked s c.vbar_identity) [
    | none ↦ s
    | some v ↦
        if leb (s.vbars v).nr_pages c.page_nr
        then s
        else set_page s v c.page_nr (cancel_page c (page s v c.page_nr))
  ]

  unfoldable pub vbar_cancel_candidates : List Candidate → XpuState W → XpuState W
  unfolding cancel_candidate
  vbar_cancel_candidates [] s = s
  vbar_cancel_candidates (c ∷ rest) s = vbar_cancel_candidates rest (cancel_candidate s c)

module _ {W : Type 0} (gpu : Gpu W) where
  -- One round of `vbar_commit_candidates`: the pages it has freed, and the state.
  unfoldable pub commit_candidate : XpuState W → Candidate → ℕ × XpuState W
  unfolding may_commit cancel_page vbar_find_identity_locked xpu_mod1
  commit_candidate s c = elim (vbar_find_identity_locked s c.vbar_identity) [
    | none ↦ (0, s)
    | some v ↦
        let mv = s.vbars v in
        let rp = page s v c.page_nr in
        let (result, t) = xpu_mod1 gpu (stop_evicting s v c.page_nr) v c.page_nr true false in
        if leb mv.nr_pages c.page_nr
        then (0, s)
        else if may_commit mv rp c
        then (if is_freed result then 1 else 0, t)
        else (0, set_page s v c.page_nr (cancel_page c rp))
  ]

  unfoldable pub vbar_commit_candidates : List Candidate → XpuState W → ℕ × XpuState W
  unfolding commit_candidate
  vbar_commit_candidates [] s = (0, s)
  vbar_commit_candidates (c ∷ rest) s =
      let (here, s1) = commit_candidate s c in
      let (more, s2) = vbar_commit_candidates rest s1 in (here + more, s2)
