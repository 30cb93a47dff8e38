-- ===== src/TwoPhase/Reclaim/Shortfall.antt =====
-- How far the reclaim calls of src/model-vbar.c come with what they are asked for.
use comfy_aimdo_xpu.Base.{
  ℕ, List, Option, Bool, ◌≤◌, arith, true, inl, ◌+◌, ◌≡◌, ◌*◌, Bool-cases, ◌-◌, ◌==◌, ◌%◌, inr, ◌^◌,
  ◌⊎◌, refl, false, ◌≢◌,
}
use comfy_aimdo_xpu.Gpu.{Gpu}
use comfy_aimdo_xpu.TwoPhase.Reclaim.{
  batch_pages, batch_loop, Batch, vbar_free_model_range_synchronized,
  vbars_free_synchronized_except,
}
use comfy_aimdo_xpu.TwoPhase.{XpuState}
use comfy_aimdo_xpu.Base.Int.{ℤ, pos_part}
use comfy_aimdo_xpu.TwoPhase.Candidates.{
  Candidate, vbar_freeze_model_candidates, vbar_freeze_retired_candidates, retired_skips,
  retired_floor, retired_ready, vbar_commit_candidates, vbar_freeze_reference_candidates,
}
use comfy_aimdo_xpu.TwoPhase.Candidates.Scan.{IsScan, model-IsScan, reference-IsScan}
use comfy_aimdo_xpu.Vbar.Pages.{vbar_get_page_nr_up, vbar_page_size}
use comfy_aimdo_xpu.TwoPhase.Reclaim.Batches.{batch_loop-Finished, LastRound, Stalled}
use comfy_aimdo_xpu.TwoPhase.Candidates.Idle.{NoneReady}

module _ {W : Type 0} (gpu : Gpu W) where
  -- Of `pages`, `left` are still wanted: as many as the usage has not gone down by.
  pub record Reaches (freeze : (round pages_needed : ℕ) → XpuState W → List Candidate × XpuState W)
      (sync : Bool) (Why : Batch W → Type 0) (s t : XpuState W) (pages left : ℕ) : Type 0 where
    pub few : left ≤ pages
    pub usage :
        (t.total_vram_usage + vbar_page_size * (pages - left)) % 2 ^ 64
        ≡ s.total_vram_usage % 2 ^ 64
    pub why :
        (left ≡ 0)
        ⊎ ((at : Batch W) × (at.needed ≡ left)
            × (at.state ≡ t)
            × LastRound gpu freeze sync Why
                (record { round = 0; needed = pages; freed_total = 0; state = s })
                at)

  batch_loop-Reaches :
      (freeze : (round pages_needed : ℕ) → XpuState W → List Candidate × XpuState W) (sync : Bool)
      (Why : Batch W → Type 0)
      → ((round : ℕ) → IsScan (freeze round))
      → ((k : Batch W) → k.needed ≢ 0 → Stalled gpu freeze sync k → Why k)
      → (s : XpuState W) (pages : ℕ)
      → let k = batch_loop gpu freeze sync pages s in
        Reaches freeze sync Why s k.state pages k.needed
  batch_loop-Reaches freeze sync Why scan explain s pages =
      let f = batch_loop-Finished gpu freeze sync scan s pages in
      let k = batch_loop gpu freeze sync pages s in
      let freed? : k.freed_total ≡ pages - k.needed = omega (arith, f.advance.counts) in
      record {
        few = omega (arith, f.advance.counts);
        usage = rw (← freed?) f.advance.usage;
        why = elim f.why [
          | inl z ↦ inl z
          | inr l ↦ elim (Bool-cases (k.needed == 0)) [
            | inl z ↦ inl (ground (arith, z))
            | inr nz ↦ inr (
              k,
              refl,
              refl,
              record {
                last = l.last;
                reached = l.reached;
                stops = l.stops;
                still = l.still;
                why = explain l.last (ground (arith, nz, l.still)) l.why;
              },
            )
          ]
        ];
      }

  nothing-Reaches :
      (freeze : (round pages_needed : ℕ) → XpuState W → List Candidate × XpuState W) (sync : Bool)
      (Why : Batch W → Type 0) (s : XpuState W)
      → Reaches freeze sync Why s s 0 0
  nothing-Reaches freeze sync Why s = record {
    few = omega arith;
    usage = ground arith;
    why = inl refl;
  }

  -- Why a round that wants pages stops when it may not wait: it does not get the lock, no page that it
  -- may take is ready, or none of those that it finds is given up.
  pub data Blocked (got_lock : (round : ℕ) → Bool) (completed : ℕ → ℕ) (count : ℕ)
      (preserved : Option ℕ) (k : Batch W) : Type 0 where
    not_locked : got_lock k.round ≡ false → Blocked got_lock completed count preserved k
    none_retired :
        NoneReady
          (retired_skips preserved)
          retired_floor
          (retired_ready completed count)
          k.state.order
          k.state
        → Blocked got_lock completed count preserved k
    none_given_up :
        (let (candidates, s1) =
            vbar_freeze_retired_candidates
              (got_lock k.round)
              k.needed
              completed
              count
              preserved
              batch_pages
              k.state in
          (vbar_commit_candidates gpu candidates s1).0 ≡ 0)
        → Blocked got_lock completed count preserved k

  -- The reclaim that synchronizes first, which may also fail at that.
  pub vbars_free_synchronized_except-Reaches :
      (size : ℤ) (preserved : Option ℕ) (s : XpuState W)
      → let freeze : ℕ → ℕ → XpuState W → List Candidate × XpuState W =
          λ i n u. vbar_freeze_reference_candidates n preserved batch_pages u in
        let (left, t) = vbars_free_synchronized_except gpu size preserved s in
        Reaches freeze true (Stalled gpu freeze true) s t (vbar_get_page_nr_up (pos_part size)) left
  unfolding vbars_free_synchronized_except
  vbars_free_synchronized_except-Reaches size preserved s =
      let freeze : ℕ → ℕ → XpuState W → List Candidate × XpuState W =
        λ i n u. vbar_freeze_reference_candidates n preserved batch_pages u in
      let Why = Stalled gpu freeze true in
      elim (Bool-cases (pos_part size == 0)) [
        | inl e ↦
            let z : pos_part size ≡ 0 = ground arith in
            rw (e, z) (nothing-Reaches freeze true Why s)
        | inr e ↦ rw e (
            batch_loop-Reaches freeze true Why (λ i. reference-IsScan preserved) (λ k nz h. h) s
              (vbar_get_page_nr_up (pos_part size)))
      ]

  -- Of the pages asked of one model's range, the call reports as freed exactly those by which the
  -- usage goes down, never more than asked.
  pub vbar_free_model_range_synchronized-Freed :
      (identity first last pages : ℕ) (s : XpuState W)
      → let (freed?, t) = vbar_free_model_range_synchronized gpu identity first last pages s in
        (freed? ≤ pages)
        × ((t.total_vram_usage + vbar_page_size * freed?) % 2 ^ 64 ≡ s.total_vram_usage % 2 ^ 64)
  unfolding vbar_free_model_range_synchronized
  vbar_free_model_range_synchronized-Freed identity first last pages s =
      let freeze : ℕ → ℕ → XpuState W → List Candidate × XpuState W =
        λ i n u. vbar_freeze_model_candidates identity first last n batch_pages u in
      let f = batch_loop-Finished gpu freeze true (λ i. model-IsScan identity first last) s pages in
      (omega (arith, f.advance.counts), f.advance.usage)
