-- ===== src/TwoPhase/Reclaim/Batches.antt =====
-- The loops of src/model-vbar.c that freeze and commit in batches: they end, and count truly.
use comfy_aimdo_xpu.Base.{
  ℕ, List, Bool, length, ◌≡◌, if◌then◌else◌, ◌+◌, ◌⊎◌, true, ◌*◌, false, ◌%◌, ◌^◌, Ends, ◌<◌, arith,
  Bool-cases, ◌==◌, inl, inr, ◌&&◌, not, ◌∙◌, ap, rounds_end, refl, stop, go, Round,
}
use comfy_aimdo_xpu.Gpu.{Gpu, check_cu}
use comfy_aimdo_xpu.TwoPhase.{XpuState, set_world}
use comfy_aimdo_xpu.TwoPhase.Candidates.{Candidate, vbar_commit_candidates}
use comfy_aimdo_xpu.TwoPhase.Reclaim.{Batch, batch_round, batch_loop}
use comfy_aimdo_xpu.TwoPhase.Candidates.Scan.{IsScan, vbar_cancel_candidates-usage}
use comfy_aimdo_xpu.Vbar.Pages.{vbar_page_size}
use comfy_aimdo_xpu.TwoPhase.Candidates.Committed.{vbar_commit_candidates-Frees}

module _ {W : Type 0} (gpu : Gpu W)
    (freeze : (round pages_needed : ℕ) → XpuState W → List Candidate × XpuState W)
    (sync : Bool) where
  -- Where the commit of a round starts.
  abbrev committing : Batch W → XpuState W
  committing k =
      let s1 = (freeze k.round k.needed k.state).1 in
      if sync then set_world s1 (gpu.ctx_synchronize s1.world).1 else s1

  -- Why a loop has stopped in a round from `k`: no page is ready, the device does not synchronize, or
  -- no candidate could be freed.
  pub data Stalled (k : Batch W) : Type 0 where
    none_ready : length (freeze k.round k.needed k.state).0 ≡ 0 → Stalled k
    not_synchronized :
        sync ≡ true
        → check_cu (gpu.ctx_synchronize (freeze k.round k.needed k.state).1.world).0 ≡ false
        → Stalled k
    none_freed :
        (vbar_commit_candidates gpu (freeze k.round k.needed k.state).0 (committing k)).0 ≡ 0
        → Stalled k

  -- From `s`, where `wanted` pages were needed, the loop is at `k`.
  pub record Advance (s : XpuState W) (wanted : ℕ) (k : Batch W) : Type 0 where
    pub counts : k.needed + k.freed_total ≡ wanted
    pub usage :
        (k.state.total_vram_usage + vbar_page_size * k.freed_total) % 2 ^ 64
        ≡ s.total_vram_usage % 2 ^ 64

  -- `t` is reached from `start` by rounds that go on, each of which lowers what is needed.
  pub data Runs (start : Batch W) : Batch W → Type 0 where
    begins : Runs start start
    goes_on :
        {k t : Batch W}
        → Runs start k
        → batch_round gpu freeze sync k ≡ go t
        → t.needed < k.needed
        → Runs start t

  -- The last round of the run from `start`, which stops at `at` with pages needed, and why it stops.
  pub record LastRound (Why : Batch W → Type 0) (start at : Batch W) : Type 0 where
    pub last : Batch W
    pub reached : Runs start last
    pub stops : batch_round gpu freeze sync last ≡ stop at
    pub still : at.needed ≡ last.needed
    pub why : Why last

  pub record Finished (s : XpuState W) (wanted : ℕ) (start k : Batch W) : Type 0 where
    pub advance : Advance s wanted k
    pub why : (k.needed ≡ 0) ⊎ LastRound Stalled start k

  -- How a round from `k` may stop, at `t`.
  record Stops (s : XpuState W) (wanted : ℕ) (k t : Batch W) : Type 0 where
    advance : Advance s wanted t
    why : (t.needed ≡ 0) ⊎ ((t.needed ≡ k.needed) × Stalled k)

  -- A round's ending, with its place in the run.
  Ends-run :
      (s : XpuState W) (wanted : ℕ) (start k : Batch W) (r : Round (Batch W))
      → batch_round gpu freeze sync k ≡ r
      → Runs start k
      → Ends (λ t. Advance s wanted t × (t.needed < k.needed)) (Stops s wanted k) r
      → Ends
          (λ t. (Advance s wanted t × Runs start t) × (t.needed < k.needed))
          (Finished s wanted start)
          r
  Ends-run s wanted start k (stop t) e run h = record {
    advance = h.advance;
    why = elim h.why [
      | inl z ↦ inl z
      | inr (same, stalled) ↦
          inr (record { last = k; reached = run; stops = e; still = same; why = stalled })
    ];
  }
  Ends-run s wanted start k (go t) e run h = ((h.0, goes_on run e h.1), h.1)

  module _ (scan : (round : ℕ) → IsScan (freeze round)) (s : XpuState W) (wanted : ℕ) where
    committing-usage : (k : Batch W) → (committing k).total_vram_usage ≡ k.state.total_vram_usage
    committing-usage k = elim (Bool-cases sync) [
      | inl e ↦ rw e ((scan k.round).scanned k.needed k.state).usage
      | inr e ↦ rw e ((scan k.round).scanned k.needed k.state).usage
    ]

    batch_round-Ends :
        (k : Batch W)
        → Advance s wanted k
        → Ends
            (λ t. Advance s wanted t × (t.needed < k.needed))
            (Stops s wanted k)
            (batch_round gpu freeze sync k)
    unfolding batch_round
    batch_round-Ends k p =
        let (candidates, s1) = freeze k.round k.needed k.state in
        let (synced, w) = gpu.ctx_synchronize s1.world in
        let s2 = if sync then set_world s1 w else s1 in
        let (freed?, t) = vbar_commit_candidates gpu candidates s2 in
        let sc = (scan k.round).scanned k.needed k.state in
        let same : s2.total_vram_usage ≡ k.state.total_vram_usage = committing-usage k in
        let fr = vbar_commit_candidates-Frees gpu candidates s2 in
        let stays : (u : XpuState W)
            → u.total_vram_usage % 2 ^ 64 ≡ k.state.total_vram_usage % 2 ^ 64
            → Advance s wanted (record k { state = u }) =
          λ u e. record { counts = p.counts; usage = ground (arith, e, p.usage) } in
        elim (Bool-cases (k.needed == 0)) [
          | inl e ↦ rw e (record { advance = p; why = inl (ground arith) })
          | inr e ↦ elim (Bool-cases (length candidates == 0)) [
            | inl f ↦
                rw (e, f)
                  (record {
                    advance = stays s1 (ap (λ u. u % 2 ^ 64) sc.usage);
                    why = inr (refl, none_ready (ground arith));
                  })
            | inr f ↦ elim (Bool-cases (sync && not (check_cu synced))) [
              | inl g ↦
                  rw (e, f, g)
                    (record {
                      advance = stays _ (
                          ap (λ u. u % 2 ^ 64) (vbar_cancel_candidates-usage candidates s2 ∙ same));
                      why = inr (refl, not_synchronized (ground arith) (ground arith));
                    })
              | inr g ↦ elim (Bool-cases (freed? == 0)) [
                | inl h ↦
                    let z : freed? ≡ 0 = ground arith in
                    rw (e, f, g, h)
                      (record {
                        advance = stays t (ground (arith, fr.usage, z, same));
                        why = inr (refl, none_freed z);
                      })
                | inr h ↦
                    rw (e, f, g, h)
                      ((
                        record {
                          counts = omega (arith, p.counts, fr.few, sc.few);
                          usage = omega (arith, p.usage, fr.usage, same);
                        },
                        ground (arith, fr.few, sc.few),
                      ))
              ]
            ]
          ]
        ]

    pub batch_loop-Finished :
        let start : Batch W = record { round = 0; needed = wanted; freed_total = 0; state = s } in
        Finished s wanted start (batch_loop gpu freeze sync wanted s)
    unfolding batch_loop
    batch_loop-Finished =
        let start : Batch W = record { round = 0; needed = wanted; freed_total = 0; state = s } in
        rounds_end (λ k. Advance s wanted k × Runs start k) (Finished s wanted start)
          (λ k. k.needed) (batch_round gpu freeze sync)
          (λ k p z. record { advance = p.0; why = inl z })
          (λ k p.
            Ends-run s wanted start k (batch_round gpu freeze sync k) refl p.1
              (batch_round-Ends k p.0))
          wanted start (omega arith) (record { counts = omega arith; usage = ground arith }, begins)
