-- ===== src/Vbar/Reclaim/Evicting.antt =====
-- `vbars_free_internal` of src/model-vbar.c as a sequence of eviction steps.
use comfy_aimdo_xpu.Base.{
  ℕ, ◌≤◌, not, ◌&&◌, ◌||◌, arith, inl, inr, Bool-cases, ◌∈◌, ltb, ◌==◌, after, rounds_keep, Option,
  Bool, List, true, ◌∷◌, false, leb, [],
}
use comfy_aimdo_xpu.Gpu.{Gpu}
use comfy_aimdo_xpu.Devctx.{State}
use comfy_aimdo_xpu.Vbar.Evict.{
  Mod, lower_watermark, writeback_failed, retained, freed, one_time_dirty,
}
use comfy_aimdo_xpu.Vbar.Evict.Steps.{Evicts, here, Evicts-trans, next, dirtied}
use comfy_aimdo_xpu.Vbar.Evict.Spares.{Evicts-order, Evicts-shape, Evicts-watermark}
use comfy_aimdo_xpu.Vbar.Evict.Single.{round-Evicts, sync_if-Evicts}
use comfy_aimdo_xpu.Vbar.Reclaim.{
  Walk, lower_round, lower_outcome, lower_loop, free_walk, vbars_free_internal, ℤ,
  vbar_get_page_nr_up, is_skipped, pos_part,
}

-- Every watermark is in its VBAR's page table.
abbrev pub InRange : {W : Type 0} → State W → Type 0
InRange s = (v : ℕ) → v ∈ s.order → (s.vbars v).watermark ≤ (s.vbars v).nr_pages

module _ {W : Type 0} where
  pub Evicts-InRange : {s t : State W} → InRange s → Evicts s t → InRange t
  Evicts-InRange {s} h p v i =
      ground (arith, h v, Evicts-order p, Evicts-watermark p v, Evicts-shape p v)

module _ {W : Type 0} (gpu : Gpu W) where
  lower_outcome-Evicts :
      {s : State W} (v : ℕ) (k : Walk W) (m : Mod) (s2 : State W)
      → Evicts s s2
      → Evicts s (lower_watermark s2 v)
      → Evicts s (after (lower_outcome v k m s2)).state
  unfolding lower_outcome
  lower_outcome-Evicts v k writeback_failed s2 p q = p
  lower_outcome-Evicts v k retained s2 p q = q
  lower_outcome-Evicts v k freed s2 p q = q

  lower_round-Evicts :
      (v : ℕ) (k : Walk W)
      → v ∈ k.state.order
      → InRange k.state
      → Evicts k.state (after (lower_round gpu v k)).state
  unfolding lower_round
  lower_round-Evicts v k i h =
      let s = k.state in
      let test = not (k.needed == 0) && ltb (s.vbars v).watermark_limit (s.vbars v).watermark in
      elim (Bool-cases test) [
        | inr e ↦ rw e here
        | inl e ↦
            let p =
              round-Evicts gpu s (not (k.dirty || s.sync_paused)) v i (ground arith) (h v i) in
            rw e (lower_outcome-Evicts v k _ _ p.0 p.1)
      ]

  lower_loop-Evicts :
      {s : State W} (v : ℕ) (k : Walk W)
      → InRange s
      → v ∈ s.order
      → Evicts s k.state
      → Evicts s (lower_loop gpu v k).state
  unfolding lower_loop
  lower_loop-Evicts {s} v k h i p =
      rounds_keep (λ (k' : Walk W). Evicts s k'.state) (lower_round gpu v)
        (λ k' q.
          Evicts-trans q (lower_round-Evicts v k' (rw (Evicts-order q) i) (Evicts-InRange h q)))
        _ k p

  pub free_walk-Evicts :
      {s : State W} (preserved : Option ℕ) (b : Bool) (vs : List ℕ) (k : Walk W)
      → InRange s
      → ((v : ℕ) → v ∈ vs → v ∈ s.order)
      → Evicts s k.state
      → Evicts s (free_walk gpu preserved b vs k).state
  unfolding free_walk
  free_walk-Evicts preserved b [] k h i p = p
  free_walk-Evicts {s} preserved b (v ∷ vs) k h i p =
      let k1 = lower_loop gpu v k in
      let q = lower_loop-Evicts v k h (i v (ground arith)) p in
      let j : (a : ℕ) → a ∈ vs → a ∈ s.order = λ a m. i a (ground arith) in
      let skip = free_walk-Evicts preserved b vs k h j p in
      let walk = free_walk-Evicts preserved b vs k1 h j q in
      elim (Bool-cases (k.needed == 0)) [
        | inl e ↦ rw (e, free_walk) p
        | inr e ↦ elim (Bool-cases (is_skipped k.state preserved b v)) [
          | inl e2 ↦ rw (e, free_walk, e2) skip
          | inr e2 ↦ elim (Bool-cases k1.ok) [
            | inl e3 ↦ rw (e, free_walk, e2, e3) walk
            | inr e3 ↦ rw (e, free_walk, e2, e3) q
          ]
        ]
      ]

  -- Where every watermark is in its page table, a reclaim has made eviction steps only, whatever it
  -- returns: it releases only mapped pages without a pin, and lowers watermarks only above their
  -- limits.
  pub vbars_free_internal-Evicts :
      (s : State W) (size : ℤ) (preserved : Option ℕ) (b : Bool)
      → InRange s
      → Evicts s (vbars_free_internal gpu s size preserved b).1
  unfolding vbars_free_internal one_time_dirty
  vbars_free_internal-Evicts s size preserved b h =
      let k = free_walk gpu preserved b s.order (record {
        ok = true;
        needed = vbar_get_page_nr_up (pos_part size);
        dirty = false;
        state = one_time_dirty s;
      }) in
      let p = free_walk-Evicts preserved b s.order _ h (λ v i. i) (next here dirtied) in
      elim (Bool-cases (leb (pos_part size) 0)) [
        | inl e ↦ rw e here
        | inr e ↦ elim (Bool-cases (not k.ok)) [
          | inl e2 ↦ rw (e, e2) p
          | inr e2 ↦
              rw (e, e2)
                (Evicts-trans p (sync_if-Evicts gpu (k.dirty && not s.sync_paused) k.state))
        ]
      ]
