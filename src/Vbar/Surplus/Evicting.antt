-- ===== src/Vbar/Surplus/Evicting.antt =====
-- `vbars_free_for_vbar` of src/model-vbar.c as a sequence of eviction steps.
use comfy_aimdo_xpu.Base.{
  ℕ, not, ◌&&◌, ◌||◌, arith, inl, inr, Bool-cases, ◌∈◌, ltb, ◌==◌, after, rounds_keep, List, true,
  ◌∷◌, false, [], ◌-◌,
}
use comfy_aimdo_xpu.Gpu.{Gpu}
use comfy_aimdo_xpu.Devctx.{State, page}
use comfy_aimdo_xpu.Vbar.Evict.{Mod, lower_watermark, writeback_failed, retained, freed}
use comfy_aimdo_xpu.Vbar.Evict.Steps.{Evicts, here, Evicts-trans}
use comfy_aimdo_xpu.Vbar.Evict.Spares.{Evicts-order}
use comfy_aimdo_xpu.Vbar.Evict.Single.{round-Evicts, sync_if-Evicts}
use comfy_aimdo_xpu.Vbar.Reclaim.Evicting.{InRange, Evicts-InRange}
use comfy_aimdo_xpu.Vbar.Surplus.{
  Search, search_outcome, search_round, search_loop, search_walk, vbars_free_for_vbar,
  spend_surplus_on_cursor, move_cursor_to_absent, is_short, ℤ, vbar_page_is_mapped,
}

module _ {W : Type 0} (gpu : Gpu W) where
  search_outcome-Evicts :
      {s : State W} (mv target i : ℕ) (k : Search W) (m : Mod) (s2 : State W)
      → Evicts s s2
      → Evicts s (lower_watermark s2 i)
      → Evicts s (after (search_outcome mv target i k m s2)).state
  unfolding search_outcome
  search_outcome-Evicts mv target i k writeback_failed s2 p q = p
  search_outcome-Evicts mv target i k retained s2 p q = q
  search_outcome-Evicts mv target i k freed s2 p q = q

  search_round-Evicts :
      (mv target i : ℕ) (k : Search W)
      → i ∈ k.state.order
      → InRange k.state
      → Evicts k.state (after (search_round gpu mv target i k)).state
  unfolding search_round
  search_round-Evicts mv target i k m h =
      let s = k.state in
      let rp = page s i ((s.vbars i).watermark - 1) in
      let syncs = not k.synced && vbar_page_is_mapped rp && rp.pin_count == 0 in
      let test =
        is_short (s.vbars mv) target k.cursor k.surplus
        && ltb (s.vbars i).watermark_limit (s.vbars i).watermark in
      elim (Bool-cases test) [
        | inr e ↦ rw e here
        | inl e ↦
            let p = round-Evicts gpu s syncs i m (ground arith) (h i m) in
            rw e (
              search_outcome-Evicts mv target i (record k { synced = k.synced || syncs }) _ _ p.0
                p.1)
      ]

  pub search_loop-Evicts :
      {s : State W} (mv target i : ℕ) (k : Search W)
      → InRange s
      → i ∈ s.order
      → Evicts s k.state
      → Evicts s (search_loop gpu mv target i k).state
  unfolding search_loop
  search_loop-Evicts {s} mv target i k h m p =
      rounds_keep (λ (k' : Search W). Evicts s k'.state) (search_round gpu mv target i)
        (λ k' q.
          Evicts-trans q
            (search_round-Evicts mv target i k' (rw (Evicts-order q) m) (Evicts-InRange h q)))
        _ k p

  pub search_walk-Evicts :
      {s : State W} (mv target : ℕ) (vs : List ℕ) (k : Search W)
      → InRange s
      → ((v : ℕ) → v ∈ vs → v ∈ s.order)
      → Evicts s k.state
      → Evicts s (search_walk gpu mv target vs k).state
  unfolding search_walk
  search_walk-Evicts mv target [] k h i p = p
  search_walk-Evicts {s} mv target (v ∷ vs) k h i p =
      let k1 = search_loop gpu mv target v k in
      let q = search_loop-Evicts mv target v k h (i v (ground arith)) p in
      let j : (a : ℕ) → a ∈ vs → a ∈ s.order = λ a m. i a (ground arith) in
      let walk = search_walk-Evicts mv target vs k1 h j q in
      elim (Bool-cases (is_short (k.state.vbars mv) target k.cursor k.surplus)) [
        | inr e ↦ rw (e, search_walk) p
        | inl e ↦ elim (Bool-cases k1.ok) [
          | inl e2 ↦ rw (e, search_walk, e2) walk
          | inr e2 ↦ rw (e, search_walk, e2) q
        ]
      ]

  -- Where every watermark is in its page table, a reclaim for one VBAR has made eviction steps
  -- only, whatever it returns.
  pub vbars_free_for_vbar-Evicts :
      (s : State W) (mv target : ℕ) (surplus : ℤ)
      → InRange s
      → Evicts s (vbars_free_for_vbar gpu s mv target surplus).1
  unfolding vbars_free_for_vbar
  vbars_free_for_vbar-Evicts s mv target surplus h =
      let start =
        spend_surplus_on_cursor (s.vbars mv) target (move_cursor_to_absent (s.vbars mv) 0)
          surplus in
      let k =
        search_walk gpu mv target s.order
          (record { ok = true; cursor = start.0; surplus = start.1; synced = false; state = s }) in
      let p = search_walk-Evicts mv target s.order _ h (λ v i. i) here in
      elim (Bool-cases (not k.ok)) [
        | inl e ↦ rw e p
        | inr e ↦ rw e (Evicts-trans p (sync_if-Evicts gpu k.synced k.state))
      ]
