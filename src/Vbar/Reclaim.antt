-- ===== src/Vbar/Reclaim.antt =====
-- Reclaim of a number of bytes, lowest priority first and from each watermark down:
-- `vbars_free_internal` of src/model-vbar.c and its callers.
pub mod Evicting
pub mod Progress
use comfy_aimdo_xpu.Base.{
  ℕ, ◌-◌, Bool, true, false, not, ◌&&◌, ◌||◌, Option, none, some, List, [], ◌∷◌, ltb, leb, ◌==◌,
  if◌then◌else◌, Round, rounds, stop, go,
}
use comfy_aimdo_xpu.Base.Int.{ℤ, pos_part}
use comfy_aimdo_xpu.Gpu.{Gpu}
use comfy_aimdo_xpu.Devctx.{State}
use comfy_aimdo_xpu.Vbar.Pages.{vbar_get_page_nr_up}
use comfy_aimdo_xpu.Vbar.Evict.{
  writeback_failed, retained, freed, mod1, lower_watermark, one_time_dirty, Mod, sync_if,
}

-- Where `vbars_free_internal` stands: whether no writeback failed, the pages that are still wanted,
-- and whether it has synchronized the device.
pub record Walk (W : Type 0) : Type 0 where
  pub ok : Bool
  pub needed : ℕ
  pub dirty : Bool
  pub state : State W

module _ {W : Type 0} where
  -- `i == preserved`, where `preserved` may be NULL, or a VBAR with a writeback that may not run
  abbrev pub is_skipped : State W → Option ℕ → (allow_pageout : Bool) → (v : ℕ) → Bool
  is_skipped s preserved allow_pageout v =
      elim preserved [ none ↦ false | some p ↦ v == p ]
      || (not allow_pageout && elim (s.vbars v).pageout_callback [ none ↦ false | some _ ↦ true ])

  -- The rest of a round, by what `mod1` returned.
  unfoldable pub lower_outcome : (v : ℕ) → Walk W → Mod → State W → Round (Walk W)
  lower_outcome v k writeback_failed s2 = stop (record k { ok = false; dirty = true; state = s2 })
  lower_outcome v k retained s2 = go (record k { dirty = true; state = lower_watermark s2 v })
  lower_outcome v k freed s2 =
      go (record k { needed = k.needed - 1; dirty = true; state = lower_watermark s2 v })

module _ {W : Type 0} (gpu : Gpu W) where
  -- One round of the inner loop on one VBAR.
  unfoldable pub lower_round : (v : ℕ) → Walk W → Round (Walk W)
  unfolding lower_outcome sync_if
  lower_round v k =
      let s = k.state in
      let mv = s.vbars v in
      let s1 = sync_if gpu (not (k.dirty || s.sync_paused)) s in
      let (freed?, s2) = mod1 gpu s1 v (mv.watermark - 1) true false in
      if not (k.needed == 0) && ltb mv.watermark_limit mv.watermark
      then lower_outcome v k freed? s2
      else stop k

  -- The inner loop. Each round lowers the watermark by one, so the watermark is fuel enough.
  unfoldable pub lower_loop : (v : ℕ) → Walk W → Walk W
  unfolding rounds lower_round
  lower_loop v k = rounds (k.state.vbars v).watermark (lower_round v) k

  -- The outer loop.
  unfoldable pub free_walk : Option ℕ → (allow_pageout : Bool) → List ℕ → Walk W → Walk W
  unfolding lower_loop
  free_walk preserved allow_pageout [] k = k
  free_walk preserved allow_pageout (v ∷ vs) k =
      let k1 = lower_loop v k in
      elim (k.needed == 0) [
        | true ↦ k
        | false ↦ elim (is_skipped k.state preserved allow_pageout v) [
          | true ↦ free_walk preserved allow_pageout vs k
          | false ↦ elim k1.ok [ true ↦ free_walk preserved allow_pageout vs k1 | false ↦ k1 ]
        ]
      ]

  unfoldable pub vbars_free_internal :
      State W → (size : ℤ) → (preserved : Option ℕ) → (allow_pageout : Bool) → Bool × State W
  unfolding free_walk one_time_dirty sync_if
  vbars_free_internal s size preserved allow_pageout =
      let k = free_walk preserved allow_pageout s.order (record {
        ok = true;
        needed = vbar_get_page_nr_up (pos_part size);
        dirty = false;
        state = one_time_dirty s;
      }) in
      if leb (pos_part size) 0
      then (true, s)
      else if not k.ok
      then (false, k.state)
      else (true, sync_if gpu (k.dirty && not s.sync_paused) k.state)

  abbrev pub vbars_free_except : State W → ℤ → (preserved : Option ℕ) → Bool × State W
  vbars_free_except s size preserved = vbars_free_internal s size preserved true

  abbrev pub vbars_free : State W → ℤ → Bool × State W
  vbars_free s size = vbars_free_except s size none

  -- As the allocator callbacks of the XPU build call it.
  abbrev pub vbars_free_for_allocator : State W → ℤ → Bool × State W
  vbars_free_for_allocator s size = vbars_free_internal s size none false
