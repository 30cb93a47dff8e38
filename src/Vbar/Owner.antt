-- ===== src/Vbar/Owner.antt =====
-- What a VBAR's owner does with its pages: `vbar_unpin_stream`, the watermark calls,
-- `vbar_free_memory` and the reports of src/model-vbar.c.
pub mod Unpinning
pub mod RoundTrip
pub mod Watermark
pub mod Memory
pub mod SetWatermark
use comfy_aimdo_xpu.Base.{
  ℕ, zero, suc, ◌+◌, ◌-◌, ◌*◌, ◌%◌, ◌^◌, Bool, true, false, not, ◌&&◌, Option, none, some, List, [],
  ◌∷◌, ltb, leb, ◌==◌, if◌then◌else◌, Round, rounds, stop, go, min,
}
use comfy_aimdo_xpu.Gpu.{Gpu}
use comfy_aimdo_xpu.Devctx.{Vbar, State, add64, set_vbar, page}
use comfy_aimdo_xpu.Devctx.Budget.{budget_deficit}
use comfy_aimdo_xpu.Vbar.Pages.{
  vbar_page_size, vbar_get_page_nr, vbar_get_page_nr_up, vbar_page_is_mapped,
}
use comfy_aimdo_xpu.Vbar.Invariant.{count_mapped}
use comfy_aimdo_xpu.Vbar.Evict.{
  Mod, writeback_failed, retained, freed, mod1, lower_watermark, one_time_dirty, sync_if,
  synchronize,
}
use comfy_aimdo_xpu.Vbar.Reclaim.{vbars_free_except}
use comfy_aimdo_xpu.Vbar.Fault.{unpin_pages}

-- The pages of a range of bytes that are in the page table: the first, and how many.
abbrev pub pages_of : Vbar → (offset size : ℕ) → ℕ × ℕ
pages_of mv offset size =
    let first = vbar_get_page_nr offset in
    (first, min (vbar_get_page_nr_up (add64 offset size)) mv.nr_pages - first)

module _ {W : Type 0} where
  unfoldable pub set_watermark : State W → (v watermark : ℕ) → State W
  set_watermark s v watermark = set_vbar s v (record (s.vbars v) { watermark = watermark })

  unfoldable pub vbar_set_watermark_limit : State W → (v size : ℕ) → State W
  vbar_set_watermark_limit s v size =
      set_vbar s v (record (s.vbars v) { watermark_limit = vbar_get_page_nr_up size })

  -- The loop of `vbars_reset_watermark_limits`.
  unfoldable pub reset_limits : List ℕ → State W → State W
  reset_limits [] s = s
  reset_limits (v ∷ vs) s =
      reset_limits vs (set_vbar s v (record (s.vbars v) { watermark_limit = 0 }))

  unfoldable pub vbars_reset_watermark_limits : State W → State W
  unfolding reset_limits
  vbars_reset_watermark_limits s = reset_limits s.order s

  -- What a loop over pages does after `mod1`, where `rest` is its further rounds.
  abbrev pub mod_outcome : Mod → State W → Bool × State W → Bool × State W
  mod_outcome writeback_failed s rest = (false, s)
  mod_outcome retained s rest = rest
  mod_outcome freed s rest = rest

  unfoldable pub vbar_loaded_size : State W → (v : ℕ) → ℕ
  vbar_loaded_size s v = ((s.vbars v).resident_count * vbar_page_size) % 2 ^ 64

  -- One entry of `vbar_get_residency`: bit 0 for memory, bit 1 for a pin.
  unfoldable pub residency_bits : State W → (v page_nr : ℕ) → ℕ
  residency_bits s v page_nr =
      let rp = page s v page_nr in
      (if vbar_page_is_mapped rp then 1 else 0) + (if rp.pin_count == 0 then 0 else 2)

  unfoldable pub residency_from : (count : ℕ) → State W → (v page_nr : ℕ) → List ℕ
  unfolding residency_bits
  residency_from zero s v page_nr = []
  residency_from (suc count) s v page_nr =
      residency_bits s v page_nr ∷ residency_from count s v (page_nr + 1)

  unfoldable pub vbar_get_residency : State W → (v max_pages : ℕ) → List ℕ
  unfolding residency_from
  vbar_get_residency s v max_pages = residency_from (min (s.vbars v).nr_pages max_pages) s v 0

  -- The loop of `vbars_analyze`, without its warnings.
  unfoldable pub analyze_from : State W → List ℕ → ℕ → ℕ
  analyze_from s [] total = total
  analyze_from s (v ∷ vs) total =
      let mv = s.vbars v in
      analyze_from s vs
        (add64 total ((count_mapped mv.residency_map mv.nr_pages * vbar_page_size) % 2 ^ 64))

  unfoldable pub vbars_analyze : State W → (only_dirty : Bool) → ℕ × State W
  unfolding analyze_from
  vbars_analyze s only_dirty =
      if only_dirty && not s.vbars_dirty
      then (0, s)
      else (analyze_from s s.order 0, record s { vbars_dirty = false })

module _ {W : Type 0} (gpu : Gpu W) where
  -- The loops that give `mod1` one page after another: those from `bound` on may go.
  unfoldable pub mod_pages : (count : ℕ) → State W → (v page_nr bound : ℕ) → Bool × State W
  mod_pages zero s v page_nr bound = (true, s)
  mod_pages (suc count) s v page_nr bound =
      let (freed?, s1) = mod1 gpu s v page_nr (leb bound page_nr) false in
      let rest = mod_pages count s1 v (page_nr + 1) bound in mod_outcome freed? s1 rest

  unfoldable pub vbar_set_watermark : State W → (v size : ℕ) → Bool × State W
  unfolding mod_pages one_time_dirty set_watermark synchronize
  vbar_set_watermark s v size =
      let mv = s.vbars v in
      let watermark = min (vbar_get_page_nr_up size) mv.nr_pages in
      let s1 = one_time_dirty s in
      let (ok?, s2) = mod_pages (mv.watermark - watermark) (synchronize gpu s1) v watermark 0 in
      if ltb watermark mv.watermark
      then (if ok? then (true, set_watermark s2 v watermark) else (false, s2))
      else (true, set_watermark s1 v watermark)

  unfoldable pub vbars_prepare_allocation : State W → (v size : ℕ) → State W
  vbars_prepare_allocation s v size =
      let (reclaim, s1) = budget_deficit gpu s size in (vbars_free_except gpu s1 reclaim (some v)).1

  -- `vbar_unpin` is this with stream 0, which the Linux build does not read.
  unfoldable pub vbar_unpin_stream : State W → (v offset size : ℕ) → Bool × State W
  unfolding mod_pages one_time_dirty sync_if unpin_pages
  vbar_unpin_stream s v offset size =
      let mv = s.vbars v in
      let above = ltb mv.watermark (vbar_get_page_nr_up (add64 offset size)) in
      let (first, count) = pages_of mv offset size in
      let s1 = unpin_pages count (sync_if gpu above (one_time_dirty s)) v first in
      let (ok?, s2) = mod_pages count s1 v first mv.watermark in
      if ok? then (true, sync_if gpu above s2) else (false, s2)

-- Where `vbar_free_memory` stands.
pub record Freeing (W : Type 0) : Type 0 where
  pub ok : Bool
  pub pages_to_free : ℕ
  pub pages_freed : ℕ
  pub state : State W

module _ {W : Type 0} where
  unfoldable pub freeing_outcome : (v : ℕ) → Freeing W → Mod → State W → Round (Freeing W)
  freeing_outcome v k writeback_failed s2 = stop (record k { ok = false; state = s2 })
  freeing_outcome v k retained s2 = go (record k { state = lower_watermark s2 v })
  freeing_outcome v k freed s2 = go (record k {
    pages_to_free = k.pages_to_free - 1;
    pages_freed = k.pages_freed + 1;
    state = lower_watermark s2 v;
  })

module _ {W : Type 0} (gpu : Gpu W) where
  unfoldable pub freeing_round : (v : ℕ) → Freeing W → Round (Freeing W)
  unfolding freeing_outcome
  freeing_round v k =
      let mv = k.state.vbars v in
      let (freed?, s2) = mod1 gpu k.state v (mv.watermark - 1) true false in
      if not (k.pages_to_free == 0) && ltb mv.watermark_limit mv.watermark
      then freeing_outcome v k freed? s2
      else stop k

  -- The bytes freed, or none after a failed writeback, where the source returns -1. Each round
  -- lowers the watermark by one, so the watermark is fuel enough.
  unfoldable pub vbar_free_memory : State W → (v size : ℕ) → Option ℕ × State W
  unfolding rounds freeing_round one_time_dirty synchronize
  vbar_free_memory s v size =
      let s1 = synchronize gpu (one_time_dirty s) in
      let k = rounds (s1.vbars v).watermark (freeing_round v) (record {
        ok = true;
        pages_to_free = vbar_get_page_nr_up size;
        pages_freed = 0;
        state = s1;
      }) in
      if k.ok
      then (some (k.pages_freed * vbar_page_size), synchronize gpu k.state)
      else (none, k.state)
