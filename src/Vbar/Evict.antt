-- ===== src/Vbar/Evict.antt =====
-- How pages are taken back: one page, by `mod1` of src/model-vbar.c. Whole VBARs are
-- walked in `Reclaim` and `Surplus`.
pub mod Steps
pub mod Spares
pub mod Accounts
pub mod Single
pub mod Freed
use comfy_aimdo_xpu.Base.{
  ℕ, ◌-◌, ◌*◌, ◌%◌, ◌^◌, Bool, true, false, ◌&&◌, ◌||◌, none, some, ◌==◌, if◌then◌else◌, min,
  update,
}
use comfy_aimdo_xpu.Gpu.{Gpu, check_cu}
use comfy_aimdo_xpu.Devctx.{Page, Vbar, State, add64, sub64, set_vbar, page, set_page}
use comfy_aimdo_xpu.Vbar.Pages.{vbar_page_size, vbar_page_is_mapped}

-- What `mod1` returns: -1, 0 and 1.
pub data Mod : Type 0 where
  writeback_failed retained freed : Mod

-- The device address of a page.
abbrev pub page_address : Vbar → ℕ → ℕ
page_address mv page_nr = add64 mv.vbar ((page_nr * vbar_page_size) % 2 ^ 64)

abbrev pub can_free : Page → (do_free do_unpin : Bool) → Bool
can_free rp do_free do_unpin = do_free && vbar_page_is_mapped rp && (do_unpin || rp.pin_count == 0)

module _ {W : Type 0} where
  abbrev pub set_world : State W → W → State W
  set_world s w = record s { world = w }

  -- The handle of a page goes, and the counts with it.
  unfoldable pub release_page : State W → (v page_nr : ℕ) → State W
  release_page s v page_nr =
      let mv = s.vbars v in
      record s {
        total_vram_usage = sub64 s.total_vram_usage vbar_page_size;
        vbars = update s.vbars v (record mv {
          residency_map =
              update mv.residency_map page_nr (record (mv.residency_map page_nr) { handle = 0 });
          resident_count = sub64 mv.resident_count 1;
        });
      }

  unfoldable pub clear_pin : State W → (v page_nr : ℕ) → State W
  clear_pin s v page_nr = set_page s v page_nr (record (page s v page_nr) { pin_count = 0 })

  -- `i->watermark--`, which runs above 0 only
  unfoldable pub lower_watermark : State W → (v : ℕ) → State W
  lower_watermark s v = set_vbar s v (record (s.vbars v) { watermark = (s.vbars v).watermark - 1 })

  unfoldable pub one_time_dirty : State W → State W
  one_time_dirty s = record s { vbars_dirty = true }

module _ {W : Type 0} (gpu : Gpu W) where
  -- `CHECK_CU(cuCtxSynchronize())` where the result is not used
  unfoldable pub synchronize : State W → State W
  synchronize s = set_world s (gpu.ctx_synchronize s.world).1

  unfoldable pub sync_if : Bool → State W → State W
  unfolding synchronize
  sync_if b s = if b then synchronize s else s

  -- The writeback of a page that is about to go, where the owner asks for one.
  unfoldable pub write_back : State W → Vbar → (page_nr : ℕ) → Bool × State W
  write_back s mv page_nr =
      let offset = (page_nr * vbar_page_size) % 2 ^ 64 in
      let size = min vbar_page_size (sub64 mv.pageout_size offset) in
      let (synced, w1) = gpu.ctx_synchronize s.world in
      elim mv.pageout_callback [
        | none ↦ (true, s)
        | some callback ↦
            let (saved, w2) = gpu.pageout callback offset size w1 in
            if check_cu synced then (saved, set_world s w2) else (false, set_world s w1)
      ]

  unfoldable pub unmap_page : State W → (v page_nr : ℕ) → State W
  unfolding release_page
  unmap_page s v page_nr =
      let mv = s.vbars v in
      let w1 = (gpu.mem_unmap (page_address mv page_nr) vbar_page_size s.world).1 in
      let w2 = (gpu.mem_release (mv.residency_map page_nr).handle w1).1 in
      release_page (set_world s w2) v page_nr

  unfoldable pub mod1 : State W → (v page_nr : ℕ) → (do_free do_unpin : Bool) → Mod × State W
  unfolding write_back unmap_page clear_pin
  mod1 s v page_nr do_free do_unpin =
      let (saved, s1) = write_back s (s.vbars v) page_nr in
      let s2 = unmap_page s1 v page_nr in
      if can_free (page s v page_nr) do_free do_unpin
      then (if saved
          then (freed, if do_unpin then clear_pin s2 v page_nr else s2)
          else (writeback_failed, s1))
      else (retained, if do_unpin then clear_pin s v page_nr else s)
