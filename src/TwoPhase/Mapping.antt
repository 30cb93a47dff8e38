-- ===== src/TwoPhase/Mapping.antt =====
-- The memory of one page: `vbar_restore_page_mapping`, `vbar_map_new_page` and `mod1` of
-- src/model-vbar.c in the Windows XPU build, with what each leaves when the driver refuses.
pub mod Truthful
pub mod Reclaimed
pub mod Acquired
use comfy_aimdo_xpu.Base.{
  ℕ, ◌-◌, ◌*◌, ◌%◌, ◌^◌, Bool, true, false, not, ◌&&◌, ◌||◌, none, some, [], ◌==◌, if◌then◌else◌,
  min,
}
use comfy_aimdo_xpu.Gpu.{Gpu, CuResult, success, unknown, check_cu}
use comfy_aimdo_xpu.Devctx.{add64, sub64}
use comfy_aimdo_xpu.Retire.{XpuPage, XpuVbar, mapping_mapped, xpu_page_is_mapped, consumer_held}
use comfy_aimdo_xpu.TwoPhase.{XpuState, set_vbar, set_page, page, set_world}
use comfy_aimdo_xpu.Vbar.Pages.{vbar_page_size}
use comfy_aimdo_xpu.Vbar.Evict.{Mod, writeback_failed, retained, freed}

-- VBAR_MAPPING_UNMAPPED, VBAR_MAPPING_UNKNOWN
abbrev pub mapping_unmapped : ℕ
mapping_unmapped = 0

abbrev pub mapping_unknown : ℕ
mapping_unknown = 2

abbrev pub xpu_page_address : XpuVbar → ℕ → ℕ
xpu_page_address mv page_nr = add64 mv.vbar ((page_nr * vbar_page_size) % 2 ^ 64)

abbrev pub xpu_can_free : XpuVbar → XpuPage → (do_free do_unpin : Bool) → Bool
xpu_can_free mv rp do_free do_unpin =
    do_free
    && xpu_page_is_mapped rp
    && (mv.copy_holds == 0)
    && (do_unpin
        || ((rp.pin_count == 0)
            && not rp.evicting
            && not rp.retire_unknown
            && not (consumer_held rp)))

-- What `mod1` returned, against 0.
abbrev pub is_freed : Mod → Bool
is_freed freed = true
is_freed retained = false
is_freed writeback_failed = false

module _ {W : Type 0} where
  abbrev pub set_mapped : XpuState W → (v page_nr mapped : ℕ) → XpuState W
  set_mapped s v page_nr mapped =
      set_page s v page_nr (record (page s v page_nr) { mapped = mapped })

  abbrev pub set_unknown : XpuState W → (v page_nr : ℕ) → XpuState W
  set_unknown s v page_nr =
      set_page s v page_nr (record (page s v page_nr) { retire_unknown = true })

  abbrev pub set_handle : XpuState W → (v page_nr handle : ℕ) → XpuState W
  set_handle s v page_nr handle =
      set_page s v page_nr (record (page s v page_nr) { handle = handle })

  abbrev pub stop_evicting : XpuState W → (v page_nr : ℕ) → XpuState W
  stop_evicting s v page_nr = set_page s v page_nr (record (page s v page_nr) { evicting = false })

  abbrev pub count_resident : XpuState W → (v : ℕ) → XpuState W
  count_resident s v =
      set_vbar s v (record (s.vbars v) { resident_count = add64 (s.vbars v).resident_count 1 })

  abbrev pub charge_page : XpuState W → XpuState W
  charge_page s = record s { total_vram_usage = add64 s.total_vram_usage vbar_page_size }

  -- `if (mv->resident_count) mv->resident_count--`
  abbrev pub uncount_resident : XpuState W → (v : ℕ) → XpuState W
  uncount_resident s v =
      if (s.vbars v).resident_count == 0
      then s
      else set_vbar s v (record (s.vbars v) { resident_count = (s.vbars v).resident_count - 1 })

  -- A page whose memory is gone: `vbar_retire_reset` and the counts.
  unfoldable pub forget_page : XpuState W → (v page_nr : ℕ) → XpuState W
  forget_page s v page_nr =
      let s1 = record s { total_vram_usage = sub64 s.total_vram_usage vbar_page_size } in
      let s2 = set_page s1 v page_nr (record (page s1 v page_nr) {
        handle = 0;
        mapped = mapping_unmapped;
        evicting = false;
        retire_tokens = [];
        retire_unknown = false;
      }) in
      set_vbar s2 v (record (s2.vbars v) { resident_count = sub64 (s2.vbars v).resident_count 1 })

  unfoldable pub clear_xpu_pin : XpuState W → (v page_nr : ℕ) → XpuState W
  clear_xpu_pin s v page_nr = set_page s v page_nr (record (page s v page_nr) { pin_count = 0 })

module _ {W : Type 0} (gpu : Gpu W) where
  -- From the label of a mapping that could not be opened for access: the new state of the mapping.
  unfoldable pub close_mapping : XpuState W → (v page_nr : ℕ) → ℕ × XpuState W
  close_mapping s v page_nr =
      let (err, w) = gpu.mem_unmap (xpu_page_address (s.vbars v) page_nr) vbar_page_size s.world in
      let s1 = set_world s w in
      if check_cu err
      then (mapping_unmapped, set_mapped s1 v page_nr mapping_unmapped)
      else (mapping_unknown, set_unknown s1 v page_nr)

  unfoldable pub vbar_restore_page_mapping :
      XpuState W → (v page_nr : ℕ) → (restore_resident_count : Bool) → ℕ × XpuState W
  unfolding close_mapping
  vbar_restore_page_mapping s v page_nr restore_resident_count =
      let mv = s.vbars v in
      let rp = page s v page_nr in
      let vaddr = xpu_page_address mv page_nr in
      let (mapped, w1) = gpu.mem_map vaddr vbar_page_size rp.handle s.world in
      let (opened, w2) = gpu.mem_set_access vaddr vbar_page_size mv.device w1 in
      let s2 = set_mapped (set_world s w2) v page_nr mapping_unknown in
      let s3 = set_mapped s2 v page_nr mapping_mapped in
      if rp.handle == 0
      then (mapping_unmapped, s)
      else if not (check_cu mapped)
      then (mapping_unmapped, set_mapped (set_world s w1) v page_nr mapping_unmapped)
      else if not (check_cu opened)
      then close_mapping s2 v page_nr
      else (mapping_mapped, if restore_resident_count then count_resident s3 v else s3)

  -- The physical memory goes back; if the driver refuses, the page owns it on, and it is charged.
  unfoldable pub release_new : XpuState W → (v page_nr : ℕ) → XpuState W
  release_new s v page_nr =
      let (err, w) = gpu.mem_release (page s v page_nr).handle s.world in
      let s1 = set_world s w in if check_cu err then set_handle s1 v page_nr 0 else charge_page s1

  -- The page that has no handle gets one.
  unfoldable pub map_absent_page : XpuState W → (v page_nr : ℕ) → CuResult × XpuState W
  unfolding release_new close_mapping
  map_absent_page s v page_nr =
      let mv = s.vbars v in
      let vaddr = xpu_page_address mv page_nr in
      let (created, handle, w1) = gpu.mem_create vbar_page_size mv.device s.world in
      let s1 = set_handle (set_world s w1) v page_nr handle in
      let (mapped, w2) = gpu.mem_map vaddr vbar_page_size handle w1 in
      let (opened, w3) = gpu.mem_set_access vaddr vbar_page_size mv.device w2 in
      let s3 = set_mapped (set_world s1 w3) v page_nr mapping_unknown in
      let (closed, s4) = close_mapping s3 v page_nr in
      if not (check_cu created)
      then (created, set_world s w1)
      else if not (check_cu mapped)
      then (mapped, release_new (set_world s1 w2) v page_nr)
      else if not (check_cu opened)
      then (opened, if closed == mapping_unmapped then release_new s4 v page_nr else charge_page s4)
      else (success, charge_page (set_mapped s3 v page_nr mapping_mapped))

  unfoldable pub vbar_map_new_page : XpuState W → (v page_nr : ℕ) → CuResult × XpuState W
  unfolding vbar_restore_page_mapping map_absent_page
  vbar_map_new_page s v page_nr =
      let rp = page s v page_nr in
      let (restored, s1) = vbar_restore_page_mapping s v page_nr false in
      if rp.handle == 0
      then map_absent_page s v page_nr
      else if rp.mapped == mapping_unknown
      then (unknown, s)
      else (if restored == mapping_mapped then success else unknown, s1)

  unfoldable pub xpu_write_back : XpuState W → XpuVbar → (page_nr : ℕ) → Bool × XpuState W
  xpu_write_back s mv page_nr =
      let offset = (page_nr * vbar_page_size) % 2 ^ 64 in
      let size = min vbar_page_size (sub64 mv.pageout_size offset) in
      let (synced, w1) = gpu.ctx_synchronize s.world in
      elim mv.pageout_callback [
        | none ↦ (true, s)
        | some callback ↦
            let (saved, w2) = gpu.pageout callback offset size w1 in
            if check_cu synced then (saved, set_world s w2) else (false, set_world s w1)
      ]

  -- The physical memory of an unmapped page could not be released: the old mapping comes back, or
  -- the page is kept unmapped.
  unfoldable pub keep_unreleased : XpuState W → (v page_nr : ℕ) → XpuState W
  unfolding vbar_restore_page_mapping
  keep_unreleased s v page_nr =
      let (restored, s1) = vbar_restore_page_mapping s v page_nr false in
      stop_evicting
        (if restored == mapping_mapped then s1 else uncount_resident (set_unknown s1 v page_nr) v) v
        page_nr

  -- `mod1` once it frees: whether it has, and the state.
  unfoldable pub take_page : XpuState W → (v page_nr : ℕ) → Bool × XpuState W
  unfolding keep_unreleased forget_page
  take_page s v page_nr =
      let (unmapped, w1) =
        gpu.mem_unmap (xpu_page_address (s.vbars v) page_nr) vbar_page_size s.world in
      let s1 = set_mapped (set_world s w1) v page_nr mapping_unmapped in
      let (released, w2) = gpu.mem_release (page s v page_nr).handle w1 in
      let s2 = set_world s1 w2 in
      if not (check_cu unmapped)
      then (false, stop_evicting (set_world s w1) v page_nr)
      else if not (check_cu released)
      then (false, keep_unreleased s2 v page_nr)
      else (true, forget_page s2 v page_nr)

  unfoldable pub xpu_mod1 :
      XpuState W → (v page_nr : ℕ) → (do_free do_unpin : Bool) → Mod × XpuState W
  unfolding xpu_write_back take_page clear_xpu_pin
  xpu_mod1 s v page_nr do_free do_unpin =
      let (saved, s1) = xpu_write_back s (s.vbars v) page_nr in
      let (taken, s2) = take_page s1 v page_nr in
      if not (xpu_can_free (s.vbars v) (page s v page_nr) do_free do_unpin)
      then (retained, if do_unpin then clear_xpu_pin s v page_nr else s)
      else if not saved
      then (writeback_failed, s1)
      else if taken
      then (freed, if do_unpin then clear_xpu_pin s2 v page_nr else s2)
      else (retained, s2)
