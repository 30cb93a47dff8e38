-- ===== src/Vbar/Lifecycle.antt =====
-- A VBAR's life, and its place among the others: `vbar_allocate`, `vbar_prioritize`,
-- `vbar_deprioritize` and `vbar_free` of src/model-vbar.c.
pub mod Listing
pub mod Priority
pub mod Birth
pub mod Death
use comfy_aimdo_xpu.Base.{
  ℕ, zero, suc, ◌+◌, ◌*◌, ◌/◌, ◌%◌, ◌^◌, Option, none, some, List, [], ◌∷◌, ◌++◌, ◌==◌,
  if◌then◌else◌, min, true,
}
use comfy_aimdo_xpu.Gpu.{Gpu, check_cu}
use comfy_aimdo_xpu.Devctx.{Page, State, set_vbar}
use comfy_aimdo_xpu.Vbar.Pages.{vbar_page_size, vbar_page_count, vbar_metadata_allocation_size}
use comfy_aimdo_xpu.Vbar.Evict.{mod1, one_time_dirty, synchronize, set_world}

-- The list of VBARs without one of them
abbrev pub without : ℕ → List ℕ → List ℕ
without v [] = []
without v (p ∷ ps) = let rest = without v ps in if p == v then rest else p ∷ rest

-- Zeroed memory
abbrev pub no_page : Page
no_page = record { handle = 0; pin_count = 0; serial = 0 }

module _ {W : Type 0} where
  abbrev pub remove_vbar : State W → (v : ℕ) → State W
  remove_vbar s v = record s { order = without v s.order }

  abbrev pub insert_vbar : State W → (v : ℕ) → State W
  insert_vbar s v = record s { order = s.order ++ (v ∷ []) }

  abbrev pub insert_vbar_last : State W → (v : ℕ) → State W
  insert_vbar_last s v = record s { order = v ∷ s.order }

  unfoldable pub vbar_prioritize : State W → (v clamp : ℕ) → State W
  unfolding one_time_dirty
  vbar_prioritize s v clamp =
      let s1 = one_time_dirty (record s { malloc_async_clamp = clamp }) in
      let s2 = insert_vbar (remove_vbar s1 v) v in
      set_vbar s2 v (record (s2.vbars v) { watermark = (s2.vbars v).nr_pages })

  unfoldable pub vbar_deprioritize : State W → (v : ℕ) → State W
  unfolding one_time_dirty
  vbar_deprioritize s v = insert_vbar_last (remove_vbar (one_time_dirty s) v) v

module _ {W : Type 0} (gpu : Gpu W) where
  -- The address range and the first state of a VBAR of `nr_pages` at the address `mv`.
  unfoldable pub reserve_vbar :
      State W → (mv nr_pages size device : ℕ) → (pageout_callback : Option ℕ) → ℕ × State W
  unfolding one_time_dirty
  reserve_vbar s mv nr_pages size device pageout_callback =
      let (err, base, w) = gpu.address_reserve ((nr_pages * vbar_page_size) % 2 ^ 64) s.world in
      let s1 = set_vbar (set_world s w) mv (record {
        vbar = base;
        nr_pages = nr_pages;
        watermark = nr_pages;
        watermark_limit = 0;
        device = device;
        resident_count = 0;
        pageout_size = size;
        pageout_callback = pageout_callback;
        residency_map = λ n. no_page;
      }) in
      if check_cu err then (mv, insert_vbar (one_time_dirty s1) mv) else (0, set_world s w)

  -- The address of the VBAR, or 0. The sizes of `ModelVBAR` and `ResidentPage` are the compiler's.
  unfoldable pub vbar_allocate :
      (sizeof_vbar sizeof_page : ℕ)
      → State W
      → (size device : ℕ) → (pageout_callback : Option ℕ) → ℕ × State W
  unfolding vbar_page_count vbar_metadata_allocation_size reserve_vbar
  vbar_allocate sizeof_vbar sizeof_page s size device pageout_callback =
      elim (vbar_page_count size) [
        | none ↦ (0, s)
        | some pages ↦
            let nr_pages = min (s.vram_capacity / vbar_page_size) pages in
            elim (vbar_metadata_allocation_size sizeof_vbar sizeof_page nr_pages) [
              | none ↦ (0, s)
              | some bytes ↦
                  let (mv, w) = gpu.calloc bytes s.world in
                  let reserved =
                    reserve_vbar (set_world s w) mv nr_pages size device pageout_callback in
                  if mv == 0 then (0, set_world s w) else reserved
            ]
      ]

  -- The loop of `vbar_free`, which discards pinned pages as well.
  unfoldable pub discard_pages : (count : ℕ) → State W → (v page_nr : ℕ) → State W
  discard_pages zero s v page_nr = s
  discard_pages (suc count) s v page_nr =
      discard_pages count (mod1 gpu s v page_nr true true).1 v (page_nr + 1)

  unfoldable pub vbar_free : State W → (v : ℕ) → State W
  unfolding discard_pages one_time_dirty synchronize
  vbar_free s v =
      let s1 = synchronize gpu (one_time_dirty s) in
      let s2 = set_vbar s1 v (record (s1.vbars v) { pageout_callback = none }) in
      let s3 = discard_pages (s2.vbars v).nr_pages s2 v 0 in
      let s4 = remove_vbar s3 v in
      let mv = s4.vbars v in
      let w = (gpu.address_free mv.vbar ((mv.nr_pages * vbar_page_size) % 2 ^ 64) s4.world).1 in
      synchronize gpu (set_world s4 w)
