-- ===== src/Vbar/Fault.antt =====
-- Bringing in the pages of a weight, and pinning them: `vbar_fault_locked` and `vbar_unpin_range` of
-- src/model-vbar.c in the Linux CUDA build, where the state lock is empty.
pub mod Pins
pub mod Contract
pub mod Run
pub mod Calls
pub mod NewPage
pub mod Live
use comfy_aimdo_xpu.Base.{
  ℕ, zero, suc, ◌+◌, ◌-◌, ◌*◌, ◌%◌, ◌^◌, Bool, true, false, not, Option, none, some, List, [], ◌∷◌,
  ◌++◌, ltb, ◌==◌, if◌then◌else◌, update, Round, stop, go, rounds,
}
use comfy_aimdo_xpu.Base.Int.{ℤ, pos, ◌+ℤ◌, ◌-ℤ◌, ltb_ℤ, signed64}
use comfy_aimdo_xpu.Gpu.{Gpu, CuResult, out_of_memory, check_cu}
use comfy_aimdo_xpu.Devctx.{State, add64, incr32, set_vbar, page, set_page}
use comfy_aimdo_xpu.Devctx.Budget.{budget_deficit, three_stooges}
use comfy_aimdo_xpu.Vbar.Pages.{vbar_page_size, vbar_page_is_mapped, vbar_fault_page_range}
use comfy_aimdo_xpu.Vbar.Evict.{page_address, one_time_dirty}
use comfy_aimdo_xpu.Vbar.Reclaim.{vbars_free}
use comfy_aimdo_xpu.Vbar.Surplus.{vbars_free_for_vbar}

-- VBAR_FAULT_SUCCESS, VBAR_FAULT_OOM, VBAR_FAULT_ERROR
abbrev pub fault_success : ℕ
fault_success = 0

abbrev pub fault_oom : ℕ
fault_oom = 1

abbrev pub fault_error : ℕ
fault_error = 2

-- Where the loop over the pages stands. `result` is set when it gives up.
pub record Faulting (W : Type 0) : Type 0 where
  pub page_nr : ℕ
  pub miss_alloc_checked : Bool
  pub signature : List ℕ
  pub result : Option ℕ
  pub state : State W

module _ {W : Type 0} where
  unfoldable pub pin_page : State W → (v page_nr : ℕ) → State W
  pin_page s v page_nr =
      let rp = page s v page_nr in
      set_page s v page_nr (record rp { pin_count = incr32 rp.pin_count })

  unfoldable pub unpin_page : State W → (v page_nr : ℕ) → State W
  unpin_page s v page_nr =
      let rp = page s v page_nr in
      if rp.pin_count == 0
      then s
      else set_page s v page_nr (record rp { pin_count = rp.pin_count - 1 })

  unfoldable pub unpin_pages : ℕ → State W → (v page_nr : ℕ) → State W
  unfolding unpin_page
  unpin_pages zero s v page_nr = s
  unpin_pages (suc count) s v page_nr = unpin_pages count (unpin_page s v page_nr) v (page_nr + 1)

  unfoldable pub vbar_unpin_range : State W → (v first last : ℕ) → State W
  unfolding unpin_pages
  vbar_unpin_range s v first last = unpin_pages (last - first) s v first

  unfoldable pub give_up : (v start : ℕ) → Faulting W → ℕ → State W → Round (Faulting W)
  unfolding vbar_unpin_range
  give_up v start k code s =
      stop (record k { result = some code; state = vbar_unpin_range s v start k.page_nr })

  -- The page is mapped: pin it, and report its serial, cut to 32 bits.
  unfoldable pub pinned : (v : ℕ) → Faulting W → State W → Round (Faulting W)
  unfolding pin_page
  pinned v k s = go (record k {
    page_nr = k.page_nr + 1;
    signature = k.signature ++ ((page s v k.page_nr).serial % 2 ^ 32 ∷ []);
    state = pin_page s v k.page_nr;
  })

  -- The page has just been mapped.
  unfoldable pub count_new_page : State W → (v page_nr : ℕ) → State W
  count_new_page s v page_nr =
      let mv = s.vbars v in
      let rp = mv.residency_map page_nr in
      set_vbar s v (record mv {
        residency_map = update mv.residency_map page_nr (record rp { serial = add64 rp.serial 1 });
        resident_count = add64 mv.resident_count 1;
      })

  -- The capacity that the pages still to come would leave.
  unfoldable pub surplus_for : State W → (page_nr page_end : ℕ) → ℤ
  surplus_for s page_nr page_end =
      signed64 s.vram_capacity
      -ℤ (signed64 (add64 s.total_vram_usage (((page_end - page_nr) * vbar_page_size) % 2 ^ 64))
          +ℤ s.simple_vram_headroom)

module _ {W : Type 0} (gpu : Gpu W) where
  -- `three_stooges` on a page, which writes its handle on success.
  unfoldable pub map_page : State W → (v page_nr : ℕ) → CuResult × State W
  unfolding three_stooges
  map_page s v page_nr =
      let mv = s.vbars v in
      let rp = mv.residency_map page_nr in
      let (err, handle, s1) =
        three_stooges gpu s (page_address mv page_nr) vbar_page_size mv.device rp.handle in
      (
        err,
        if check_cu err
            then set_page s1 v page_nr (record (page s1 v page_nr) { handle = handle })
            else s1,
      )

  -- The second attempt, after a reclaim of the deficit or of a page.
  unfoldable pub retry_page : (v start page_end : ℕ) → ℤ → Faulting W → Round (Faulting W)
  unfolding give_up pinned count_new_page map_page
  retry_page v start page_end deficit k =
      let n = k.page_nr in
      let size = if ltb_ℤ (pos vbar_page_size) deficit then deficit else pos vbar_page_size in
      let (ok?, s1) = vbars_free gpu k.state size in
      let (err, s2) = map_page s1 v n in
      if not ok?
      then give_up v start k fault_error s1
      else if ltb (s1.vbars v).watermark page_end
      then give_up v start k fault_oom s1
      else if check_cu err
      then pinned v k (count_new_page s2 v n)
      else give_up v start k fault_error s2

  -- The first attempt, if the budget allows one.
  unfoldable pub allocate_page : (v start page_end : ℕ) → Faulting W → Round (Faulting W)
  unfolding retry_page
  allocate_page v start page_end k =
      let n = k.page_nr in
      let (deficit, s1) = budget_deficit gpu k.state vbar_page_size in
      let (err, s2) = map_page s1 v n in
      if ltb_ℤ (pos 0) deficit
      then retry_page v start page_end deficit (record k { state = s1 })
      else if check_cu err
      then pinned v k (count_new_page s2 v n)
      else if not (err == out_of_memory)
      then give_up v start k fault_error s2
      else retry_page v start page_end deficit (record k { state = s2 })

  -- The reclaim before the first page that has to be allocated.
  unfoldable pub check_miss : (v start page_end : ℕ) → Faulting W → Round (Faulting W)
  unfolding allocate_page surplus_for
  check_miss v start page_end k =
      let s = k.state in
      let (ok?, s1) = vbars_free_for_vbar gpu s v page_end (surplus_for s k.page_nr page_end) in
      if k.miss_alloc_checked
      then allocate_page v start page_end k
      else if not ok?
      then give_up v start k fault_error s1
      else if ltb (s1.vbars v).watermark page_end
      then give_up v start k fault_oom s1
      else allocate_page v start page_end (record k { miss_alloc_checked = true; state = s1 })

  unfoldable pub fault_round : (v start page_end : ℕ) → Faulting W → Round (Faulting W)
  unfolding check_miss
  fault_round v start page_end k =
      if not (ltb k.page_nr page_end)
      then stop k
      else if vbar_page_is_mapped (page k.state v k.page_nr)
      then pinned v k k.state
      else check_miss v start page_end k

  unfoldable pub fault_pages : (v start page_end : ℕ) → State W → Faulting W
  unfolding rounds fault_round
  fault_pages v start page_end s =
      rounds (page_end - start) (fault_round v start page_end) (record {
        page_nr = start;
        miss_alloc_checked = false;
        signature = [];
        result = none;
        state = s;
      })

  -- The code, the signature as far as it is written, and the state.
  unfoldable pub vbar_fault : State W → (v offset size : ℕ) → ℕ × List ℕ × State W
  unfolding fault_pages one_time_dirty
  vbar_fault s v offset size = elim (vbar_fault_page_range (s.vbars v) offset size) [
    | none ↦ (fault_oom, [], s)
    | some (page_start, page_end) ↦
        let (deficit, s1) = budget_deficit gpu (one_time_dirty s) 0 in
        let (ok?, s2) = vbars_free gpu s1 deficit in
        let k = fault_pages v page_start page_end s2 in
        if not ok?
        then (fault_error, [], s2)
        else if ltb (s2.vbars v).watermark page_end
        then (fault_oom, [], s2)
        else (elim k.result [ none ↦ fault_success | some code ↦ code ], k.signature, k.state)
  ]
