-- ===== src/TwoPhase/Reclaim.antt =====
-- Reclaim in batches, and the pressure that other threads ask for: `vbars_request_reclaim`,
-- `vbars_reclaim_at_owner_boundary` and the `vbars_free_*` and `vbar_free_*` loops of
-- src/model-vbar.c in the Windows XPU build.
pub mod Batches
pub mod Requests
pub mod Shortfall
use comfy_aimdo_xpu.Base.{
  ℕ, rounds, List, Bool, Option, true, Round, if◌then◌else◌, ◌==◌, false, not, stop, length, ◌&&◌,
  go, ◌-◌, ◌+◌, [], ◌∷◌, ◌||◌, ltb, none,
}
use comfy_aimdo_xpu.Gpu.{Gpu, check_cu}
use comfy_aimdo_xpu.TwoPhase.{XpuState, set_world}
use comfy_aimdo_xpu.TwoPhase.Candidates.{
  vbar_cancel_candidates, vbar_freeze_model_candidates, vbar_freeze_reference_candidates,
  vbar_freeze_retired_candidates, vbar_commit_candidates, Candidate,
}
use comfy_aimdo_xpu.Base.Int.{ℤ, pos_part, ltb_ℤ, pos}
use comfy_aimdo_xpu.Vbar.Pages.{vbar_get_page_nr_up}

-- VBAR_EVICTION_BATCH_PAGES
abbrev pub batch_pages : ℕ
batch_pages = 64

-- Where a loop stands: how many rounds it has done, `pages_needed`, the pages that it has freed, and
-- the state.
pub record Batch (W : Type 0) : Type 0 where
  pub round : ℕ
  pub needed : ℕ
  pub freed_total : ℕ
  pub state : XpuState W

module _ {W : Type 0} (gpu : Gpu W) where
  -- One round of the loops, which differ in what they freeze and in whether they synchronize. What the
  -- outside tells a scan may differ from round to round.
  unfoldable pub batch_round :
      (freeze : (round pages_needed : ℕ) → XpuState W → List Candidate × XpuState W)
      → (sync : Bool) → Batch W
      → Round (Batch W)
  unfolding vbar_cancel_candidates vbar_commit_candidates
  batch_round freeze sync k =
      let (candidates, s1) = freeze k.round k.needed k.state in
      let (synced, w) = gpu.ctx_synchronize s1.world in
      let s2 = if sync then set_world s1 w else s1 in
      let (freed?, t) = vbar_commit_candidates gpu candidates s2 in
      if k.needed == 0
      then stop k
      else if length candidates == 0
      then stop (record k { state = s1 })
      else if sync && not (check_cu synced)
      then stop (record k { state = vbar_cancel_candidates candidates s2 })
      else if freed? == 0
      then stop (record k { state = t })
      else go (record {
        round = k.round + 1;
        needed = k.needed - freed?;
        freed_total = k.freed_total + freed?;
        state = t;
      })

  -- Each round that goes on lowers `pages_needed`, which is fuel enough.
  unfoldable pub batch_loop :
      (freeze : (round pages_needed : ℕ) → XpuState W → List Candidate × XpuState W)
      → (sync : Bool) → (pages_needed : ℕ) → XpuState W
      → Batch W
  unfolding rounds batch_round
  batch_loop freeze sync pages_needed s =
      rounds pages_needed (batch_round freeze sync)
        (record { round = 0; needed = pages_needed; freed_total = 0; state = s })

  unfoldable pub vbars_free_synchronized_except :
      (size : ℤ) → (preserved : Option ℕ) → XpuState W → ℕ × XpuState W
  unfolding batch_loop vbar_freeze_reference_candidates
  vbars_free_synchronized_except size preserved s =
      let freeze : ℕ → ℕ → XpuState W → List Candidate × XpuState W =
        λ i n t. vbar_freeze_reference_candidates n preserved batch_pages t in
      let k = batch_loop freeze true (vbar_get_page_nr_up (pos_part size)) s in
      if pos_part size == 0 then (0, s) else (k.needed, k.state)

  unfoldable pub vbar_free_model_range_synchronized :
      (identity first last pages_needed : ℕ) → XpuState W → ℕ × XpuState W
  unfolding batch_loop vbar_freeze_model_candidates
  vbar_free_model_range_synchronized identity first last pages_needed s =
      let freeze : ℕ → ℕ → XpuState W → List Candidate × XpuState W =
        λ i n t. vbar_freeze_model_candidates identity first last n batch_pages t in
      let k = batch_loop freeze true pages_needed s in (k.freed_total, k.state)

  -- `async` is `vbar_async_reclaim_enabled()`, `completed` and `count` the snapshot of the queues, and
  -- `got_lock` what the try of the lock says in each round.
  unfoldable pub vbars_free_retired_except :
      (async : Bool)
      → (got_lock : (round : ℕ) → Bool) → (completed : ℕ → ℕ) → (count : ℕ) → (size : ℤ)
      → (preserved : Option ℕ) → XpuState W
      → ℕ × XpuState W
  unfolding batch_loop vbar_freeze_retired_candidates
  vbars_free_retired_except async got_lock completed count size preserved s =
      let freeze : ℕ → ℕ → XpuState W → List Candidate × XpuState W = λ i n t.
        vbar_freeze_retired_candidates (got_lock i) n completed count preserved batch_pages t in
      let needed = vbar_get_page_nr_up (pos_part size) in
      let k = batch_loop freeze false needed s in
      if pos_part size == 0 then (0, s) else if not async then (needed, s) else (k.needed, k.state)

-- `vbar_reclaim_requested` while threads publish pressure on it: what it holds, what this thread has
-- last read of it, and what other threads store into it before each of this thread's exchanges.
pub record Pressure : Type 0 where
  pub requested : ℕ
  pub current : ℕ
  pub others : List ℕ

abbrev pub store_first : (requested : ℕ) → List ℕ → ℕ
store_first requested [] = requested
store_first requested (stored ∷ rest) = stored

abbrev pub stores_after : List ℕ → List ℕ
stores_after [] = []
stores_after (stored ∷ rest) = rest

-- One round: `InterlockedCompareExchange64` after what the others have stored.
unfoldable pub request_round : (size : ℕ) → Pressure → Round Pressure
request_round size p =
    let observed = store_first p.requested p.others in
    if not (ltb p.current size)
    then stop p
    else if observed == p.current
    then stop (record { requested = size; current = p.current; others = stores_after p.others })
    else go (record { requested = observed; current = observed; others = stores_after p.others })

-- The exchange succeeds as soon as nobody stores between it and the last one.
unfoldable pub vbars_request_reclaim :
    (has_devctx : Bool) → (size : ℤ) → (requested : ℕ) → (others : List ℕ) → ℕ
unfolding rounds request_round
vbars_request_reclaim has_devctx size requested others =
    let p =
      rounds (length others + 1) (request_round (pos_part size))
        (record { requested = requested; current = requested; others = others }) in
    if not has_devctx || pos_part size == 0 then requested else p.requested

-- The pages that are missing, the pressure that is left, and the state.
unfoldable pub vbars_reclaim_at_owner_boundary :
    {W : Type 0}
    → Gpu W
    → (async : Bool) → (got_lock : (round : ℕ) → Bool) → (completed : ℕ → ℕ) → (count : ℕ)
    → (live_deficit : ℤ) → (requested : ℕ) → XpuState W
    → ℕ × ℕ × XpuState W
unfolding vbars_free_retired_except
vbars_reclaim_at_owner_boundary gpu async got_lock completed count live_deficit requested s =
    let deficit = if ltb_ℤ live_deficit (pos requested) then pos requested else live_deficit in
    let (left, t) = vbars_free_retired_except gpu async got_lock completed count deficit none s in
    if not async then (vbar_get_page_nr_up (pos_part live_deficit), requested, s) else (left, 0, t)
