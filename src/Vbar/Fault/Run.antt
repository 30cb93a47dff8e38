-- ===== src/Vbar/Fault/Run.antt =====
-- The loop of `vbar_fault_locked` of src/model-vbar.c.
use comfy_aimdo_xpu.Base.{
  ℕ, ◌+◌, ◌-◌, ◌≡◌, ◌≢◌, ◌≤◌, ◌<◌, ◌^◌, ◌⊎◌, inl, inr, refl, arith, some, none, Ends, Round,
  if◌then◌else◌, ==-ne, true, Bool-cases, not, ltb, ltb→le, subst, rounds_end, ltb→lt, if_both,
  ◌==◌,
}
use comfy_aimdo_xpu.Gpu.{Gpu, GivesHandles, check_cu, out_of_memory}
use comfy_aimdo_xpu.Devctx.{State, page}
use comfy_aimdo_xpu.Vbar.Fault.{
  Faulting, give_up, pinned, map_page, count_new_page, retry_page, allocate_page, ℤ, budget_deficit,
  ltb_ℤ, vbar_page_size, pos, vbars_free, fault_error, fault_oom, check_miss, fault_round,
  fault_pages, surplus_for, vbar_page_is_mapped, vbars_free_for_vbar,
}
use comfy_aimdo_xpu.Vbar.Fault.Live.{Live, Live-pin_page, Live-new_page, Live-Evicts}
use comfy_aimdo_xpu.Vbar.Fault.Pins.{
  SamePins, Pinned, SamePins-vbar_unpin_range, Inv-vbar_unpin_range, Pinned-same, SamePins-Evicts,
}
use comfy_aimdo_xpu.Vbar.Invariant.{Inv}
use comfy_aimdo_xpu.Vbar.Evict.{set_world}
use comfy_aimdo_xpu.Vbar.Fault.Calls.{
  map_page_cases, budget_deficit-Evicts, budget_deficit-watermark,
}
use comfy_aimdo_xpu.Vbar.Fault.NewPage.{new_page, new_page-handle_self}
use comfy_aimdo_xpu.Vbar.Evict.Steps.{Evicts, next, here, outside}
use comfy_aimdo_xpu.Vbar.Reclaim.Evicting.{InRange, vbars_free_internal-Evicts}
use comfy_aimdo_xpu.Vbar.Evict.Spares.{Evicts-handle}
use comfy_aimdo_xpu.Vbar.Evict.Accounts.{Evicts-Inv}
use comfy_aimdo_xpu.Vbar.Surplus.Evicting.{vbars_free_for_vbar-Evicts}

module _ {W : Type 0} (gpu : Gpu W) (gives : GivesHandles gpu) (other : ℕ) (s0 : State W)
    (v start end : ℕ) where
  -- While the loop goes on.
  record Going (k : Faulting W) : Type 0 where
    going : k.result ≡ none
    live : Live other s0 v start end k.page_nr k.state

  -- After it has given up.
  pub record GaveUp (k : Faulting W) : Type 0 where
    pub code : (c : ℕ) × (k.result ≡ some c) × (c ≢ 0)
    pub pins : SamePins s0 k.state
    pub inv : Inv other k.state

  pub record Complete (k : Faulting W) : Type 0 where
    pub result : k.result ≡ none
    pub live : Live other s0 v start end end k.state

  abbrev pub Ended : Faulting W → Type 0
  Ended k = Complete k ⊎ GaveUp k

  abbrev Goes : ℕ → Round (Faulting W) → Type 0
  Goes n = Ends (λ t. Going t × (end - t.page_nr < end - n)) Ended

  -- No pin counter of the range is at its maximum.
  abbrev pub Pinnable : Type 0
  Pinnable = (m : ℕ) → (page s0 v m).pin_count + 1 < 2 ^ 32

  give_up-Goes :
      (k : Faulting W) (code : ℕ) (s : State W)
      → code ≢ 0
      → start ≤ k.page_nr
      → Pinned s0 s v start k.page_nr
      → Inv other s
      → Goes k.page_nr (give_up v start k code s)
  unfolding give_up
  give_up-Goes k code s nz l h i = inr (record {
    code = (code, refl, nz);
    pins = SamePins-vbar_unpin_range v start k.page_nr l h;
    inv = Inv-vbar_unpin_range other s v start k.page_nr i;
  })

  pinned-Goes :
      (k : Faulting W) (s : State W)
      → Pinnable
      → k.result ≡ none
      → Live other s0 v start end k.page_nr s
      → k.page_nr < end
      → (page s v k.page_nr).handle ≢ 0
      → Goes k.page_nr (pinned v k s)
  unfolding pinned
  pinned-Goes k s b r l h m =
      (record { going = r; live = Live-pin_page l h m (b k.page_nr) }, omega arith)

  -- A mapping that is used: the new page is pinned, or the code that follows a failure runs from a
  -- state that a reclaim could have left.
  mapped-Goes :
      (k : Faulting W) (s : State W) (rest : State W → Round (Faulting W))
      → Pinnable
      → k.result ≡ none
      → Live other s0 v start end k.page_nr s
      → k.page_nr < end
      → (page s v k.page_nr).handle ≡ 0
      → ((w : W) → Goes k.page_nr (rest (set_world s w)))
      → let (err, s') = map_page gpu s v k.page_nr in
        Goes k.page_nr
          (if check_cu err then pinned v k (count_new_page s' v k.page_nr) else rest s')
  mapped-Goes k s rest b r l h z f =
      let n = k.page_nr in
      let (w, c) = map_page_cases gpu gives s v n in
      elim c [
        | inl (hd, e, nz, eq) ↦
            rw (e, eq)
              (pinned-Goes k (new_page s v n hd w) b r (Live-new_page hd w l h z nz) h
                (rw (new_page-handle_self s v n hd w) nz))
        | inr (ne, eq) ↦ rw (==-ne _ _ ne, eq) (f w)
      ]

  -- A fault gives up in a state that a reclaim has left.
  give_up_after :
      (k : Faulting W) (code : ℕ) {s t : State W}
      → code ≢ 0
      → Live other s0 v start end k.page_nr s
      → Evicts s t
      → Goes k.page_nr (give_up v start k code t)
  give_up_after k code {s} {t} nz l p =
      give_up-Goes k code t nz l.started (Pinned-same v start k.page_nr l.taken (SamePins-Evicts p))
        (Evicts-Inv other l.inv p)

  -- A page that has no memory has none after a reclaim.
  absent_after :
      {s t : State W} (n : ℕ) → Evicts s t → (page s v n).handle ≡ 0 → (page t v n).handle ≡ 0
  absent_after n p z = ground (arith, Evicts-handle p v n)

  in_range : {n : ℕ} {s : State W} → Live other s0 v start end n s → InRange s
  in_range l u i = (l.inv.valid u i).within

  retry_page-Goes :
      (deficit : ℤ) (k : Faulting W)
      → Pinnable
      → Going k
      → k.page_nr < end
      → (page k.state v k.page_nr).handle ≡ 0
      → Goes k.page_nr (retry_page gpu v start end deficit k)
  unfolding retry_page
  retry_page-Goes deficit k b g h z =
      let n = k.page_nr in
      let l = g.live in
      let size = if ltb_ℤ (pos vbar_page_size) deficit then deficit else pos vbar_page_size in
      let (ok?, s1) = vbars_free gpu k.state size in
      let p = vbars_free_internal-Evicts gpu k.state size none true (in_range l) in
      elim (Bool-cases (not ok?)) [
        | inl e ↦ rw e (give_up_after k fault_error (λ x. omega arith) l p)
        | inr e ↦ elim (Bool-cases (ltb (s1.vbars v).watermark end)) [
          | inl e2 ↦ rw (e, e2) (give_up_after k fault_oom (λ x. omega arith) l p)
          | inr e2 ↦
              let l1 = Live-Evicts l p (ltb→le _ _ e2) in
              rw (e, e2)
                (mapped-Goes k s1 (give_up v start k fault_error) b g.going l1 h
                  (absent_after n p z)
                  (λ w. give_up_after k fault_error (λ x. omega arith) l1 (next here (outside w))))
        ]
      ]

  allocate_page-Goes :
      (k : Faulting W)
      → Pinnable
      → Going k
      → k.page_nr < end
      → (page k.state v k.page_nr).handle ≡ 0
      → Goes k.page_nr (allocate_page gpu v start end k)
  unfolding allocate_page
  allocate_page-Goes k b g h z =
      let n = k.page_nr in
      let l = g.live in
      let (deficit, s1) = budget_deficit gpu k.state vbar_page_size in
      let p = budget_deficit-Evicts gpu k.state vbar_page_size in
      let (err, s2) = map_page gpu s1 v n in
      let l1 : Live other s0 v start end n s1 =
        Live-Evicts l p
          (rw (budget_deficit-watermark gpu gives k.state vbar_page_size v) l.below) in
      let again : (s : State W)
          → Evicts s1 s
          → Live other s0 v start end n s
          → Goes n (retry_page gpu v start end deficit (record k { state = s })) =
        λ s q ls.
          retry_page-Goes deficit (record k { state = s }) b (record { going = g.going; live = ls })
            h (absent_after n q (absent_after n p z)) in
      elim (Bool-cases (ltb_ℤ (pos 0) deficit)) [
        | inl e ↦ rw e (again s1 here l1)
        | inr e ↦
            let stopped = λ (s : State W). give_up v start k fault_error s in
            let retried =
              λ (s : State W). retry_page gpu v start end deficit (record k { state = s }) in
            rw e (
              mapped-Goes k s1 (λ s. if not (err == out_of_memory) then stopped s else retried s) b
                g.going l1 h (absent_after n p z)
                (λ w.
                  let t = set_world s1 w in
                  let q : Evicts s1 t = next here (outside w) in
                  if_both (Goes n) (not (err == out_of_memory)) (stopped t) (retried t)
                    (give_up_after k fault_error (λ x. omega arith) l1 q)
                    (again t q (Live-Evicts l1 q l1.below))))
      ]

  check_miss-Goes :
      (k : Faulting W)
      → Pinnable
      → Going k
      → k.page_nr < end
      → (page k.state v k.page_nr).handle ≡ 0
      → Goes k.page_nr (check_miss gpu v start end k)
  unfolding check_miss
  check_miss-Goes k b g h z =
      let n = k.page_nr in
      let l = g.live in
      let surplus = surplus_for k.state n end in
      let (ok?, s1) = vbars_free_for_vbar gpu k.state v end surplus in
      let p = vbars_free_for_vbar-Evicts gpu k.state v end surplus (in_range l) in
      let k1 = record k { miss_alloc_checked = true; state = s1 } in
      if_both (Goes n) k.miss_alloc_checked (allocate_page gpu v start end k) _
        (allocate_page-Goes k b g h z)
        (elim (Bool-cases (not ok?)) [
          | inl e2 ↦ rw e2 (give_up_after k fault_error (λ x. omega arith) l p)
          | inr e2 ↦ elim (Bool-cases (ltb (s1.vbars v).watermark end)) [
            | inl e3 ↦ rw (e2, e3) (give_up_after k fault_oom (λ x. omega arith) l p)
            | inr e3 ↦
                rw (e2, e3)
                  (allocate_page-Goes k1 b
                    (record { going = g.going; live = Live-Evicts l p (ltb→le _ _ e3) }) h
                    (absent_after n p z))
          ]
        ])

  completed : (k : Faulting W) → Going k → end ≤ k.page_nr → Complete k
  completed k g h =
      let e : k.page_nr ≡ end = omega (arith, g.live.ended) in
      record { result = g.going; live = subst (λ n. Live other s0 v start end n k.state) e g.live }

  fault_round-Goes :
      (k : Faulting W) → Pinnable → Going k → Goes k.page_nr (fault_round gpu v start end k)
  unfolding fault_round
  fault_round-Goes k b g =
      let n = k.page_nr in
      elim (Bool-cases (ltb n end)) [
        | inr e ↦ rw e (inl (completed k g (ltb→le _ _ e)))
        | inl e ↦ elim (Bool-cases (vbar_page_is_mapped (page k.state v n))) [
          | inl m ↦ rw (e, m) (pinned-Goes k k.state b g.going g.live (ltb→lt _ _ e) (ground arith))
          | inr m ↦ rw (e, m) (check_miss-Goes k b g (ltb→lt _ _ e) (ground arith))
        ]
      ]

  -- From a state that has the pins of `s0`, the loop ends, with all pages mapped and pinned, or with
  -- a code and the pins as they were.
  pub fault_pages-Ended :
      (s : State W)
      → Pinnable
      → start ≤ end
      → Live other s0 v start end start s
      → Ended (fault_pages gpu v start end s)
  unfolding fault_pages
  fault_pages-Ended s b h l =
      rounds_end Going Ended (λ k. end - k.page_nr) (fault_round gpu v start end)
        (λ k g z. inl (completed k g (omega arith))) (λ k g. fault_round-Goes k b g) (end - start) _
        (omega arith) (record { going = refl; live = l })
