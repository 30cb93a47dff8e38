-- ===== src/Vbar/Surplus/Progress.antt =====
-- `vbars_free_for_vbar` of src/model-vbar.c: where its walk has ended when it reports success.
use comfy_aimdo_xpu.Base.{
  ℕ, ◌-◌, ◌≡◌, ◌≤◌, ◌<◌, ◌⊎◌, inl, inr, true, false, arith, ◌&&◌, ◌||◌, ◌==◌, not, Bool-cases, ltb,
  refl, Ends, rounds_end, List, [], ◌∷◌, ◌∈◌, subst, ltb→le, ltb→lt,
}
use comfy_aimdo_xpu.Gpu.{Gpu}
use comfy_aimdo_xpu.Vbar.Evict.{
  writeback_failed, retained, freed, mod1, sync_if, lower_watermark, Mod,
}
use comfy_aimdo_xpu.Vbar.Surplus.{
  Search, search_loop, search_walk, search_outcome, search_round, is_short,
}
use comfy_aimdo_xpu.Devctx.{State, page}
use comfy_aimdo_xpu.Vbar.Reclaim.Evicting.{InRange, Evicts-InRange}
use comfy_aimdo_xpu.Vbar.Evict.Steps.{Evicts, here}
use comfy_aimdo_xpu.Vbar.Pages.{vbar_page_is_mapped}
use comfy_aimdo_xpu.Vbar.Evict.Spares.{Evicts-watermark, Evicts-shape, Evicts-order}
use comfy_aimdo_xpu.Vbar.Evict.Single.{mod1-watermark, sync_if-vbars}
use comfy_aimdo_xpu.Vbar.Surplus.Evicting.{search_loop-Evicts, search_walk-Evicts}

module _ {W : Type 0} (mv target : ℕ) where
  -- Enough is free for the target, as the walk counts it.
  abbrev pub IsServed : Search W → Type 0
  IsServed k = is_short (k.state.vbars mv) target k.cursor k.surplus ≡ false

  abbrev AtLimit : (i : ℕ) → State W → Type 0
  AtLimit i s = (s.vbars i).watermark ≤ (s.vbars i).watermark_limit

  pub record Halted (i : ℕ) (k : Search W) : Type 0 where
    pub ended :
        k.ok ≡ true → IsServed k ⊎ ((k.state.vbars i).watermark ≤ (k.state.vbars i).watermark_limit)

  record Moving (k : Search W) : Type 0 where
    moving : k.ok ≡ true

  search_outcome-Ends :
      (i : ℕ) (k : Search W) (m : Mod) (s2 : State W)
      → k.ok ≡ true
      → 0 < (s2.vbars i).watermark
      → (s2.vbars i).watermark ≡ (k.state.vbars i).watermark
      → Ends
          (λ t. Moving t × ((t.state.vbars i).watermark < (k.state.vbars i).watermark))
          (Halted i)
          (search_outcome mv target i k m s2)
  unfolding search_outcome lower_watermark
  search_outcome-Ends i k writeback_failed s2 ok z w = record { ended = λ x. absurd cc }
  search_outcome-Ends i k retained s2 ok z w = (record { moving = ok }, ground arith)
  search_outcome-Ends i k freed s2 ok z w = (record { moving = ok }, ground arith)

module _ {W : Type 0} (gpu : Gpu W) (mv target : ℕ) where
  search_round-Ends :
      (i : ℕ) (k : Search W)
      → Moving mv target k
      → Ends
          (λ t. Moving mv target t × ((t.state.vbars i).watermark < (k.state.vbars i).watermark))
          (Halted mv target i)
          (search_round gpu mv target i k)
  unfolding search_round
  search_round-Ends i k g =
      let s = k.state in
      let n = (s.vbars i).watermark - 1 in
      let rp = page s i n in
      let syncs = not k.synced && vbar_page_is_mapped rp && rp.pin_count == 0 in
      let s1 = sync_if gpu syncs s in
      let s2 = (mod1 gpu s1 i n true false).1 in
      let short = is_short (s.vbars mv) target k.cursor k.surplus in
      let above = ltb (s.vbars i).watermark_limit (s.vbars i).watermark in
      elim (Bool-cases (short && above)) [
        | inr e ↦ rw e (record {
          ended = λ x. elim (Bool-cases short) [
            | inr unmet ↦ inl unmet
            | inl wants ↦ let low : above ≡ false = ground (arith, e, wants) in inr (ltb→le _ _ low)
          ];
        })
        | inl e ↦
            let up : above ≡ true = ground (arith, e) in
            let w : (s2.vbars i).watermark ≡ (s.vbars i).watermark =
              rw (mod1-watermark gpu s1 i n true i) (rw (sync_if-vbars gpu syncs s) refl) in
            rw e (
              search_outcome-Ends mv target i (record k { synced = k.synced || syncs }) _ s2
                g.moving (omega (arith, w, ltb→lt _ _ up)) w)
      ]

  search_loop-Halted :
      (i : ℕ) (k : Search W) → k.ok ≡ true → Halted mv target i (search_loop gpu mv target i k)
  unfolding search_loop
  search_loop-Halted i k ok =
      rounds_end (Moving mv target) (Halted mv target i) (λ t. (t.state.vbars i).watermark)
        (search_round gpu mv target i) (λ t p z. record { ended = λ x. inr (omega arith) })
        (λ t p. search_round-Ends i t p) _ k (omega arith) (record { moving = ok })

  -- The walk has served the VBAR, or has brought all the VBARs of `vs` to their limits.
  pub record Walked (vs : List ℕ) (k : Search W) : Type 0 where
    pub ended :
        IsServed mv target k
        ⊎ ((v : ℕ) → v ∈ vs → (k.state.vbars v).watermark ≤ (k.state.vbars v).watermark_limit)

  IsServed-search_walk :
      (vs : List ℕ) (k : Search W)
      → IsServed mv target k
      → IsServed mv target (search_walk gpu mv target vs k)
  unfolding search_walk
  IsServed-search_walk [] k h = h
  IsServed-search_walk (v ∷ vs) k h = rw (h, search_walk) h

  limit_stays :
      {t u : State W} (v : ℕ)
      → Evicts t u
      → (t.vbars v).watermark ≤ (t.vbars v).watermark_limit
      → (u.vbars v).watermark ≤ (u.vbars v).watermark_limit
  limit_stays v p h = ground (arith, Evicts-watermark p v, Evicts-shape p v)

  -- Let the walk start without a failed writeback from a state where every watermark is in its page
  -- table, perhaps after eviction steps, over listed VBARs. If no writeback fails, the walk ends with
  -- the cursor at the target or the watermark and no surplus owed, or with each VBAR that it was to
  -- visit at its watermark's limit.
  pub search_walk-Walked :
      {s0 : State W} (vs : List ℕ) (k : Search W)
      → InRange s0
      → ((v : ℕ) → v ∈ vs → v ∈ s0.order)
      → Evicts s0 k.state
      → k.ok ≡ true
      → (search_walk gpu mv target vs k).ok ≡ true
      → Walked vs (search_walk gpu mv target vs k)
  unfolding search_walk
  search_walk-Walked [] k r i p g ok = record { ended = inr (λ v j. absurd (ground arith)) }
  search_walk-Walked {s0} (v ∷ vs) k r i p g ok =
      let k1 = search_loop gpu mv target v k in
      let q = search_loop-Evicts gpu mv target v k r (i v (ground arith)) p in
      let j : (a : ℕ) → a ∈ vs → a ∈ s0.order = λ a m. i a (ground arith) in
      let k2 = search_walk gpu mv target vs k1 in
      let later : Evicts k1.state k2.state =
        search_walk-Evicts gpu mv target vs k1 (Evicts-InRange r q)
          (λ a m. rw (Evicts-order q) (j a m)) here in
      elim (Bool-cases (is_short (k.state.vbars mv) target k.cursor k.surplus)) [
        | inr e ↦ rw (e, search_walk) (record { ended = inl e })
        | inl e ↦ elim (Bool-cases k1.ok) [
          | inr e2 ↦ absurd (ground (arith, rw (e, search_walk, e2) at ok))
          | inl e2 ↦
              let w = search_walk-Walked vs k1 r j q e2 (rw (e, search_walk, e2) at ok) in
              rw (e, search_walk, e2)
                (elim ((search_loop-Halted v k g).ended e2) [
                  | inl served ↦ record { ended = inl (IsServed-search_walk vs k1 served) }
                  | inr low ↦ elim w.ended [
                    | inl served ↦ record { ended = inl served }
                    | inr f ↦ record {
                      ended = inr (λ u m. elim (Bool-cases (v == u)) [
                        | inr ne ↦ f u (ground arith)
                        | inl same ↦
                            let eq : v ≡ u = ground arith in
                            subst
                              (λ a.
                                (k2.state.vbars a).watermark ≤ (k2.state.vbars a).watermark_limit)
                              eq (limit_stays v later low)
                      ]);
                    }
                  ]
                ])
        ]
      ]
