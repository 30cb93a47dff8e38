-- ===== src/Vbar/Reclaim/Progress.antt =====
-- `vbars_free_internal` of src/model-vbar.c: what it has done where it reports success.
use comfy_aimdo_xpu.Base.{
  ℕ, ◌-◌, ◌≡◌, ◌≤◌, ◌<◌, arith, true, ◌⊎◌, Ends, ◌∈◌, not, rounds_end, inr, ◌||◌, ◌&&◌, Option,
  Bool, List, false, ◌∷◌, refl, inl, Bool-cases, ◌==◌, ◌∙◌, sym, ltb, [], leb,
}
use comfy_aimdo_xpu.Gpu.{Gpu}
use comfy_aimdo_xpu.Devctx.{State}
use comfy_aimdo_xpu.Vbar.Reclaim.Evicting.{InRange, free_walk-Evicts, Evicts-InRange}
use comfy_aimdo_xpu.Vbar.Reclaim.{
  Walk, lower_outcome, lower_loop, lower_round, is_skipped, free_walk, vbars_free_internal,
}
use comfy_aimdo_xpu.Vbar.Evict.Steps.{Evicts, here, Evicts-trans, next, dirtied}
use comfy_aimdo_xpu.Vbar.Evict.{
  lower_watermark, Mod, writeback_failed, retained, freed, sync_if, mod1, one_time_dirty,
}
use comfy_aimdo_xpu.Vbar.Evict.Freed.{Freed, pages_of_mod, mod1-Freed}
use comfy_aimdo_xpu.Vbar.Evict.Spares.{Evicts-watermark, Evicts-shape, Evicts-order}
use comfy_aimdo_xpu.Vbar.Evict.Single.{round-Evicts, mod1-watermark, sync_if-vbars, sync_if-usage}
use comfy_aimdo_xpu.Base.Int.{ℤ, pos_part}
use comfy_aimdo_xpu.Vbar.Pages.{vbar_get_page_nr_up}

module _ {W : Type 0} (s0 : State W) (needed0 : ℕ) where
  -- The pages freed so far and those still wanted are those asked for.
  pub record Counted (k : Walk W) : Type 0 where
    pub evicts : Evicts s0 k.state
    pub within : k.needed ≤ needed0
    pub freed_pages : Freed s0 k.state (needed0 - k.needed)

  -- The inner loop on `v` has ended.
  record Lowered (v n : ℕ) (k : Walk W) : Type 0 where
    counted : k.ok ≡ true → Counted k
    fewer : k.needed ≤ n
    ended :
        k.ok ≡ true
        → (k.needed ≡ 0) ⊎ ((k.state.vbars v).watermark ≤ (k.state.vbars v).watermark_limit)

module _ {W : Type 0} (gpu : Gpu W) (s0 : State W) (needed0 : ℕ) (r : InRange s0) where
  Looping : ℕ → Walk W → Type 0
  Looping n k = Counted s0 needed0 k × (k.needed ≤ n)

  lower_outcome-Ends :
      (v n : ℕ) (k : Walk W) (m : Mod) (s2 : State W)
      → Looping n k
      → 0 < k.needed
      → Freed k.state s2 (pages_of_mod m)
      → Evicts s0 (lower_watermark s2 v)
      → 0 < (s2.vbars v).watermark
      → (s2.vbars v).watermark ≡ (k.state.vbars v).watermark
      → Ends
          (λ t. Looping n t × ((t.state.vbars v).watermark < (k.state.vbars v).watermark))
          (Lowered s0 needed0 v n)
          (lower_outcome v k m s2)
  unfolding Looping lower_outcome lower_watermark
  lower_outcome-Ends v n k writeback_failed s2 (c, l) h f p z w = record {
    counted = λ x. absurd cc;
    fewer = l;
    ended = λ x. absurd cc;
  }
  lower_outcome-Ends v n k retained s2 (c, l) h f p z w = (
    (
      record {
        evicts = p;
        within = c.within;
        freed_pages = record { usage = omega (arith, c.freed_pages.usage, f.usage) };
      },
      l,
    ),
    ground arith,
  )
  lower_outcome-Ends v n k freed s2 (c, l) h f p z w = (
    (
      record {
        evicts = p;
        within = omega (arith, c.within);
        freed_pages = record { usage = omega (arith, c.freed_pages.usage, f.usage, c.within) };
      },
      omega arith,
    ),
    ground arith,
  )

  lower_round-Ends :
      (v n : ℕ) (k : Walk W)
      → v ∈ s0.order
      → Looping n k
      → Ends
          (λ t. Looping n t × ((t.state.vbars v).watermark < (k.state.vbars v).watermark))
          (Lowered s0 needed0 v n)
          (lower_round gpu v k)
  unfolding Looping lower_round
  lower_round-Ends v n k i (c, l) =
      let s = k.state in
      let syncs = not (k.dirty || s.sync_paused) in
      let s1 = sync_if gpu syncs s in
      let m = (s.vbars v).watermark - 1 in
      let s2 = (mod1 gpu s1 v m true false).1 in
      let test = not (k.needed == 0) && ltb (s.vbars v).watermark_limit (s.vbars v).watermark in
      let j : v ∈ s.order = rw (Evicts-order c.evicts) i in
      elim (Bool-cases test) [
        | inr e ↦ rw e (record { counted = λ x. c; fewer = l; ended = λ x. ground arith })
        | inl e ↦
            let p = round-Evicts gpu s syncs v j (ground arith) (Evicts-InRange r c.evicts v j) in
            let f = mod1-Freed gpu s1 v m true in
            let w : (s2.vbars v).watermark ≡ (s.vbars v).watermark =
              rw (mod1-watermark gpu s1 v m true v) (rw (sync_if-vbars gpu syncs s) refl) in
            rw e (
              lower_outcome-Ends v n k _ s2 (c, l) (ground arith)
                (record { usage = omega (arith, f.usage, sync_if-usage gpu syncs s) })
                (Evicts-trans c.evicts p.1) (ground (arith, w)) w)
      ]

  lower_loop-Lowered :
      (v : ℕ) (k : Walk W)
      → v ∈ s0.order
      → Counted s0 needed0 k
      → Lowered s0 needed0 v k.needed (lower_loop gpu v k)
  unfolding Looping lower_loop
  lower_loop-Lowered v k i c =
      rounds_end (Looping k.needed) (Lowered s0 needed0 v k.needed)
        (λ t. (t.state.vbars v).watermark) (lower_round gpu v)
        (λ t p z. record { counted = λ x. p.0; fewer = p.1; ended = λ x. inr (omega arith) })
        (λ t p. lower_round-Ends v k.needed t i p) _ k (omega arith) (c, omega arith)

  at_limit_after :
      {t u : State W} (v : ℕ)
      → Evicts t u
      → (t.vbars v).watermark ≤ (t.vbars v).watermark_limit
      → (u.vbars v).watermark ≤ (u.vbars v).watermark_limit
  at_limit_after v p h = ground (arith, Evicts-watermark p v, Evicts-shape p v)

  module _ (preserved : Option ℕ) (b : Bool) where
    -- What the walk over `vs` has done when no writeback has failed.
    record Walked (vs : List ℕ) (n : ℕ) (k : Walk W) : Type 0 where
      counted : Counted s0 needed0 k
      fewer : k.needed ≤ n
      ended :
          (k.needed ≡ 0)
          ⊎ ((v : ℕ)
              → v ∈ vs
              → is_skipped s0 preserved b v ≡ false
              → (k.state.vbars v).watermark ≤ (k.state.vbars v).watermark_limit)

    is_skipped-same :
        {t : State W} (v : ℕ)
        → Evicts s0 t
        → is_skipped t preserved b v ≡ is_skipped s0 preserved b v
    is_skipped-same v p = rw ((Evicts-shape p v).pageout_callback) refl

    -- The first VBAR is at its limit, or nothing is wanted: then so it is after the others.
    Walked-cons :
        (v : ℕ) (vs : List ℕ) (n : ℕ) (k1 k : Walk W)
        → Evicts k1.state k.state
        → k1.needed ≤ n
        → ((k1.needed ≡ 0)
            ⊎ (is_skipped s0 preserved b v ≡ true)
            ⊎ ((k1.state.vbars v).watermark ≤ (k1.state.vbars v).watermark_limit))
        → Walked vs k1.needed k
        → Walked (v ∷ vs) n k
    Walked-cons v vs n k1 k p l c w = record {
      counted = w.counted;
      fewer = omega (arith, w.fewer);
      ended = elim w.ended [
        | inl z ↦ inl z
        | inr f ↦ elim c [
          | inl z ↦ inl (omega (arith, w.fewer))
          | inr d ↦ inr (λ u i n. elim (Bool-cases (v == u)) [
            | inr ne ↦ f u (ground arith) n
            | inl e ↦
                let same : v ≡ u = ground arith in
                elim d [
                  | inl skip ↦ absurd (ground arith)
                  | inr h ↦ rw (sym same) (at_limit_after v p h)
                ]
          ])
        ]
      ];
    }

    free_walk-Walked :
        (vs : List ℕ) (k : Walk W)
        → ((v : ℕ) → v ∈ vs → v ∈ s0.order)
        → Counted s0 needed0 k
        → (free_walk gpu preserved b vs k).ok ≡ true
        → Walked vs k.needed (free_walk gpu preserved b vs k)
    unfolding free_walk
    free_walk-Walked [] k i c ok = record {
      counted = c;
      fewer = omega arith;
      ended = inr (λ v j n. absurd (ground arith));
    }
    free_walk-Walked (v ∷ vs) k i c ok =
        let k1 = lower_loop gpu v k in
        let low = lower_loop-Lowered v k (i v (ground arith)) c in
        let j : (a : ℕ) → a ∈ vs → a ∈ s0.order = λ a m. i a (ground arith) in
        elim (Bool-cases (k.needed == 0)) [
          | inl e ↦
              rw (e, free_walk)
                (record { counted = c; fewer = omega arith; ended = inl (ground arith) })
          | inr e ↦ elim (Bool-cases (is_skipped k.state preserved b v)) [
            | inl e2 ↦
                rw (e, free_walk, e2)
                  (Walked-cons v vs k.needed k _ (walk-Evicts vs k c j) (omega arith)
                    (inr (inl (sym (is_skipped-same v c.evicts) ∙ e2)))
                    (free_walk-Walked vs k j c (rw (e, free_walk, e2) at ok)))
            | inr e2 ↦ elim (Bool-cases k1.ok) [
              | inl e3 ↦
                  let c1 = low.counted e3 in
                  rw (e, free_walk, e2, e3)
                    (Walked-cons v vs k.needed k1 _ (walk-Evicts vs k1 c1 j) low.fewer
                      (elim (low.ended e3) [ inl z ↦ inl z | inr h ↦ inr (inr h) ])
                      (free_walk-Walked vs k1 j c1 (rw (e, free_walk, e2, e3) at ok)))
              | inr e3 ↦ absurd (ground (arith, rw (e, free_walk, e2, e3) at ok))
            ]
          ]
        ]
      where
        walk-Evicts :
            (vs : List ℕ) (k : Walk W)
            → Counted s0 needed0 k
            → ((a : ℕ) → a ∈ vs → a ∈ s0.order)
            → Evicts k.state (free_walk gpu preserved b vs k).state
        walk-Evicts vs k c j =
            free_walk-Evicts gpu preserved b vs k (Evicts-InRange r c.evicts)
              (λ a m. rw (Evicts-order c.evicts) (j a m)) here

-- `t` has fewer pages than `s`, as many as wanted or as there were to take: then every VBAR that may
-- be taken from has its watermark at its limit.
pub record Reclaimed {W : Type 0} (s t : State W) (preserved : Option ℕ) (b : Bool) (wanted : ℕ)
    : Type 0 where
  pub pages : ℕ
  pub within : pages ≤ wanted
  pub freed_pages : Freed s t pages
  pub ended :
      (pages ≡ wanted)
      ⊎ ((v : ℕ)
          → v ∈ s.order
          → is_skipped s preserved b v ≡ false
          → (t.vbars v).watermark ≤ (t.vbars v).watermark_limit)

module _ {W : Type 0} (gpu : Gpu W) where
  -- Let every watermark be in its page table. A reclaim of a positive number of bytes that returns
  -- true has taken the rounded number of pages off the recorded usage, or fewer with every
  -- watermark that it may lower at its limit.
  pub vbars_free_internal-Reclaimed :
      (s : State W) (size : ℤ) (preserved : Option ℕ) (b : Bool)
      → InRange s
      → 0 < pos_part size
      → (vbars_free_internal gpu s size preserved b).0 ≡ true
      → Reclaimed s
          (vbars_free_internal gpu s size preserved b).1
          preserved
          b
          (vbar_get_page_nr_up (pos_part size))
  unfolding vbars_free_internal one_time_dirty
  vbars_free_internal-Reclaimed s size preserved b r h ok =
      let wanted = vbar_get_page_nr_up (pos_part size) in
      let start : Walk W = record {
        ok = true;
        needed = wanted;
        dirty = false;
        state = one_time_dirty s;
      } in
      let k = free_walk gpu preserved b s.order start in
      let syncs = k.dirty && not s.sync_paused in
      let c : Counted s wanted start = record {
        evicts = next here dirtied;
        within = omega arith;
        freed_pages = record { usage = omega arith };
      } in
      let e : leb (pos_part size) 0 ≡ false = ground arith in
      elim (Bool-cases k.ok) [
        | inr e2 ↦ absurd (ground (arith, rw (e, e2) at ok))
        | inl e2 ↦
            let w = free_walk-Walked gpu s wanted r preserved b s.order start (λ v i. i) c e2 in
            let u = sync_if-usage gpu syncs k.state in
            let vs = sync_if-vbars gpu syncs k.state in
            rw (e, e2)
              (record {
                pages = wanted - k.needed;
                within = omega arith;
                freed_pages = record { usage = omega (arith, w.counted.freed_pages.usage, u) };
                ended = elim w.ended [
                  | inl z ↦ inl (omega arith)
                  | inr f ↦ inr (λ v i n. rw vs (f v i n))
                ];
              })
      ]
