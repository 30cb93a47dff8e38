-- ===== src/Vbar/Owner/Memory.antt =====
-- `vbar_free_memory` of src/model-vbar.c.
use comfy_aimdo_xpu.Base.{
  ℕ, ◌+◌, ◌-◌, ◌*◌, ◌≡◌, ◌≤◌, ◌<◌, ◌⊎◌, inl, inr, arith, ◌==◌, ◌&&◌, true, ◌∈◌, none, Ends, some,
  false, rounds, not, ltb, Bool-cases, rounds_end, refl,
}
use comfy_aimdo_xpu.Gpu.{Gpu}
use comfy_aimdo_xpu.Devctx.{State}
use comfy_aimdo_xpu.Vbar.Owner.{vbar_free_memory, Freeing, freeing_outcome, freeing_round}
use comfy_aimdo_xpu.Vbar.Evict.{
  one_time_dirty, synchronize, lower_watermark, Mod, sync_if, writeback_failed, retained, freed,
  mod1,
}
use comfy_aimdo_xpu.Vbar.Pages.{vbar_page_size, vbar_get_page_nr_up}
use comfy_aimdo_xpu.Vbar.Reclaim.Evicting.{InRange, Evicts-InRange}
use comfy_aimdo_xpu.Vbar.Evict.Steps.{Evicts, next, here, dirtied, outside, Evicts-trans}
use comfy_aimdo_xpu.Vbar.Evict.Freed.{Freed, pages_of_mod, mod1-Freed}
use comfy_aimdo_xpu.Vbar.Evict.Spares.{Evicts-order}
use comfy_aimdo_xpu.Vbar.Evict.Single.{round-Evicts, mod1-watermark}

module _ {W : Type 0} (s0 : State W) (wanted : ℕ) where
  record Running (k : Freeing W) : Type 0 where
    evicts : Evicts s0 k.state
    counts : k.pages_to_free + k.pages_freed ≡ wanted
    freed_pages : Freed s0 k.state k.pages_freed
    going : k.ok ≡ true

  record Halted (v : ℕ) (k : Freeing W) : Type 0 where
    evicts : Evicts s0 k.state
    counted : k.ok ≡ true → Running k
    ended :
        k.ok ≡ true
        → (k.pages_to_free ≡ 0) ⊎ ((k.state.vbars v).watermark ≤ (k.state.vbars v).watermark_limit)

  freeing_outcome-Ends :
      (v : ℕ) (k : Freeing W) (m : Mod) (s2 : State W)
      → Running k
      → 0 < k.pages_to_free
      → Freed k.state s2 (pages_of_mod m)
      → Evicts s0 s2
      → Evicts s0 (lower_watermark s2 v)
      → 0 < (s2.vbars v).watermark
      → (s2.vbars v).watermark ≡ (k.state.vbars v).watermark
      → Ends
          (λ t. Running t × ((t.state.vbars v).watermark < (k.state.vbars v).watermark))
          (Halted v)
          (freeing_outcome v k m s2)
  unfolding freeing_outcome lower_watermark
  freeing_outcome-Ends v k writeback_failed s2 c h f q p z w = record {
    evicts = q;
    counted = λ x. absurd cc;
    ended = λ x. absurd cc;
  }
  freeing_outcome-Ends v k retained s2 c h f q p z w = (
    record {
      evicts = p;
      counts = c.counts;
      freed_pages = record { usage = omega (arith, c.freed_pages.usage, f.usage) };
      going = c.going;
    },
    ground arith,
  )
  freeing_outcome-Ends v k freed s2 c h f q p z w = (
    record {
      evicts = p;
      counts = omega (arith, c.counts);
      freed_pages = record { usage = omega (arith, c.freed_pages.usage, f.usage) };
      going = c.going;
    },
    ground arith,
  )

module _ {W : Type 0} (gpu : Gpu W) (s0 : State W) (wanted : ℕ) (r : InRange s0) where
  freeing_round-Ends :
      (v : ℕ) (k : Freeing W)
      → v ∈ s0.order
      → Running s0 wanted k
      → Ends
          (λ t. Running s0 wanted t × ((t.state.vbars v).watermark < (k.state.vbars v).watermark))
          (Halted s0 wanted v)
          (freeing_round gpu v k)
  unfolding freeing_round sync_if
  freeing_round-Ends v k i c =
      let s = k.state in
      let m = (s.vbars v).watermark - 1 in
      let s2 = (mod1 gpu s v m true false).1 in
      let test =
        not (k.pages_to_free == 0) && ltb (s.vbars v).watermark_limit (s.vbars v).watermark in
      let j : v ∈ s.order = rw (Evicts-order c.evicts) i in
      elim (Bool-cases test) [
        | inr e ↦ rw e (record { evicts = c.evicts; counted = λ x. c; ended = λ x. ground arith })
        | inl e ↦
            let p = round-Evicts gpu s false v j (ground arith) (Evicts-InRange r c.evicts v j) in
            let w : (s2.vbars v).watermark ≡ (s.vbars v).watermark =
              mod1-watermark gpu s v m true v in
            rw e (
              freeing_outcome-Ends s0 wanted v k _ s2 c (ground arith) (mod1-Freed gpu s v m true)
                (Evicts-trans c.evicts p.0) (Evicts-trans c.evicts p.1) (ground (arith, w)) w)
      ]

-- What `vbar_free_memory` reports: bytes, or none after a failed writeback.
pub record Reported {W : Type 0} (s t : State W) (v wanted bytes : ℕ) : Type 0 where
  pub pages : ℕ
  pub of_pages : bytes ≡ pages * vbar_page_size
  pub within : pages ≤ wanted
  pub freed_pages : Freed s t pages
  pub ended : (pages ≡ wanted) ⊎ ((t.vbars v).watermark ≤ (t.vbars v).watermark_limit)

module _ {W : Type 0} (gpu : Gpu W) where
  -- Where every watermark is in its page table, on a listed VBAR: the call only takes eviction
  -- steps, also when a writeback fails; the bytes it reports otherwise are those of the pages it
  -- has taken off the usage, at most the rounded request, and fewer only when the watermark has
  -- come down to its limit.
  pub vbar_free_memory-Reported :
      (s : State W) (v size : ℕ)
      → InRange s
      → v ∈ s.order
      → let (bytes, t) = vbar_free_memory gpu s v size in
        Evicts s t
        × ((bytes ≡ none)
            ⊎ ((n : ℕ) × (bytes ≡ some n) × Reported s t v (vbar_get_page_nr_up size) n))
  unfolding vbar_free_memory one_time_dirty synchronize
  vbar_free_memory-Reported s v size r i =
      let wanted = vbar_get_page_nr_up size in
      let s1 = synchronize gpu (one_time_dirty s) in
      let start : Freeing W = record {
        ok = true;
        pages_to_free = wanted;
        pages_freed = 0;
        state = s1;
      } in
      let k = rounds (s1.vbars v).watermark (freeing_round gpu v) start in
      let c : Running s wanted start = record {
        evicts = next (next here dirtied) (outside _);
        counts = omega arith;
        freed_pages = record { usage = omega arith };
        going = refl;
      } in
      let h : Halted s wanted v k =
        rounds_end (Running s wanted) (Halted s wanted v) (λ t. (t.state.vbars v).watermark)
          (freeing_round gpu v)
          (λ t p z. record { evicts = p.evicts; counted = λ x. p; ended = λ x. inr (omega arith) })
          (λ t p. freeing_round-Ends gpu s wanted r v t i p) _ start (omega arith) c in
      elim (Bool-cases k.ok) [
        | inr e ↦ rw e (h.evicts, inl refl)
        | inl e ↦
            let d = h.counted e in
            rw e (
              next h.evicts (outside _),
              inr (
                k.pages_freed * vbar_page_size,
                refl,
                record {
                  pages = k.pages_freed;
                  of_pages = refl;
                  within = omega (arith, d.counts);
                  freed_pages = record { usage = d.freed_pages.usage };
                  ended = elim (h.ended e) [
                    | inl z ↦ inl (omega (arith, d.counts))
                    | inr l ↦ inr l
                  ];
                },
              ),
            )
      ]
