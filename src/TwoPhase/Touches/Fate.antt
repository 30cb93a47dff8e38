-- ===== src/TwoPhase/Touches/Fate.antt =====
-- What has become of a frozen page when `vbar_commit_candidates` of src/model-vbar.c looks at it again.
use comfy_aimdo_xpu.Base.{
  ℕ, ◌+◌, ◌≡◌, ◌<◌, false, ◌^◌, true, ◌≤◌, arith, ap, ◌∙◌, refl, Bool-cases, inl, inr,
}
use comfy_aimdo_xpu.TwoPhase.Candidates.{freeze_page, may_commit, retired_ready, candidate_of}
use comfy_aimdo_xpu.Retire.{XpuPage, vbar_retire_complete, XpuVbar, consumer_held}
use comfy_aimdo_xpu.Devctx.{add64}
use comfy_aimdo_xpu.TwoPhase.Touches.{
  Bears, Touches, then_touch, same, Touch-Bears, untouched, drops, cancels, ends, freezes,
}

-- Since `start` was frozen: nothing has happened, or that eviction is over.
data Fate (start rp : XpuPage) : Type 0 where
  waits : rp ≡ start → Fate start rp
  later : start.eviction_generation < rp.eviction_generation → Fate start rp
  over : rp.eviction_generation ≡ start.eviction_generation → rp.evicting ≡ false → Fate start rp

add64-small : (a : ℕ) → a + 1 < 2 ^ 64 → add64 a 1 ≡ a + 1
add64-small a h = omega arith

module _ (start : XpuPage) (pinless : start.pin_count ≡ 0) (evicted : start.evicting ≡ true) where
  Bears-bound :
      {rp rp' : XpuPage} (k : ℕ)
      → rp.eviction_generation + 1 < 2 ^ 64
      → rp.eviction_generation ≤ start.eviction_generation + k
      → Bears rp rp'
      → rp'.eviction_generation ≤ start.eviction_generation + (k + 1)
  Bears-bound k room le (same e) = ground (arith, ap (λ r. r.eviction_generation) e)
  Bears-bound k room le (drops d) = omega (arith, d.generation)
  Bears-bound {rp} k room le (cancels c) = elim (Bool-cases rp.evicting) [
    | inl e ↦ ground (arith, c.generation, add64-small _ room)
    | inr e ↦ ground (arith, c.generation)
  ]
  Bears-bound k room le (ends d) = omega (arith, d.generation)
  Bears-bound k room le (freezes f) = omega (arith, f.generation)

  Bears-Fate :
      {rp rp' : XpuPage}
      → rp.eviction_generation + 1 < 2 ^ 64
      → Bears rp rp'
      → Fate start rp
      → Fate start rp'
  Bears-Fate room (same e) (waits w) = waits (e ∙ w)
  Bears-Fate room (same e) (later l) = later (ground (arith, ap (λ r. r.eviction_generation) e))
  Bears-Fate room (same e) (over g n) =
      over (ap (λ r. r.eviction_generation) e ∙ g) (ap (λ r. r.evicting) e ∙ n)
  Bears-Fate room (drops d) (waits w) = absurd (d.had_pin (ap (λ r. r.pin_count) w ∙ pinless))
  Bears-Fate room (drops d) (later l) = later (omega (arith, d.generation))
  Bears-Fate room (drops d) (over g n) = over (d.generation ∙ g) (d.evicting ∙ n)
  Bears-Fate room (cancels c) (waits w) =
      let e = ap (λ r. r.evicting) w ∙ evicted in
      let g = ap (λ r. r.eviction_generation) w in
      later (ground (arith, c.generation, add64-small _ room))
  Bears-Fate {rp} room (cancels c) (later l) = elim (Bool-cases rp.evicting) [
    | inl e ↦ later (ground (arith, c.generation, add64-small _ room))
    | inr e ↦ later (ground (arith, c.generation))
  ]
  Bears-Fate room (cancels c) (over g n) = over (ground (arith, c.generation)) c.evicting
  Bears-Fate room (ends d) (waits w) =
      over (d.generation ∙ ap (λ r. r.eviction_generation) w) d.evicting
  Bears-Fate room (ends d) (later l) = later (omega (arith, d.generation))
  Bears-Fate room (ends d) (over g n) = over (d.generation ∙ g) d.evicting
  Bears-Fate room (freezes f) (waits w) =
      let e = ap (λ r. r.evicting) w ∙ evicted in absurd (ground (arith, f.before))
  Bears-Fate room (freezes f) (later l) = later (omega (arith, f.generation))
  Bears-Fate room (freezes f) (over g n) = later (omega (arith, f.generation))

  Touches-bound :
      {k : ℕ} {rp : XpuPage}
      → Touches start k rp
      → start.eviction_generation + k < 2 ^ 64
      → rp.eviction_generation ≤ start.eviction_generation + k
  Touches-bound untouched fits = omega arith
  Touches-bound (then_touch {k} ts t) fits =
      let b = Touches-bound ts (omega arith) in Bears-bound k (omega arith) b (Touch-Bears t)

  Touches-Fate :
      {k : ℕ} {rp : XpuPage}
      → Touches start k rp
      → start.eviction_generation + k < 2 ^ 64
      → Fate start rp
  Touches-Fate untouched fits = waits refl
  Touches-Fate (then_touch {k} ts t) fits =
      let b = Touches-bound ts (omega arith) in
      Bears-Fate (omega arith) (Touch-Bears t) (Touches-Fate ts (omega arith))

-- The page `rp'` is `rp` as it was frozen, and may go.
pub record IsUntouched (completed : ℕ → ℕ) (count : ℕ) (rp rp' : XpuPage) : Type 0 where
  pub frozen : rp' ≡ freeze_page rp
  pub complete : vbar_retire_complete rp' completed count ≡ true
  pub free : (rp'.pin_count ≡ 0) × (consumer_held rp' ≡ false)

-- Between the freezing of a retired page and the commit of its candidate, other threads fault it in,
-- pin, unpin, register and lease it, cancel it, take it and freeze it again, at most `k` times, too
-- few for its generation to wrap. If the commit then finds that it may free the page, the page is as
-- it was frozen: every queue that had read it has completed, and it has no pin and no lease.
pub may_commit-Touches :
    (completed : ℕ → ℕ) (count : ℕ) (mv : XpuVbar) (page_nr : ℕ) (rp rp' : XpuPage) (k : ℕ)
    → retired_ready completed count rp ≡ true
    → rp.eviction_generation + 1 + k < 2 ^ 64
    → Touches (freeze_page rp) k rp'
    → may_commit mv rp' (candidate_of mv page_nr (freeze_page rp)) ≡ true
    → IsUntouched completed count rp rp'
unfolding freeze_page may_commit retired_ready vbar_retire_complete
may_commit-Touches completed count mv page_nr rp rp' k r fits ts ok =
    let g : (freeze_page rp).eviction_generation ≡ rp.eviction_generation + 1 = omega arith in
    outcome (Touches-Fate (freeze_page rp) (ground arith) refl ts (omega arith))
  where
    outcome : Fate (freeze_page rp) rp' → IsUntouched completed count rp rp'
    outcome (waits w) = record {
      frozen = w;
      complete = ground (arith, w);
      free = (ground (arith, w), ground (arith, w));
    }
    outcome (later l) = absurd (ground arith)
    outcome (over g n) = absurd (ground arith)
