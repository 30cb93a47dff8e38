-- ===== src/Vbar/Surplus/Cursor.antt =====
-- The cursor of `vbars_free_for_vbar`: `move_cursor_to_absent` and `spend_surplus_on_cursor` of
-- src/model-vbar.c, whose fuel is what is left to the watermark.
use comfy_aimdo_xpu.Base.{
  ℕ, ◌-◌, ◌≡◌, ◌≢◌, ◌≤◌, ◌<◌, ◌⊎◌, inl, inr, arith, ◌&&◌, Bool-cases, ltb, Ends, rounds_end, not,
  true, ◌+◌,
}
use comfy_aimdo_xpu.Devctx.{Vbar}
use comfy_aimdo_xpu.Vbar.Surplus.{
  absent_round, move_cursor_to_absent, spend_round, spend_surplus_on_cursor,
}
use comfy_aimdo_xpu.Vbar.Pages.{vbar_page_is_mapped, vbar_page_size}
use comfy_aimdo_xpu.Base.Int.{ℤ, ltb_ℤ, pos}

module _ (mv : Vbar) where
  -- All pages from `from` up to, and without, `to` are mapped.
  pub record Reached (from to : ℕ) : Type 0 where
    pub on : from ≤ to
    pub below : to ≤ mv.watermark
    pub passed : (m : ℕ) → from ≤ m → m < to → (mv.residency_map m).handle ≢ 0

  pub record Stopped (from to : ℕ) : Type 0 where
    pub reached : Reached from to
    pub at : (to ≡ mv.watermark) ⊎ ((mv.residency_map to).handle ≡ 0)

  absent_round-Ends :
      (from c : ℕ)
      → Reached from c
      → Ends
          (λ d. Reached from d × (mv.watermark - d < mv.watermark - c))
          (Stopped from)
          (absent_round mv c)
  unfolding absent_round
  absent_round-Ends from c r =
      elim (Bool-cases (ltb c mv.watermark && vbar_page_is_mapped (mv.residency_map c))) [
        | inr e ↦ rw e (record { reached = r; at = ground (arith, r.below) })
        | inl e ↦ rw e (
          record {
            on = omega (arith, r.on);
            below = ground arith;
            passed = λ m l u. ground (arith, r.passed m);
          },
          ground arith,
        )
      ]

  -- From a cursor that is not above the watermark, the cursor moves on over mapped pages only, and
  -- stops at the first page without memory, or at the watermark.
  pub move_cursor_to_absent-Stopped :
      (cursor : ℕ) → cursor ≤ mv.watermark → Stopped cursor (move_cursor_to_absent mv cursor)
  unfolding move_cursor_to_absent
  move_cursor_to_absent-Stopped cursor h =
      rounds_end (Reached cursor) (Stopped cursor) (λ c. mv.watermark - c) (absent_round mv)
        (λ c r z. record { reached = r; at = inl (omega (arith, r.below)) })
        (λ c r. absent_round-Ends cursor c r) (mv.watermark - cursor) cursor (omega arith)
        (record { on = omega arith; below = h; passed = λ m l u. absurd (omega arith) })

-- The loop of `spend_surplus_on_cursor` has nothing left to do.
pub record Spent (mv : Vbar) (target from : ℕ) (k : ℕ × ℤ) : Type 0 where
  pub on : from ≤ k.0
  pub below : k.0 ≤ mv.watermark
  pub ended : (ltb_ℤ k.1 (pos vbar_page_size) ≡ true) ⊎ (target ≤ k.0) ⊎ (k.0 ≡ mv.watermark)

module _ (mv : Vbar) (target : ℕ) where
  record Spending (from : ℕ) (k : ℕ × ℤ) : Type 0 where
    on : from ≤ k.0
    below : k.0 ≤ mv.watermark

  spend_round-Ends :
      (from : ℕ) (k : ℕ × ℤ)
      → Spending from k
      → Ends
          (λ d. Spending from d × (mv.watermark - d.0 < mv.watermark - k.0))
          (Spent mv target from)
          (spend_round mv target k)
  unfolding spend_round
  spend_round-Ends from (c, surplus) r =
      let test = not (ltb_ℤ surplus (pos vbar_page_size)) && ltb c target && ltb c mv.watermark in
      elim (Bool-cases test) [
        | inr e ↦ rw e (record { on = r.on; below = r.below; ended = ground (arith, r.below) })
        | inl e ↦
            let l : c < mv.watermark = ground arith in
            let s = (move_cursor_to_absent-Stopped mv (c + 1) (omega arith)).reached in
            rw e (record { on = omega (arith, r.on, s.on); below = s.below }, omega (arith, s.on))
      ]

  -- From a cursor that is not above the watermark, the surplus is spent until it is less than a
  -- page, or the cursor has come to the target or to the watermark.
  pub spend_surplus_on_cursor-Spent :
      (cursor : ℕ) (surplus : ℤ)
      → cursor ≤ mv.watermark
      → Spent mv target cursor (spend_surplus_on_cursor mv target cursor surplus)
  unfolding spend_surplus_on_cursor
  spend_surplus_on_cursor-Spent cursor surplus h =
      rounds_end (Spending cursor) (Spent mv target cursor) (λ k. mv.watermark - k.0)
        (spend_round mv target)
        (λ k r z. record { on = r.on; below = r.below; ended = inr (inr (omega (arith, r.below))) })
        (λ k r. spend_round-Ends cursor k r) (mv.watermark - cursor) (cursor, surplus) (omega arith)
        (record { on = omega arith; below = h })
