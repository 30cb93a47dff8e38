-- ===== src/Vbar/Surplus.antt =====
-- Reclaim on behalf of one VBAR: `vbars_free_for_vbar` of src/model-vbar.c, which counts what it
-- frees against the absent pages below its target.
pub mod Evicting
pub mod Cursor
pub mod Progress
pub mod Paid
pub mod Served
use comfy_aimdo_xpu.Base.{
  ℕ, ◌+◌, ◌-◌, Bool, true, false, not, ◌&&◌, ◌||◌, List, [], ◌∷◌, ltb, ◌==◌, if◌then◌else◌, Round,
  rounds, go, stop,
}
use comfy_aimdo_xpu.Base.Int.{ℤ, pos, ◌+ℤ◌, ◌-ℤ◌, ltb_ℤ}
use comfy_aimdo_xpu.Gpu.{Gpu}
use comfy_aimdo_xpu.Devctx.{Vbar, State, page}
use comfy_aimdo_xpu.Vbar.Pages.{vbar_page_size, vbar_page_is_mapped}
use comfy_aimdo_xpu.Vbar.Evict.{
  writeback_failed, retained, freed, mod1, lower_watermark, Mod, sync_if,
}

-- One round of `move_cursor_to_absent`, and the loop; the fuel is what is left to the watermark.
unfoldable pub absent_round : Vbar → (cursor : ℕ) → Round ℕ
absent_round mv cursor =
    if ltb cursor mv.watermark && vbar_page_is_mapped (mv.residency_map cursor)
    then go (cursor + 1)
    else stop cursor

unfoldable pub move_cursor_to_absent : Vbar → (cursor : ℕ) → ℕ
unfolding rounds absent_round
move_cursor_to_absent mv cursor = rounds (mv.watermark - cursor) (absent_round mv) cursor

-- The same of `spend_surplus_on_cursor`.
unfoldable pub spend_round : Vbar → (target : ℕ) → ℕ × ℤ → Round (ℕ × ℤ)
unfolding move_cursor_to_absent
spend_round mv target (cursor, surplus) =
    if not (ltb_ℤ surplus (pos vbar_page_size)) && ltb cursor target && ltb cursor mv.watermark
    then go (move_cursor_to_absent mv (cursor + 1), surplus -ℤ pos vbar_page_size)
    else stop (cursor, surplus)

unfoldable pub spend_surplus_on_cursor : Vbar → (target cursor : ℕ) → ℤ → ℕ × ℤ
unfolding rounds spend_round
spend_surplus_on_cursor mv target cursor surplus =
    rounds (mv.watermark - cursor) (spend_round mv target) (cursor, surplus)

-- The loops of `vbars_free_for_vbar` go on while this holds.
abbrev pub is_short : Vbar → (target cursor : ℕ) → ℤ → Bool
is_short mv target cursor surplus =
    (ltb cursor target && ltb cursor mv.watermark) || ltb_ℤ surplus (pos 0)

-- Where `vbars_free_for_vbar` stands.
pub record Search (W : Type 0) : Type 0 where
  pub ok : Bool
  pub cursor : ℕ
  pub surplus : ℤ
  pub synced : Bool
  pub state : State W

module _ {W : Type 0} where
  -- The rest of a round, by what `mod1` returned.
  unfoldable pub search_outcome : (mv target i : ℕ) → Search W → Mod → State W → Round (Search W)
  unfolding spend_surplus_on_cursor
  search_outcome mv target i k writeback_failed s2 = stop (record k { ok = false; state = s2 })
  search_outcome mv target i k retained s2 = go (record k { state = lower_watermark s2 i })
  search_outcome mv target i k freed s2 =
      let (cursor, surplus) =
        spend_surplus_on_cursor (s2.vbars mv) target k.cursor (k.surplus +ℤ pos vbar_page_size) in
      go (record k { cursor = cursor; surplus = surplus; state = lower_watermark s2 i })

module _ {W : Type 0} (gpu : Gpu W) where
  -- One round of the inner loop of `vbars_free_for_vbar`, on the VBAR `i`, which may be the one
  -- that is served.
  unfoldable pub search_round : (mv target i : ℕ) → Search W → Round (Search W)
  unfolding search_outcome sync_if
  search_round mv target i k =
      let s = k.state in
      let n = (s.vbars i).watermark - 1 in
      let rp = page s i n in
      let syncs = not k.synced && vbar_page_is_mapped rp && rp.pin_count == 0 in
      let (freed?, s2) = mod1 gpu (sync_if gpu syncs s) i n true false in
      if is_short (s.vbars mv) target k.cursor k.surplus
        && ltb (s.vbars i).watermark_limit (s.vbars i).watermark
      then search_outcome mv target i (record k { synced = k.synced || syncs }) freed? s2
      else stop k

  unfoldable pub search_loop : (mv target i : ℕ) → Search W → Search W
  unfolding rounds search_round
  search_loop mv target i k = rounds (k.state.vbars i).watermark (search_round mv target i) k

  unfoldable pub search_walk : (mv target : ℕ) → List ℕ → Search W → Search W
  unfolding search_loop
  search_walk mv target [] k = k
  search_walk mv target (i ∷ is) k =
      let k1 = search_loop mv target i k in
      elim (is_short (k.state.vbars mv) target k.cursor k.surplus) [
        | false ↦ k
        | true ↦ elim k1.ok [ true ↦ search_walk mv target is k1 | false ↦ k1 ]
      ]

  unfoldable pub vbars_free_for_vbar : State W → (mv target : ℕ) → (surplus : ℤ) → Bool × State W
  unfolding search_walk sync_if
  vbars_free_for_vbar s mv target surplus =
      let (cursor, left) =
        spend_surplus_on_cursor (s.vbars mv) target (move_cursor_to_absent (s.vbars mv) 0)
          surplus in
      let k =
        search_walk mv target s.order
          (record { ok = true; cursor = cursor; surplus = left; synced = false; state = s }) in
      if not k.ok then (false, k.state) else (true, sync_if gpu k.synced k.state)
