-- ===== src/Vbar/Lifecycle/Priority.antt =====
-- `vbar_prioritize` and `vbar_deprioritize` of src/model-vbar.c.
use comfy_aimdo_xpu.Base.{
  ℕ, ◌≡◌, ◌≢◌, arith, ◌++◌, ◌∷◌, [], ◌∈◌, has, Bool-cases, ◌==◌, refl, inl, inr,
}
use comfy_aimdo_xpu.Devctx.{State, page}
use comfy_aimdo_xpu.Vbar.Lifecycle.{
  vbar_prioritize, vbar_deprioritize, insert_vbar, without, insert_vbar_last, remove_vbar,
}
use comfy_aimdo_xpu.Vbar.Invariant.{Inv}
use comfy_aimdo_xpu.Vbar.Evict.{one_time_dirty}
use comfy_aimdo_xpu.Vbar.Owner.{set_watermark}
use comfy_aimdo_xpu.Vbar.Owner.SetWatermark.{Inv-set_watermark}
use comfy_aimdo_xpu.Vbar.Lifecycle.Listing.{
  has-append_one, has-without_of, without_gone, Distinct-append_one, Distinct-without,
  sum_over-without, sum_over-append_one, relisted, relisted_last,
}

-- `t` is `s` with `v` moved in the list, no other VBAR touched, and its own pages left alone.
pub record Moved {W : Type 0} (other : ℕ) (s t : State W) (v : ℕ) : Type 0 where
  pub inv : Inv other t
  pub listed : (u : ℕ) → has u t.order ≡ has u s.order
  pub others : (u : ℕ) → u ≢ v → t.vbars u ≡ s.vbars u
  pub pages : (m : ℕ) → page t v m ≡ page s v m

module _ {W : Type 0} where
  -- A VBAR that is taken out of the list and put at its end, or its front.
  Inv-reinsert :
      (other : ℕ) (s : State W) (v : ℕ)
      → Inv other s
      → v ∈ s.order
      → Inv other (insert_vbar (remove_vbar s v) v)
  Inv-reinsert other s v h i =
      let f : ℕ → ℕ = λ u. (s.vbars u).resident_count in
      record {
        distinct =
            Distinct-append_one v (without v s.order) (Distinct-without v s.order h.distinct)
              (without_gone v s.order);
        valid = λ u j. h.valid u (still u j);
        accounted = omega (
          arith,
          h.accounted,
          sum_over-without f v s.order h.distinct i,
          sum_over-append_one f v (without v s.order),
        );
      }
    where
      still : (u : ℕ) → u ∈ without v s.order ++ (v ∷ []) → u ∈ s.order
      still u j = elim (Bool-cases (v == u)) [
        | inl e ↦ ground arith
        | inr e ↦
            has-without_of v u s.order (ground (arith, has-append_one v u (without v s.order)))
      ]

  Inv-reinsert_last :
      (other : ℕ) (s : State W) (v : ℕ)
      → Inv other s
      → v ∈ s.order
      → Inv other (insert_vbar_last (remove_vbar s v) v)
  Inv-reinsert_last other s v h i =
      let f : ℕ → ℕ = λ u. (s.vbars u).resident_count in
      record {
        distinct = (without_gone v s.order, Distinct-without v s.order h.distinct);
        valid = λ u j. h.valid u (still u j);
        accounted = omega (arith, h.accounted, sum_over-without f v s.order h.distinct i);
      }
    where
      still : (u : ℕ) → u ∈ v ∷ without v s.order → u ∈ s.order
      still u j = elim (Bool-cases (v == u)) [
        | inl e ↦ ground arith
        | inr e ↦ has-without_of v u s.order (ground arith)
      ]

  -- From true accounts, a listed VBAR that is prioritized comes last to be reclaimed, with its
  -- watermark at its size; the list names the same VBARs, no page changes, and the accounts stay
  -- true.
  pub vbar_prioritize-Moved :
      (other : ℕ) (s : State W) (v clamp : ℕ)
      → Inv other s
      → v ∈ s.order
      → let t = vbar_prioritize s v clamp in
        Moved other s t v
        × (t.order ≡ without v s.order ++ (v ∷ []))
        × ((t.vbars v).watermark ≡ (s.vbars v).nr_pages)
  unfolding vbar_prioritize one_time_dirty set_watermark
  vbar_prioritize-Moved other s v clamp inv i =
      let s1 = one_time_dirty (record s { malloc_async_clamp = clamp }) in
      let inv1 : Inv other s1 = record {
        distinct = inv.distinct;
        valid = inv.valid;
        accounted = inv.accounted;
      } in
      let inv2 = Inv-reinsert other s1 v inv1 i in
      (
        record {
          inv =
              Inv-set_watermark other (insert_vbar (remove_vbar s1 v) v) v (s.vbars v).nr_pages
                (omega arith) inv2;
          listed = λ u. relisted v u s.order i;
          others = λ u ne. ground arith;
          pages = λ m. ground arith;
        },
        refl,
        ground arith,
      )

  -- From true accounts, a listed VBAR that is deprioritized comes first to be reclaimed; the list
  -- names the same VBARs, no VBAR changes, and the accounts stay true.
  pub vbar_deprioritize-Moved :
      (other : ℕ) (s : State W) (v : ℕ)
      → Inv other s
      → v ∈ s.order
      → let t = vbar_deprioritize s v in
        Moved other s t v × (t.order ≡ v ∷ without v s.order) × (t.vbars ≡ s.vbars)
  unfolding vbar_deprioritize one_time_dirty
  vbar_deprioritize-Moved other s v inv i =
      let s1 = one_time_dirty s in
      let inv1 : Inv other s1 = record {
        distinct = inv.distinct;
        valid = inv.valid;
        accounted = inv.accounted;
      } in
      (
        record {
          inv = Inv-reinsert_last other s1 v inv1 i;
          listed = λ u. relisted_last v u s.order i;
          others = λ u ne. refl;
          pages = λ m. refl;
        },
        refl,
        refl,
      )
