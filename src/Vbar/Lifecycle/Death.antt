-- ===== src/Vbar/Lifecycle/Death.antt =====
-- `vbar_free` of src/model-vbar.c.
use comfy_aimdo_xpu.Base.{
  ℕ, zero, suc, ◌+◌, ◌≡◌, ◌≢◌, ◌<◌, inl, inr, arith, none, ◌∈◌, subst, true, refl, Bool-cases, ◌∉◌,
  has, sum_over-pointwise, ◌∙◌, ap,
}
use comfy_aimdo_xpu.Gpu.{Gpu}
use comfy_aimdo_xpu.Devctx.{State, page, Page, set_vbar}
use comfy_aimdo_xpu.Vbar.Invariant.{Inv, Inv-set_page, count_mapped}
use comfy_aimdo_xpu.Vbar.Evict.{
  mod1, release_page, clear_pin, unmap_page, set_world, write_back, page_address, can_free,
  one_time_dirty, synchronize,
}
use comfy_aimdo_xpu.Vbar.Lifecycle.{discard_pages, remove_vbar, vbar_free}
use comfy_aimdo_xpu.Vbar.Evict.Accounts.{released-Inv, Evicts-Inv}
use comfy_aimdo_xpu.Vbar.Pages.{vbar_page_size}
use comfy_aimdo_xpu.Vbar.Lifecycle.Listing.{
  sum_over-without, Distinct-without, has-without_of, without_gone, has-without,
}
use comfy_aimdo_xpu.Vbar.Evict.Steps.{next, here, dirtied, outside}

module _ {W : Type 0} (other : ℕ) (s0 : State W) (v : ℕ) where
  -- The first `n` pages have gone.
  record Discarding (n : ℕ) (s : State W) : Type 0 where
    inv : Inv other s
    order : s.order ≡ s0.order
    nr_pages : (s.vbars v).nr_pages ≡ (s0.vbars v).nr_pages
    silent : (s.vbars v).pageout_callback ≡ none
    others : (u : ℕ) → u ≢ v → s.vbars u ≡ s0.vbars u
    gone : (m : ℕ) → m < n → (page s v m).handle ≡ 0

  cleared_pin :
      (n : ℕ) (s : State W)
      → Discarding n s
      → (page s v n).handle ≡ 0
      → Discarding (n + 1) (clear_pin s v n)
  unfolding clear_pin
  cleared_pin n s d z = record {
    inv = Inv-set_page other s v n _ refl d.inv;
    order = d.order;
    nr_pages = ground (arith, d.nr_pages);
    silent = ground (arith, d.silent);
    others = λ u ne. ground (arith, d.others u ne);
    gone = λ m l. ground (arith, d.gone m);
  }

  released_page :
      (n : ℕ) (s : State W) (w : W)
      → v ∈ s0.order
      → n < (s0.vbars v).nr_pages
      → Discarding n s
      → (page s v n).handle ≢ 0
      → Discarding n (release_page (set_world s w) v n)
        × ((page (release_page (set_world s w) v n) v n).handle ≡ 0)
  unfolding release_page
  released_page n s w i r d m =
      let t = set_world s w in
      let inv1 : Inv other t = record {
        distinct = d.inv.distinct;
        valid = d.inv.valid;
        accounted = d.inv.accounted;
      } in
      (
        record {
          inv = released-Inv other t v n inv1 (rw (d.order) i) (rw (d.nr_pages) r) m;
          order = d.order;
          nr_pages = ground (arith, d.nr_pages);
          silent = ground (arith, d.silent);
          others = λ u ne. ground (arith, d.others u ne);
          gone = λ k l. ground (arith, d.gone k);
        },
        ground arith,
      )

module _ {W : Type 0} (gpu : Gpu W) (other : ℕ) (s0 : State W) (v : ℕ) where
  mod1-Discarding :
      (n : ℕ) (s : State W)
      → v ∈ s0.order
      → n < (s0.vbars v).nr_pages
      → Discarding other s0 v n s
      → Discarding other s0 v (n + 1) (mod1 gpu s v n true true).1
  unfolding mod1 unmap_page write_back
  mod1-Discarding n s i r d =
      let mv = s.vbars v in
      let w1 = (gpu.mem_unmap (page_address mv n) vbar_page_size s.world).1 in
      let w2 = (gpu.mem_release (mv.residency_map n).handle w1).1 in
      elim (Bool-cases (can_free (page s v n) true true)) [
        | inr e ↦ rw e (cleared_pin other s0 v n s d (ground arith))
        | inl e ↦
            let p = released_page other s0 v n s w2 i r d (ground arith) in
            rw (e, d.silent) (cleared_pin other s0 v n _ p.0 p.1)
      ]

  discard_pages-Discarding :
      (count n : ℕ) (s : State W)
      → v ∈ s0.order
      → n + count ≡ (s0.vbars v).nr_pages
      → Discarding other s0 v n s
      → Discarding other s0 v (s0.vbars v).nr_pages (discard_pages gpu count s v n)
  unfolding discard_pages
  discard_pages-Discarding zero n s i e d = subst (λ k. Discarding other s0 v k s) (omega arith) d
  discard_pages-Discarding (suc count) n s i e d =
      discard_pages-Discarding count (n + 1) (mod1 gpu s v n true true).1 i (omega arith)
        (mod1-Discarding n s i (omega arith) d)

count_mapped-none :
    (pages : ℕ → Page) (n : ℕ) → ((m : ℕ) → m < n → (pages m).handle ≡ 0) → count_mapped pages n ≡ 0
count_mapped-none pages zero h = refl
count_mapped-none pages (suc n) h =
    ground (arith, h n, count_mapped-none pages n (λ m l. h m (omega arith)))

-- `t` is `s` without the VBAR `v`.
pub record Dead {W : Type 0} (other : ℕ) (s t : State W) (v : ℕ) : Type 0 where
  pub inv : Inv other t
  pub unlisted : v ∉ t.order
  pub listed : (u : ℕ) → u ≢ v → has u t.order ≡ has u s.order
  pub others : (u : ℕ) → u ≢ v → t.vbars u ≡ s.vbars u

module _ {W : Type 0} where
  Inv-remove_vbar :
      (other : ℕ) (s : State W) (v : ℕ)
      → Inv other s
      → v ∈ s.order
      → (s.vbars v).resident_count ≡ 0
      → Inv other (remove_vbar s v)
  Inv-remove_vbar other s v h i z =
      let e = sum_over-without (λ u. (s.vbars u).resident_count) v s.order h.distinct i in
      record {
        distinct = Distinct-without v s.order h.distinct;
        valid = λ u j. h.valid u (has-without_of v u s.order j);
        accounted = omega (arith, h.accounted, e);
      }

  -- Silencing the writeback changes no count.
  Inv-silent :
      (other : ℕ) (s : State W) (v : ℕ)
      → Inv other s
      → Inv other (set_vbar s v (record (s.vbars v) { pageout_callback = none }))
  Inv-silent other s v h =
      let t = set_vbar s v (record (s.vbars v) { pageout_callback = none }) in
      record {
        distinct = h.distinct;
        valid = λ u i. ground (arith, h.valid u i);
        accounted = ground (
          arith,
          h.accounted,
          sum_over-pointwise (λ u. (s.vbars u).resident_count) (λ u. (t.vbars u).resident_count)
              s.order (λ u. ground arith),
        );
      }

module _ {W : Type 0} (gpu : Gpu W) where
  -- From true accounts, destroying a listed VBAR takes it off the list and gives back the usage of
  -- all its pages, pinned ones included; every other VBAR is as it was and still listed.
  pub vbar_free-Dead :
      (other : ℕ) (s : State W) (v : ℕ)
      → Inv other s
      → v ∈ s.order
      → Dead other s (vbar_free gpu s v) v
  unfolding vbar_free one_time_dirty synchronize
  vbar_free-Dead other s v inv i =
      let s1 = synchronize gpu (one_time_dirty s) in
      let s2 = set_vbar s1 v (record (s1.vbars v) { pageout_callback = none }) in
      let inv1 : Inv other s1 = Evicts-Inv other inv (next (next here dirtied) (outside _)) in
      let start : Discarding other s v 0 s2 = record {
        inv = Inv-silent other s1 v inv1;
        order = refl;
        nr_pages = ground arith;
        silent = ground arith;
        others = λ u ne. ground arith;
        gone = λ m l. absurd (omega arith);
      } in
      let s3 = discard_pages gpu (s2.vbars v).nr_pages s2 v 0 in
      let d : Discarding other s v (s.vbars v).nr_pages s3 =
        discard_pages-Discarding gpu other s v (s2.vbars v).nr_pages 0 s2 i (ground arith) start in
      let listed3 : v ∈ s3.order = rw (d.order) i in
      let none_left : (s3.vbars v).resident_count ≡ 0 =
        (d.inv.valid v listed3).counted
        ∙ (count_mapped-none (s3.vbars v).residency_map (s3.vbars v).nr_pages
            (λ m l. d.gone m (omega (arith, d.nr_pages)))) in
      let inv4 = Inv-remove_vbar other s3 v d.inv listed3 none_left in
      record {
        inv = record { distinct = inv4.distinct; valid = inv4.valid; accounted = inv4.accounted };
        unlisted = without_gone v s3.order;
        listed = λ u ne. has-without v u s3.order ne ∙ ap (λ ps. has u ps) d.order;
        others = d.others;
      }
