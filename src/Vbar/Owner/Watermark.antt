-- ===== src/Vbar/Owner/Watermark.antt =====
-- Pages above a watermark: the loops of `mod1` in `vbar_set_watermark` and `vbar_unpin_stream` of
-- src/model-vbar.c.
use comfy_aimdo_xpu.Base.{
  ℕ, zero, suc, ◌+◌, ◌-◌, ◌≡◌, ◌≢◌, ◌≤◌, ◌<◌, ◌⊎◌, inl, inr, arith, ◌==◌, ◌∈◌, true, leb, false,
  ltb, Bool-cases, Bool, refl, subst, ◌^◌,
}
use comfy_aimdo_xpu.Gpu.{Gpu}
use comfy_aimdo_xpu.Vbar.Evict.{
  mod1, sync_if, synchronize, one_time_dirty, unmap_page, release_page, writeback_failed, can_free,
  write_back, Mod, retained, freed,
}
use comfy_aimdo_xpu.Devctx.{State, page, add64}
use comfy_aimdo_xpu.Vbar.Owner.{mod_pages, vbar_unpin_stream, pages_of, mod_outcome}
use comfy_aimdo_xpu.Vbar.Invariant.{Inv}
use comfy_aimdo_xpu.Vbar.Evict.Steps.{Evicts, Evicts-trans, next, here, dirtied}
use comfy_aimdo_xpu.Vbar.Evict.Spares.{Evicts-handle, Evicts-pin, Evicts-order, Evicts-shape}
use comfy_aimdo_xpu.Vbar.Evict.Single.{mod1-Evicts, sync_if-Evicts}
use comfy_aimdo_xpu.Vbar.Pages.{vbar_get_page_nr_up, vbar_page_size}
use comfy_aimdo_xpu.Vbar.Fault.{unpin_pages}
use comfy_aimdo_xpu.Vbar.Owner.Unpinning.{
  unpin_pages-order, unpin_pages-nr_pages, mod_pages-Evicts, IsPageOf, IsPageOf-pages_of,
}

-- The page has no memory, or a pin holds it.
pub record GoneOrPinned {W : Type 0} (t : State W) (v m : ℕ) : Type 0 where
  pub either : ((page t v m).handle ≡ 0) ⊎ ((page t v m).pin_count ≢ 0)

module _ {W : Type 0} where
  pub GoneOrPinned-Evicts :
      {t u : State W} (v m : ℕ) → Evicts t u → GoneOrPinned t v m → GoneOrPinned u v m
  GoneOrPinned-Evicts v m p h = record {
    either = ground (arith, h.either, Evicts-handle p v m, Evicts-pin p v m);
  }

module _ {W : Type 0} (gpu : Gpu W) where
  mod1-GoneOrPinned :
      (s : State W) (v n : ℕ) (b : Bool)
      → b ≡ true
      → (mod1 gpu s v n b false).0 ≢ writeback_failed
      → GoneOrPinned (mod1 gpu s v n b false).1 v n
  unfolding mod1 unmap_page release_page
  mod1-GoneOrPinned s v n false h ne = absurd cc
  mod1-GoneOrPinned s v n true h ne = elim (Bool-cases (can_free (page s v n) true false)) [
    | inr e ↦ rw e (record { either = ground arith })
    | inl e ↦ elim (Bool-cases (write_back gpu s (s.vbars v) n).0) [
      | inr e2 ↦ absurd (ne (rw (e, e2) refl))
      | inl e2 ↦ rw (e, e2) (record { either = inl (ground arith) })
    ]
  ]

  -- The loop has tried each page from `bound` on.
  pub mod_pages-GoneOrPinned :
      (count : ℕ) (s : State W) (v n bound m : ℕ)
      → v ∈ s.order
      → count ≤ (s.vbars v).nr_pages - n
      → (mod_pages gpu count s v n bound).0 ≡ true
      → n ≤ m
      → m < n + count
      → bound ≤ m
      → GoneOrPinned (mod_pages gpu count s v n bound).1 v m
  unfolding mod_pages
  mod_pages-GoneOrPinned zero s v n bound m i h ok l u b = absurd (omega arith)
  mod_pages-GoneOrPinned (suc count) s v n bound m i h ok l u b =
      outcome
        (λ l1 ok1. mod_pages-GoneOrPinned count s1 v (n + 1) bound m j h1 ok1 l1 (omega arith) b)
        (mod1 gpu s v n (leb bound n) false).0 refl ok
    where
      s1 : State W
      s1 = (mod1 gpu s v n (leb bound n) false).1

      p : Evicts s s1
      p = mod1-Evicts gpu s v n (leb bound n) i (omega arith)

      j : v ∈ s1.order
      j = rw (Evicts-order p) i

      h1 : count ≤ (s1.vbars v).nr_pages - (n + 1)
      h1 = rw ((Evicts-shape p v).nr_pages) (omega arith)

      rest : Bool × State W
      rest = mod_pages gpu count s1 v (n + 1) bound

      tried :
          (n + 1 ≤ m → rest.0 ≡ true → GoneOrPinned rest.1 v m)
          → (mod1 gpu s v n (leb bound n) false).0 ≢ writeback_failed
          → rest.0 ≡ true
          → GoneOrPinned rest.1 v m
      tried later ne ok1 = elim (Bool-cases (n == m)) [
        | inr e ↦ later (ground arith) ok1
        | inl e ↦
            let same : n ≡ m = ground arith in
            let t : leb bound n ≡ true = ground arith in
            let g : GoneOrPinned s1 v n = mod1-GoneOrPinned s v n (leb bound n) t ne in
            GoneOrPinned-Evicts v m (mod_pages-Evicts gpu count s1 v (n + 1) bound j h1 here)
              (subst (λ x. GoneOrPinned s1 v x) same g)
      ]

      outcome :
          (n + 1 ≤ m → rest.0 ≡ true → GoneOrPinned rest.1 v m)
          → (k : Mod) → (mod1 gpu s v n (leb bound n) false).0 ≡ k
          → (mod_outcome k s1 rest).0 ≡ true
          → GoneOrPinned (mod_outcome k s1 rest).1 v m
      outcome later writeback_failed e ok1 = absurd cc
      outcome later retained e ok1 = tried later (λ x. cc) ok1
      outcome later freed e ok1 = tried later (λ x. cc) ok1

  -- From true accounts, on a listed VBAR, for bytes whose end does not wrap when it is rounded up to a
  -- page: after an unpinning that returns true, each page that the bytes reach into and that is above
  -- the watermark has no memory, unless another pin holds it.
  pub vbar_unpin_stream-GoneOrPinned :
      (other : ℕ) (s : State W) (v offset size m : ℕ)
      → Inv other s
      → v ∈ s.order
      → offset + size + vbar_page_size ≤ 2 ^ 64
      → (vbar_unpin_stream gpu s v offset size).0 ≡ true
      → IsPageOf (s.vbars v) offset size m
      → (s.vbars v).watermark ≤ m
      → GoneOrPinned (vbar_unpin_stream gpu s v offset size).1 v m
  unfolding vbar_unpin_stream one_time_dirty sync_if synchronize
  vbar_unpin_stream-GoneOrPinned other s v offset size m inv i room ok h w =
      let mv = s.vbars v in
      let above = ltb mv.watermark (vbar_get_page_nr_up (add64 offset size)) in
      let (first, count) = pages_of mv offset size in
      let s0 = sync_if gpu above (one_time_dirty s) in
      let p0 : Evicts s s0 =
        Evicts-trans (next here dirtied) (sync_if-Evicts gpu above (one_time_dirty s)) in
      let s1 = unpin_pages count s0 v first in
      let (ok?, s2) = mod_pages gpu count s1 v first mv.watermark in
      let (l, u) = IsPageOf-pages_of mv offset size m room h in
      elim (Bool-cases ok?) [
        | inr e ↦ absurd (ground (arith, rw e at ok))
        | inl e ↦ rw e (
            GoneOrPinned-Evicts v m (sync_if-Evicts gpu above s2) (
              mod_pages-GoneOrPinned count s1 v first mv.watermark m
                (rw (unpin_pages-order count s0 v first, Evicts-order p0) i)
                (rw (unpin_pages-nr_pages count s0 v first v, (Evicts-shape p0 v).nr_pages)
                  (omega arith))
                e l u w))
      ]
