-- ===== src/Vbar/Lifecycle/Birth.antt =====
-- `vbar_allocate` of src/model-vbar.c.
use comfy_aimdo_xpu.Base.{
  ℕ, ◌*◌, ◌≡◌, ◌≢◌, ◌≤◌, ◌<◌, ◌⊎◌, inl, inr, arith, ◌++◌, ◌∷◌, [], Option, ◌∉◌, suc, ◌/◌, ◌^◌, ◌%◌,
  Bool-cases, sum_over-same, refl, zero, min, Option-cases, ◌==◌,
}
use comfy_aimdo_xpu.Gpu.{Gpu, check_cu}
use comfy_aimdo_xpu.Devctx.{State, page, set_vbar}
use comfy_aimdo_xpu.Vbar.Lifecycle.{reserve_vbar, no_page, vbar_allocate}
use comfy_aimdo_xpu.Vbar.Invariant.{count_mapped, Inv}
use comfy_aimdo_xpu.Vbar.Evict.{one_time_dirty, set_world}
use comfy_aimdo_xpu.Vbar.Pages.{vbar_page_size, vbar_metadata_allocation_size}
use comfy_aimdo_xpu.Vbar.Lifecycle.Listing.{
  Distinct-append_one, has-append_one, sum_over-append_one,
}
use comfy_aimdo_xpu.Vbar.Pages.Ranges.{vbar_page_count_least}

count_mapped-new : (n : ℕ) → count_mapped (λ m. no_page) n ≡ 0
count_mapped-new zero = refl
count_mapped-new (suc n) = omega (arith, count_mapped-new n)

-- `t` is `s` with a new VBAR at `v`, at the end of the list, with its watermark at its size, nothing
-- in memory, and room for `size` bytes or as many pages as the device holds.
pub record Born {W : Type 0} (other : ℕ) (s t : State W) (v size : ℕ) : Type 0 where
  pub inv : Inv other t
  pub last : t.order ≡ s.order ++ (v ∷ [])
  pub others : (u : ℕ) → u ≢ v → t.vbars u ≡ s.vbars u
  pub whole : (t.vbars v).watermark ≡ (t.vbars v).nr_pages
  pub empty : (m : ℕ) → page t v m ≡ no_page
  pub covers :
      (size ≤ (t.vbars v).nr_pages * vbar_page_size)
      ⊎ ((t.vbars v).nr_pages ≡ s.vram_capacity / vbar_page_size)

-- The VBARs and the list are those of `s`.
pub record Unborn {W : Type 0} (s t : State W) : Type 0 where
  pub order : t.order ≡ s.order
  pub vbars : t.vbars ≡ s.vbars
  pub usage : t.total_vram_usage ≡ s.total_vram_usage

abbrev reserved_at :
    {W : Type 0} → State W → (v base : ℕ) (nr_pages size device : ℕ) → Option ℕ → State W
reserved_at s v base nr_pages size device callback = set_vbar s v (record {
  vbar = base;
  nr_pages = nr_pages;
  watermark = nr_pages;
  watermark_limit = 0;
  device = device;
  resident_count = 0;
  pageout_size = size;
  pageout_callback = callback;
  residency_map = λ n. no_page;
})

module _ {W : Type 0} (gpu : Gpu W) where
  -- `calloc` gives an address that no VBAR has.
  reserve_vbar-Born :
      (other : ℕ) (s : State W) (v nr_pages size device : ℕ) (callback : Option ℕ)
      → Inv other s
      → v ∉ s.order
      → v ≢ 0
      → nr_pages * vbar_page_size < 2 ^ 64
      → (size ≤ nr_pages * vbar_page_size) ⊎ (nr_pages ≡ s.vram_capacity / vbar_page_size)
      → let (r, t) = reserve_vbar gpu s v nr_pages size device callback in
        ((r ≡ 0) × Unborn s t) ⊎ ((r ≢ 0) × (r ≡ v) × Born other s t r size)
  unfolding reserve_vbar one_time_dirty
  reserve_vbar-Born other s v nr_pages size device callback inv fresh nz fits covers =
      let (err, base, w) = gpu.address_reserve ((nr_pages * vbar_page_size) % 2 ^ 64) s.world in
      let t = (reserved_at s v base nr_pages size device callback) in
      let f : ℕ → ℕ = λ u. (s.vbars u).resident_count in
      let g : ℕ → ℕ = λ u. (t.vbars u).resident_count in
      elim (Bool-cases (check_cu err)) [
        | inr e ↦ rw e (inl (refl, record { order = refl; vbars = refl; usage = refl }))
        | inl e ↦ rw e (
            inr (
              nz,
              refl,
              record {
                inv = record {
                  distinct = Distinct-append_one v s.order inv.distinct fresh;
                  valid = λ u j.
                      ground
                        (arith, has-append_one v u s.order, inv.valid u, count_mapped-new nr_pages);
                  accounted = ground (
                    arith,
                    inv.accounted,
                    sum_over-append_one g v s.order,
                    sum_over-same f g v s.order (λ q ne. ground arith) fresh,
                  );
                };
                last = refl;
                others = λ u ne. ground arith;
                whole = ground arith;
                empty = λ m. ground arith;
                covers = ground arith;
              },
            ))
      ]

  -- From true accounts, for 64-bit sizes, where `calloc` gives the address of no listed VBAR: an
  -- allocation returns 0 and leaves the VBARs, their list and the usage alone, or returns the
  -- address of a new VBAR that holds nothing yet, comes last to be reclaimed, and has room for the
  -- size or for the device's capacity.
  pub vbar_allocate-Born :
      (other sizeof_vbar sizeof_page : ℕ) (s : State W) (size device : ℕ) (callback : Option ℕ)
      → Inv other s
      → size < 2 ^ 64
      → s.vram_capacity < 2 ^ 64
      → ((bytes : ℕ) (w : W) → (gpu.calloc bytes w).0 ∉ s.order)
      → let (r, t) = vbar_allocate gpu sizeof_vbar sizeof_page s size device callback in
        ((r ≡ 0) × Unborn s t) ⊎ ((r ≢ 0) × Born other s t r size)
  unfolding vbar_allocate
  vbar_allocate-Born other sizeof_vbar sizeof_page s size device callback inv h cap fresh =
      elim (vbar_page_count_least size h) [
        | inl (e, _) ↦ rw (e, vbar_allocate) (inl (refl, unborn))
        | inr (pages, e, enough, _) ↦
            let n = min (s.vram_capacity / vbar_page_size) pages in
            elim (Option-cases (vbar_metadata_allocation_size sizeof_vbar sizeof_page n)) [
              | inl e2 ↦ rw (e, vbar_allocate, e2) (inl (refl, unborn))
              | inr (bytes, e2) ↦
                  let (v, w) = gpu.calloc bytes s.world in
                  elim (Bool-cases (v == 0)) [
                    | inl e3 ↦
                        rw (e, vbar_allocate, e2, e3)
                          (inl (refl, record { order = refl; vbars = refl; usage = refl }))
                    | inr e3 ↦
                        rw (e, vbar_allocate, e2, e3)
                          (answer (
                            reserve_vbar-Born other (set_world s w) v n size device callback
                              (record {
                                distinct = inv.distinct;
                                valid = inv.valid;
                                accounted = inv.accounted;
                              })
                              (fresh bytes s.world) (ground arith) (omega arith) (ground arith)))
                  ]
            ]
      ]
    where
      unborn : Unborn s s
      unborn = record { order = refl; vbars = refl; usage = refl }

      answer :
          {r v : ℕ} {w : W} {t : State W}
          → ((r ≡ 0) × Unborn (set_world s w) t)
            ⊎ ((r ≢ 0) × (r ≡ v) × Born other (set_world s w) t r size)
          → ((r ≡ 0) × Unborn s t) ⊎ ((r ≢ 0) × Born other s t r size)
      answer (inl (z, u)) = inl (z, record { order = u.order; vbars = u.vbars; usage = u.usage })
      answer (inr (nz, _, b)) = inr (
        nz,
        record {
          inv = b.inv;
          last = b.last;
          others = b.others;
          whole = b.whole;
          empty = b.empty;
          covers = b.covers;
        },
      )
