-- ===== src/Devctx/Budget/Allocation.antt =====
-- What `three_stooges` leaves behind, on each of its exits.
use comfy_aimdo_xpu.Base.{
  ℕ, ◌+◌, ◌≡◌, ◌≢◌, ◌⊎◌, inl, inr, arith, Bool-cases, refl, ==_iff, if◌then◌else◌, ◌==◌,
}
use comfy_aimdo_xpu.Gpu.{Gpu, Ledger, success, check_cu, GivesHandles}
use comfy_aimdo_xpu.Devctx.{State, add64}
use comfy_aimdo_xpu.Devctx.Budget.{three_stooges}

module _ {W : Type 0} (gpu : Gpu W) (led : Ledger gpu) where
  open led use {live, mapped}

  -- From `w` to `t`, what is live and the bytes that are mapped are the same.
  pub record SameMemory (w t : W) : Type 0 where
    pub live_same : (x : ℕ) → live t x ≡ live w x
    pub mapped_same : mapped t ≡ mapped w

  -- From `w` to `t` the handle `h` has become live once more, and `size` bytes more are mapped.
  pub record MoreMemory (w t : W) (h size : ℕ) : Type 0 where
    pub live_more : (x : ℕ) → live t x ≡ (if h == x then live w x + 1 else live w x)
    pub mapped_more : mapped t ≡ mapped w + size

  -- Where the driver unmaps the range and releases the handle that it has just created, if it is asked
  -- to: on success the handle given is live once more, the bytes are mapped, and the usage counts them;
  -- on failure the driver's live allocations and mapped bytes are as before, and so are the usage and
  -- the caller's handle.
  pub three_stooges_balance :
      (s : State W) (vaddr size device handle : ℕ)
      → ((w : W) → (gpu.mem_release (gpu.mem_create size device s.world).1 w).0 ≡ success)
      → ((w : W) → (gpu.mem_unmap vaddr size w).0 ≡ success)
      → let (err, h, s') = three_stooges gpu s vaddr size device handle in
        ((err ≡ success)
          × MoreMemory s.world s'.world h size
          × (s'.total_vram_usage ≡ add64 s.total_vram_usage size))
        ⊎ ((err ≢ success)
            × SameMemory s.world s'.world
            × (s'.total_vram_usage ≡ s.total_vram_usage)
            × (h ≡ handle))
  unfolding three_stooges
  three_stooges_balance s vaddr size device handle rel unm =
      let (made, h, w1) = gpu.mem_create size device s.world in
      let (joined, w2) = gpu.mem_map vaddr size h w1 in
      let (opened, w3) = gpu.mem_set_access vaddr size device w2 in
      let w4 = (gpu.mem_unmap vaddr size w3).1 in
      let c = led.created size device s.world in
      let m = led.maps vaddr size h w1 in
      let o = led.opens vaddr size device w2 in
      let u = led.unmaps vaddr size w3 in
      elim (Bool-cases (check_cu made)) [
        | inr e ↦ rw e (
            inr (
              ground arith,
              record { live_same = λ x. ground (arith, c.0 x, e); mapped_same = c.1 },
              refl,
              refl,
            ))
        | inl e ↦ elim (Bool-cases (check_cu joined)) [
          | inr e2 ↦
              let r = led.releases h w2 in
              rw (e, e2)
                (inr (
                  ground arith,
                  record {
                    live_same = λ x. ground (arith, r.0 x, rel w2, m.1 x, c.0 x, e);
                    mapped_same = ground (arith, r.1, m.0, c.1, e2);
                  },
                  refl,
                  refl,
                ))
          | inl e2 ↦ elim (Bool-cases (check_cu opened)) [
            | inr e3 ↦
                let r = led.releases h w4 in
                rw (e, e2, e3)
                  (inr (
                    ground arith,
                    record {
                      live_same = λ x. ground (arith, r.0 x, rel w4, u.1 x, o.1 x, m.1 x, c.0 x, e);
                      mapped_same = ground (arith, r.1, u.0, unm w3, o.0, m.0, c.1, e2);
                    },
                    refl,
                    refl,
                  ))
            | inl e3 ↦
                rw (e, e2, e3)
                  (inl (
                    refl,
                    record {
                      live_more = λ x. ground (arith, o.1 x, m.1 x, c.0 x, e);
                      mapped_more = ground (arith, o.0, m.0, c.1, e2);
                    },
                    refl,
                  ))
          ]
        ]
      ]

module _ {W : Type 0} (gpu : Gpu W) (gives : GivesHandles gpu) where
  -- All that `three_stooges` writes of the state, by its result.
  pub three_stooges_cases :
      (s : State W) (vaddr size device handle : ℕ)
      → let (err, h, s') = three_stooges gpu s vaddr size device handle in
        (w : W) × (((err ≡ success)
            × (h ≢ 0)
            × (s' ≡ record s { total_vram_usage = add64 s.total_vram_usage size; world = w }))
          ⊎ ((err ≢ success) × (s' ≡ record s { world = w })))
  unfolding three_stooges
  three_stooges_cases s vaddr size device handle =
      let (created, h, w1) = gpu.mem_create size device s.world in
      let (mapped, w2) = gpu.mem_map vaddr size h w1 in
      let (opened, w3) = gpu.mem_set_access vaddr size device w2 in
      let w4 = (gpu.mem_unmap vaddr size w3).1 in
      elim (Bool-cases (check_cu created)) [
        | inr e ↦ (w1, rw e (inr (ground arith, refl)))
        | inl e ↦ elim (Bool-cases (check_cu mapped)) [
          | inr e2 ↦ ((gpu.mem_release h w2).1, rw (e, e2) (inr (ground arith, refl)))
          | inl e2 ↦ elim (Bool-cases (check_cu opened)) [
            | inr e3 ↦ ((gpu.mem_release h w4).1, rw (e, e2, e3) (inr (ground arith, refl)))
            | inl e3 ↦ (
              w3,
              rw (e, e2, e3)
                  (inl (refl, gives.nonzero size device s.world ((==_iff _ _).0 e), refl)),
            )
          ]
        ]
      ]

  -- A handle that the driver has created on the device, and that is not null.
  pub record IsCreated (device handle : ℕ) : Type 0 where
    pub size : ℕ
    pub before : W
    pub granted : (gpu.mem_create size device before).0 ≡ success
    pub given : (gpu.mem_create size device before).1 ≡ handle
    pub not_null : handle ≢ 0

  pub three_stooges-IsCreated :
      (s : State W) (vaddr size device handle : ℕ)
      → let (err, h, s') = three_stooges gpu s vaddr size device handle in
        err ≡ success → IsCreated device h
  unfolding three_stooges
  three_stooges-IsCreated s vaddr size device handle =
      let (created, h, w1) = gpu.mem_create size device s.world in
      let (mapped, w2) = gpu.mem_map vaddr size h w1 in
      let (opened, w3) = gpu.mem_set_access vaddr size device w2 in
      elim (Bool-cases (check_cu created)) [
        | inr e ↦ rw e (λ ok. absurd (ground (arith, ok, e)))
        | inl e ↦ elim (Bool-cases (check_cu mapped)) [
          | inr e2 ↦ rw (e, e2) (λ ok. absurd (ground (arith, ok, e2)))
          | inl e2 ↦ elim (Bool-cases (check_cu opened)) [
            | inr e3 ↦ rw (e, e2, e3) (λ ok. absurd (ground (arith, ok, e3)))
            | inl e3 ↦
                let made : created ≡ success = (==_iff _ _).0 e in
                rw (e, e2, e3)
                  (λ ok. record {
                    size = size;
                    before = s.world;
                    granted = made;
                    given = refl;
                    not_null = gives.nonzero size device s.world made;
                  })
          ]
        ]
      ]
