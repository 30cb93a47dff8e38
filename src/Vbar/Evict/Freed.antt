-- ===== src/Vbar/Evict/Freed.antt =====
-- What `mod1` takes off the recorded usage.
use comfy_aimdo_xpu.Base.{ℕ, ◌+◌, ◌*◌, ◌%◌, ◌^◌, ◌≡◌, arith, ◌≢◌, Bool, false, inl, inr, refl}
use comfy_aimdo_xpu.Gpu.{Gpu}
use comfy_aimdo_xpu.Devctx.{State}
use comfy_aimdo_xpu.Vbar.Evict.{release_page, Mod, freed, mod1, writeback_failed, retained}
use comfy_aimdo_xpu.Vbar.Pages.{vbar_page_size}
use comfy_aimdo_xpu.Vbar.Evict.Single.{mod1_cases}

-- `t` records `pages` pages fewer in use than `s`.
pub record Freed {W : Type 0} (s t : State W) (pages : ℕ) : Type 0 where
  pub usage : (t.total_vram_usage + pages * vbar_page_size) % 2 ^ 64 ≡ s.total_vram_usage % 2 ^ 64

abbrev pub pages_of_mod : Mod → ℕ
pages_of_mod writeback_failed = 0
pages_of_mod retained = 0
pages_of_mod freed = 1

pages_of_not_freed : (m : Mod) → m ≢ freed → pages_of_mod m ≡ 0
pages_of_not_freed writeback_failed h = refl
pages_of_not_freed retained h = refl
pages_of_not_freed freed h = absurd (h refl)

module _ {W : Type 0} where
  pub Freed-none : {s t : State W} → t.total_vram_usage ≡ s.total_vram_usage → Freed s t 0
  Freed-none e = record { usage = omega arith }

  pub Freed-trans : {s t u : State W} (m n : ℕ) → Freed s t m → Freed t u n → Freed s u (n + m)
  Freed-trans m n p q = record { usage = omega (arith, p.usage, q.usage) }

module _ {W : Type 0} (gpu : Gpu W) where
  pub mod1-Freed :
      (s : State W) (v n : ℕ) (b : Bool)
      → let (m, t) = mod1 gpu s v n b false in Freed s t (pages_of_mod m)
  unfolding release_page
  mod1-Freed s v n b = elim (mod1_cases gpu s v n b) [
    | inl (w, e, ne) ↦
        let z = pages_of_not_freed (mod1 gpu s v n b false).0 ne in
        rw (z, e) (record { usage = omega arith })
    | inr (w, e, f, _, _, _) ↦ rw (f, e) (record { usage = omega arith })
  ]
