-- ===== src/Vbar/Fault/Live.antt =====
-- The invariant of the loop over a fault's pages, and what each thing that a round does makes of it.
use comfy_aimdo_xpu.Base.{ℕ, ◌+◌, ◌≡◌, ◌≢◌, ◌≤◌, ◌<◌, ◌^◌, arith, refl, ◌∈◌}
use comfy_aimdo_xpu.Devctx.{State, page}
use comfy_aimdo_xpu.Vbar.Invariant.{Inv, Inv-set_page}
use comfy_aimdo_xpu.Vbar.Evict.Steps.{Evicts}
use comfy_aimdo_xpu.Vbar.Evict.Spares.{Evicts-handle, Evicts-order, Evicts-shape}
use comfy_aimdo_xpu.Vbar.Evict.Accounts.{Evicts-Inv}
use comfy_aimdo_xpu.Vbar.Fault.{pin_page}
use comfy_aimdo_xpu.Vbar.Fault.NewPage.{new_page, new_page-Inv}
use comfy_aimdo_xpu.Vbar.Fault.Pins.{Pinned, Pinned-same, Pinned-pin_page, SamePins-Evicts}

module _ {W : Type 0} (other : ℕ) (s0 : State W) (v start end : ℕ) where
  -- The pages before `n` are mapped and hold a pin of this fault each.
  pub record Live (n : ℕ) (s : State W) : Type 0 where
    pub started : start ≤ n
    pub ended : n ≤ end
    pub taken : Pinned s0 s v start n
    pub held : (m : ℕ) → start ≤ m → m < n → (page s v m).handle ≢ 0
    pub inv : Inv other s
    pub listed : v ∈ s.order
    pub room : end ≤ (s.vbars v).nr_pages
    pub below : end ≤ (s.vbars v).watermark

module _ {W : Type 0} {other : ℕ} {s0 : State W} {v start end : ℕ} where
  -- A reclaim takes no page of this fault back, since they are pinned.
  pub Live-Evicts :
      {n : ℕ} {s t : State W}
      → Live other s0 v start end n s
      → Evicts s t
      → end ≤ (t.vbars v).watermark
      → Live other s0 v start end n t
  Live-Evicts {n} {s} {t} l p b = record {
    started = l.started;
    ended = l.ended;
    taken = Pinned-same v start n l.taken (SamePins-Evicts p);
    held = λ m a z. ground (arith, l.held m a z, Evicts-handle p v m, l.taken.pins v m);
    inv = Evicts-Inv other l.inv p;
    listed = rw (Evicts-order p) l.listed;
    room = rw ((Evicts-shape p v).nr_pages) l.room;
    below = b;
  }

  pub Live-pin_page :
      {n : ℕ} {s : State W}
      → Live other s0 v start end n s
      → n < end
      → (page s v n).handle ≢ 0
      → (page s0 v n).pin_count + 1 < 2 ^ 32
      → Live other s0 v start end (n + 1) (pin_page s v n)
  unfolding pin_page
  Live-pin_page {n} {s} l h m b = record {
    started = omega (arith, l.started);
    ended = omega arith;
    taken = Pinned-pin_page v start n l.taken l.started b;
    held = λ k a z. ground (arith, l.held k a);
    inv = Inv-set_page other s v n _ refl l.inv;
    listed = l.listed;
    room = ground (arith, l.room);
    below = ground (arith, l.below);
  }

  pub Live-new_page :
      {n : ℕ} {s : State W} (h : ℕ) (w : W)
      → Live other s0 v start end n s
      → n < end
      → (page s v n).handle ≡ 0
      → h ≢ 0
      → Live other s0 v start end n (new_page s v n h w)
  unfolding new_page
  Live-new_page {n} {s} h w l r z nz = record {
    started = l.started;
    ended = l.ended;
    taken = record { pins = λ u m. ground (arith, l.taken.pins u m) };
    held = λ k a b. ground (arith, l.held k a);
    inv = new_page-Inv other s v n h w l.listed (omega (arith, l.room)) z nz l.inv;
    listed = l.listed;
    room = ground (arith, l.room);
    below = ground (arith, l.below);
  }
