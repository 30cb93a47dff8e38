-- ===== src/VramBuffer/Accounts.antt =====
-- What the fields of a buffer of src/vrambuf.c say of each other, and its bytes in the usage.
use comfy_aimdo_xpu.Base.{ℕ, ◌+◌, ◌*◌, ◌/◌, ◌^◌, ◌≡◌, ◌≤◌, ◌<◌, ◌⊎◌, arith}
use comfy_aimdo_xpu.Devctx.{State, add64, sub64}
use comfy_aimdo_xpu.VramBuffer.{VramBuffer, vram_chunk_size}
use comfy_aimdo_xpu.Vbar.Invariant.{Inv}
use comfy_aimdo_xpu.Vbar.Evict.{set_world}

-- Every chunk but the last is whole, and the last stops short only at the end of the range.
pub record IsSound (buf : VramBuffer) : Type 0 where
  pub within : buf.allocated ≤ buf.max_size
  pub sized : buf.max_size < 2 ^ 62
  pub counted : buf.allocated ≤ buf.handle_count * vram_chunk_size
  pub tight : buf.handle_count * vram_chunk_size < buf.allocated + vram_chunk_size
  pub whole : (buf.allocated ≡ buf.handle_count * vram_chunk_size) ⊎ (buf.allocated ≡ buf.max_size)

-- In the memory that `vrambuf_create` asks for, there is room for every handle of a sound buffer.
pub IsSound-handles_fit :
    (buf : VramBuffer) → IsSound buf → buf.handle_count * 8 ≤ 8 + 8 * buf.max_size / vram_chunk_size
IsSound-handles_fit buf h = omega (arith, h.within, h.counted, h.tight, h.whole)

module _ {W : Type 0} where
  pub Inv-more :
      (other size : ℕ) (s : State W) (w : W)
      → Inv other s
      → Inv
          (other + size)
          (record s { total_vram_usage = add64 s.total_vram_usage size; world = w })
  Inv-more other size s w h = record {
    distinct = h.distinct;
    valid = h.valid;
    accounted = omega (arith, h.accounted);
  }

  pub Inv-world : (other : ℕ) (s : State W) (w : W) → Inv other s → Inv other (set_world s w)
  Inv-world other s w h = record { distinct = h.distinct; valid = h.valid; accounted = h.accounted }

  pub Inv-less :
      (other size : ℕ) (s : State W) (w : W)
      → size < 2 ^ 64
      → Inv (other + size) s
      → Inv other (record s { total_vram_usage = sub64 s.total_vram_usage size; world = w })
  Inv-less other size s w l h = record {
    distinct = h.distinct;
    valid = h.valid;
    accounted = omega (arith, h.accounted);
  }
