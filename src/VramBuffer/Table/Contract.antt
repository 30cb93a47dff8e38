-- ===== src/VramBuffer/Table/Contract.antt =====
-- `alloc_fn` and `free_fn` of src/pyt-cu-plug-alloc.c as a whole.
use comfy_aimdo_xpu.Base.{
  none, some, ℕ, Option, ◌≤◌, ◌+◌, ◌≡◌, update_self, ◌∷◌, ◌<◌, some, true, ◌^◌, subst, arith,
  Bool-cases, inl, inr, refl, Option-cases, ◌*◌, ◌%◌, ◌/◌, ◌==◌,
}
use comfy_aimdo_xpu.Gpu.{Gpu, GivesHandles, check_cu}
use comfy_aimdo_xpu.VramBuffer.Table.{enter_buffer, Buffers, fill_buffer, vmm_hash, alloc_fn}
use comfy_aimdo_xpu.VramBuffer.{
  VramBuffer, vrambuf_create, cuda_page_size, vrambuf_grow, align_up, vram_chunk_size,
}
use comfy_aimdo_xpu.Devctx.{State, add64}
use comfy_aimdo_xpu.VramBuffer.Accounts.{IsSound, Inv-world}
use comfy_aimdo_xpu.Vbar.Invariant.{Inv}
use comfy_aimdo_xpu.VramBuffer.Growth.{vrambuf_grow-Grown, vrambuf_destroy-Inv}

-- What `vrambuf_create` leaves, if anything: a buffer without memory.
abbrev IsNew : Option VramBuffer → Type 0
IsNew none = Unit {0}
IsNew (some buf) = IsSound buf × (buf.allocated ≡ 0)

module _ {W : Type 0} where
  -- What an allocation of `size` bytes leaves: its address and the buffers.
  pub data BufferOutcome (other size : ℕ) (b : Buffers W) : ℕ × Buffers W → Type 0 where
    buffer_made :
        (buf : VramBuffer) (c : Buffers W)
        → IsSound buf
        → size ≤ buf.allocated
        → Inv (other + buf.allocated) c.context
        → c.vmm_table (vmm_hash buf.base_ptr) ≡ buf ∷ b.vmm_table (vmm_hash buf.base_ptr)
        → BufferOutcome other size b (buf.base_ptr, c)
    not_made :
        (c : Buffers W)
        → Inv other c.context
        → c.vmm_table ≡ b.vmm_table
        → BufferOutcome other size b (0, c)

  record Created (other : ℕ) (found : Option VramBuffer) (s : State W) : Type 0 where
    inv : Inv other s
    empty : IsNew found

  enter_buffer-made :
      (other size : ℕ) (buf : VramBuffer) (t : State W) (b : Buffers W)
      → IsSound buf
      → size ≤ buf.allocated
      → Inv (other + buf.allocated) t
      → BufferOutcome other size b (buf.base_ptr, enter_buffer buf t b)
  unfolding enter_buffer
  enter_buffer-made other size buf t b sound big inv =
      buffer_made buf _ sound big inv (
        update_self b.vmm_table (vmm_hash buf.base_ptr) (buf ∷ b.vmm_table (vmm_hash buf.base_ptr)))

module _ {W : Type 0} (gpu : Gpu W) (gives : GivesHandles gpu) (other : ℕ) where
  fill_buffer-Outcome :
      (size : ℕ) (buf : VramBuffer) (s : State W) (b : Buffers W)
      → Inv other s
      → IsSound buf
      → buf.allocated ≡ 0
      → BufferOutcome other size b (fill_buffer gpu size buf s b)
  unfolding fill_buffer
  fill_buffer-Outcome size buf s b inv sound z =
      let (ok, grown, t) = vrambuf_grow gpu true s buf size in
      let (g, big) = vrambuf_grow-Grown gpu gives other true s buf size inv sound in
      let charged : Inv (other + grown.allocated) t =
        subst (λ o. Inv o t) (omega (arith, z)) g.inv in
      elim (Bool-cases ok) [
        | inl e ↦ rw e (enter_buffer-made other size grown t b g.sound (big e) charged)
        | inr e ↦ rw e (not_made _ (vrambuf_destroy-Inv gpu other t grown g.sound charged).0 refl)
      ]

  vrambuf_create-Created :
      (sizeof_buffer device size : ℕ) (s : State W)
      → size + cuda_page_size < 2 ^ 62
      → Inv other s
      → let (found, t) = vrambuf_create gpu sizeof_buffer true s device size in
        Created other found t
  unfolding vrambuf_create
  vrambuf_create-Created sizeof_buffer device size s small inv =
      let max_size = align_up size cuda_page_size in
      let bytes = add64 sizeof_buffer ((8 * max_size) % 2 ^ 64 / vram_chunk_size) in
      let (buf, w1) = gpu.calloc bytes s.world in
      let (err, base, w2) = gpu.address_reserve max_size w1 in
      elim (Bool-cases (buf == 0)) [
        | inl e ↦ rw e (record { inv = Inv-world other s w1 inv; empty = tt })
        | inr e ↦ elim (Bool-cases (check_cu err)) [
          | inl f ↦
              rw (e, f)
                (record {
                  inv = Inv-world other s w2 inv;
                  empty = (
                    record {
                      within = omega arith;
                      sized = omega arith;
                      counted = omega arith;
                      tight = omega arith;
                      whole = inl (omega arith);
                    },
                    refl,
                  );
                })
          | inr f ↦ rw (e, f) (record { inv = Inv-world other s w2 inv; empty = tt })
        ]
      ]

  -- From true accounts, an allocation either gives the address of a new buffer, which has the size,
  -- stands first in its chain, and whose memory the usage now counts; or it gives NULL, and the
  -- accounts and the table are as before, also where the buffer could not grow. The size is small
  -- against the address space, and the driver gives no null handle.
  pub alloc_fn-Outcome :
      (sizeof_buffer size device : ℕ) (b : Buffers W)
      → size + cuda_page_size < 2 ^ 62
      → Inv other b.context
      → BufferOutcome other size b (alloc_fn gpu sizeof_buffer true size device b)
  unfolding alloc_fn
  alloc_fn-Outcome sizeof_buffer size device b small inv =
      let (created, s) = vrambuf_create gpu sizeof_buffer true b.context device size in
      let c = vrambuf_create-Created sizeof_buffer device size b.context small inv in
      elim (Option-cases created) [
        | inl e ↦ rw e (not_made _ c.inv refl)
        | inr (buf, e) ↦
            let (sound, z) : IsNew (some buf) = subst IsNew e c.empty in
            rw e (fill_buffer-Outcome size buf s b c.inv sound z)
      ]
