-- ===== src/VramBuffer/Table.antt =====
-- Allocations that are device buffers, src/pyt-cu-plug-alloc.c: a hash table of buffers by address.
pub mod Contract
use comfy_aimdo_xpu.Base.{
  ℕ, ◌/◌, List, Bool, update, Option, ◌^◌, [], ◌∷◌, true, none, ◌%◌, if◌then◌else◌, ◌==◌, not, ◌&&◌,
  ◌||◌, some,
}
use comfy_aimdo_xpu.Gpu.{Gpu}
use comfy_aimdo_xpu.Devctx.{State}
use comfy_aimdo_xpu.VramBuffer.{VramBuffer, vrambuf_grow, vrambuf_create, vrambuf_destroy}

-- The device context with its `_vmm_table`; a chain is a list from its head.
pub record Buffers (W : Type 0) : Type 0 where
  pub context : State W
  pub vmm_table : ℕ → List VramBuffer
  pub allocations_dirty : Bool

unfoldable pub vmm_hash : ℕ → ℕ
vmm_hash ptr = ptr / 2 ^ 21 % 2 ^ 12

-- The search of `free_fn`: the first buffer of that address and device, and the chain without it.
unfoldable pub take_buffer :
    (ptr device : ℕ) → List VramBuffer → Option (VramBuffer × List VramBuffer)
take_buffer ptr device [] = none
take_buffer ptr device (entry ∷ rest) =
    let found = take_buffer ptr device rest in
    if entry.base_ptr == ptr && entry.device == device
    then some (entry, rest)
    else elim found [ none ↦ none | some (buf, chain) ↦ some (buf, entry ∷ chain) ]

module _ {W : Type 0} where
  abbrev pub in_context : Buffers W → State W → Buffers W
  in_context b s = record b { context = s }

  unfoldable pub enter_buffer : VramBuffer → State W → Buffers W → Buffers W
  unfolding vmm_hash
  enter_buffer buf s b =
      let h = vmm_hash buf.base_ptr in
      record {
        context = s;
        vmm_table = update b.vmm_table h (buf ∷ b.vmm_table h);
        allocations_dirty = true;
      }

module _ {W : Type 0} (gpu : Gpu W) where
  -- A new buffer grows to its size, or goes again. The address is 0 where the source returns NULL.
  unfoldable pub fill_buffer : (size : ℕ) → VramBuffer → State W → Buffers W → ℕ × Buffers W
  unfolding enter_buffer
  fill_buffer size buf s b =
      let (ok, grown, t) = vrambuf_grow gpu true s buf size in
      if ok
      then (grown.base_ptr, enter_buffer grown t b)
      else (0, in_context b (vrambuf_destroy gpu true t grown).1)

  -- `found` is what `set_devctx_for_device` returns, `sizeof_buffer` the size of a `VramBuffer`.
  unfoldable pub alloc_fn :
      (sizeof_buffer : ℕ) (found : Bool) (size device : ℕ) → Buffers W → ℕ × Buffers W
  unfolding fill_buffer
  alloc_fn sizeof_buffer found size device b =
      let (created, s) = vrambuf_create gpu sizeof_buffer true b.context device size in
      if not found
      then (0, b)
      else elim created [ none ↦ (0, in_context b s) | some buf ↦ fill_buffer size buf s b ]

  unfoldable pub free_fn : (found : Bool) (ptr device : ℕ) → Buffers W → Buffers W
  unfolding take_buffer vmm_hash
  free_fn found ptr device b =
      let h = vmm_hash ptr in
      if ptr == 0 || not found then b else elim (take_buffer ptr device (b.vmm_table h)) [
        | none ↦ b
        | some (buf, chain) ↦ record {
          context = (vrambuf_destroy gpu true b.context buf).1;
          vmm_table = update b.vmm_table h chain;
          allocations_dirty = true;
        }
      ]
