-- ===== src/VramBuffer.antt =====
-- Growing device buffers, src/vrambuf.c in the Linux CUDA build: a reserved range that is filled with
-- memory in chunks of 16 MiB.
pub mod Accounts
pub mod Chunks
pub mod Growth
pub mod Destroy
pub mod Table
use comfy_aimdo_xpu.Base.{
  ℕ, zero, suc, ◌+◌, ◌-◌, ◌*◌, ◌/◌, ◌%◌, ◌^◌, Bool, true, false, not, Option, none, some, ltb, leb,
  ◌==◌, if◌then◌else◌, update, Round, stop, go, rounds, min,
}
use comfy_aimdo_xpu.Base.Int.{pos}
use comfy_aimdo_xpu.Gpu.{Gpu, out_of_memory, check_cu}
use comfy_aimdo_xpu.Devctx.{State, add64, sub64}
use comfy_aimdo_xpu.Devctx.Budget.{budget_deficit, three_stooges}
use comfy_aimdo_xpu.Vbar.Evict.{set_world}
use comfy_aimdo_xpu.Vbar.Reclaim.{vbars_free}

-- `VramBuffer`; the link `next` is of the Windows HIP build.
pub record VramBuffer : Type 0 where
  pub base_ptr : ℕ
  pub max_size : ℕ
  pub allocated : ℕ
  pub handle_count : ℕ
  pub device : ℕ
  pub handles : ℕ → ℕ

abbrev pub cuda_page_size : ℕ
cuda_page_size = 2 ^ 21

abbrev pub vram_chunk_size : ℕ
vram_chunk_size = 16 * 1024 * 1024

-- `ALIGN_UP`, for alignments that are powers of 2
abbrev pub align_up : ℕ → ℕ → ℕ
align_up x align_to = add64 x (align_to - 1) / align_to * align_to

-- Where `vrambuf_grow` stands.
pub record Growing (W : Type 0) : Type 0 where
  pub ok : Bool
  pub buf : VramBuffer
  pub state : State W

module _ {W : Type 0} where
  unfoldable pub add_chunk : Growing W → (handle to_allocate : ℕ) → State W → Growing W
  add_chunk k handle to_allocate s =
      let buf = k.buf in
      record {
        ok = k.ok;
        buf = record buf {
          handles = update buf.handles buf.handle_count handle;
          handle_count = buf.handle_count + 1;
          allocated = buf.allocated + to_allocate;
        };
        state = s;
      }

  unfoldable pub grow_failed : Growing W → State W → Round (Growing W)
  grow_failed k s = stop (record k { ok = false; state = s })

module _ {W : Type 0} (gpu : Gpu W) where
  -- `sizeof_buffer` is the compiler's size of `VramBuffer`, and `found` what
  -- `set_devctx_for_device` returns, which makes the context of the device current.
  unfoldable pub vrambuf_create :
      (sizeof_buffer : ℕ) (found : Bool)
      → State W
      → (device max_size : ℕ) → Option VramBuffer × State W
  vrambuf_create sizeof_buffer found s device size =
      let max_size = align_up size cuda_page_size in
      let bytes = add64 sizeof_buffer ((8 * max_size) % 2 ^ 64 / vram_chunk_size) in
      let (buf, w1) = gpu.calloc bytes s.world in
      let (err, base, w2) = gpu.address_reserve max_size w1 in
      if not found
      then (none, s)
      else if buf == 0
      then (none, set_world s w1)
      else if check_cu err
      then (
        some (record {
          base_ptr = base;
          max_size = max_size;
          allocated = 0;
          handle_count = 0;
          device = device;
          handles = λ n. 0;
        }),
        set_world s w2,
      )
      else (none, set_world s w2)

  -- One chunk, with a second attempt after a reclaim.
  unfoldable pub grow_round : (grow_to : ℕ) → Growing W → Round (Growing W)
  unfolding add_chunk grow_failed
  grow_round grow_to k =
      let buf = k.buf in
      let to_allocate = min (grow_to - buf.allocated) vram_chunk_size in
      let at = add64 buf.base_ptr buf.allocated in
      let (err, handle, s1) = three_stooges gpu k.state at to_allocate buf.device 0 in
      let (ok?, s2) = vbars_free gpu s1 (pos vram_chunk_size) in
      let (err2, handle2, s3) = three_stooges gpu s2 at to_allocate buf.device 0 in
      if not (ltb buf.allocated grow_to)
      then stop k
      else if check_cu err
      then go (add_chunk k handle to_allocate s1)
      else if not (err == out_of_memory)
      then grow_failed k s1
      else if not ok?
      then grow_failed k s2
      else if check_cu err2
      then go (add_chunk k handle2 to_allocate s3)
      else grow_failed k s3

  -- Each round adds at least a byte, so the bytes to go are fuel enough.
  unfoldable pub vrambuf_grow :
      (found : Bool) → State W → VramBuffer → (required_size : ℕ) → Bool × VramBuffer × State W
  unfolding rounds grow_round
  vrambuf_grow found s buf required_size =
      let grow_to = min (align_up required_size vram_chunk_size) buf.max_size in
      let (deficit, s1) = budget_deficit gpu s (sub64 grow_to buf.allocated) in
      let (ok?, s2) = vbars_free gpu s1 deficit in
      let k =
        rounds (grow_to - buf.allocated) (grow_round grow_to)
          (record { ok = true; buf = buf; state = s2 }) in
      if not found
      then (false, buf, s)
      else if ltb buf.max_size required_size
      then (false, buf, s)
      else if leb required_size buf.allocated
      then (true, buf, s)
      else if not ok?
      then (false, buf, s2)
      else (k.ok, k.buf, k.state)

  -- The loop of `vrambuf_destroy` over the handles.
  unfoldable pub release_handles : (count : ℕ) → (handles : ℕ → ℕ) → (i : ℕ) → W → W
  release_handles zero handles i w = w
  release_handles (suc count) handles i w =
      release_handles count handles (i + 1) (gpu.mem_release (handles i) w).1

  unfoldable pub vrambuf_destroy : (found : Bool) → State W → VramBuffer → Bool × State W
  unfolding release_handles
  vrambuf_destroy found s buf =
      let w1 =
        if ltb 0 buf.allocated
        then (gpu.mem_unmap buf.base_ptr buf.allocated s.world).1
        else s.world in
      let w2 = release_handles buf.handle_count buf.handles 0 w1 in
      let w3 = (gpu.address_free buf.base_ptr buf.max_size w2).1 in
      if not found then (false, s) else (
        true,
        record s { total_vram_usage = sub64 s.total_vram_usage buf.allocated; world = w3 },
      )
