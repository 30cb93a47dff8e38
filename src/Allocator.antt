-- ===== src/Allocator.antt =====
-- Allocations that are routed here, src/pyt-cu-plug-alloc-async.c: the table of their sizes, and the
-- calls that make room before the driver's own allocator runs.
pub mod Table
pub mod Contract
use Prim.Native.Nat.{bit_xor}
use comfy_aimdo_xpu.Vbar.Evict.{set_world}
use comfy_aimdo_xpu.Base.{
  ℕ, List, ◌*◌, Bool, if◌then◌else◌, ◌==◌, leb, Option, min, not, none, ltb, update, [], ◌∷◌, some,
  ◌/◌, ◌^◌, ◌%◌,
}
use comfy_aimdo_xpu.Devctx.{State, add64, sub64}
use comfy_aimdo_xpu.Gpu.{CuResult, Gpu, check_cu, success, unknown}
use comfy_aimdo_xpu.Base.Int.{ℤ, signed64}
use comfy_aimdo_xpu.Devctx.Budget.{budget_deficit}
use comfy_aimdo_xpu.Vbar.Reclaim.{vbars_free}
use comfy_aimdo_xpu.VramBuffer.{cuda_page_size, align_up}

abbrev pub size_hash_size : ℕ
size_hash_size = 1024

-- CUDA_MALLOC_HEADROOM
abbrev pub cuda_malloc_headroom : ℕ
cuda_malloc_headroom = 128 * 1024 * 1024

pub record SizeEntry : Type 0 where
  pub ptr : ℕ
  pub size : ℕ

-- The device context with its `_size_table`; a chain is a list from its head.
pub record Allocations (W : Type 0) : Type 0 where
  pub context : State W
  pub size_table : ℕ → List SizeEntry

-- What the calls use of the driver's allocator and of the rest of the library: each call of the true
-- allocator, `malloc` of a table entry (whether there is memory), `free_rogue`, `malloc_graph_alloc`
-- and `malloc_graph_free` (none where they decline).
pub record Routes (W : Type 0) : Type 0 where
  pub true_alloc : (size : ℕ) → W → CuResult × ℕ × W
  pub true_free : (ptr : ℕ) → W → CuResult × W
  pub true_alloc_async : (size stream : ℕ) → W → CuResult × ℕ × W
  pub true_free_async : (ptr stream : ℕ) → W → CuResult × W
  pub entry_malloc : W → Bool × W
  pub free_rogue : (ptr : ℕ) → Allocations W → Option CuResult × Allocations W
  pub graph_alloc : (size stream : ℕ) → Allocations W → Option (CuResult × ℕ) × Allocations W
  pub graph_free : (ptr stream : ℕ) → Allocations W → Option CuResult × Allocations W

unfoldable pub size_hash : ℕ → ℕ
size_hash ptr = bit_xor (ptr / 2 ^ 10) (ptr / 2 ^ 21) % size_hash_size

unfoldable pub accounted_alloc_size : ℕ → ℕ
accounted_alloc_size size =
    if leb size 1024
    then 1024
    else if ltb (cuda_page_size / 2) size
    then align_up size cuda_page_size
    else size

-- The search of `account_free`: the size of the first entry of `ptr`, and the chain without it.
unfoldable pub unlink : (ptr : ℕ) → List SizeEntry → Option (ℕ × List SizeEntry)
unlink ptr [] = none
unlink ptr (entry ∷ rest) =
    let found = unlink ptr rest in
    if entry.ptr == ptr
    then some (entry.size, rest)
    else elim found [ none ↦ none | some (size, chain) ↦ some (size, entry ∷ chain) ]

module _ {W : Type 0} where
  abbrev pub set_context : Allocations W → State W → Allocations W
  set_context a s = record a { context = s }

  abbrev pub set_alloc_world : Allocations W → W → Allocations W
  set_alloc_world a w = set_context a (set_world a.context w)

  -- `made` is whether there is memory for the entry.
  unfoldable pub account_alloc : (made : Bool) → (ptr size : ℕ) → Allocations W → Allocations W
  unfolding size_hash accounted_alloc_size
  account_alloc made ptr size a =
      let h = size_hash ptr in
      let s = a.context in
      let s1 = record s {
        total_vram_usage = add64 s.total_vram_usage (accounted_alloc_size size);
      } in
      let entry : SizeEntry = record { ptr = ptr; size = size } in
      record {
        context = s1;
        size_table = if made then update a.size_table h (entry ∷ a.size_table h) else a.size_table;
      }

  unfoldable pub account_free : (ptr : ℕ) → Allocations W → Allocations W
  unfolding size_hash accounted_alloc_size unlink
  account_free ptr a =
      let h = size_hash ptr in
      let s = a.context in
      elim (unlink ptr (a.size_table h)) [
        | none ↦ a
        | some (size, chain) ↦ record {
          context = record s {
            total_vram_usage = sub64 s.total_vram_usage (accounted_alloc_size size);
          };
          size_table = update a.size_table h chain;
        }
      ]

  -- The driver's free, and the accounting if it succeeds.
  unfoldable pub free_accounted :
      (free : W → CuResult × W) → (ptr : ℕ) → Allocations W → CuResult × Allocations W
  unfolding account_free
  free_accounted free ptr a =
      let (status, w) = free a.context.world in
      let a1 = set_alloc_world a w in
      if check_cu status then (status, account_free ptr a1) else (status, a1)

module _ {W : Type 0} (routes : Routes W) where
  -- `account_alloc` with the `malloc` of its entry.
  unfoldable pub account_new : (ptr size : ℕ) → Allocations W → Allocations W
  unfolding account_alloc
  account_new ptr size a =
      let (made, w) = routes.entry_malloc a.context.world in
      set_alloc_world (account_alloc made ptr size a) w

  -- A try of the true allocator, and where it fails what comes after.
  unfoldable pub try_alloc :
      (alloc : W → CuResult × ℕ × W)
      → (size : ℕ) → (otherwise : CuResult → Allocations W → CuResult × ℕ × Allocations W)
      → Allocations W
      → CuResult × ℕ × Allocations W
  unfolding account_new
  try_alloc alloc size otherwise a =
      let (status, dptr, w) = alloc a.context.world in
      let a1 = set_alloc_world a w in
      if check_cu status then (success, dptr, account_new dptr size a1) else otherwise status a1

  unfoldable pub aimdo_cuda_free :
      (given ours : Bool) → (ptr : ℕ) → Allocations W → CuResult × Allocations W
  unfolding free_accounted
  aimdo_cuda_free given ours ptr a =
      let (status, w) = routes.true_free ptr a.context.world in
      let (taken, a1) = routes.free_rogue ptr a in
      let freed? = free_accounted (routes.true_free ptr) ptr a1 in
      if ptr == 0
      then (success, a)
      else if not given
      then (1, a)
      else if not ours
      then (status, set_alloc_world a w)
      else elim taken [ some result ↦ (result, a1) | none ↦ freed? ]

  unfoldable pub aimdo_cuda_free_async :
      (given ours : Bool) → (ptr stream : ℕ) → Allocations W → CuResult × Allocations W
  unfolding free_accounted
  aimdo_cuda_free_async given ours ptr stream a =
      let (status, w) = routes.true_free_async ptr stream a.context.world in
      let (taken, a1) = routes.free_rogue ptr a in
      let (graphed, a2) = routes.graph_free ptr stream a1 in
      let freed? = free_accounted (routes.true_free_async ptr stream) ptr a2 in
      if ptr == 0
      then (success, a)
      else if not given
      then (1, a)
      else if not ours
      then (status, set_alloc_world a w)
      else elim taken [
        | some result ↦ (result, a1)
        | none ↦ elim graphed [ some result ↦ (result, a2) | none ↦ freed? ]
      ]

module _ {W : Type 0} (gpu : Gpu W) where
  -- Room for `deficit` bytes before what comes after, which does not run if a writeback fails.
  unfoldable pub make_room :
      (deficit : ℤ)
      → (after : Allocations W → CuResult × ℕ × Allocations W) → Allocations W
      → CuResult × ℕ × Allocations W
  make_room deficit after a =
      let (ok, s) = vbars_free gpu a.context deficit in
      let a1 = set_context a s in if ok then after a1 else (unknown, 0, a1)

module _ {W : Type 0} (gpu : Gpu W) (routes : Routes W) where
  -- Both allocations once they know that the device is one of the library's: `need` bytes of budget
  -- for the first try, `force` bytes of room for the second, which `vbars_free` takes as an `ssize_t`.
  unfoldable pub alloc_with_room :
      (alloc : W → CuResult × ℕ × W)
      → (size need force : ℕ) → Allocations W
      → CuResult × ℕ × Allocations W
  unfolding try_alloc make_room
  alloc_with_room alloc size need force a =
      let (deficit, s) = budget_deficit gpu a.context need in
      let second =
        make_room gpu (signed64 force) (try_alloc routes alloc size (λ status b. (status, 0, b))) in
      make_room gpu deficit (try_alloc routes alloc size (λ status b. second b)) (set_context a s)

  -- The result, `*devPtr`, and the allocations; `given` is that no pointer passed is null, `ours`
  -- what `set_devctx_for_current_cuda_device()` returns, `old` the value of `*devPtr` before.
  unfoldable pub aimdo_cuda_malloc :
      (given ours : Bool) → (old size : ℕ) → Allocations W → CuResult × ℕ × Allocations W
  unfolding alloc_with_room
  aimdo_cuda_malloc given ours old size a =
      let (status, dptr, w) = routes.true_alloc size a.context.world in
      let need = add64 size cuda_malloc_headroom in
      if not given
      then (1, old, a)
      else if not ours
      then (status, dptr, set_alloc_world a w)
      else alloc_with_room (routes.true_alloc size) size need need a

  unfoldable pub aimdo_cuda_malloc_async :
      (given ours : Bool) → (old size stream : ℕ) → Allocations W → CuResult × ℕ × Allocations W
  unfolding alloc_with_room
  aimdo_cuda_malloc_async given ours old size stream a =
      let (status, dptr, w) = routes.true_alloc_async size stream a.context.world in
      let (taken, a1) = routes.graph_alloc size stream a in
      let made =
        alloc_with_room (routes.true_alloc_async size stream) size
          (min size a1.context.malloc_async_clamp) size a1 in
      if not given
      then (1, old, a)
      else if not ours
      then (status, dptr, set_alloc_world a w)
      else elim taken [ some (result, ptr) ↦ (result, ptr, a1) | none ↦ made ]
