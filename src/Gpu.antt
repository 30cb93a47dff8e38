-- ===== src/Gpu.antt =====
-- The GPU driver as the library uses it (src/gpu_dispatch.h): calls that are not in this
-- repository, so each is a parameter. `W` is whatever the outside keeps between calls.
use comfy_aimdo_xpu.Base.{ℕ, ◌+◌, ◌-◌, ◌≡◌, ◌≢◌, Bool, Option, ◌==◌, if◌then◌else◌, ◌&&◌}

-- `CUresult`
abbrev pub CuResult : Type 0
CuResult = ℕ

abbrev pub success : CuResult
success = 0

abbrev pub out_of_memory : CuResult
out_of_memory = 2

abbrev pub unknown : CuResult
unknown = 999

-- `check_cu_impl`, whose logging is not modelled.
abbrev pub check_cu : CuResult → Bool
check_cu r = r == success

-- Each call takes what the source passes, and gives a result, what it writes through pointers, and
-- the outside as it leaves it.
pub record Gpu (W : Type 0) : Type 0 where
  pub mem_create : (size device : ℕ) → W → CuResult × ℕ × W
  pub mem_map : (address size handle : ℕ) → W → CuResult × W
  pub mem_set_access : (address size device : ℕ) → W → CuResult × W
  pub mem_unmap : (address size : ℕ) → W → CuResult × W
  pub mem_release : (handle : ℕ) → W → CuResult × W
  pub address_reserve : (size : ℕ) → W → CuResult × ℕ × W
  pub address_free : (address size : ℕ) → W → CuResult × W
  pub ctx_synchronize : W → CuResult × W
  -- free and total bytes
  pub mem_get_info : W → CuResult × ℕ × ℕ × W
  -- `GET_TICK`, in milliseconds
  pub get_tick : W → ℕ × W
  -- MemAvailable of /proc/meminfo in KiB, if it can be read
  pub mem_available : W → Option ℕ × W
  -- a caller's `pageout_callback`, called with the range to save
  pub pageout : (callback offset size : ℕ) → W → Bool × W
  -- `calloc`, which may fail: a fresh address, or 0
  pub calloc : (size : ℕ) → W → ℕ × W

-- A handle that `cuMemCreate` hands out is not the null handle.
pub record GivesHandles {W : Type 0} (gpu : Gpu W) : Type 0 where
  pub nonzero :
      (size device : ℕ) (w : W)
      → (gpu.mem_create size device w).0 ≡ success
      → (gpu.mem_create size device w).1 ≢ 0

-- The driver's own counts: how often a physical allocation is live under each handle, to which
-- `cuMemCreate` adds one and from which `cuMemRelease` takes one, and the bytes that are mapped, to which
-- `cuMemMap` adds its size and from which `cuMemUnmap` takes it, each when it succeeds. Memory is free
-- again when its handle is released and it is no longer mapped.
pub record Ledger {W : Type 0} (gpu : Gpu W) : Type 0 where
  pub live : W → (handle : ℕ) → ℕ
  pub mapped : W → ℕ
  pub created :
      (size device : ℕ) (w : W)
      → let (err, h, w1) = gpu.mem_create size device w in
        ((x : ℕ) → live w1 x ≡ (if check_cu err && h == x then live w x + 1 else live w x))
        × (mapped w1 ≡ mapped w)
  pub maps :
      (address size handle : ℕ) (w : W)
      → let (err, w1) = gpu.mem_map address size handle w in
        (mapped w1 ≡ (if check_cu err then mapped w + size else mapped w))
        × ((x : ℕ) → live w1 x ≡ live w x)
  pub opens :
      (address size device : ℕ) (w : W)
      → let (err, w1) = gpu.mem_set_access address size device w in
        (mapped w1 ≡ mapped w) × ((x : ℕ) → live w1 x ≡ live w x)
  pub unmaps :
      (address size : ℕ) (w : W)
      → let (err, w1) = gpu.mem_unmap address size w in
        (mapped w1 ≡ (if check_cu err then mapped w - size else mapped w))
        × ((x : ℕ) → live w1 x ≡ live w x)
  pub releases :
      (handle : ℕ) (w : W)
      → let (err, w1) = gpu.mem_release handle w in
        ((x : ℕ) → live w1 x ≡ (if check_cu err && handle == x then live w x - 1 else live w x))
        × (mapped w1 ≡ mapped w)
  pub unreserves :
      (address size : ℕ) (w : W)
      → let (err, w1) = gpu.address_free address size w in
        (mapped w1 ≡ mapped w) × ((x : ℕ) → live w1 x ≡ live w x)
