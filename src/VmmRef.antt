-- ===== src/VmmRef.antt =====
-- Address ranges and physical allocations with counted references, src/vmm-ref.c.
pub mod Counted
use comfy_aimdo_xpu.Base.{
  ℕ, Option, List, Bool, [], ◌∷◌, if◌then◌else◌, false, ◌==◌, not, ◌&&◌, none, ◌||◌, some,
}
use comfy_aimdo_xpu.Devctx.{add64, sub64}
use comfy_aimdo_xpu.Gpu.{Gpu, CuResult, success, out_of_memory}

-- `VirtualRange`
pub record VirtualRange : Type 0 where
  pub address : ℕ
  pub bytes : ℕ
  pub refs : ℕ

-- `PhysicalPage`, a reference: `name` stands for its own address.
pub record PhysicalPage : Type 0 where
  pub name : ℕ
  pub address : ℕ

-- `PhysicalAllocation`, with its references from the head of their list.
pub record PhysicalAllocation : Type 0 where
  pub handle : ℕ
  pub bytes : ℕ
  pub refs : ℕ
  pub references : List PhysicalPage

-- The usage, and one allocation until it is freed.
pub record Physical (W : Type 0) : Type 0 where
  pub total_vram_usage : ℕ
  pub allocation : Option PhysicalAllocation
  pub world : W

unfoldable pub virtual_range_ref : VirtualRange → VirtualRange
virtual_range_ref range = record range { refs = add64 range.refs 1 }

-- Whether a reference other than `page` has its address.
unfoldable pub shares_address : (page : PhysicalPage) → List PhysicalPage → Bool
shares_address page [] = false
shares_address page (reference ∷ rest) =
    (not (reference.name == page.name) && reference.address == page.address)
    || shares_address page rest

-- `page->address = 0`, in the list of references.
unfoldable pub clear_address : (name : ℕ) → List PhysicalPage → List PhysicalPage
clear_address name [] = []
clear_address name (reference ∷ rest) =
    (if reference.name == name then record reference { address = 0 } else reference)
    ∷ clear_address name rest

-- `*entry = page->next`
unfoldable pub unlink_page : (name : ℕ) → List PhysicalPage → List PhysicalPage
unlink_page name [] = []
unlink_page name (reference ∷ rest) =
    let others = unlink_page name rest in
    if reference.name == name then rest else reference ∷ others

module _ {W : Type 0} (gpu : Gpu W) where
  -- `made` is whether `malloc` has memory. The driver's alignment is its own.
  unfoldable pub virtual_range_alloc : (made : Bool) → (bytes : ℕ) → W → Option VirtualRange × W
  virtual_range_alloc made bytes w =
      let (reserved, address, w1) = gpu.address_reserve bytes w in
      if not made
      then (none, w)
      else if not (reserved == success)
      then (none, w1)
      else (some (record { address = address; bytes = bytes; refs = 1 }), w1)

  -- The result, and the range unless it is freed.
  unfoldable pub virtual_range_unref : VirtualRange → W → CuResult × Option VirtualRange × W
  virtual_range_unref range w =
      let left = sub64 range.refs 1 in
      let (result, w1) = gpu.address_free range.address range.bytes w in
      if not (left == 0)
      then (success, some (record range { refs = left }), w)
      else if not (result == success)
      then (result, some (record range { refs = add64 left 1 }), w1)
      else (result, none, w1)

  -- `name` is the address that `malloc` gives the reference.
  unfoldable pub physical_page_alloc :
      (made : Bool) → (name bytes device : ℕ) → Physical W → CuResult × Physical W
  physical_page_alloc made name bytes device s =
      let (result, handle, w) = gpu.mem_create bytes device s.world in
      let page : PhysicalPage = record { name = name; address = 0 } in
      if not made
      then (out_of_memory, s)
      else if not (result == success)
      then (result, record s { world = w })
      else (
        success,
        record {
          total_vram_usage = add64 s.total_vram_usage bytes;
          allocation =
              some (record { handle = handle; bytes = bytes; refs = 1; references = page ∷ [] });
          world = w;
        },
      )

  -- Of a live allocation `a`, the reference `page`.
  unfoldable pub physical_page_unref :
      PhysicalAllocation → PhysicalPage → Physical W → CuResult × Physical W
  unfolding shares_address clear_address unlink_page
  physical_page_unref a page s =
      let unmaps = not (page.address == 0) && not (shares_address page a.references) in
      let (unmapped, w1) = gpu.mem_unmap page.address a.bytes s.world in
      let world1 = if unmaps then w1 else s.world in
      let references1 =
        if page.address == 0 then a.references else clear_address page.name a.references in
      let (released, w2) = gpu.mem_release a.handle world1 in
      let left = sub64 a.refs 1 in
      if unmaps && not (unmapped == success)
      then (unmapped, record s { world = w1 })
      else if a.refs == 1 && not (released == success)
      then (
        released,
        record s { allocation = some (record a { references = references1 }); world = w2 },
      )
      else if left == 0
      then (
        success,
        record {
          total_vram_usage = sub64 s.total_vram_usage a.bytes;
          allocation = none;
          world = w2;
        },
      )
      else (
        success,
        record s {
          allocation =
              some (record a { refs = left; references = unlink_page page.name references1 });
          world = world1;
        },
      )

-- The new reference, if `malloc` has memory for it.
unfoldable pub physical_page_ref :
    (made : Bool) → (name address : ℕ) → PhysicalAllocation → PhysicalAllocation
physical_page_ref made name address a =
    if made
    then record a {
      refs = add64 a.refs 1;
      references = record { name = name; address = address } ∷ a.references;
    }
    else a
