-- ===== src/Kernel/Space.antt =====
-- sources/kernel/space.c: address spaces, and the mappings of memory objects in them. The lock makes
-- each operation one step. The page tables are those of Kernel/Vmm, whose assertions are faults.
pub mod Laws
pub mod Unmap
pub mod Destroy
mod Tests
use brutal.Base.{
  ℕ, zero, suc, ◌+◌, Bool, true, false, Option, none, some, List, [], ◌∷◌, length, get_elem?, ltb,
  ◌==◌, if◌then◌else◌, ◌>>=◌, ◌>>◌, add64, bit_or,
}
use brutal.Ds.Bits.{BitsRange}
use brutal.Ds.Vec.{Vec, vec_push, vec_splice}
use brutal.Ds.RangeAlloc.{
  USizeRange, RangeAlloc, range_eq, range_alloc_alloc, range_alloc_unused, range_alloc_used,
}
use brutal.Kernel.Abi.{BrResult, bad_arguments, out_of_memory, bad_address, space}
use brutal.Kernel.Object.{Objects, object_init, object_ref, object_deref}
use brutal.Kernel.Pmm.{PmmRange}
use brutal.Kernel.Vmm.{VmmRange, VmmCall, vmm_flush, vmm_space_destroy, map_range, unmap_range}
use brutal.Kernel.Memory.{Memories, memory_base, memory_size}

-- `object` is the address of a memory object.
pub record Mmap : Type 0 where
  pub range : VmmRange
  pub object : ℕ
  pub offset : ℕ

pub record Space : Type 0 where
  pub flags : ℕ
  pub vmm : List VmmCall
  pub mmaps : Vec Mmap
  pub alloc : RangeAlloc

pub data SpaceResult : Type 0 where
  ok : VmmRange → SpaceResult
  err : BrResult → SpaceResult

abbrev pub br_mem_user : ℕ
br_mem_user = 8

abbrev pub user_range : USizeRange
user_range = record { base = 0x400000; size = 0x800000000000 }

abbrev pub with_alloc : Space → RangeAlloc → Space
with_alloc s a = record s { alloc = a }

unfoldable pub space_mmap_destroy : Space → Objects → ℕ → Option (Space × Objects)
space_mmap_destroy s w index = do
  m ← get_elem? s.mmaps.cells index
  calls ← unmap_range s.vmm m.range
  some (
    record s { mmaps = vec_splice s.mmaps index 1; vmm = vmm_flush m.range ∷ calls },
    object_deref w m.object,
  )

-- The loop of `space_destroy`: a round destroys the mapping at `i`, and the next looks at `i + 1` of
-- the mappings that are left. There are at most as many rounds as mappings.
unfoldable pub space_destroy_loop : ℕ → ℕ → Space → Objects → Option (Space × Objects)
space_destroy_loop zero i s w = some (s, w)
space_destroy_loop (suc left) i s w =
    if ltb i s.mmaps.len
    then (space_mmap_destroy s w i >>= λ r. space_destroy_loop left (i + 1) r.0 r.1)
    else some (s, w)

-- The free ranges and the mappings that are left are released without a look at them, then the page
-- tables, and the memory of the space, which holds the result at that time.
unfoldable pub space_destroy : Space → Objects → Option (Space × Objects)
space_destroy s w = do
  (s', w') ← space_destroy_loop s.mmaps.len 0 s w
  some (
    record s' {
      alloc = record { cells = []; len = 0 };
      mmaps = record { cells = []; len = 0 };
      vmm = vmm_space_destroy ∷ s'.vmm;
    },
    w',
  )

unfoldable pub unmap_loop :
    ℕ → ℕ → Space → Objects → VmmRange → Option (SpaceResult × Space × Objects)
unmap_loop zero i s w r = some (err bad_address, s, w)
unmap_loop (suc left) i s w r = do
  m ← get_elem? s.mmaps.cells i
  let rest = unmap_loop left (i + 1) s w r
  let found = (space_mmap_destroy s w i >>= λ d. some (ok r, d.0, d.1))
  if range_eq m.range r then found else rest

unfoldable pub space_unmap : Space → Objects → VmmRange → Option (SpaceResult × Space × Objects)
space_unmap s w r = unmap_loop s.mmaps.len 0 s w r

module _ (acquire : ℕ → Option (List Mmap)) where
  -- The result of the push is not looked at.
  unfoldable pub space_mmap_create :
      Space → Memories → Objects → ℕ → ℕ → VmmRange → ℕ → Option (Space × Objects)
  space_mmap_create s ms w object offset r flags = do
    let pmm : PmmRange = record { base = add64 (memory_base (ms object)) offset; size = r.size }
    let mapping : Mmap = record { range = r; object = object; offset = offset }
    calls ← map_range s.vmm r pmm (bit_or br_mem_user flags)
    some (
      record s { mmaps = (vec_push acquire s.mmaps mapping).1; vmm = vmm_flush r ∷ calls },
      object_ref w object,
    )

  -- A range that the allocator found: an empty one is a failure.
  abbrev pub mapped : VmmRange → Space × Objects → SpaceResult × Space × Objects
  mapped r (s, w) = (ok r, s, w)

  unfoldable pub map_found :
      Space → Memories → Objects → ℕ → ℕ → VmmRange → ℕ → Option (SpaceResult × Space × Objects)
  map_found s ms w object offset r flags =
      let made = (space_mmap_create s ms w object offset r flags >>= λ x. some (mapped r x)) in
      if r.size == 0 then some (err out_of_memory, s, w) else made

module _ (acquire : ℕ → Option (List Mmap)) (acquire_ranges : ℕ → Option (List USizeRange)) where
  unfoldable pub space_create : Objects → ℕ → ℕ → Option (Space × Objects)
  space_create w o flags = do
    alloc ← range_alloc_unused acquire_ranges (record { cells = []; len = 0 }) user_range
    some (
      record { flags = flags; vmm = []; mmaps = record { cells = []; len = 0 }; alloc = alloc },
      object_init w o space,
    )

  -- `space_map` for a size that is not 0.
  unfoldable pub map_sized :
      Space → Memories → Objects → ℕ → ℕ → ℕ → ℕ → ℕ → Option (SpaceResult × Space × Objects)
  map_sized s ms w object offset size vaddr flags =
      let anywhere =
        (range_alloc_alloc s.alloc size >>= λ r.
        map_found acquire (with_alloc s r.1) ms w object offset r.0 flags) in
      let fixed : VmmRange = record { base = vaddr; size = size } in
      let there =
        (range_alloc_used acquire_ranges s.alloc fixed >>= λ a.
        space_mmap_create acquire (with_alloc s a) ms w object offset fixed flags >>= λ x.
        some (mapped acquire fixed x)) in
      if ltb (memory_size (ms object)) (add64 offset size)
      then some (err bad_arguments, s, w)
      else (if vaddr == 0 then anywhere else there)

  unfoldable pub space_map :
      Space → Memories → Objects → ℕ → ℕ → ℕ → ℕ → ℕ → Option (SpaceResult × Space × Objects)
  space_map s ms w object offset size vaddr flags =
      map_sized s ms w object offset (if size == 0 then memory_size (ms object) else size) vaddr
        flags
