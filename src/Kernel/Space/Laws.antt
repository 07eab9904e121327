-- ===== src/Kernel/Space/Laws.antt =====
-- `space_map` of sources/kernel/space.c.
use brutal.Base.{
  ℕ, ◌≤◌, ◌<◌, ◌%◌, All, true, false, Option, some, List, [], ◌∷◌, ◌++◌, ◌==◌, if◌then◌else◌, ◌≡◌,
  ◌⊎◌, add64, bit_or,
}
use brutal.Ds.Vec.{capacity, vec_push}
use brutal.Ds.Vec.Laws.{items}
use brutal.Ds.RangeAlloc.{RangeAlloc}
use brutal.Ds.RangeAlloc.Cover.{cover, Taken, AllSmaller}
use brutal.Kernel.Abi.{bad_arguments, out_of_memory}
use brutal.Kernel.Object.{Objects, object_ref}
use brutal.Kernel.Pmm.{PmmRange, page_size}
use brutal.Kernel.Vmm.{VmmRange, vmm_map, vmm_flush, range_has, is_present}
use brutal.Kernel.Vmm.Laws.{IsPages}
use brutal.Kernel.Memory.{Memories, memory_base, memory_size}
use brutal.Kernel.Space.{Mmap, Space, SpaceResult, ok, err, br_mem_user}

abbrev pub request : ℕ → ℕ → ℕ
request whole size = if size == 0 then whole else size

abbrev pub physical : Memories → ℕ → ℕ → ℕ → PmmRange
physical ms object offset size = record {
  base = add64 (memory_base (ms object)) offset;
  size = size;
}

-- The free ranges are whole pages of the space's own part, none of which is mapped.
pub record IsPaged (s : Space) : Type 0 where
  pub pages : All IsPages (items s.alloc)
  pub absent : (a : ℕ) → 0 < cover (items s.alloc) a → is_present s.vmm a ≡ false

-- The memory object is whole pages.
abbrev pub IsPhysical : Memories → ℕ → Type 0
IsPhysical ms object =
    (memory_base (ms object) % page_size ≡ 0) × (memory_size (ms object) % page_size ≡ 0)

-- A range that was taken is whole pages, and none of them is mapped.
record IsUsable (s : Space) (r : VmmRange) : Type 0 where
  pages : IsPages r
  absent : (a : ℕ) → range_has r a ≡ true → is_present s.vmm a ≡ false

-- The space `s'` is `s` with `r`, of the size asked for, taken from the free ranges and mapped.
pub record IsMapped (s : Space) (ms : Memories) (object offset size flags : ℕ) (r : VmmRange)
    (s' : Space) : Type 0 where
  pub taken : Taken s.alloc size r s'.alloc
  pub listed :
      items s'.mmaps ≡ items s.mmaps ++ record { range = r; object = object; offset = offset } ∷ []
  pub page_tables :
      s'.vmm
      ≡ vmm_flush r ∷ vmm_map r (physical ms object offset size) (bit_or br_mem_user flags) ∷ s.vmm
  pub fits : s'.mmaps.len ≤ capacity s'.mmaps
  pub pages : IsPages r

-- The three ends of a call of `space_map` that leaves the address open.
abbrev pub MapCases :
    Space → Memories → Objects → ℕ → ℕ → ℕ → ℕ → SpaceResult → Space → Objects → Type 0
MapCases s ms w object offset size flags res s' w' =
    ((memory_size (ms object) < add64 offset size)
      × (res ≡ err bad_arguments)
      × (s' ≡ s)
      × (w' ≡ w))
    ⊎ ((add64 offset size ≤ memory_size (ms object))
        × (((res ≡ err out_of_memory)
              × (w' ≡ w)
              × (s'.mmaps ≡ s.mmaps)
              × (s'.vmm ≡ s.vmm)
              × ((size ≡ 0) ⊎ AllSmaller s.alloc 0 size))
            ⊎ ((r : VmmRange) × (res ≡ ok r)
                × (w' ≡ object_ref w object)
                × IsMapped s ms object offset size flags r s')))

-- What a call returned, and how it ended.
abbrev Ended :
    Option (SpaceResult × Space × Objects) → (SpaceResult → Space → Objects → Type 0) → Type 0
Ended run P =
    (res : SpaceResult) × (s' : Space) × (w' : Objects) × (run ≡ some (res, s', w')) × P res s' w'

module _ (acquire : ℕ → Option (List Mmap)) where
  -- The space with the mapping, and the free ranges `a`
  abbrev created : Space → Memories → ℕ → ℕ → ℕ → VmmRange → RangeAlloc → Space
  created s ms object offset flags r a = record {
    flags = s.flags;
    vmm =
        vmm_flush r
        ∷ vmm_map r (physical ms object offset r.size) (bit_or br_mem_user flags)
        ∷ s.vmm;
    mmaps = (vec_push acquire s.mmaps (record { range = r; object = object; offset = offset })).1;
    alloc = a;
  }
