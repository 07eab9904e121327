-- ===== src/Kernel/Space/Tests.antt =====
-- The theorems on sources/kernel/space.c at concrete inputs.
use brutal.Base.{ℕ, false, Option, none, some, List, [], ◌∷◌, replicate, ◌≡◌, refl, arith}
use brutal.Ds.Vec.Laws.{items}
use brutal.Ds.RangeAlloc.{USizeRange}
use brutal.Ds.RangeAlloc.Cover.{Taken}
use brutal.Kernel.Object.{Objects, object_ref, object_deref}
use brutal.Kernel.Abi.{none_}
use brutal.Kernel.Memory.{Memories, memory_pmm_, memory_range, memory_base}
use brutal.Kernel.Space.{Mmap, Space, SpaceResult, space_unmap, space_destroy}
use brutal.Kernel.Vmm.{vmm_map, vmm_unmap, vmm_flush, is_present}
use brutal.Kernel.Space.Laws.{IsMapped}
use brutal.Kernel.Space.Unmap.{space_unmap-IsMapped}
use brutal.Kernel.Space.Destroy.{IsHeld, space_destroy-odd_ones}

abbrev no_mapping : Mmap
no_mapping = record { range = record { base = 0; size = 0 }; object = 0; offset = 0 }

abbrev fresh_mappings : ℕ → Option (List Mmap)
fresh_mappings n = some (replicate n no_mapping)

abbrev no_ranges : ℕ → Option (List USizeRange)
no_ranges n = none

-- One free range of three pages, and room for two mappings.
abbrev small_space : Space
small_space = record {
  flags = 0;
  vmm = [];
  mmaps = record { cells = no_mapping ∷ no_mapping ∷ []; len = 0 };
  alloc = record { cells = record { base = 0x400000; size = 0x3000 } ∷ []; len = 1 };
}

abbrev memories : Memories
memories o = record { type_ = memory_pmm_; range = record { base = 0x8000; size = 0x2000 } }

abbrev objects : Objects
objects = record {
  refs = λ o. 1;
  ids = λ o. o;
  types = λ o. none_;
  global = [];
  next_id = 9;
  destroyed = [];
}

abbrev page_range : USizeRange
page_range = record { base = 0x400000; size = 0x1000 }

abbrev mapped_space : Space
mapped_space = record {
  flags = 0;
  vmm = vmm_flush page_range ∷ vmm_map page_range (record { base = 0x8000; size = 0x1000 }) 10 ∷ [];
  mmaps = record {
    cells = record { range = page_range; object = 5; offset = 0 } ∷ no_mapping ∷ [];
    len = 1;
  };
  alloc = record { cells = record { base = 0x401000; size = 0x2000 } ∷ []; len = 1 };
}

mapped-Taken : Taken small_space.alloc 0x1000 page_range mapped_space.alloc
mapped-Taken = (refl, λ a. ground arith)

mapped_space-IsMapped : IsMapped small_space memories 5 0 0x1000 2 page_range mapped_space
unfolding memory_base memory_range
mapped_space-IsMapped = record {
  taken = mapped-Taken;
  listed = refl;
  page_tables = refl;
  fits = omega arith;
  pages = record { aligned = refl; ends = omega arith };
}

space_unmap_example :
    (s'' : Space) × (w'' : Objects) × (space_unmap mapped_space (object_ref objects 5) page_range
      ≡ some (SpaceResult.ok page_range, s'', w''))
    × (items s''.mmaps ≡ [])
    × ((j : ℕ) → w''.refs j ≡ 1)
    × (s''.alloc ≡ mapped_space.alloc)
    × (s''.vmm ≡ vmm_flush page_range ∷ vmm_unmap page_range ∷ mapped_space.vmm)
space_unmap_example =
    space_unmap-IsMapped small_space mapped_space memories objects 5 0 0x1000 2 page_range
      (omega arith) (omega arith) mapped_space-IsMapped tt

abbrev next_range : USizeRange
next_range = record { base = 0x401000; size = 0x1000 }

-- Two pages of the object 5 are mapped.
abbrev full_space : Space
full_space = record {
  flags = 0;
  vmm =
      vmm_map next_range (record { base = 0x8000; size = 0x1000 }) 10
      ∷ vmm_map page_range (record { base = 0x8000; size = 0x1000 }) 10
      ∷ [];
  mmaps = record {
    cells =
        record { range = page_range; object = 5; offset = 0 }
        ∷ record { range = next_range; object = 5; offset = 0 }
        ∷ [];
    len = 2;
  };
  alloc = record { cells = []; len = 0 };
}

full_space-IsHeld : IsHeld (items full_space.mmaps) full_space.vmm
unfolding is_present
full_space-IsHeld = record {
  pages = (
    record { aligned = refl; ends = omega arith },
    (record { aligned = refl; ends = omega arith }, tt),
  );
  once = λ a. ground arith;
  present = λ a h. ground arith;
}

space_destroy_example :
    (s' : Space) × (space_destroy full_space objects ≡ some (s', object_deref objects 5))
    × (items s'.mmaps ≡ [])
    × (items s'.alloc ≡ [])
    × ((a : ℕ) → is_present s'.vmm a ≡ false)
space_destroy_example = space_destroy-odd_ones full_space objects (omega arith) full_space-IsHeld
