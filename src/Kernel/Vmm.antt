-- ===== src/Kernel/Vmm.antt =====
-- The page tables of a space as the functions of sources/kernel/x86_64/vmm.c leave them, and their
-- assertions and panics, which are faults here; sources/kernel/riscv64/vmm.c has the same checks in
-- `vmm_map`. The tables are the calls that were made to change them, the last one first; addresses
-- are told apart in full. From the entry 255 on, the root of every space is the kernel's: a range
-- that reaches that far, where the kernel's own mappings decide, is a fault. The format of the tables
-- and the memory for them, whose shortage the source passes over, are left out.
pub mod Laws
use brutal.Base.{
  ℕ, zero, suc, ◌+◌, ◌*◌, ◌^◌, ◌/◌, Bool, true, false, not, ◌&&◌, ◌||◌, Option, some, List, [], ◌∷◌,
  ltb, leb, ◌==◌, ◌>>◌, assert, add64,
}
use brutal.Kernel.Pmm.{PmmRange, page_size, is_range_page_aligned}

-- A `VmmRange` and a `PmmRange` have the same shape.
abbrev pub VmmRange : Type 0
VmmRange = PmmRange

pub data VmmCall : Type 0 where
  vmm_map : VmmRange → PmmRange → ℕ → VmmCall
  vmm_unmap : VmmRange → VmmCall
  vmm_flush : VmmRange → VmmCall
  vmm_space_destroy : VmmCall

-- Where the first 255 entries of the root end
abbrev pub own_end : ℕ
own_end = 255 * 2 ^ 39

abbrev pub range_has : VmmRange → ℕ → Bool
range_has r a = leb r.base a && ltb a (r.base + r.size)

-- `entry->present`, for the page at the address
unfoldable pub is_present : List VmmCall → ℕ → Bool
is_present [] a = false
is_present (vmm_map r p flags ∷ calls) a = range_has r a || is_present calls a
is_present (vmm_unmap r ∷ calls) a = not (range_has r a) && is_present calls a
is_present (vmm_flush r ∷ calls) a = is_present calls a
is_present (vmm_space_destroy ∷ calls) a = false

-- What the loops over the pages of a range ask of each page, from an address on.
unfoldable pub all_absent : ℕ → ℕ → List VmmCall → Bool
all_absent zero a calls = true
all_absent (suc pages) a calls =
    not (is_present calls a) && all_absent pages (add64 a page_size) calls

unfoldable pub all_present : ℕ → ℕ → List VmmCall → Bool
all_present zero a calls = true
all_present (suc pages) a calls = is_present calls a && all_present pages (add64 a page_size) calls

-- The C function `vmm_map`
unfoldable pub map_range : List VmmCall → VmmRange → PmmRange → ℕ → Option (List VmmCall)
map_range calls r p flags =
    assert (is_range_page_aligned r)
    >> assert (is_range_page_aligned p)
    >> assert (r.size == p.size)
    >> assert (leb (r.base + r.size) own_end)
    >> assert (all_absent (r.size / page_size) r.base calls)
    >> some (vmm_map r p flags ∷ calls)

-- The C function `vmm_unmap`
unfoldable pub unmap_range : List VmmCall → VmmRange → Option (List VmmCall)
unmap_range calls r =
    assert (is_range_page_aligned r)
    >> assert (all_present (r.size / page_size) r.base calls)
    >> some (vmm_unmap r ∷ calls)
