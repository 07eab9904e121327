-- ===== src/Kernel/Vmm/Laws.antt =====
-- When the checks of sources/kernel/x86_64/vmm.c hold.
use brutal.Base.{
  ℕ, zero, suc, ◌+◌, ◌*◌, ◌/◌, ◌≤◌, ◌<◌, true, false, some, List, ◌∷◌, ◌==◌, leb, ◌≡◌, refl, arith,
  add64, word,
}
use brutal.Kernel.Pmm.{PmmRange, page_size, is_range_page_aligned}
use brutal.Kernel.Vmm.{
  own_end, VmmRange, VmmCall, vmm_map, vmm_unmap, range_has, is_present, all_absent, all_present,
  map_range, unmap_range,
}

-- Whole pages in the part that a space has of its own
pub record IsPages (r : VmmRange) : Type 0 where
  pub aligned : is_range_page_aligned r ≡ true
  pub ends : r.base + r.size ≤ own_end

all_absent-outside :
    (pages a : ℕ) (calls : List VmmCall)
    → a + pages * page_size < word
    → ((b : ℕ) → a ≤ b → b < a + pages * page_size → is_present calls b ≡ false)
    → all_absent pages a calls ≡ true
unfolding all_absent
all_absent-outside zero a calls h each = refl
all_absent-outside (suc pages) a calls h each =
    let next : add64 a page_size ≡ a + page_size = omega arith in
    let here : is_present calls a ≡ false = each a (omega arith) (omega arith) in
    let rest =
      all_absent-outside pages (a + page_size) calls (omega arith)
        (λ b le lt. each b (omega arith) (omega arith)) in
    rw (here, next) rest

all_present-inside :
    (pages a : ℕ) (calls : List VmmCall)
    → a + pages * page_size < word
    → ((b : ℕ) → a ≤ b → b < a + pages * page_size → is_present calls b ≡ true)
    → all_present pages a calls ≡ true
unfolding all_present
all_present-inside zero a calls h each = refl
all_present-inside (suc pages) a calls h each =
    let next : add64 a page_size ≡ a + page_size = omega arith in
    let here : is_present calls a ≡ true = each a (omega arith) (omega arith) in
    let rest =
      all_present-inside pages (a + page_size) calls (omega arith)
        (λ b le lt. each b (omega arith) (omega arith)) in
    rw (here, next) rest

-- A range of whole pages none of which is mapped can be mapped.
pub map_range-absent :
    (calls : List VmmCall) (r : VmmRange) (p : PmmRange) (flags : ℕ)
    → IsPages r
    → is_range_page_aligned p ≡ true
    → r.size ≡ p.size
    → ((a : ℕ) → range_has r a ≡ true → is_present calls a ≡ false)
    → map_range calls r p flags ≡ some (vmm_map r p flags ∷ calls)
unfolding map_range
map_range-absent calls r p flags pages aligned same each =
    let own : leb (r.base + r.size) own_end ≡ true = ground (arith, pages.ends) in
    let sizes : r.size == p.size ≡ true = ground arith in
    let h = pages.ends in
    let whole : r.size / page_size * page_size ≡ r.size = ground (arith, pages.aligned) in
    let free : all_absent (r.size / page_size) r.base calls ≡ true =
      all_absent-outside (r.size / page_size) r.base calls (omega arith)
        (λ b le lt. each b (ground arith)) in
    rw (pages.aligned, aligned, sizes, own, free)

-- A range of whole pages that are all mapped can be unmapped.
pub unmap_range-present :
    (calls : List VmmCall) (r : VmmRange)
    → IsPages r
    → ((a : ℕ) → range_has r a ≡ true → is_present calls a ≡ true)
    → unmap_range calls r ≡ some (vmm_unmap r ∷ calls)
unfolding unmap_range
unmap_range-present calls r pages each =
    let h = pages.ends in
    let whole : r.size / page_size * page_size ≡ r.size = ground (arith, pages.aligned) in
    let there : all_present (r.size / page_size) r.base calls ≡ true =
      all_present-inside (r.size / page_size) r.base calls (omega arith)
        (λ b le lt. each b (ground arith)) in
    rw (pages.aligned, there)
