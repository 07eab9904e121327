-- ===== src/Kernel/Pmm.antt =====
-- sources/kernel/pmm.c: the physical memory manager, a bitmap of pages with two hints where to
-- search. Its static variables are the fields of `Pmm`; the lock makes each call atomic.
pub mod Alloc
pub mod Free
pub mod Total
pub mod Boot
use brutal.Base.{
  ℕ, ◌+◌, ◌-◌, ◌*◌, ◌/◌, ◌%◌, Bool, true, false, not, ◌&&◌, Option, none, some, List, [], ◌∷◌, ltb,
  leb, ◌==◌, if◌then◌else◌, ◌>>=◌, ◌>>◌, assert, add64, sub64, mul64, word,
}
use brutal.Ds.Bits.{
  Bits, BitsRange, range_end, bits_init, bits_fill, bits_find_free, bits_set_range,
}
use brutal.Kernel.Abi.{BrResult, bad_address}

abbrev pub page_size : ℕ
page_size = 0x1000

-- `PmmRange` is a `USizeRange`, the shape of `BitsRange`.
abbrev pub PmmRange : Type 0
PmmRange = BitsRange

pub data PmmResult : Type 0 where
  ok : PmmRange → PmmResult
  err : BrResult → PmmResult

pub record Pmm : Type 0 where
  pub bitmap : Bits
  pub bitmap_addr : ℕ
  pub bestbet_upper : ℕ
  pub bestbet_lower : ℕ
  pub available_memory : ℕ
  pub used_memory : ℕ
  pub usable_range : PmmRange

-- The static variables before `pmm_initialize`; `(size_t)-1` is the largest word.
abbrev pub initial : Pmm
initial = record {
  bitmap = record { data_ = []; size = 0 };
  bitmap_addr = 0;
  bestbet_upper = 0;
  bestbet_lower = word - 1;
  available_memory = 0;
  used_memory = 0;
  usable_range = record { base = 0; size = 0 };
}

unfoldable pub addr2pages : Pmm → PmmRange → BitsRange
addr2pages p r = record {
  base = sub64 r.base p.usable_range.base / page_size;
  size = r.size / page_size;
}

unfoldable pub pages2addr : Pmm → BitsRange → PmmRange
pages2addr p r = record {
  base = add64 (mul64 r.base page_size) p.usable_range.base;
  size = mul64 r.size page_size;
}

abbrev pub is_size_page_aligned : ℕ → Bool
is_size_page_aligned size = size % page_size == 0

abbrev pub is_range_page_aligned : PmmRange → Bool
is_range_page_aligned r = (r.base % page_size == 0) && (r.size % page_size == 0)

-- The hint of a search that found nothing is reset.
unfoldable pub reset_hint : Pmm → Bool → Pmm
reset_hint p true = record p { bestbet_upper = word - 1 }
reset_hint p false = record p { bestbet_lower = 0 }

-- The second search of `pmm_alloc`, from the end of the bitmap, after a first that found nothing.
unfoldable pub search_again : Pmm → ℕ → Bool → BitsRange → Option (Pmm × BitsRange)
search_again p page_count upper first =
    if first.size == 0
    then (do
      pages ← bits_find_free p.bitmap (if upper then word - 1 else 0) page_count upper
      some (reset_hint p upper, pages))
    else some (p, first)

-- The state after the pages were marked in `bits`.
unfoldable pub account : Pmm → Bool → BitsRange → Bits → Pmm
account p upper pages bits = record p {
  bitmap = bits;
  bestbet_upper = if upper then pages.base else p.bestbet_upper;
  bestbet_lower = if upper then p.bestbet_lower else range_end pages;
  used_memory = add64 p.used_memory (pages2addr p pages).size;
}

-- What `pmm_alloc` does with the pages that it found.
unfoldable pub take_pages : Pmm → Bool → BitsRange → Option (PmmResult × Pmm)
take_pages p upper pages = do
  assert (not (pages.size == 0))
  (count, bits) ← bits_set_range p.bitmap pages true
  some (ok (pages2addr p pages), account p upper pages bits)

-- Out of memory is a panic, so the error return after it is never reached.
unfoldable pub pmm_alloc : Pmm → ℕ → Bool → Option (PmmResult × Pmm)
pmm_alloc p size upper = do
  assert (is_size_page_aligned size)
  first ←
      bits_find_free p.bitmap (if upper then p.bestbet_upper else p.bestbet_lower)
        (size / page_size) upper
  (q, pages) ← search_again p (size / page_size) upper first
  take_pages q upper pages

unfoldable pub pmm_used : Pmm → PmmRange → Option (PmmResult × Pmm)
pmm_used p r = do
  assert (is_range_page_aligned r)
  (count, bits) ← bits_set_range p.bitmap (addr2pages p r) true
  some (ok r, record p { bitmap = bits; used_memory = add64 p.used_memory (mul64 count page_size) })

-- How `pmm_unused` moves the hints towards the pages that came free.
unfoldable pub move_hints : Pmm → BitsRange → Pmm
move_hints p pages = record p {
  bestbet_upper =
      if ltb p.bestbet_upper (range_end pages) then sub64 (range_end pages) 1 else p.bestbet_upper;
  bestbet_lower = if ltb pages.base p.bestbet_lower then pages.base else p.bestbet_lower;
}

-- The state after `count` pages were cleared in `bits`.
unfoldable pub give_back : Pmm → BitsRange → ℕ → Bits → Pmm
give_back p pages count bits =
    move_hints
      (record p { bitmap = bits; used_memory = sub64 p.used_memory (mul64 count page_size) }) pages

unfoldable pub pmm_unused : Pmm → PmmRange → Option (PmmResult × Pmm)
pmm_unused p r = do
  assert (is_range_page_aligned r)
  if r.base == 0 then some (err bad_address, p) else (do
    (count, bits) ← bits_set_range p.bitmap (addr2pages p r) false
    some (ok r, give_back p (addr2pages p r) count bits))
