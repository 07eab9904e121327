-- ===== src/Kernel/Pmm/Boot.antt =====
-- The start of sources/kernel/pmm.c: `pmm_initialize` builds the bitmap from the memory map of
-- the loader. What lies in memory before the start, and the base of the mapping of physical
-- memory, are parameters.
use brutal.Base.{
  ℕ, ◌-◌, ◌*◌, ◌/◌, ◌%◌, ◌≤◌, ◌<◌, Bool, true, false, Option, none, some, ◌≡◌, arith, List, [], ◌∷◌,
  length, get_elem?, ltb, ◌&&◌, if◌then◌else◌, ◌>>=◌, add64, sub64, word,
}
use brutal.Ds.Bits.{Bits, range_end, bits_init, bits_fill}
use brutal.Kernel.Pmm.{Pmm, PmmRange, page_size, pmm_used, pmm_unused, initial}

pub data HandoverMmapType : Type 0 where
  free used reclaimable reserved : HandoverMmapType

pub record HandoverMmapEntry : Type 0 where
  pub base : ℕ
  pub size : ℕ
  pub type_ : HandoverMmapType

-- The `size` entries in use.
abbrev pub HandoverMmap : Type 0
HandoverMmap = List HandoverMmapEntry

abbrev pub entry_range : HandoverMmapEntry → PmmRange
entry_range e = record { base = e.base; size = e.size }

-- An empty map makes the kernel read entries that were never written.
unfoldable pub handover_mmap_base : HandoverMmap → Option ℕ
handover_mmap_base map = do e ← get_elem? map 0; some e.base

unfoldable pub handover_mmap_end : HandoverMmap → Option ℕ
handover_mmap_end map = do e ← get_elem? map (length map - 1); some (range_end (entry_range e))

-- `align_up$(x, MEM_PAGE_SIZE)`: the mask clears the bits below the page size.
unfoldable pub align_up : ℕ → ℕ
align_up x = add64 x (page_size - 1) / page_size * page_size

abbrev pub range_colide : PmmRange → PmmRange → Bool
range_colide a b = ltb a.base (range_end b) && ltb b.base (range_end a)

abbrev pub is_free : HandoverMmapType → Bool
is_free free = true
is_free _ = false

abbrev pub first_pages : PmmRange
first_pages = record { base = 0; size = 0x4000 }

-- The entry that the bitmap is put into.
unfoldable pub find_bitmap_entry : HandoverMmap → ℕ → Option HandoverMmapEntry
find_bitmap_entry [] bitmap_size = none
find_bitmap_entry (e ∷ es) bitmap_size =
    if is_free e.type_ && ltb bitmap_size e.size
    then (if range_colide (entry_range e) first_pages
        then find_bitmap_entry es bitmap_size
        else some e)
    else find_bitmap_entry es bitmap_size

-- `usable_range.size / MEM_PAGE_SIZE / 8`, in whole pages
unfoldable pub bitmap_bytes : PmmRange → ℕ
bitmap_bytes usable = align_up (usable.size / page_size / 8)

-- One entry of the map: free memory is given to the bitmap, used memory is counted.
unfoldable pub load_entry : HandoverMmapType → Pmm → HandoverMmapEntry → Option Pmm
load_entry free p e = do
  (_, q) ← pmm_unused (record p { used_memory = add64 p.used_memory e.size }) (entry_range e)
  some (record q { available_memory = add64 q.available_memory e.size })
load_entry used p e = some (record p {
  available_memory = add64 p.available_memory e.size;
  used_memory = add64 p.used_memory e.size;
})
load_entry _ p e = some p

unfoldable pub load_entries : Pmm → HandoverMmap → Option Pmm
load_entries p [] = some p
load_entries p (e ∷ es) = load_entry e.type_ p e >>= λ q. load_entries q es

unfoldable pub pmm_mmap_load : Pmm → HandoverMmap → Option Pmm
pmm_mmap_load p map = do
  q ← load_entries p map
  (_, q') ← pmm_used q (record { base = q.usable_range.base; size = 0x4000 })
  some q'

module _ (memory : ℕ → ℕ → List ℕ) (io_base : ℕ) where
  unfoldable pub pmm_bitmap_init : Pmm → HandoverMmap → Option Pmm
  pmm_bitmap_init p map = do
    base ← handover_mmap_base map
    end ← handover_mmap_end map
    let usable : PmmRange = record { base = base; size = sub64 end base }
    let found = find_bitmap_entry map (bitmap_bytes usable)
    let addr : ℕ = elim found [ some e ↦ add64 e.base io_base | none ↦ p.bitmap_addr ]
    let bits : Bits = elim found [
      | some e ↦ bits_init (memory e.base (bitmap_bytes usable)) (bitmap_bytes usable)
      | none ↦ p.bitmap
    ]
    some (record p { bitmap = bits_fill bits true; bitmap_addr = addr; usable_range = usable })

  unfoldable pub pmm_initialize : HandoverMmap → Option Pmm
  pmm_initialize map = do
    p ← pmm_bitmap_init initial map
    q ← pmm_mmap_load p map
    q' ←
        (if ltb 0 q.usable_range.base
          then (pmm_used q (record { base = q.usable_range.base; size = page_size }) >>= λ r.
              some r.1)
          else some q)
    (_, q'') ← pmm_used q' (record { base = sub64 q'.bitmap_addr io_base; size = q'.bitmap.size })
    some q''

-- If the number of pages is a multiple of 8, and the size of the usable range is a word, the
-- bitmap has a bit for every page.
pub bitmap_bytes-covers :
    (usable : PmmRange)
    → usable.size < word
    → usable.size / page_size % 8 ≡ 0
    → usable.size / page_size ≤ bitmap_bytes usable * 8
unfolding bitmap_bytes align_up
bitmap_bytes-covers usable h eights = omega arith

-- If the number of pages is one to seven more than a multiple of 32768, and the size of the usable
-- range is a word, the bitmap has fewer bits than there are pages.
pub bitmap_bytes_too_small :
    (usable : PmmRange)
    → usable.size < word
    → 0 < usable.size / page_size % 32768
    → usable.size / page_size % 32768 < 8
    → bitmap_bytes usable * 8 < usable.size / page_size
unfolding bitmap_bytes align_up
bitmap_bytes_too_small usable h some_more few = omega arith
