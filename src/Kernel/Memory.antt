-- ===== src/Kernel/Memory.antt =====
-- sources/kernel/memory.c, sources/kernel/x86_64/heap.c and the addresses of
-- sources/kernel/mmap.h: memory objects. An object is its address, which the caller gives, and the
-- part of it that is not an `Object` is a `Memory`. The lock of the heap makes each call atomic.
use brutal.Base.{ℕ, ◌-◌, ◌%◌, true, Option, some, ◌>>=◌, add64, sub64}
use brutal.Kernel.Abi.{memory}
use brutal.Kernel.Object.{Objects, update, object_init}
use brutal.Kernel.Pmm.{Pmm, PmmRange, PmmResult, ok, err, page_size, pmm_alloc, pmm_unused}

-- `MMAP_IO_BASE` of x86_64
abbrev pub mmap_io_base : ℕ
mmap_io_base = 0xffff800000000000

abbrev pub mmap_phys_to_io : ℕ → ℕ
mmap_phys_to_io addr = add64 addr mmap_io_base

abbrev pub mmap_io_to_phys : ℕ → ℕ
mmap_io_to_phys addr = sub64 addr mmap_io_base

-- `align_up$(size, MEM_PAGE_SIZE)`: the low bits of the sum are cleared.
abbrev pub page_align_up : ℕ → ℕ
page_align_up size = let x = add64 size (page_size - 1) in x - x % page_size

-- `HeapRange` and `HeapResult` have the shapes of `PmmRange` and `PmmResult`.
abbrev pub HeapRange : Type 0
HeapRange = PmmRange

unfoldable pub heap_to_pmm : HeapRange → PmmRange
heap_to_pmm r = record r { base = mmap_io_to_phys r.base }

abbrev pub to_heap : PmmResult → PmmResult
to_heap (ok r) = ok (record r { base = mmap_phys_to_io r.base })
to_heap (err e) = err e

unfoldable pub heap_alloc : Pmm → ℕ → Option (PmmResult × Pmm)
heap_alloc p size = do (res, p') ← pmm_alloc p (page_align_up size) true; some (to_heap res, p')

abbrev pub freed : HeapRange → PmmResult → PmmResult
freed r (ok q) = ok r
freed r (err e) = err e

unfoldable pub heap_free : Pmm → HeapRange → Option (PmmResult × Pmm)
heap_free p r = do (res, p') ← pmm_unused p (heap_to_pmm r); some (freed r res, p')

pub data MemoryType : Type 0 where
  memory_pmm_ memory_heap_ memory_dma_ : MemoryType

-- The two members of the union have one shape, so `range` stands for both.
pub record Memory : Type 0 where
  pub type_ : MemoryType
  pub range : PmmRange

abbrev pub Memories : Type 0
Memories = ℕ → Memory

-- `memory_heap`, `memory_pmm` and `memory_dma` differ in the type that they store.
unfoldable pub memory_create : MemoryType → Memories → Objects → ℕ → PmmRange → Memories × Objects
memory_create type_ ms w o r =
    (update ms o (record { type_ = type_; range = r }), object_init w o memory)

abbrev pub memory_heap : Memories → Objects → ℕ → HeapRange → Memories × Objects
memory_heap = memory_create memory_heap_

abbrev pub memory_pmm : Memories → Objects → ℕ → PmmRange → Memories × Objects
memory_pmm = memory_create memory_pmm_

abbrev pub memory_dma : Memories → Objects → ℕ → PmmRange → Memories × Objects
memory_dma = memory_create memory_dma_

-- The destructor; the result of giving the pages back is not looked at.
unfoldable pub memory_destroy : Pmm → Memory → Option Pmm
memory_destroy p m = elim m.type_ [
  | memory_pmm_ ↦ pmm_unused p m.range >>= λ r. some r.1
  | memory_heap_ ↦ heap_free p m.range >>= λ r. some r.1
  | memory_dma_ ↦ some p
]

unfoldable pub memory_range : Memory → PmmRange
memory_range m = elim m.type_ [
  | memory_heap_ ↦ heap_to_pmm m.range
  | memory_pmm_ ↦ m.range
  | memory_dma_ ↦ m.range
]

unfoldable pub memory_base : Memory → ℕ
memory_base m = (memory_range m).base

unfoldable pub memory_size : Memory → ℕ
memory_size m = (memory_range m).size
