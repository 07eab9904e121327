-- ===== src/Kernel/Syscalls/Create.antt =====
-- `sys_create` of sources/kernel/syscalls.c and the calls it is made of. The caller gives the addresses of
-- the new objects.
use brutal.Base.{ℕ, not, ◌&&◌, Option, none, some, List, if◌then◌else◌, ◌>>=◌, bit_and, bit_or}
use brutal.Ds.RangeAlloc.{USizeRange}
use brutal.Kernel.Abi.{BrResult, success, not_permitted, bad_handle, bad_arguments, BrType}
use brutal.Kernel.Object.{Objects}
use brutal.Kernel.Pmm.{PmmRange, PmmResult, Pmm, pmm_alloc}
use brutal.Kernel.Memory.{Memories, memory_pmm, memory_dma}
use brutal.Kernel.Space.{Mmap, space_create}
use brutal.Kernel.System.{System, has_flag, deref, add_handle, task_create}
use brutal.Kernel.Syscalls.{
  permits, br_right_dma, br_right_task, br_mem_lower, br_mem_dma, br_task_user, space_handle,
  put_space,
}

pub record BrTaskProps : Type 0 where
  pub space : ℕ
  pub rights : ℕ
  pub flags : ℕ

pub record BrMemoryProps : Type 0 where
  pub addr : ℕ
  pub size : ℕ
  pub flags : ℕ

-- The union of `BrCreateArgs`, by the type that the caller names.
pub data BrCreateArgs : Type 0 where
  create_task : BrTaskProps → BrCreateArgs
  create_memory : BrMemoryProps → BrCreateArgs
  create_space : ℕ → BrCreateArgs
  create_other : BrType → BrCreateArgs

-- `*id` and `*handle`, and `args->addr` if the call stores it
pub record Created : Type 0 where
  pub id : ℕ
  pub handle : ℕ
  pub addr : Option ℕ

-- The end that the three calls share: the object gets a handle, and the reference of its creation
-- is dropped.
unfoldable pub hand_out : System → ℕ → ℕ → Option ℕ → Option (BrResult × Option Created × System)
hand_out s me o addr = do
  (handle, s') ← add_handle s me o
  some (success, some (record { id = s.objects.ids o; handle = handle; addr = addr }), deref s' o)

abbrev pub put_memory : System → Memories × Objects → System
put_memory s (ms, w) = record s { world = record (s.world) { memories = ms }; objects = w }

abbrev pub put_pmm : System → Pmm → System
put_pmm s p = record s { world = record (s.world) { pmm = p } }

-- A new task at the address `t`, with its domain at `d`, in the space at `o`. Its handle is stored
-- before the reference to the space is dropped, and its own after.
unfoldable pub create_task_in :
    System → ℕ → ℕ → ℕ → BrTaskProps → Option ℕ → Option (BrResult × Option Created × System)
create_task_in s me t d args none = some (bad_handle, none, s)
create_task_in s me t d args (some o) = do
  s₁ ←
      task_create s t d o (bit_and args.rights (s.world.rights me)) (bit_or args.flags br_task_user)
  (handle, s₂) ← add_handle s₁ me t
  some (
    success,
    some (record { id = s₁.objects.ids t; handle = handle; addr = none }),
    deref (deref s₂ o) t,
  )

unfoldable pub sys_create_task :
    System → ℕ → ℕ → ℕ → BrTaskProps → Option (BrResult × Option Created × System)
sys_create_task s me t d args =
    space_handle s me args.space >>= λ r. create_task_in r.1 me t d args r.0

-- What is done with the pages of `pmm_alloc`.
unfoldable pub create_pmm :
    System → ℕ → ℕ → PmmResult × Pmm → Option (BrResult × Option Created × System)
create_pmm s me o (PmmResult.err e, p) = some (e, none, put_pmm s p)
create_pmm s me o (PmmResult.ok r, p) =
    hand_out (put_memory (put_pmm s p) (memory_pmm s.world.memories s.objects o r)) me o
      (some r.base)

unfoldable pub sys_create_memory :
    System → ℕ → ℕ → BrMemoryProps → Option (BrResult × Option Created × System)
sys_create_memory s me o args =
    let range : PmmRange = record { base = args.addr; size = args.size } in
    let dma = hand_out (put_memory s (memory_dma s.world.memories s.objects o range)) me o none in
    let pages =
      (pmm_alloc s.world.pmm args.size (not (has_flag args.flags br_mem_lower))
        >>= create_pmm s me o) in
    let refused = some (not_permitted, none, s) in
    if has_flag args.flags br_mem_dma
    then (if not (permits s me br_right_dma) then refused else dma)
    else (if has_flag args.flags br_mem_lower && not (permits s me br_right_dma)
        then refused
        else pages)

module _ (acquire : ℕ → Option (List Mmap)) (acquire_ranges : ℕ → Option (List USizeRange)) where
  unfoldable pub sys_create_space : System → ℕ → ℕ → ℕ → Option (BrResult × Option Created × System)
  sys_create_space s me o flags = do
    (sp, w) ← space_create acquire acquire_ranges s.objects o flags
    hand_out (put_space s o sp w) me o none

  -- The new object is at the address `o`, and a new domain at `d`.
  unfoldable pub sys_create :
      System → ℕ → ℕ → ℕ → BrCreateArgs → Option (BrResult × Option Created × System)
  sys_create s me o d (create_task args) =
      if not (permits s me br_right_task)
      then some (not_permitted, none, s)
      else sys_create_task s me o d args
  sys_create s me o d (create_memory args) = sys_create_memory s me o args
  sys_create s me o d (create_space flags) = sys_create_space s me o flags
  sys_create s me o d (create_other type_) = some (bad_arguments, none, s)
