-- ===== src/Kernel/Syscalls.antt =====
-- sources/kernel/syscalls.c: the system calls on handles. `me` is the current task, `task_self()`. A
-- call gives its result, its arguments as it leaves them, and the new state. `sys_log`, `sys_now`,
-- `sys_in` and `sys_out` only reach devices, and are left out, as is the table of the calls.
pub mod Create
pub mod Calls
pub mod Balance
pub mod Copies
pub mod Start
pub mod Rights
mod Tests
use brutal.Base.{
  ℕ, ◌+◌, ◌-◌, ◌^◌, Bool, true, false, not, ◌&&◌, Option, none, some, List, [], ◌∷◌, ltb, ◌==◌,
  if◌then◌else◌, ◌>>=◌, ◌>>◌, bit_and, bit_or,
}
use brutal.Ds.RangeAlloc.{USizeRange}
use brutal.Kernel.Abi.{
  BrResult, success, not_permitted, bad_handle, bad_arguments, BrType, none_, any_, memory, domain,
  space, task,
}
use brutal.Kernel.Object.{Objects, update}
use brutal.Kernel.Domain.{Domain, domain_remove}
use brutal.Kernel.Event.{
  BrEvent, BrEventType, irq_, invalid, EventBinding, event_bind, event_unbind, event_ack,
}
use brutal.Kernel.Pmm.{PmmRange, PmmResult, pmm_alloc}
use brutal.Kernel.Memory.{memory_pmm, memory_dma}
use brutal.Kernel.Space.{Mmap, Space, SpaceResult, space_create, space_map, space_unmap}
use brutal.Kernel.Sched.{Sched}
use brutal.Kernel.Sched.Cycle.{sched_start, sched_stop}
use brutal.Kernel.System.{
  World, System, br_handle_self, has_flag, with_objects, with_world, ref, deref, domain_at, lookup,
  add_handle, task_create,
}

abbrev pub br_right_irq : ℕ
br_right_irq = 1

abbrev pub br_right_dma : ℕ
br_right_dma = 2

abbrev pub br_right_task : ℕ
br_right_task = 16

abbrev pub br_mem_lower : ℕ
br_mem_lower = 16

abbrev pub br_mem_dma : ℕ
br_mem_dma = 32

-- `BR_MEM_WRITE_THROUGHT | BR_MEM_GLOBAL`
abbrev pub br_mem_special : ℕ
br_mem_special = 192

abbrev pub br_task_user : ℕ
br_task_user = 1

-- `task_self()->rights & right`
unfoldable pub permits : System → ℕ → ℕ → Bool
permits s me right = has_flag (s.world.rights me) right

-- The choice of the space that three calls start with; a reference is taken either way.
unfoldable pub space_handle : System → ℕ → ℕ → Option (Option ℕ × System)
space_handle s me handle =
    if handle == br_handle_self
    then some (some (s.world.space_of me), ref s (s.world.space_of me))
    else lookup s me handle space

pub record BrMapArgs : Type 0 where
  pub space : ℕ
  pub memory : ℕ
  pub offset : ℕ
  pub size : ℕ
  pub vaddr : ℕ
  pub flags : ℕ

abbrev pub put_space : System → ℕ → Space → Objects → System
put_space s o sp w = record s {
  world = record (s.world) { spaces = update s.world.spaces o sp };
  objects = w;
}

module _ (acquire : ℕ → Option (List Mmap)) (acquire_ranges : ℕ → Option (List USizeRange)) where
  -- The end of `sys_map`, which drops the references to the space `o` and to the memory `m`.
  abbrev pub end_map :
      System → ℕ → ℕ → BrMapArgs → SpaceResult × Space × Objects → BrResult × BrMapArgs × System
  end_map s o m args (SpaceResult.ok r, sp, w) = (
    success,
    record args { vaddr = r.base; size = r.size },
    deref (deref (put_space s o sp w) o) m,
  )
  end_map s o m args (SpaceResult.err e, sp, w) = (e, args, deref (deref (put_space s o sp w) o) m)

  unfoldable pub map_memory :
      System → ℕ → BrMapArgs → Option ℕ → Option (BrResult × BrMapArgs × System)
  map_memory s o args none = some (bad_handle, args, deref s o)
  map_memory s o args (some m) =
      space_map acquire acquire_ranges (s.world.spaces o) s.world.memories s.objects m args.offset
        args.size args.vaddr args.flags
      >>= λ r. some (end_map s o m args r)

  unfoldable pub map_into :
      System → ℕ → BrMapArgs → Option ℕ → Option (BrResult × BrMapArgs × System)
  map_into s me args none = some (bad_handle, args, s)
  map_into s me args (some o) = lookup s me args.memory memory >>= λ r. map_memory r.1 o args r.0

  unfoldable pub sys_map : System → ℕ → BrMapArgs → Option (BrResult × BrMapArgs × System)
  sys_map s me args =
      let run = (space_handle s me args.space >>= λ r. map_into r.1 me args r.0) in
      if has_flag args.flags br_mem_special && not (permits s me br_right_dma)
      then some (not_permitted, args, s)
      else run

pub record BrUnmapArgs : Type 0 where
  pub space : ℕ
  pub vaddr : ℕ
  pub size : ℕ

abbrev pub unmapped : SpaceResult → BrResult
unmapped (SpaceResult.ok r) = success
unmapped (SpaceResult.err e) = e

unfoldable pub unmap_from : System → BrUnmapArgs → Option ℕ → Option (BrResult × System)
unmap_from s args none = some (bad_handle, s)
unmap_from s args (some o) = do
  (res, sp, w) ←
      space_unmap (s.world.spaces o) s.objects (record { base = args.vaddr; size = args.size })
  some (unmapped res, deref (put_space s o sp w) o)

unfoldable pub sys_unmap : System → ℕ → BrUnmapArgs → Option (BrResult × System)
sys_unmap s me args = space_handle s me args.space >>= λ r. unmap_from r.1 args r.0
