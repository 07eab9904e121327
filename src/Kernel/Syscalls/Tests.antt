-- ===== src/Kernel/Syscalls/Tests.antt =====
-- The theorems on sources/kernel/syscalls.c at concrete inputs.
use brutal.Base.{
  ℕ, true, false, Option, none, some, List, [], ◌∷◌, replicate, ◌≡◌, ◌⊎◌, inr, refl, arith, ◌==◌,
  if◌then◌else◌,
}
use brutal.Ds.RangeAlloc.{USizeRange}
use brutal.Ds.Slot.Laws.{IsSlot}
use brutal.Kernel.Abi.{BrResult, success, not_permitted, bad_handle, memory, task, any_}
use brutal.Kernel.Domain.{Domain}
use brutal.Kernel.Channel.{channel_create}
use brutal.Kernel.Event.{BrEvent, irq_}
use brutal.Kernel.Memory.{memory_pmm_}
use brutal.Kernel.Space.{Mmap, Space}
use brutal.Kernel.System.{System, has_flag, new_task, br_handle_self}
use brutal.Kernel.System.Counts.{Holds}
use brutal.Kernel.Syscalls.{BrMapArgs}
use brutal.Kernel.Syscalls.Balance.{OneMore}
use brutal.Kernel.Syscalls.Copies.{DupEnds, IsTyped, sys_dup-DupEnds, sys_inspect-OneMore}
use brutal.Kernel.Syscalls.Calls.{Inspected, sys_dup, sys_inspect, sys_drop, stat}
use brutal.Kernel.Syscalls.Rights.{NoNewRights, Lacks, sys_drop-NoNewRights}

abbrev no_mapping : Mmap
no_mapping = record { range = record { base = 0; size = 0 }; object = 0; offset = 0 }

abbrev fresh_mappings : ℕ → Option (List Mmap)
fresh_mappings n = some (replicate n no_mapping)

abbrev no_ranges : ℕ → Option (List USizeRange)
no_ranges n = none

abbrev small_space : Space
small_space = record {
  flags = 0;
  vmm = [];
  mmaps = record { cells = no_mapping ∷ no_mapping ∷ []; len = 0 };
  alloc = record { cells = record { base = 0x400000; size = 0x3000 } ∷ []; len = 1 };
}

-- The handle 0 is a memory object at 5, and the handle 1 a task at 6.
abbrev table : Domain
table = record { data_ = 5 ∷ 6 ∷ 0 ∷ []; used = true ∷ true ∷ false ∷ []; capacity = 3 }

table-IsSlot : IsSlot table
table-IsSlot = record { cells = refl; marks = refl }

-- The current task is at 2; the tasks may do everything but what the rights 1, 2 and 16 allow.
abbrev state : System
state = record {
  tasks = λ t. new_task;
  queue = 2 ∷ [];
  cpus = [];
  tick = 1;
  objects = record {
    refs = λ o. 1;
    ids = λ o. o;
    types = λ o. if o == 5 then memory else task;
    global = [];
    next_id = 9;
    destroyed = [];
  };
  world = record {
    rights = λ t. 12;
    flags = λ t. 0;
    space_of = λ t. 7;
    domain_of = λ t. 8;
    channels = λ t. channel_create;
    stacks = λ t. record { base = 0; size = 0 };
    domains = λ d. table;
    spaces = λ o. small_space;
    memories = λ o. record { type_ = memory_pmm_; range = record { base = 0x8000; size = 0x2000 } };
    pmm = record {
      bitmap = record { data_ = []; size = 0 };
      bitmap_addr = 0;
      bestbet_upper = 0;
      bestbet_lower = 0;
      available_memory = 0;
      used_memory = 0;
      usable_range = record { base = 0; size = 0 };
    };
    bindings = [];
  };
}

abbrev map_args : BrMapArgs
map_args = record {
  space = br_handle_self;
  memory = 0;
  offset = 0;
  size = 0x1000;
  vaddr = 0;
  flags = 2;
}

sys_dup_example :
    (res : BrResult) × (copy : Option ℕ) × (s' : System) × (sys_dup state 2 0
      ≡ some (res, copy, s'))
    × (((res ≡ bad_handle) × (s' ≡ state)) ⊎ ((res ≡ success) × DupEnds state 2 0 copy s'))
sys_dup_example = sys_dup-DupEnds state 2 0 table-IsSlot (omega arith)

state-IsTyped : IsTyped state
unfolding stat
state-IsTyped o =
    elim (o == 5) as (λ b. (i : _) × (stat state o (if b then memory else task) ≡ some i)) [
      | true ↦ (_, refl)
      | false ↦ (_, refl)
    ]

sys_inspect_example :
    (res : BrResult) × (out : Option Inspected) × (s' : System) × (sys_inspect state 2 0
      ≡ some (res, out, s'))
    × (((res ≡ bad_handle) × (s' ≡ state))
        ⊎ ((res ≡ success) × ((o : ℕ) × Holds state 2 0 any_ o × OneMore state o s')))
sys_inspect_example = sys_inspect-OneMore state 2 0 table-IsSlot state-IsTyped (omega arith)

sys_drop_example :
    (res : BrResult) × (s' : System) × (sys_drop state 2 1 8 ≡ some (res, s'))
    × NoNewRights state s'
    × (((res ≡ bad_handle) × (s' ≡ state))
        ⊎ ((t : ℕ) × (((1 ≡ br_handle_self) × (t ≡ 2)) ⊎ Holds state 2 1 task t)
            × (((res ≡ success) × Lacks s' t 8)
                ⊎ ((res ≡ not_permitted) × (has_flag (state.world.rights t) 8 ≡ false)))))
sys_drop_example = sys_drop-NoNewRights state 2 1 8 table-IsSlot (inr (omega arith)) (omega arith)

abbrev special_args : BrMapArgs
special_args = record map_args { flags = 64 }

abbrev irq_event : BrEvent
irq_event = record { type_ = irq_; irq = 3 }
