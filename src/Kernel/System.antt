-- ===== src/Kernel/System.antt =====
-- The state that the system calls of sources/kernel/syscalls.c work on, and sources/kernel/task.c:
-- what the kernel keeps of its objects beside their headers, inside the state of the scheduler.
-- Objects are addresses; the caller gives the address of a new one. The context of a task belongs to
-- the architecture and is left out.
pub mod Counts
use brutal.Base.{
  ℕ, ◌+◌, ◌-◌, ◌^◌, Bool, true, false, not, Option, none, some, List, [], ◌∷◌, ◌==◌, if◌then◌else◌,
  ◌>>=◌, ◌>>◌, bit_and,
}
use brutal.Ds.Bits.{range_end}
use brutal.Kernel.Abi.{BrResult, success, BrType, task}
use brutal.Kernel.Object.{Objects, update, object_init, object_ref, object_deref}
use brutal.Kernel.Domain.{Domain, domain_create, domain_lookup, domain_add}
use brutal.Kernel.Channel.{Channel, channel_create}
use brutal.Kernel.Event.{EventBinding, event_unbind_all}
use brutal.Kernel.Pmm.{Pmm, PmmResult, ok, err}
use brutal.Kernel.Memory.{Memories, HeapRange, heap_alloc, heap_free}
use brutal.Kernel.Space.{Space}
use brutal.Kernel.Sched.{Sched, Task}

-- The fields of each task that the scheduler does not use, by its address: `channels` holds the
-- channel that a task owns. Then the tables of domains, spaces and memory objects, the physical
-- memory and the bindings of events.
pub record World : Type 0 where
  pub rights : ℕ → ℕ
  pub flags : ℕ → ℕ
  pub space_of : ℕ → ℕ
  pub domain_of : ℕ → ℕ
  pub channels : ℕ → Channel
  pub stacks : ℕ → HeapRange
  pub domains : ℕ → Domain
  pub spaces : ℕ → Space
  pub memories : Memories
  pub pmm : Pmm
  pub bindings : List EventBinding

abbrev pub System : Type 0
System = Sched World

abbrev pub br_handle_self : ℕ
br_handle_self = 2 ^ 64 - 2

-- `flags & mask`
unfoldable pub has_flag : ℕ → ℕ → Bool
has_flag flags mask = not (bit_and flags mask == 0)

abbrev pub with_objects : System → Objects → System
with_objects s w = record s { objects = w }

abbrev pub with_world : System → World → System
with_world s w = record s { world = w }

abbrev pub ref : System → ℕ → System
ref s o = with_objects s (object_ref s.objects o)

abbrev pub deref : System → ℕ → System
deref s o = with_objects s (object_deref s.objects o)

abbrev pub domain_at : System → ℕ → Domain
domain_at s me = s.world.domains (s.world.domain_of me)

-- `domain_lookup` in the domain of the task.
unfoldable pub lookup : System → ℕ → ℕ → BrType → Option (Option ℕ × System)
lookup s me handle type_ =
    domain_lookup (domain_at s me) s.objects handle type_ >>= λ r. some (r.0, with_objects s r.1)

-- `domain_add` in the domain of the task.
unfoldable pub add_handle : System → ℕ → ℕ → Option (ℕ × System)
add_handle s me o = do
  (handle, d, w) ← domain_add (domain_at s me) s.objects o
  some (
    handle,
    record s {
      world = record (s.world) { domains = update s.world.domains (s.world.domain_of me) d };
      objects = w;
    },
  )

abbrev pub kernel_stack_size : ℕ
kernel_stack_size = 16384

abbrev pub unwrap : PmmResult → Option HeapRange
unwrap (ok r) = some r
unwrap (err e) = none

abbrev pub new_task : Task
new_task = record {
  started = false;
  stopped = false;
  blocked = false;
  in_syscall = false;
  time_start = 0;
  time_end = 0;
  function = false;
  deadline = 0;
  result = success;
  value = 0;
}

-- The task `t` with a new domain at the address `d`.
unfoldable pub task_create : System → ℕ → ℕ → ℕ → ℕ → ℕ → Option System
task_create s t d space_ rights_ flags_ = do
  let (dom, w) : Domain × Objects = domain_create (object_ref s.objects space_) d
  (res, pmm_) ← heap_alloc s.world.pmm kernel_stack_size
  stack ← unwrap res
  some (record s {
    tasks = update s.tasks t new_task;
    objects = object_init w t task;
    world = record (s.world) {
      rights = update s.world.rights t rights_;
      flags = update s.world.flags t flags_;
      space_of = update s.world.space_of t space_;
      domain_of = update s.world.domain_of t d;
      channels = update s.world.channels t channel_create;
      stacks = update s.world.stacks t stack;
      domains = update s.world.domains d dom;
      pmm = pmm_;
    };
  })

-- The destructor; the channel goes with the task, and the result of `heap_free` is not looked at.
unfoldable pub task_destroy : System → ℕ → Option System
task_destroy s t = do
  let w = object_deref (object_deref s.objects (s.world.space_of t)) (s.world.domain_of t)
  (res, pmm_) ← heap_free s.world.pmm (s.world.stacks t)
  some (record s {
    objects = w;
    world = record (s.world) { pmm = pmm_; bindings = (event_unbind_all s.world.bindings t).1 };
  })
