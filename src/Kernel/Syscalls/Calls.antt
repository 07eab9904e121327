-- ===== src/Kernel/Syscalls/Calls.antt =====
-- The system calls of sources/kernel/syscalls.c on handles, tasks, events and messages.
use brutal.Base.{
  ℕ, ◌-◌, ◌^◌, Bool, true, false, not, ◌&&◌, Option, none, some, List, ◌==◌, if◌then◌else◌, ◌>>=◌,
  bit_and,
}
use brutal.Ds.RangeAlloc.{USizeRange}
use brutal.Kernel.Abi.{
  BrResult, success, not_permitted, bad_handle, bad_id, BrType, none_, any_, memory, domain, space,
  task,
}
use brutal.Kernel.Object.{Objects, update, global_lookup}
use brutal.Kernel.Domain.{Domain, domain_remove}
use brutal.Kernel.Parcel.{BrAddr, BrMsg}
use brutal.Kernel.Channel.{Channel, channel_send_unlock, channel_recv_unlock}
use brutal.Kernel.Event.{BrEvent, irq_, invalid, EventBinding, event_bind, event_unbind, event_ack}
use brutal.Kernel.Sched.Cycle.{sched_start, sched_stop}
use brutal.Kernel.System.{
  World, System, br_handle_self, has_flag, with_objects, ref, deref, domain_at, lookup, add_handle,
}
use brutal.Kernel.Syscalls.{permits, br_right_irq}

-- What `sys_dup` does with the object that it found. The handle of the copy is `none` when
-- `args->copy` is not stored.
unfoldable pub dup_found : System → ℕ → Option ℕ → Option (BrResult × Option ℕ × System)
dup_found s me none = some (bad_handle, none, s)
dup_found s me (some o) = add_handle s me o >>= λ r. some (success, some r.0, deref r.1 o)

unfoldable pub sys_dup : System → ℕ → ℕ → Option (BrResult × Option ℕ × System)
sys_dup s me handle = lookup s me handle any_ >>= λ r. dup_found r.1 me r.0

-- The registers of the task belong to its context.
unfoldable pub start_found : System → Option ℕ → Option (BrResult × System)
start_found s none = some (bad_handle, s)
start_found s (some t) = sched_start s t >>= λ s'. some (success, deref s' t)

unfoldable pub sys_start : System → ℕ → ℕ → Option (BrResult × System)
sys_start s me handle = lookup s me handle task >>= λ r. start_found r.1 r.0

-- The task that two calls start with; a reference is taken either way.
unfoldable pub task_handle : System → ℕ → ℕ → Option (Option ℕ × System)
task_handle s me handle =
    if handle == br_handle_self then some (some me, ref s me) else lookup s me handle task

-- On the processor of index `self`, with the call backs of the blocked tasks.
unfoldable pub sys_exit :
    (ℕ → World → Bool × World) → System → ℕ → ℕ → ℕ → ℕ → Option (BrResult × System)
sys_exit poll s self me handle result = do
  (found, s₁) ← task_handle s me handle
  elim found [
    | none ↦ some (bad_handle, s₁)
    | some t ↦ (sched_stop poll s₁ self t result >>= λ s₂. some (success, deref s₂ t))
  ]

-- `a & ~b` of two 32-bit numbers
abbrev pub without : ℕ → ℕ → ℕ
without a b = bit_and a (2 ^ 32 - 1 - b)

unfoldable pub drop_rights : System → ℕ → ℕ → BrResult × System
drop_rights s t rights =
    if has_flag (s.world.rights t) rights
    then (
      success,
      deref
          (record s {
            world = record (s.world) {
              rights = update s.world.rights t (without (s.world.rights t) rights);
            };
          })
          t,
    )
    else (not_permitted, deref s t)

unfoldable pub sys_drop : System → ℕ → ℕ → ℕ → Option (BrResult × System)
sys_drop s me handle rights = do
  (found, s₁) ← task_handle s me handle
  some (elim found [ none ↦ (bad_handle, s₁) | some t ↦ drop_rights s₁ t rights ])

unfoldable pub sys_close : System → ℕ → ℕ → Option (BrResult × System)
sys_close s me handle = do
  (res, d, w) ← domain_remove (domain_at s me) s.objects handle
  some (
    res,
    record s {
      world = record (s.world) { domains = update s.world.domains (s.world.domain_of me) d };
      objects = w;
    },
  )

abbrev pub put_bindings : System → BrResult × List EventBinding → BrResult × System
put_bindings s (res, bs) = (res, record s { world = record (s.world) { bindings = bs } })

abbrev pub is_irq : BrEvent → Bool
is_irq e = elim e.type_ [ irq_ ↦ true | invalid ↦ false ]

unfoldable pub sys_bind : System → ℕ → BrEvent → Option (BrResult × System)
sys_bind s me event =
    let run = (event_bind s.world.bindings me event >>= λ r. some (put_bindings s r)) in
    if is_irq event && not (permits s me br_right_irq) then some (not_permitted, s) else run

unfoldable pub sys_unbind : System → ℕ → BrEvent → Option (BrResult × System)
sys_unbind s me event = event_unbind s.world.bindings me event >>= λ r. some (put_bindings s r)

unfoldable pub sys_ack : System → ℕ → BrEvent → Option (BrResult × System)
sys_ack s me event = event_ack s.world.bindings me event >>= λ r. some (put_bindings s r)

-- The union of `BrInspectArgs`.
pub data Infos : Type 0 where
  memory_infos : USizeRange → Infos
  domain_infos : ℕ → Infos
  space_infos : ℕ → Infos
  task_infos : (blocked started stopped : Bool) → (rights : ℕ) → Infos

pub record Inspected : Type 0 where
  pub type_ : BrType
  pub id : ℕ
  pub infos : Infos

-- `sys_stat_memory`, `sys_stat_domain`, `sys_stat_space` and `sys_stat_task`; `slot_count` is the
-- capacity of the table. A type that is not handled is a panic.
unfoldable pub stat : System → ℕ → BrType → Option Infos
stat s o memory = some (memory_infos (s.world.memories o).range)
stat s o domain = some (domain_infos (s.world.domains o).capacity)
stat s o space = some (space_infos (s.world.spaces o).flags)
stat s o task =
    some (task_infos (s.tasks o).blocked (s.tasks o).started (s.tasks o).stopped (s.world.rights o))
stat s o none_ = none
stat s o any_ = none

-- `task_self()` is inspected without a reference.
unfoldable pub inspected : System → ℕ → ℕ → Option (Option ℕ × System)
inspected s me handle =
    if handle == br_handle_self then some (some me, s) else lookup s me handle any_

unfoldable pub inspect_found : System → Option ℕ → Option (BrResult × Option Inspected × System)
inspect_found s none = some (bad_handle, none, s)
inspect_found s (some o) = do
  i ← stat s o (s.objects.types o)
  some (success, some (record { type_ = s.objects.types o; id = s.objects.ids o; infos = i }), s)

unfoldable pub sys_inspect : System → ℕ → ℕ → Option (BrResult × Option Inspected × System)
sys_inspect s me handle = inspected s me handle >>= λ r. inspect_found r.1 r.0

pub record BrIpcArgs : Type 0 where
  pub to : BrAddr
  pub msg : BrMsg
  pub flags : ℕ

abbrev pub br_ipc_send : ℕ
br_ipc_send = 2

abbrev pub br_ipc_recv : ℕ
br_ipc_recv = 4

-- The message as it is sent: a task can not spoof its id.
abbrev pub signed : System → ℕ → BrIpcArgs → BrMsg
signed s me args = record (args.msg) {
  from = record (args.msg.from) { id = s.objects.ids me };
  to = args.to;
}

abbrev pub put_channel : System → ℕ → Channel → Objects → System
put_channel s t c w = record s {
  world = record (s.world) { channels = update s.world.channels t c };
  objects = w;
}

-- The sending half of `sys_ipc`, for a call that does not block.
unfoldable pub ipc_send : System → ℕ → BrIpcArgs → Option (BrResult × System)
ipc_send s me args =
    let (found, w) = global_lookup s.objects args.to.id task in
    elim found [
      | none ↦ some (bad_id, with_objects s w)
      | some t ↦
          (channel_send_unlock (s.world.channels t) (some (domain_at s me)) (signed s me args) w
            >>= λ r. some (r.0, deref (put_channel s t r.1 r.2) t))
    ]

abbrev pub put_domain : System → ℕ → Option Domain → System
put_domain s me none = s
put_domain s me (some d) = record s {
  world = record (s.world) { domains = update s.world.domains (s.world.domain_of me) d };
}

abbrev pub or_msg : BrMsg → Option BrMsg → BrMsg
or_msg m none = m
or_msg m (some n) = n

-- The receiving half, with the message `m` that a receive replaces.
unfoldable pub ipc_recv : System → ℕ → BrMsg → Option (BrResult × BrMsg × System)
ipc_recv s me m =
    channel_recv_unlock (s.world.channels me) (some (domain_at s me)) s.objects >>= λ r.
    some (r.result, or_msg m r.msg, put_domain (put_channel s me r.channel r.objects) me r.domain)

-- After a send, or none: a failure is returned at once, with the arguments as they were.
unfoldable pub ipc_after :
    ℕ → BrIpcArgs → BrMsg → BrResult × System → Option (BrResult × BrMsg × System)
ipc_after me args m (success, s) =
    let received = ipc_recv s me m in
    if has_flag args.flags br_ipc_recv then received else some (success, m, s)
ipc_after me args m (e, s) = some (e, args.msg, s)

-- `sys_ipc` without `BR_IPC_BLOCK`.
unfoldable pub sys_ipc : System → ℕ → BrIpcArgs → Option (BrResult × BrMsg × System)
sys_ipc s me args =
    let sent = (ipc_send s me args >>= ipc_after me args (signed s me args)) in
    if has_flag args.flags br_ipc_send then sent else ipc_after me args args.msg (success, s)
