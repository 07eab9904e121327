-- ===== src/Kernel/Syscalls/Rights.antt =====
-- The rights of tasks in the calls of sources/kernel/syscalls.c.
use brutal.Base.{
  ℕ, ◌-◌, ◌^◌, ◌<◌, ◌≤◌, min, Bool-cases, true, false, ◌||◌, Option, none, some, List, ◌==◌, ◌≡◌,
  ◌⊎◌, inl, inr, refl, arith, digit, digit_lt, digit-bit_and, digit_of_complement, digit_of_small,
  ltb,
}
use native.Mathlib.Decide.{ℕ_discrete}
use brutal.Ds.RangeAlloc.{USizeRange}
use brutal.Ds.Slot.Laws.{IsSlot}
use brutal.Kernel.Abi.{BrResult, success, not_permitted, bad_handle, task}
use brutal.Kernel.Event.{BrEvent}
use brutal.Kernel.Space.{Mmap}
use brutal.Kernel.System.{System, br_handle_self, has_flag, ref, domain_at}
use brutal.Kernel.System.Counts.{Holds, lookup-Found}
use brutal.Kernel.Syscalls.{
  BrMapArgs, br_mem_special, br_mem_lower, br_mem_dma, br_right_irq, br_right_dma, br_right_task,
  permits, sys_map,
}
use brutal.Kernel.Syscalls.Balance.{IsHandle}
use brutal.Kernel.Syscalls.Create.{
  BrTaskProps, BrMemoryProps, create_task, create_memory, sys_create_memory, sys_create,
}
use brutal.Kernel.Syscalls.Calls.{task_handle, without, drop_rights, sys_drop, is_irq, sys_bind}

-- The task found by one of the calls on a task, with a reference.
task_handle-Found :
    (s : System) (me h : ℕ)
    → IsSlot (domain_at s me)
    → IsHandle h
    → (found : Option ℕ) × (s' : System) × (task_handle s me h ≡ some (found, s'))
      × (((found ≡ none) × (s' ≡ s))
          ⊎ ((t : ℕ) × (found ≡ some t)
              × (s' ≡ ref s t)
              × (((h ≡ br_handle_self) × (t ≡ me)) ⊎ Holds s me h task t)))
unfolding task_handle
task_handle-Found s me h table handle = elim (Bool-cases (h == br_handle_self)) [
  | inl self ↦ (some me, ref s me, ground arith, inr (me, refl, refl, inl (ground arith, refl)))
  | inr other ↦
      let (found, s', ran, cases) = lookup-Found s me h task table (ground (arith, handle)) in
      (
        found,
        s',
        ground arith,
        elim cases [
          | inl nothing ↦ inl nothing
          | inr (t, is, same, holds) ↦ inr (t, is, same, inr holds)
        ],
      )
]

-- No task has a right that it did not have.
abbrev pub NoNewRights : System → System → Type 0
NoNewRights s s' = (t k : ℕ) → digit (s'.world.rights t) k ≤ digit (s.world.rights t) k

-- The task has none of the rights of the mask.
abbrev pub Lacks : System → ℕ → ℕ → Type 0
Lacks s t mask = (k : ℕ) → min (digit (s.world.rights t) k) (digit mask k) ≡ 0

digit-without : (a b k : ℕ) → b < 2 ^ 32 → min (digit (without a b) k) (digit b k) ≡ 0
digit-without a b k small = elim (Bool-cases (ltb k 32)) [
  | inl low ↦ omega (
    arith,
    digit-bit_and a (2 ^ 32 - 1 - b) k,
    digit_of_complement 32 b k small (ground arith),
    digit_lt b k,
  )
  | inr high ↦ omega (arith, digit_of_small 32 b k small (ground arith))
]

digit-without_le : (a b k : ℕ) → digit (without a b) k ≤ digit a k
digit-without_le a b k = omega (arith, digit-bit_and a (2 ^ 32 - 1 - b) k)

drop_rights-NoNewRights : (s : System) (t mask : ℕ) → NoNewRights s (drop_rights s t mask).1
unfolding drop_rights
drop_rights-NoNewRights s t mask u k = elim (Bool-cases (has_flag (s.world.rights t) mask)) [
  | inl any ↦ elim (ℕ_discrete u t) [
    | yes e ↦ rw e (ground (arith, digit-without_le (s.world.rights t) mask k))
    | no ne ↦ ground arith
  ]
  | inr missing ↦ ground arith
]

drop_rights-Lacks :
    (s : System) (t mask : ℕ)
    → mask < 2 ^ 32
    → (((drop_rights s t mask).0 ≡ success) × Lacks (drop_rights s t mask).1 t mask)
      ⊎ (((drop_rights s t mask).0 ≡ not_permitted) × (has_flag (s.world.rights t) mask ≡ false))
unfolding drop_rights
drop_rights-Lacks s t mask small = elim (Bool-cases (has_flag (s.world.rights t) mask)) [
  | inl any ↦ inl (ground arith, λ k. ground (arith, digit-without (s.world.rights t) mask k small))
  | inr missing ↦ inr (ground arith, missing)
]

-- With a well-formed table of handles, a mask of 32 bits, and the handle of the own task or one
-- below 2 ^ 31: `sys_drop` returns, and no task has a right afterwards that it did not have. The
-- handle is bad and nothing changed; or it stands for a task, and either the call succeeds and
-- that task has none of the rights of the mask, or it had none of them and the call is not
-- permitted.
pub sys_drop-NoNewRights :
    (s : System) (me handle mask : ℕ)
    → IsSlot (domain_at s me)
    → IsHandle handle
    → mask < 2 ^ 32
    → (res : BrResult) × (s' : System) × (sys_drop s me handle mask ≡ some (res, s'))
      × NoNewRights s s'
      × (((res ≡ bad_handle) × (s' ≡ s))
          ⊎ ((t : ℕ) × (((handle ≡ br_handle_self) × (t ≡ me)) ⊎ Holds s me handle task t)
              × (((res ≡ success) × Lacks s' t mask)
                  ⊎ ((res ≡ not_permitted) × (has_flag (s.world.rights t) mask ≡ false)))))
unfolding sys_drop
sys_drop-NoNewRights s me handle mask table valid small =
    let (found, u, ran, cases) = task_handle-Found s me handle table valid in
    elim cases [
      | inl (nothing, same) ↦ (bad_handle, s, ground arith, λ t k. omega arith, inl (refl, refl))
      | inr (t, is, same, which) ↦
          let (res, s') : BrResult × System = drop_rights (ref s t) t mask in
          (
            res,
            s',
            ground arith,
            drop_rights-NoNewRights (ref s t) t mask,
            inr (t, which, drop_rights-Lacks (ref s t) t mask small),
          )
    ]

module _ (acquire : ℕ → Option (List Mmap)) (acquire_ranges : ℕ → Option (List USizeRange)) where
  -- A task without the rights to direct memory, tasks and interrupts, that asks for a mapping with
  -- special flags, for memory at a given or a low address, for a new task, or to be told of an
  -- interrupt, is not permitted, and nothing changed.
  calls-not_permitted :
      (s : System) (me o d : ℕ) (map : BrMapArgs) (task_ : BrTaskProps) (mem : BrMemoryProps)
      (event : BrEvent)
      → permits s me br_right_dma ≡ false
      → permits s me br_right_task ≡ false
      → permits s me br_right_irq ≡ false
      → has_flag map.flags br_mem_special ≡ true
      → has_flag mem.flags br_mem_dma || has_flag mem.flags br_mem_lower ≡ true
      → is_irq event ≡ true
      → (sys_map acquire acquire_ranges s me map ≡ some (not_permitted, map, s))
        × (sys_create acquire acquire_ranges s me o d (create_memory mem)
            ≡ some (not_permitted, none, s))
        × (sys_create acquire acquire_ranges s me o d (create_task task_)
            ≡ some (not_permitted, none, s))
        × (sys_bind s me event ≡ some (not_permitted, s))
  unfolding sys_map sys_create sys_create_memory sys_bind
  calls-not_permitted s me o d map task_ mem event no_dma no_task no_irq special lower irq =
      (ground arith, ground arith, ground arith, ground arith)
