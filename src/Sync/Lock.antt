-- ===== src/Sync/Lock.antt =====
-- sources/libs/brutal-sync/lock.c and refcount.h, run by one processor.
use brutal.Base.{
  ℕ, zero, suc, ◌+◌, ◌-◌, ◌%◌, ◌^◌, Bool, true, false, Option, none, some, ◌==◌, if◌then◌else◌,
}
use brutal.Sync.Cpu.{CpuRetain, cpu_retain_interrupts, cpu_release_interrupts}

pub record Lock : Type 0 where
  pub locked : Bool

-- The compare-exchange: it stores `true` where `false` was expected and found.
unfoldable pub lock_try_acquire_impl : Lock → Bool × Lock
lock_try_acquire_impl l = if l.locked then (false, l) else (true, record l { locked = true })

unfoldable pub lock_try_acquire : Lock → CpuRetain → Bool × Lock × CpuRetain
lock_try_acquire l c =
    let entered = cpu_retain_interrupts c in
    let (result, l') = lock_try_acquire_impl l in
    if result then (result, l', entered) else (result, l', cpu_release_interrupts entered)

-- The loop of `lock_acquire` on fuel: no other processor releases the lock meanwhile.
unfoldable pub lock_spin : ℕ → Lock → Option Lock
lock_spin zero l = none
lock_spin (suc fuel) l =
    let again = lock_spin fuel (lock_try_acquire_impl l).1 in
    if (lock_try_acquire_impl l).0 then some (lock_try_acquire_impl l).1 else again

unfoldable pub lock_acquire : ℕ → Lock → CpuRetain → Option (Lock × CpuRetain)
lock_acquire fuel l c = elim (lock_spin fuel l) [
  | none ↦ none
  | some l' ↦ some (l', cpu_retain_interrupts c)
]

unfoldable pub lock_release : Lock → CpuRetain → Lock × CpuRetain
lock_release l c = (record l { locked = false }, cpu_release_interrupts c)

-- `atomic_int refs`, by its bit pattern
pub record RefCount : Type 0 where
  pub refs : ℕ

pub data RefCountResult : Type 0 where
  ref deref last : RefCountResult

unfoldable pub refcount_init : RefCount
refcount_init = record { refs = 1 }

unfoldable pub refcount_ref : RefCount → RefCountResult × RefCount
refcount_ref r = (RefCountResult.ref, record r { refs = (r.refs + 1) % 2 ^ 32 })

-- The old value was 1: that was the last reference.
unfoldable pub refcount_deref : RefCount → RefCountResult × RefCount
refcount_deref r = (
  if r.refs == 1 then RefCountResult.last else RefCountResult.deref,
  record r { refs = (r.refs + 2 ^ 32 - 1) % 2 ^ 32 },
)
