-- ===== src/Sync/RwLock.antt =====
-- sources/libs/brutal-sync/rwlock.c, run by one processor: what each call does to the lock and to
-- the processor's interrupts. `none` is an assertion that failed, or a wait that never ends.
pub mod Sections
use brutal.Base.{
  ℕ, zero, suc, ◌+◌, ◌-◌, Bool, true, false, Option, none, some, ltb, ◌==◌, if◌then◌else◌, ◌>>=◌,
  ◌>>◌, assert, not,
}
use brutal.Sync.Cpu.{CpuRetain, cpu_retain_interrupts, cpu_release_interrupts}
use brutal.Sync.Lock.{Lock, lock_acquire, lock_release}

pub record RwLock : Type 0 where
  pub lock : Lock
  pub pendings : ℕ
  pub readers : ℕ
  pub writers : ℕ

-- `LOCK_RETAINER(&self->lock)` round the body of a function
unfoldable pub retained {ℓ} :
    {A : Type ℓ}
    → ℕ
    → (RwLock → CpuRetain → Option (A × RwLock × CpuRetain))
    → RwLock
    → CpuRetain
    → Option (A × RwLock × CpuRetain)
retained fuel body self c = do
  (held, c₁) ← lock_acquire fuel self.lock c
  (result, done, c₂) ← body (record self { lock = held }) c₁
  let freed = lock_release done.lock c₂
  some (result, record done { lock = freed.0 }, freed.1)

unfoldable pub read_body : RwLock → CpuRetain → Option (Bool × RwLock × CpuRetain)
read_body self c =
    if not (self.pendings == 0)
    then some (false, self, c)
    else if not (self.writers == 0)
    then some (false, self, c)
    else some (true, record self { readers = self.readers + 1 }, cpu_retain_interrupts c)

unfoldable pub rwlock_try_acquire_read : ℕ → RwLock → CpuRetain → Option (Bool × RwLock × CpuRetain)
rwlock_try_acquire_read fuel = retained fuel read_body

-- The loop of a caller that waits, on fuel
unfoldable pub spin :
    ℕ
    → (RwLock → CpuRetain → Option (Bool × RwLock × CpuRetain))
    → RwLock
    → CpuRetain
    → Option (RwLock × CpuRetain)
spin zero try self c = none
spin (suc fuel) try self c = elim (try self c) [
  | none ↦ none
  | some (true, s, c') ↦ some (s, c')
  | some (false, s, c') ↦ spin fuel try s c'
]

unfoldable pub rwlock_acquire_read : ℕ → RwLock → CpuRetain → Option (RwLock × CpuRetain)
rwlock_acquire_read fuel self c =
    spin fuel (rwlock_try_acquire_read fuel) self (cpu_retain_interrupts c)

-- The count falls whether or not the assertion holds; a failed assertion panics.
unfoldable pub release_read_body : RwLock → CpuRetain → Option (Unit {0} × RwLock × CpuRetain)
release_read_body self c =
    assert (ltb 0 self.readers)
    >> some (tt, record self { readers = self.readers - 1 }, cpu_release_interrupts c)

unfoldable pub rwlock_release_read : ℕ → RwLock → CpuRetain → Option (RwLock × CpuRetain)
rwlock_release_read fuel self c = retained fuel release_read_body self c >>= λ r. some (r.1, r.2)

unfoldable pub write_body : RwLock → CpuRetain → Option (Bool × RwLock × CpuRetain)
write_body self c =
    if not (self.readers == 0)
    then some (false, self, c)
    else if not (self.writers == 0)
    then some (false, self, c)
    else some (true, record self { writers = self.writers + 1 }, cpu_retain_interrupts c)

unfoldable pub rwlock_try_acquire_write :
    ℕ → RwLock → CpuRetain → Option (Bool × RwLock × CpuRetain)
rwlock_try_acquire_write fuel = retained fuel write_body

unfoldable pub rwlock_acquire_write : ℕ → RwLock → CpuRetain → Option (RwLock × CpuRetain)
rwlock_acquire_write fuel self c = do
  let entered = cpu_retain_interrupts c
  (s, c') ←
      spin fuel (rwlock_try_acquire_write fuel) (record self { pendings = self.pendings + 1 })
        entered
  some (record s { pendings = s.pendings - 1 }, c')

unfoldable pub release_write_body : RwLock → CpuRetain → Option (Unit {0} × RwLock × CpuRetain)
release_write_body self c =
    assert (ltb 0 self.writers)
    >> some (tt, record self { writers = self.writers - 1 }, cpu_release_interrupts c)

unfoldable pub rwlock_release_write : ℕ → RwLock → CpuRetain → Option (RwLock × CpuRetain)
rwlock_release_write fuel self c = retained fuel release_write_body self c >>= λ r. some (r.1, r.2)
