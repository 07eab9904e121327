-- ===== src/Sync/RwLock/Sections.antt =====
-- What a section under a lock leaves behind: the lock and the processor's interrupts.
use brutal.Base.{ℕ, zero, suc, true, false, Option, some, ◌>>=◌, ◌≡◌, refl, arith}
use brutal.Sync.Cpu.{CpuRetain, positive, at_zero, cpu_retain_interrupts, cpu_release_interrupts}
use brutal.Sync.Lock.{
  Lock, lock_try_acquire_impl, lock_spin, lock_acquire, lock_release, lock_try_acquire,
}
use brutal.Sync.RwLock.{
  RwLock, retained, read_body, write_body, spin, release_read_body, release_write_body,
  rwlock_try_acquire_read, rwlock_try_acquire_write, rwlock_acquire_read, rwlock_acquire_write,
  rwlock_release_read, rwlock_release_write,
}

abbrev pub free : Lock
free = record { locked = false }

-- a processor that is `d` deep, with its interrupts on at depth 0 only
abbrev pub at_depth : ℕ → CpuRetain
at_depth d = record {
  retain_enable = true;
  retain_depth = positive d;
  interrupts = at_zero (positive d);
}

-- Taking a free lock and releasing it gives back the lock and the processor's interrupts, at any
-- depth; a try of a lock that is held changes nothing.
lock_release-lock_acquire :
    (fuel d : ℕ)
    → ((lock_acquire (suc fuel) free (at_depth d) >>= λ r. some (lock_release r.0 r.1))
        ≡ some (free, at_depth d))
      × (lock_try_acquire (record { locked = true }) (at_depth d)
          ≡ (false, record { locked = true }, at_depth d))
unfolding lock_acquire lock_spin lock_try_acquire_impl lock_release cpu_retain_interrupts
    cpu_release_interrupts lock_try_acquire
lock_release-lock_acquire fuel zero = (refl, refl)
lock_release-lock_acquire fuel (suc d) = (refl, refl)

abbrev pub idle : ℕ → RwLock
idle r = record { lock = free; pendings = 0; readers = r; writers = 0 }

pub read_section : ℕ → RwLock → CpuRetain → Option (RwLock × CpuRetain)
read_section fuel self c = rwlock_acquire_read fuel self c >>= λ r. rwlock_release_read fuel r.0 r.1

pub write_section : ℕ → RwLock → CpuRetain → Option (RwLock × CpuRetain)
write_section fuel self c =
    rwlock_acquire_write fuel self c >>= λ r. rwlock_release_write fuel r.0 r.1

-- On one processor that retains interrupts, at any depth: a read section beside any number of
-- readers, and a write section on an idle lock, give the lock back as it was and leave the
-- processor one deeper, with its interrupts off.
pub rwlock_sections_deeper :
    (fuel d r : ℕ)
    → (read_section (suc fuel) (idle r) (at_depth d) ≡ some (idle r, at_depth (suc d)))
      × (write_section (suc fuel) (idle 0) (at_depth d) ≡ some (idle 0, at_depth (suc d)))
unfolding read_section write_section rwlock_acquire_read rwlock_release_read rwlock_acquire_write
    rwlock_release_write rwlock_try_acquire_read rwlock_try_acquire_write retained read_body
    write_body release_read_body release_write_body spin lock_acquire lock_spin
    lock_try_acquire_impl lock_release cpu_retain_interrupts cpu_release_interrupts
rwlock_sections_deeper fuel d r = (ground arith, refl)
