-- ===== src/Sync/Threads.antt =====
-- sources/libs/brutal-sync/rwlock.c, run by `n` threads at once: every access to the shared fields
-- is a step, and the threads' steps interleave in any order. The compare-exchange that
-- `lock_acquire` waits for is one step, which fails as often as it likes. A thread that is
-- `reading` or `writing` has returned from the acquiring call and not called the releasing one.
pub mod Invariant
pub mod Exclusion
use brutal.Base.{ℕ, ◌+◌, ◌-◌, ◌<◌, Bool, true, false, ◌≡◌}
use brutal.Sync.Family.{move_to}

pub record Shared : Type 0 where
  pub locked : Bool
  pub pendings : ℕ
  pub readers : ℕ
  pub writers : ℕ

-- Where a thread stands. `spins` tells the loop of an acquiring call from a single try.
pub data Pc : Type 0 where
  idle : Pc
  read_try : (spins : Bool) → Pc  -- before the inner lock is taken
  read_held : (spins : Bool) → Pc  -- before `if (self->pendings)`
  read_unpending : (spins : Bool) → Pc  -- before `if (self->writers)`
  read_admitted : Pc  -- before `self->readers++`
  read_failed : (spins : Bool) → Pc  -- before the inner lock is released
  read_done : Pc
  reading : Pc
  read_leave : Pc  -- in `rwlock_release_read`, before the inner lock is taken
  read_dropping : Pc  -- before `self->readers--`
  read_dropped : Pc
  write_try : (spins : Bool) → Pc
  write_held : (spins : Bool) → Pc  -- before `if (self->readers)`
  write_unread : (spins : Bool) → Pc  -- before `if (self->writers)`
  write_admitted : (spins : Bool) → Pc  -- before `self->writers++`
  write_failed : (spins : Bool) → Pc
  write_done : (spins : Bool) → Pc
  write_got : Pc  -- before `self->pendings--`
  writing : Pc
  write_leave : Pc
  write_dropping : Pc
  write_dropped : Pc

-- After a failed try the loop of `rwlock_acquire_read` tries again, a single try returns.
abbrev pub read_again : Bool → Pc
read_again true = read_try true
read_again false = idle

abbrev pub write_again : Bool → Pc
write_again true = write_try true
write_again false = idle

-- `rwlock_acquire_write` still has to take its pending mark back.
abbrev pub write_won : Bool → Pc
write_won true = write_got
write_won false = writing

abbrev pub taken : Shared → Shared
taken m = record m { locked = true }

abbrev pub freed : Shared → Shared
freed m = record m { locked = false }

-- One step of one thread.
pub data Move (m : Shared) : Pc → Shared → Pc → Type 0 where
  read_start : {b : Bool} → Move m idle m (read_try b)
  read_lock : {b : Bool} → m.locked ≡ false → Move m (read_try b) (taken m) (read_held b)
  read_pending : {b : Bool} → 0 < m.pendings → Move m (read_held b) m (read_failed b)
  read_no_pending : {b : Bool} → m.pendings ≡ 0 → Move m (read_held b) m (read_unpending b)
  read_written : {b : Bool} → 0 < m.writers → Move m (read_unpending b) m (read_failed b)
  read_unwritten : {b : Bool} → m.writers ≡ 0 → Move m (read_unpending b) m read_admitted
  read_count : Move m read_admitted (record m { readers = m.readers + 1 }) read_done
  read_unlock_failed : {b : Bool} → Move m (read_failed b) (freed m) (read_again b)
  read_unlock : Move m read_done (freed m) reading
  read_release : Move m reading m read_leave
  read_relock : m.locked ≡ false → Move m read_leave (taken m) read_dropping
  read_uncount : Move m read_dropping (record m { readers = m.readers - 1 }) read_dropped
  read_end : Move m read_dropped (freed m) idle
  write_start_try : Move m idle m (write_try false)
  write_start : Move m idle (record m { pendings = m.pendings + 1 }) (write_try true)
  write_lock : {b : Bool} → m.locked ≡ false → Move m (write_try b) (taken m) (write_held b)
  write_read : {b : Bool} → 0 < m.readers → Move m (write_held b) m (write_failed b)
  write_no_read : {b : Bool} → m.readers ≡ 0 → Move m (write_held b) m (write_unread b)
  write_written : {b : Bool} → 0 < m.writers → Move m (write_unread b) m (write_failed b)
  write_unwritten : {b : Bool} → m.writers ≡ 0 → Move m (write_unread b) m (write_admitted b)
  write_count :
      {b : Bool} → Move m (write_admitted b) (record m { writers = m.writers + 1 }) (write_done b)
  write_unlock_failed : {b : Bool} → Move m (write_failed b) (freed m) (write_again b)
  write_unlock : {b : Bool} → Move m (write_done b) (freed m) (write_won b)
  write_unpend : Move m write_got (record m { pendings = m.pendings - 1 }) writing
  write_release : Move m writing m write_leave
  write_relock : m.locked ≡ false → Move m write_leave (taken m) write_dropping
  write_uncount : Move m write_dropping (record m { writers = m.writers - 1 }) write_dropped
  write_end : Move m write_dropped (freed m) idle

pub record System : Type 0 where
  pub mem : Shared
  pub pc : ℕ → Pc

pub data Step (n : ℕ) (s : System) : System → Type 0 where
  pick :
      (i : ℕ) {m : Shared} {p : Pc}
      → i < n
      → Move s.mem (s.pc i) m p
      → Step n s (record { mem = m; pc = move_to s.pc i p })

-- The zeroed lock, with every thread outside.
abbrev pub outside : System
outside = record {
  mem = record { locked = false; pendings = 0; readers = 0; writers = 0 };
  pc = λ _. Pc.idle;
}

pub data Reach (n : ℕ) : System → Type 0 where
  start : Reach n outside
  later : {s t : System} → Reach n s → Step n s t → Reach n t
