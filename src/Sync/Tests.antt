-- ===== src/Sync/Tests.antt =====
-- Runs of the locks.
use brutal.Base.{◌+◌, ◌≤◌, ◌≡◌, refl, ◌≢◌, true, some, arith}
use brutal.Sync.Lock.{RefCountResult, refcount_init, refcount_ref, refcount_deref}
use brutal.Sync.RwLock.Sections.{
  at_depth, idle, read_section, write_section, rwlock_sections_deeper,
}
use brutal.Sync.Threads.{writing, reading, Move, System, pick, Reach, start, later}
use brutal.Sync.Threads.Exclusion.{Kept, here, on, Reach-excludes, Kept-readers_le}

-- Thread 0 takes the write lock by a single try.
abbrev written : (s : System) × Reach 2 s
written = (
  _,
  later
      (later
        (later
          (later
            (later (later start (pick 0 (omega arith) Move.write_start_try))
              (pick 0 (omega arith) (Move.write_lock refl)))
            (pick 0 (omega arith) (Move.write_no_read refl)))
          (pick 0 (omega arith) (Move.write_unwritten refl)))
        (pick 0 (omega arith) Move.write_count))
      (pick 0 (omega arith) Move.write_unlock),
)

Reach-excludes_example : (written.0.pc 1 ≢ writing) × (written.0.pc 1 ≢ reading)
Reach-excludes_example = Reach-excludes 0 1 written.1 (omega arith) (omega arith) (omega arith) refl

-- Thread 0 has found no pending writer when thread 1 starts to wait for the lock.
abbrev awaited : (s : System) × Reach 2 s
awaited = (
  _,
  later
      (later
        (later (later start (pick 0 (omega arith) (Move.read_start {b = true})))
          (pick 0 (omega arith) (Move.read_lock refl)))
        (pick 0 (omega arith) (Move.read_no_pending refl)))
      (pick 1 (omega arith) Move.write_start),
)

abbrev admitted : (t : System) × Kept 2 awaited.0 t
admitted = (
  _,
  on (on here (omega arith) (pick 0 (omega arith) (Move.read_unwritten refl))) (omega arith)
      (pick 0 (omega arith) Move.read_count),
)

Kept-readers_le_example : admitted.0.mem.readers ≤ awaited.0.mem.readers + 1
Kept-readers_le_example = Kept-readers_le awaited.1 admitted.1

rwlock_sections_deeper_example :
    (read_section 1 (idle 3) (at_depth 0) ≡ some (idle 3, at_depth 1))
    × (write_section 1 (idle 0) (at_depth 0) ≡ some (idle 0, at_depth 1))
rwlock_sections_deeper_example = rwlock_sections_deeper 0 0 3

second_reference :
    refcount_deref (refcount_ref refcount_init).1 ≡ (RefCountResult.deref, refcount_init)
unfolding refcount_deref refcount_ref refcount_init
second_reference = refl
