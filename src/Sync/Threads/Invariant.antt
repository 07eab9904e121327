-- ===== src/Sync/Threads/Invariant.antt =====
-- What holds between the shared fields and the places where the threads stand.
use brutal.Base.{
  ℕ, ◌+◌, ◌≤◌, ◌<◌, Bool, true, false, ◌≡◌, refl, ◌≢◌, ◌==◌, Bool-cases, inl, inr, arith,
}
use brutal.Sync.Family.{
  move_to, count_of, count_of-move_to, two-le-count_of, le-count_of, count_of-zero,
}
use brutal.Sync.Threads.{
  Shared, Pc, read_held, read_unpending, read_admitted, read_failed, read_done, reading, read_leave,
  read_dropping, read_dropped, write_try, write_held, write_unread, write_admitted, write_failed,
  write_done, write_got, writing, write_leave, write_dropping, write_dropped, Move, read_lock,
  read_unwritten, read_relock, write_lock, write_no_read, write_unwritten, write_relock, System,
  pick, Reach, start, later,
}

-- the thread that holds the inner lock
abbrev pub holds : Pc → ℕ
holds (read_held _) = 1
holds (read_unpending _) = 1
holds read_admitted = 1
holds (read_failed _) = 1
holds read_done = 1
holds read_dropping = 1
holds read_dropped = 1
holds (write_held _) = 1
holds (write_unread _) = 1
holds (write_admitted _) = 1
holds (write_failed _) = 1
holds (write_done _) = 1
holds write_dropping = 1
holds write_dropped = 1
holds _ = 0

-- counted in `readers`, in `writers`, in `pendings`
abbrev pub reads : Pc → ℕ
reads read_done = 1
reads reading = 1
reads read_leave = 1
reads read_dropping = 1
reads _ = 0

abbrev pub writes : Pc → ℕ
writes (write_done _) = 1
writes write_got = 1
writes writing = 1
writes write_leave = 1
writes write_dropping = 1
writes _ = 0

abbrev pub pends : Pc → ℕ
pends (write_try true) = 1
pends (write_held true) = 1
pends (write_unread true) = 1
pends (write_admitted true) = 1
pends (write_failed true) = 1
pends (write_done true) = 1
pends write_got = 1
pends _ = 0

-- What a thread between its tests and its count has seen, and still holds.
abbrev pub IsFresh : Shared → Pc → Type 0
IsFresh m read_admitted = m.writers ≡ 0
IsFresh m (write_unread _) = m.readers ≡ 0
IsFresh m (write_admitted _) = (m.readers ≡ 0) × (m.writers ≡ 0)
IsFresh m _ = Unit

abbrev pub to_nat : Bool → ℕ
to_nat true = 1
to_nat false = 0

pub record Inv (n : ℕ) (m : Shared) (pc : ℕ → Pc) : Type 0 where
  pub held : count_of holds n pc ≡ to_nat m.locked
  pub counted : count_of reads n pc ≡ m.readers
  pub written : count_of writes n pc ≡ m.writers
  pub pending : count_of pends n pc ≡ m.pendings
  pub single : m.writers ≤ 1
  pub exclusive : 0 < m.writers → m.readers ≡ 0
  pub fresh : (j : ℕ) → j < n → IsFresh m (pc j)

-- The premises that a catch-all clause below cannot name.
abbrev Guard : {m m' : Shared} {p p' : Pc} → Move m p m' p' → Type 0
Guard {m} (read_lock _) = m.locked ≡ false
Guard {m} (read_relock _) = m.locked ≡ false
Guard {m} (write_lock _) = m.locked ≡ false
Guard {m} (write_relock _) = m.locked ≡ false
Guard {m} (read_unwritten _) = m.writers ≡ 0
Guard {m} (write_no_read _) = m.readers ≡ 0
Guard {m} (write_unwritten _) = m.writers ≡ 0
Guard _ = Unit

guard : {m m' : Shared} {p p' : Pc} (mv : Move m p m' p') → Guard mv
guard (read_lock g) = g
guard (read_relock g) = g
guard (write_lock g) = g
guard (write_relock g) = g
guard (read_unwritten g) = g
guard (write_no_read g) = g
guard (write_unwritten g) = g
guard _ = tt

module _ {n : ℕ} {m : Shared} {pc : ℕ → Pc} (inv : Inv n m pc) (i : ℕ) where
  -- What moving thread `i` from `p` to `p'` does to the counts.
  record Mover (p p' : Pc) : Type 0 where
    own : IsFresh m p
    h : count_of holds n (move_to pc i p') + holds p ≡ count_of holds n pc + holds p'
    r : count_of reads n (move_to pc i p') + reads p ≡ count_of reads n pc + reads p'
    w : count_of writes n (move_to pc i p') + writes p ≡ count_of writes n pc + writes p'
    d : count_of pends n (move_to pc i p') + pends p ≡ count_of pends n pc + pends p'
    hs : holds p ≤ count_of holds n pc
    rs : reads p ≤ count_of reads n pc
    ws : writes p ≤ count_of writes n pc
    ds : pends p ≤ count_of pends n pc

  mover : i < n → (p' : Pc) → Mover (pc i) p'
  mover lt p' = record {
    own = inv.fresh i lt;
    h = count_of-move_to holds n pc i p' lt;
    r = count_of-move_to reads n pc i p' lt;
    w = count_of-move_to writes n pc i p' lt;
    d = count_of-move_to pends n pc i p' lt;
    hs = le-count_of holds n pc i lt;
    rs = le-count_of reads n pc i lt;
    ws = le-count_of writes n pc i lt;
    ds = le-count_of pends n pc i lt;
  }

  Move-counts : {p p' : Pc} {m' : Shared} → Move m p m' p' → Mover p p' → record {
    held : count_of holds n (move_to pc i p') ≡ to_nat m'.locked;
    counted : count_of reads n (move_to pc i p') ≡ m'.readers;
    written : count_of writes n (move_to pc i p') ≡ m'.writers;
    pending : count_of pends n (move_to pc i p') ≡ m'.pendings;
    single : m'.writers ≤ 1;
    exclusive : 0 < m'.writers → m'.readers ≡ 0;
  }
  Move-counts Move.read_start f = ground arith
  Move-counts mv f = ground (arith, guard mv)

  -- What the mover itself has seen.
  IsFresh-own : {p p' : Pc} {m' : Shared} → Move m p m' p' → IsFresh m p → IsFresh m' p'
  IsFresh-own (Move.read_unlock_failed {b = true}) f = tt
  IsFresh-own mv f = ground (arith, guard mv)

-- No two threads hold the inner lock, so what another thread has seen stays true.
IsFresh-other :
    {m m' : Shared} {p p' : Pc} (q : Pc)
    → Move m p m' p'
    → holds q + holds p ≤ 1
    → IsFresh m q
    → IsFresh m' q
IsFresh-other read_admitted Move.read_start one f = f
IsFresh-other read_admitted mv one f = ground arith
IsFresh-other (write_unread _) Move.read_start one f = f
IsFresh-other (write_unread _) mv one f = ground arith
IsFresh-other (write_admitted _) Move.read_start one f = f
IsFresh-other (write_admitted _) mv one f = ground arith
IsFresh-other _ mv one f = tt

module _ {n : ℕ} {m : Shared} {pc : ℕ → Pc} (inv : Inv n m pc) (i : ℕ) (lt : i < n) where
  Move-others :
      {p' : Pc} {m' : Shared}
      → Move m (pc i) m' p'
      → (j : ℕ) → j < n
      → IsFresh m' (move_to pc i p' j)
  Move-others {p'} {m'} mv j below = elim (Bool-cases (i == j)) [
    | inl e ↦ rw e (IsFresh-own inv i mv (inv.fresh i lt))
    | inr e ↦
        let apart : i ≢ j = ground arith in
        let one : holds (pc j) + holds (pc i) ≤ 1 =
          ground (arith, two-le-count_of holds n pc i j lt below apart, inv.held) in
        rw e (IsFresh-other (pc j) mv one (inv.fresh j below))
  ]

  -- Every step of a thread keeps the invariant.
  pub Move-Inv : {p' : Pc} {m' : Shared} → Move m (pc i) m' p' → Inv n m' (move_to pc i p')
  Move-Inv {p'} mv =
      let counts = Move-counts inv i mv (mover inv i lt p') in
      record {
        held = counts.held;
        counted = counts.counted;
        written = counts.written;
        pending = counts.pending;
        single = counts.single;
        exclusive = counts.exclusive;
        fresh = Move-others mv;
      }

pub Reach-Inv : {n : ℕ} {s : System} → Reach n s → Inv n s.mem s.pc
Reach-Inv {n} start = record {
  held = count_of-zero holds n _ (λ j. refl);
  counted = count_of-zero reads n _ (λ j. refl);
  written = count_of-zero writes n _ (λ j. refl);
  pending = count_of-zero pends n _ (λ j. refl);
  single = omega arith;
  exclusive = λ h. refl;
  fresh = λ j h. tt;
}
Reach-Inv (later r (pick i lt mv)) = Move-Inv (Reach-Inv r) i lt mv
