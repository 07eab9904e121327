-- ===== src/Sync/Threads/Exclusion.antt =====
-- What the reader and writer lock promises its callers, in every order of the threads' steps.
use brutal.Base.{ℕ, ◌+◌, ◌≤◌, ◌<◌, true, ◌≡◌, refl, ◌≢◌, ap, arith}
use brutal.Sync.Family.{
  count_of, count_of-move_to, two-le-count_of, le-count_of, count_of_sum, count_of-zero,
}
use brutal.Sync.Threads.{
  Shared, Pc, read_unpending, read_admitted, reading, writing, Move, read_start, System, Step, pick,
  Reach, later,
}
use brutal.Sync.Threads.Invariant.{holds, reads, writes, to_nat, Reach-Inv}

-- In every state that the threads reach from the zeroed lock, in any order of their steps: while a
-- thread is writing, another one is neither writing nor reading.
pub Reach-excludes :
    {n : ℕ} {s : System} (i j : ℕ)
    → Reach n s
    → i < n
    → j < n
    → i ≢ j
    → s.pc i ≡ writing
    → (s.pc j ≢ writing) × (s.pc j ≢ reading)
Reach-excludes {n} {s} i j r hi hj apart w =
    let inv = Reach-Inv r in
    let own : writes (s.pc i) ≡ 1 = ap writes w in
    let two = two-le-count_of writes n s.pc i j hi hj apart in
    let one = le-count_of writes n s.pc i hi in
    let other = le-count_of reads n s.pc j hj in
    (
      λ e.
          let at : writes (s.pc j) ≡ 1 = ap writes e in
          absurd (omega (arith, inv.written, inv.single)),
      λ e.
          let at : reads (s.pc j) ≡ 1 = ap reads e in
          let none_read : s.mem.readers ≡ 0 = inv.exclusive (omega (arith, inv.written)) in
          absurd (omega (arith, inv.counted)),
    )

-- the readers, and the threads that have found no pending writer
abbrev inflow : Pc → ℕ
inflow (read_unpending _) = 1
inflow read_admitted = 1
inflow p = reads p

-- the steps of a run in which some writer is pending all the while
pub data Kept (n : ℕ) (s : System) : System → Type 0 where
  here : Kept n s s
  on : {t u : System} → Kept n s t → 0 < t.mem.pendings → Step n t u → Kept n s u

inflow-le : {m m' : Shared} {p p' : Pc} → Move m p m' p' → 0 < m.pendings → inflow p' ≤ inflow p
inflow-le read_start h = omega arith
inflow-le (Move.read_unlock_failed {b = true}) h = omega arith
inflow-le (Move.read_no_pending z) h = absurd (omega arith)
inflow-le mv h = ground arith

reads-le-inflow : (p : Pc) → reads p ≤ inflow p + 0
reads-le-inflow p = ground arith

inflow-le-reads_holds : (p : Pc) → inflow p ≤ reads p + holds p
inflow-le-reads_holds p = ground arith

module _ {n : ℕ} {s : System} where
  Kept-Reach : {t : System} → Reach n s → Kept n s t → Reach n t
  Kept-Reach r here = r
  Kept-Reach r (on k h st) = later (Kept-Reach r k) st

  Kept-inflow : {t : System} → Kept n s t → count_of inflow n t.pc ≤ count_of inflow n s.pc
  Kept-inflow here = omega arith
  Kept-inflow (on {t} k h (pick i {p} lt mv)) =
      omega (arith, Kept-inflow k, count_of-move_to inflow n t.pc i p lt, inflow-le mv h)

  -- From any reachable state, along any steps before each of which some writer is pending: the
  -- lock counts at most one reader more at the end than at the start.
  pub Kept-readers_le : {t : System} → Reach n s → Kept n s t → t.mem.readers ≤ s.mem.readers + 1
  Kept-readers_le {t} r k =
      let before = Reach-Inv r in
      let after = Reach-Inv (Kept-Reach r k) in
      let some_read = count_of_sum reads inflow (λ _. 0) n t.pc reads-le-inflow in
      let admitted = count_of_sum inflow reads holds n s.pc inflow-le-reads_holds in
      let few : to_nat s.mem.locked ≤ 1 = ground arith in
      omega (
        arith,
        Kept-inflow k,
        count_of-zero (λ _. 0) n t.pc (λ j. refl),
        before.held,
        before.counted,
        after.counted,
      )
