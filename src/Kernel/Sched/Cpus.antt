-- ===== src/Kernel/Sched/Cpus.antt =====
-- Which task each processor runs next, in sources/kernel/sched.c.
use brutal.Base.{
  ℕ, zero, suc, ◌<◌, false, some, List, [], ◌∷◌, length, get_elem?, get_elem?-lt, lt-length, ◌==◌,
  if◌then◌else◌, ◌≡◌, ◌≢◌, refl, ap, ◌∙◌, arith,
}
use native.Mathlib.Decide.{ℕ_discrete}
use brutal.Kernel.Object.{update}
use brutal.Kernel.Sched.{
  Sched, Task, Cpu, task_runnable, runs, clear_next, set_next, started_at, ended_at, sched_detach,
  sched_attach, sched_next,
}

-- Every processor has a task to run next, and no two have the same.
pub record IsApart (cpus : List Cpu) : Type 0 where
  pub some_cpu : 0 < length cpus
  pub busy : (i : ℕ) (c : Cpu) → get_elem? cpus i ≡ some c → 0 < c.next
  pub apart :
      (i j : ℕ) (c d : Cpu)
      → get_elem? cpus i ≡ some c
      → get_elem? cpus j ≡ some d
      → c.next ≡ d.next
      → i ≡ j

abbrev pub runs_next : ℕ → Cpu → Cpu
runs_next t c = record c { next = t }

get_elem?-clear_next :
    (cs : List Cpu) (t j : ℕ) (c : Cpu)
    → get_elem? cs j ≡ some c
    → get_elem? (clear_next cs t) j ≡ some (if c.next == t then runs_next 0 c else c)
unfolding clear_next
get_elem?-clear_next [] t j c e = absurd (ground arith)
get_elem?-clear_next (x ∷ xs) t zero c e = let same : x ≡ c = ground arith in rw same refl
get_elem?-clear_next (x ∷ xs) t (suc j) c e = get_elem?-clear_next xs t j c e

get_elem?-set_next :
    (cs : List Cpu) (i t j : ℕ) (c : Cpu)
    → get_elem? cs j ≡ some c
    → get_elem? (set_next cs i t) j ≡ some (if j == i then runs_next t c else c)
unfolding set_next
get_elem?-set_next [] i t j c e = absurd (ground arith)
get_elem?-set_next (x ∷ xs) zero t zero c e = let same : x ≡ c = ground arith in rw same refl
get_elem?-set_next (x ∷ xs) zero t (suc j) c e = ground arith
get_elem?-set_next (x ∷ xs) (suc i) t zero c e = ground arith
get_elem?-set_next (x ∷ xs) (suc i) t (suc j) c e = ground (arith, get_elem?-set_next xs i t j c e)

length-clear_next : (cs : List Cpu) (t : ℕ) → length (clear_next cs t) ≡ length cs
unfolding clear_next
length-clear_next [] t = refl
length-clear_next (x ∷ xs) t = ap suc (length-clear_next xs t)

length-set_next : (cs : List Cpu) (i t : ℕ) → length (set_next cs i t) ≡ length cs
unfolding set_next
length-set_next [] i t = refl
length-set_next (x ∷ xs) zero t = refl
length-set_next (x ∷ xs) (suc i) t = ap suc (length-set_next xs i t)

pub runs-next :
    (cs : List Cpu) (t j : ℕ) (c : Cpu) → runs cs t ≡ false → get_elem? cs j ≡ some c → c.next ≢ t
unfolding runs
runs-next [] t j c off e = absurd (ground arith)
runs-next (x ∷ xs) t zero c off e =
    let same : x ≡ c = ground arith in rw (← same) (λ p. ground arith)
runs-next (x ∷ xs) t (suc j) c off e = runs-next xs t j c (ground arith) e

-- A change that leaves the state of a task alone.
pub runnable-update :
    (tasks : ℕ → Task) (k : ℕ) (v : Task) (j : ℕ)
    → task_runnable v ≡ task_runnable (tasks k)
    → task_runnable (update tasks k v j) ≡ task_runnable (tasks j)
runnable-update tasks k v j h = elim (ℕ_discrete j k) [
  | yes same ↦ rw same (ground (arith, h))
  | no other ↦ ap task_runnable (ground arith)
]

module _ {W : Type 0} where
  -- The processor `i` runs `t` next, which starts now; nothing else is different to a scheduler.
  pub record Moved (s : Sched W) (t i : ℕ) (s' : Sched W) : Type 0 where
    pub cpu :
        (j : ℕ) (c : Cpu)
        → get_elem? s.cpus j ≡ some c
        → get_elem? s'.cpus j ≡ some (if j == i then runs_next t c else c)
    pub same_size : length s'.cpus ≡ length s.cpus
    pub starts :
        (j : ℕ) → (s'.tasks j).time_start ≡ (if j == t then s.tick else (s.tasks j).time_start)
    pub same_runnable : (j : ℕ) → task_runnable (s'.tasks j) ≡ task_runnable (s.tasks j)
    pub same_queue : s'.queue ≡ s.queue
    pub same_tick : s'.tick ≡ s.tick

  abbrev detached_tasks : Sched W → ℕ → ℕ → Task
  detached_tasks s o = update s.tasks o (ended_at s.tick (s.tasks o))

  abbrev moved : Sched W → ℕ → ℕ → ℕ → Sched W
  moved s t i o = record s {
    tasks = update (detached_tasks s o) t (started_at s.tick (detached_tasks s o t));
    cpus = set_next (clear_next s.cpus o) i t;
  }

  sched_next-eq :
      (s : Sched W) (t i : ℕ) (c : Cpu)
      → 0 < t
      → 0 < c.next
      → get_elem? s.cpus i ≡ some c
      → sched_next s t i ≡ some (moved s t i c.next)
  unfolding sched_next sched_detach sched_attach
  sched_next-eq s t i c pos live at = ground arith

  moved-starts :
      (s : Sched W) (t i o j : ℕ)
      → ((moved s t i o).tasks j).time_start ≡ (if j == t then s.tick else (s.tasks j).time_start)
  moved-starts s t i o j = ground (arith, at)
    where
      at : j ≡ o → (s.tasks o).time_start ≡ (s.tasks j).time_start
      at e = rw e refl

  moved-runnable :
      (s : Sched W) (t i o j : ℕ)
      → task_runnable ((moved s t i o).tasks j) ≡ task_runnable (s.tasks j)
  moved-runnable s t i o j =
      runnable-update (detached_tasks s o) t (started_at s.tick (detached_tasks s o t)) j
        (unfold task_runnable in refl)
      ∙ runnable-update s.tasks o (ended_at s.tick (s.tasks o)) j (unfold task_runnable in refl)

  -- On processors that are apart, `sched_next` moves one of them.
  pub sched_next-Moved :
      (s : Sched W) (t i : ℕ) (c : Cpu)
      → IsApart s.cpus
      → 0 < t
      → get_elem? s.cpus i ≡ some c
      → (s' : Sched W) × (sched_next s t i ≡ some s') × Moved s t i s'
  sched_next-Moved s t i c v pos at = (
    moved s t i c.next,
    sched_next-eq s t i c pos (v.busy i c at) at,
    record {
      cpu = λ j d e. ground (
        arith,
        get_elem?-set_next (clear_next s.cpus c.next) i t j
            (if d.next == c.next then runs_next 0 d else d)
            (get_elem?-clear_next s.cpus c.next j d e),
        v.apart j i d c e at,
      );
      same_size = length-set_next (clear_next s.cpus c.next) i t ∙ length-clear_next s.cpus c.next;
      starts = moved-starts s t i c.next;
      same_runnable = moved-runnable s t i c.next;
      same_queue = refl;
      same_tick = refl;
    },
  )

  -- A task that did not run leaves the processors apart.
  pub Moved-IsApart :
      (s : Sched W) (t i : ℕ) (s' : Sched W)
      → IsApart s.cpus
      → 0 < t
      → runs s.cpus t ≡ false
      → Moved s t i s'
      → IsApart s'.cpus
  Moved-IsApart s t i s' v pos off m = record {
    some_cpu = omega (arith, m.same_size, v.some_cpu);
    busy = λ j c e.
        let (d, before) = old j c e in ground (arith, m.cpu j d before, v.busy j d before, e);
    apart = λ j k c d e f same.
        let (c', was) = old j c e in
        let (d', had) = old k d f in
        ground (
          arith,
          m.cpu j c' was,
          m.cpu k d' had,
          e,
          f,
          same,
          v.apart j k c' d' was had,
          runs-next s.cpus t j c' off was,
          runs-next s.cpus t k d' off had,
        );
  }
    where
      old :
          (j : ℕ) (c : Cpu)
          → get_elem? s'.cpus j ≡ some c
          → (d : Cpu) × (get_elem? s.cpus j ≡ some d)
      old j c e = get_elem?-lt s.cpus j (omega (arith, lt-length s'.cpus j e, m.same_size))
