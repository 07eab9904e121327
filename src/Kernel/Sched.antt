-- ===== src/Kernel/Sched.antt =====
-- sources/kernel/sched.c: the scheduler, and the tests of a task in sources/kernel/task.h. A task
-- is its address, and 0 is the null pointer; its processor context is left out. The lock makes
-- each operation one step. The function of a blocker is a call back: `poll` is its answer for a
-- task, and what it does to the rest of the world.
pub mod Cycle
pub mod Peek
pub mod Cpus
pub mod Rounds
pub mod Wake
pub mod Finalize
mod Tests
use brutal.Base.{
  ℕ, zero, suc, ◌+◌, ◌-◌, ◌%◌, ◌^◌, Bool, true, false, not, ◌&&◌, ◌||◌, Option, none, some, List,
  [], ◌∷◌, ◌++◌, length, get_elem?, ltb, leb, ◌==◌, if◌then◌else◌, ◌>>=◌, ◌>>◌, assert, word, add64,
  sub64,
}
use brutal.Kernel.Abi.{BrResult, success, timeout, interrupted}
use brutal.Kernel.Object.{Objects, update, remove, object_ref, object_deref}

-- The fields of a `Task` that the scheduler uses, those of its `Blocker` included: `function` is
-- false for a null pointer, and `result` is the blocker's. `value` is the task's own result.
pub record Task : Type 0 where
  pub started : Bool
  pub stopped : Bool
  pub blocked : Bool
  pub in_syscall : Bool
  pub time_start : ℕ
  pub time_end : ℕ
  pub function : Bool
  pub deadline : ℕ
  pub result : BrResult
  pub value : ℕ

pub record Cpu : Type 0 where
  pub idle : ℕ
  pub current : ℕ
  pub next : ℕ

-- `queue` is `_tasks`.
pub record Sched (W : Type 0) : Type 0 where
  pub tasks : ℕ → Task
  pub queue : List ℕ
  pub cpus : List Cpu
  pub tick : ℕ
  pub objects : Objects
  pub world : W

unfoldable pub task_runnable : Task → Bool
task_runnable t = t.started && not (t.blocked || (t.stopped && not t.in_syscall))

unfoldable pub sched_runnable : Task → Bool
sched_runnable t = (t.started && not t.blocked) || (t.started && (t.stopped && not t.in_syscall))

-- `sched_cpu(task) != nullptr`
unfoldable pub runs : List Cpu → ℕ → Bool
runs [] t = false
runs (c ∷ cs) t = if c.next == t then true else runs cs t

-- The loop of `sched_detach`.
unfoldable pub clear_next : List Cpu → ℕ → List Cpu
clear_next [] t = []
clear_next (c ∷ cs) t = (if c.next == t then record c { next = 0 } else c) ∷ clear_next cs t

unfoldable pub set_next : List Cpu → ℕ → ℕ → List Cpu
set_next [] i t = []
set_next (c ∷ cs) zero t = record c { next = t } ∷ cs
set_next (c ∷ cs) (suc i) t = c ∷ set_next cs i t

-- The first processor of which the test holds, counted from `i`.
unfoldable pub find_cpu : (Cpu → Bool) → List Cpu → ℕ → Option ℕ
find_cpu p [] i = none
find_cpu p (c ∷ cs) i = if p c then some i else find_cpu p cs (i + 1)

abbrev pub running_task : Task → Task
running_task t = record t { started = true }

abbrev pub switch_cpu : Cpu → Cpu
switch_cpu c = record c { current = c.next }

unfoldable pub switch_at : List Cpu → ℕ → List Cpu
switch_at [] i = []
switch_at (c ∷ cs) zero = switch_cpu c ∷ cs
switch_at (c ∷ cs) (suc i) = c ∷ switch_at cs i

abbrev pub started_at : ℕ → Task → Task
started_at tick t = record t { time_start = tick }

abbrev pub ended_at : ℕ → Task → Task
ended_at tick t = record t { time_end = tick }

module _ {W : Type 0} where
  unfoldable pub sched_running : Sched W → ℕ → Bool
  sched_running s t = runs s.cpus t

  unfoldable pub sched_detach : Sched W → ℕ → Sched W
  sched_detach s t = if t == 0 then s else record s {
    tasks = update s.tasks t (ended_at s.tick (s.tasks t));
    cpus = clear_next s.cpus t;
  }

  unfoldable pub sched_attach : Sched W → ℕ → ℕ → Sched W
  sched_attach s t i = if t == 0 then s else record s {
    tasks = update s.tasks t (started_at s.tick (s.tasks t));
    cpus = set_next s.cpus i t;
  }

  -- `sched_next` for the processor of index `i`.
  unfoldable pub sched_next : Sched W → ℕ → ℕ → Option (Sched W)
  sched_next s t i = do c ← get_elem? s.cpus i; some (sched_attach (sched_detach s c.next) t i)

  -- Runnable, not running, and not started in this tick.
  unfoldable pub eligible : Sched W → ℕ → Bool
  eligible s t =
      not ((s.tasks t).time_start == s.tick)
      && (task_runnable (s.tasks t) && not (sched_running s t))

  unfoldable pub sched_pick : Sched W → ℕ → ℕ → ℕ
  sched_pick s best other =
      if eligible s other && ((best == 0) || ltb (s.tasks other).time_end (s.tasks best).time_end)
      then other
      else best

  unfoldable pub peek_loop : Sched W → List ℕ → ℕ → ℕ
  peek_loop s [] best = best
  peek_loop s (t ∷ ts) best = peek_loop s ts (sched_pick s best t)

  unfoldable pub sched_peek : Sched W → ℕ
  sched_peek s = peek_loop s s.queue 0

  -- A processor that was found takes the task.
  unfoldable pub dispatch_to : Sched W → ℕ → Option ℕ → Option (Bool × Sched W)
  dispatch_to s t none = some (false, s)
  dispatch_to s t (some i) = sched_next s t i >>= λ s'. some (true, s')

  unfoldable pub sched_dispatch_to_current : Sched W → ℕ → Option (Bool × Sched W)
  sched_dispatch_to_current s t = dispatch_to s t (find_cpu (λ c. c.current == t) s.cpus 0)

  unfoldable pub sched_dispatch_to_idle : Sched W → ℕ → Option (Bool × Sched W)
  sched_dispatch_to_idle s t = dispatch_to s t (find_cpu (λ c. c.next == c.idle) s.cpus 0)

  -- The null pointer has no time.
  unfoldable pub active_time : Sched W → ℕ → Option ℕ
  active_time s t = if t == 0 then none else some (sub64 s.tick (s.tasks t).time_start)

  -- The loop of `sched_dispatch_to_active`: the index of the best processor so far, its time, and
  -- the processors from index `i` on.
  unfoldable pub longest : Sched W → List Cpu → ℕ → ℕ → ℕ → Option (ℕ × ℕ)
  longest s [] i best time = some (best, time)
  longest s (c ∷ cs) i best time = do
    other ← active_time s c.next
    longest s cs (i + 1) (if ltb time other then i else best)
        (if ltb time other then other else time)

  unfoldable pub sched_dispatch_to_active : Sched W → ℕ → Option (Bool × Sched W)
  sched_dispatch_to_active s t = do
    c ← get_elem? s.cpus 0
    first ← active_time s c.next
    (best, time) ← longest s s.cpus 0 0 first
    if time == 0 then some (false, s) else dispatch_to s t (some best)

  -- `a || b` of two attempts
  unfoldable pub or_else :
      Option (Bool × Sched W) → Option (Bool × Sched W) → Option (Bool × Sched W)
  or_else none other = none
  or_else (some (true, s)) other = some (true, s)
  or_else (some (false, s)) other = other

  -- An attempt that fails changes nothing.
  unfoldable pub sched_dispatch : Sched W → ℕ → Option (Bool × Sched W)
  sched_dispatch s t =
      if t == 0
      then some (false, s)
      else or_else (sched_dispatch_to_current s t)
          (or_else (sched_dispatch_to_idle s t) (sched_dispatch_to_active s t))

  -- The loop of `sched_schedule`, on fuel.
  unfoldable pub dispatch_loop : ℕ → Sched W → Option (Sched W)
  dispatch_loop zero s = none
  dispatch_loop (suc fuel) s =
      let again = (sched_dispatch s (sched_peek s) >>= λ r. dispatch_loop fuel r.1) in
      (sched_dispatch s (sched_peek s) >>= λ r. if r.0 then again else some r.1)

  -- The second loop of `sched_updated_blocked`, with `left` processors to go at index `i`.
  unfoldable pub idle_loop : ℕ → ℕ → Sched W → Option (Sched W)
  idle_loop zero i s = some s
  idle_loop (suc left) i s = do
    c ← get_elem? s.cpus i
    s' ← if task_runnable (s.tasks c.current) then some s else sched_next s c.idle i
    idle_loop left (i + 1) s'
