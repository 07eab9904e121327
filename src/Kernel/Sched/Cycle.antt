-- ===== src/Kernel/Sched/Cycle.antt =====
-- What the scheduler of sources/kernel/sched.c does at a tick, at a call that blocks or stops, and at
-- the end of a task.
use brutal.Base.{
  ℕ, zero, suc, ◌+◌, ◌-◌, Bool, true, false, not, ◌&&◌, Option, none, some, List, [], ◌∷◌, ◌++◌,
  length, get_elem?, ltb, ◌==◌, if◌then◌else◌, ◌>>=◌, ◌>>◌, assert, word, add64,
}
use brutal.Kernel.Abi.{BrResult, success, timeout, interrupted}
use brutal.Kernel.Object.{update, remove, object_ref, object_deref}
use brutal.Kernel.Sched.{
  sched_runnable, running_task, switch_at, sched_running, sched_next, sched_peek, dispatch_loop,
  idle_loop, Task, Sched,
}

module _ {W : Type 0} (poll : ℕ → W → Bool × W) where
  abbrev pub ask : Sched W → ℕ → Bool × W
  ask s t = if (s.tasks t).function then poll t s.world else (false, s.world)

  abbrev pub woken : BrResult → Task → Task
  woken r t = record t { result = r; blocked = false }

  -- The answers of the call back and of the clock to a blocked task.
  unfoldable pub wake_task : Bool → ℕ → Task → Task
  wake_task fired tick t =
      if fired
      then woken success t
      else (if not (t.deadline == word - 1) && ltb t.deadline tick
          then woken timeout t
          else (if t.stopped then woken interrupted t else t))

  unfoldable pub wake_one : Sched W → ℕ → Sched W
  wake_one s t =
      if not (s.tasks t).blocked
      then s
      else (let (fired, w) = ask s t in
          record s { tasks = update s.tasks t (wake_task fired s.tick (s.tasks t)); world = w })

  unfoldable pub wake_all : List ℕ → Sched W → Sched W
  wake_all [] s = s
  wake_all (t ∷ ts) s = wake_all ts (wake_one s t)

  unfoldable pub sched_updated_blocked : Sched W → Option (Sched W)
  sched_updated_blocked s = idle_loop (length s.cpus) 0 (wake_all s.queue s)

  -- The scheduling part of `sched_yield`, on the processor of index `self`.
  unfoldable pub sched_yield : Sched W → ℕ → Option (Sched W)
  sched_yield s self = do
    s₁ ← sched_updated_blocked s
    c ← get_elem? s₁.cpus self
    sched_next s₁ (if sched_peek s₁ == 0 then c.idle else sched_peek s₁) self

  -- The loop has one round for each queued task, and one to find that none is left.
  unfoldable pub sched_schedule : Sched W → Option (Sched W)
  sched_schedule s = do
    s₁ ← sched_updated_blocked (record s { tick = add64 s.tick 1 })
    dispatch_loop (length s₁.queue + 1) s₁

  abbrev pub with_blocker : ℕ → Bool → Task → Task
  with_blocker deadline function t = record t {
    function = function;
    deadline = deadline;
    result = success;
    blocked = true;
  }

  -- `sched_block` of the current task of the processor `self`: a call back that answers yes ends
  -- it at once, and otherwise the task gives the processor up; its result is then what wakes it.
  unfoldable pub sched_block : Sched W → ℕ → Bool → ℕ → Option (Option BrResult × Sched W)
  sched_block s self function deadline = do
    c ← get_elem? s.cpus self
    let (fired, w) = (if function then poll c.current s.world else (false, s.world))
    let parked = record s {
      tasks = update s.tasks c.current (with_blocker deadline function (s.tasks c.current));
      world = w;
    }
    let sleep = (sched_yield parked self >>= λ s'. some (none, s'))
    if fired then some (some success, record s { world = w }) else sleep

  abbrev pub stopped_task : ℕ → Task → Task
  stopped_task value t = record t { stopped = true; value = value }

  unfoldable pub sched_stop : Sched W → ℕ → ℕ → ℕ → Option (Sched W)
  sched_stop s self t value = do
    c ← get_elem? s.cpus self
    let s' = record s { tasks = update s.tasks t (stopped_task value (s.tasks t)) }
    let stop_now =
        (if (t == c.current) && not (s.tasks t).in_syscall then sched_yield s' self else some s')
    if (s.tasks t).stopped then some s else stop_now

module _ {W : Type 0} where
  unfoldable pub sched_enqueue : Sched W → ℕ → Sched W
  sched_enqueue s t = record s { queue = s.queue ++ (t ∷ []); objects = object_ref s.objects t }

  unfoldable pub sched_dequeue : Sched W → ℕ → Sched W
  sched_dequeue s t = record s { queue = remove t s.queue; objects = object_deref s.objects t }

  unfoldable pub sched_start : Sched W → ℕ → Option (Sched W)
  sched_start s t = do
    assert (not (s.tasks t).started)
    some (sched_enqueue (record s { tasks = update s.tasks t (running_task (s.tasks t)) }) t)

  -- On the processor of index `self`.
  unfoldable pub sched_switch : Sched W → ℕ → Sched W
  sched_switch s self = record s { cpus = switch_at s.cpus self }

  -- The test of `sched_finalize`.
  unfoldable pub finished : Sched W → ℕ → Bool
  finished s t =
      (s.tasks t).stopped && (not (sched_runnable (s.tasks t)) && not (sched_running s t))

  -- The loop of `sched_finalize`, at index `i`: each round goes on or takes a task out.
  unfoldable pub finalize_loop : ℕ → ℕ → Sched W → Sched W
  finalize_loop zero i s = s
  finalize_loop (suc left) i s = elim (get_elem? s.queue i) [
    | none ↦ s
    | some t ↦
        if finished s t
        then finalize_loop left i (sched_dequeue s t)
        else finalize_loop left (i + 1) s
  ]

  unfoldable pub sched_finalize : Sched W → Sched W
  sched_finalize s = finalize_loop (length s.queue) 0 s
