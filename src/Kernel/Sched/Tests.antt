-- ===== src/Kernel/Sched/Tests.antt =====
-- The theorems on sources/kernel/sched.c at concrete inputs.
use brutal.Base.{
  ℕ, zero, suc, Bool, true, false, some, [], ◌∷◌, get_elem?, add64, ◌≡◌, inl, inr, refl, sym, ap,
  ◌∙◌, arith, ◌==◌,
}
use brutal.Kernel.Abi.{success, none_}
use brutal.Kernel.Object.{Objects}
use brutal.Kernel.Sched.{Task, Cpu, Sched, sched_peek}
use brutal.Kernel.Sched.Cycle.{sched_schedule, wake_all, sched_finalize}
use brutal.Kernel.Sched.Peek.{IsBest, sched_peek-IsBest}
use brutal.Kernel.Sched.Cpus.{IsApart}
use brutal.Kernel.Sched.Rounds.{IsSettled}
use brutal.Kernel.Sched.Wake.{HasIdle, sched_schedule-IsSettled, wake_all-IsDue}
use brutal.Kernel.Sched.Finalize.{sched_finalize-keeps}

-- The task 3 waits until tick 4, and the task 4 has stopped.
abbrev task_at : ℕ → Task
task_at t = record {
  started = true;
  stopped = t == 4;
  blocked = t == 3;
  in_syscall = t == 3;
  time_start = 0;
  time_end = 2;
  function = false;
  deadline = 4;
  result = success;
  value = 0;
}

abbrev objects : Objects
objects = record {
  refs = λ o. 1;
  ids = λ o. o;
  types = λ o. none_;
  global = [];
  next_id = 9;
  destroyed = [];
}

abbrev one_cpu : Cpu
one_cpu = record { idle = 1; current = 1; next = 1 }

abbrev state : Sched ℕ
state = record {
  tasks = task_at;
  queue = 2 ∷ 3 ∷ 4 ∷ [];
  cpus = one_cpu ∷ [];
  tick = 6;
  objects = objects;
  world = 0;
}

abbrev no_answer : ℕ → ℕ → Bool × ℕ
no_answer t w = (false, w)

only_cpu : (i : ℕ) (c : Cpu) → get_elem? (one_cpu ∷ []) i ≡ some c → (i ≡ 0) × (one_cpu ≡ c)
only_cpu zero c e = (refl, ground arith)
only_cpu (suc i) c e = absurd (ground arith)

state-IsApart : IsApart state.cpus
state-IsApart = record {
  some_cpu = omega arith;
  busy = λ i c e. let same = (only_cpu i c e).1 in omega (arith, ap Cpu.next same);
  apart = λ i j c d e f same. (only_cpu i c e).0 ∙ sym (only_cpu j d f).0;
}

state-HasIdle : HasIdle state.cpus
state-HasIdle = record {
  live = λ i c e. let same = (only_cpu i c e).1 in omega (arith, ap Cpu.idle same);
  own = λ i j c d e f same. (only_cpu i c e).0 ∙ sym (only_cpu j d f).0;
}

sched_peek_example : IsBest state state.queue (sched_peek state)
sched_peek_example = sched_peek-IsBest state (omega arith, (omega arith, (omega arith, tt)))

sched_schedule_example :
    (s' : Sched ℕ) × (sched_schedule no_answer state ≡ some s')
    × IsSettled (record state { tick = add64 6 1 }) s'
sched_schedule_example =
    sched_schedule-IsSettled no_answer state state-IsApart state-HasIdle
      (omega arith, (omega arith, (omega arith, tt)))

wake_all_example : ((wake_all no_answer state.queue state).tasks 3).blocked ≡ false
wake_all_example =
    wake_all-IsDue no_answer state.queue state 3 (inr (inl refl))
      (inr ((λ e. absurd (ground arith)), omega arith))

-- The queue of the stopped task alone.
abbrev stopped_state : Sched ℕ
stopped_state = record state { queue = 4 ∷ [] }

sched_finalize_example : sched_finalize stopped_state ≡ stopped_state
sched_finalize_example = sched_finalize-keeps stopped_state ((refl, inl refl), tt)
