-- ===== src/Kernel/Syscalls/Start.antt =====
-- `sys_start` of sources/kernel/syscalls.c.
use brutal.Base.{
  ℕ, ◌^◌, ◌<◌, Bool-cases, true, false, Option, none, some, [], ◌∷◌, ◌++◌, ◌>>=◌, ◌≡◌, ◌⊎◌, inl,
  inr, refl, ap, ◌∙◌, arith,
}
use brutal.Ds.Slot.Laws.{IsSlot}
use brutal.Kernel.Abi.{success, bad_handle, task}
use brutal.Kernel.Object.{object_ref, update}
use brutal.Kernel.Sched.{running_task}
use brutal.Kernel.Sched.Cycle.{sched_start, sched_enqueue}
use brutal.Kernel.System.{System, ref, deref, domain_at}
use brutal.Kernel.System.Counts.{refs-ref, refs-deref, Holds, lookup-Found}
use brutal.Kernel.Syscalls.Balance.{OneMore}
use brutal.Kernel.Syscalls.Calls.{start_found, sys_start}

-- The task is started and stands last in the queue, which holds a reference to it.
pub record IsStarted (s : System) (t : ℕ) (s' : System) : Type 0 where
  pub started : (s'.tasks t).started ≡ true
  pub last : s'.queue ≡ s.queue ++ t ∷ []
  pub counted : OneMore s t s'

-- With a well-formed table of handles and a handle below 2 ^ 31: the handle is bad and nothing
-- changed; or it stands for a task that was started before, and the call fails an assertion; or
-- the task was not, and the call returns with the task started, last in the queue, and with one
-- reference more.
sys_start_cases :
    (s : System) (me handle : ℕ)
    → IsSlot (domain_at s me)
    → handle < 2 ^ 31
    → (sys_start s me handle ≡ some (bad_handle, s))
      ⊎ ((t : ℕ) × Holds s me handle task t
          × ((((s.tasks t).started ≡ true) × (sys_start s me handle ≡ none))
              ⊎ (((s.tasks t).started ≡ false)
                  × ((s' : System) × (sys_start s me handle ≡ some (success, s'))
                      × IsStarted s t s'))))
unfolding sys_start start_found sched_start sched_enqueue object_ref
sys_start_cases s me handle table small =
    let (found, u, ran, cases) = lookup-Found s me handle task table small in
    let step : (f : Option ℕ) (v : System)
        → found ≡ f
        → u ≡ v
        → sys_start s me handle ≡ start_found v f =
      λ f v isf isv.
        ap (λ x. x >>= λ r. start_found r.1 r.0) ran
        ∙ ap (start_found u) isf
        ∙ ap (λ x. start_found x f) isv in
    elim cases [
      | inl (nothing, same) ↦ inl (step none s nothing same)
      | inr (t, is, same, holds) ↦ inr (
        t,
        holds,
        elim (Bool-cases (s.tasks t).started) [
          | inl already ↦ inl (already, step (some t) (ref s t) is same ∙ ground (arith, already))
          | inr fresh ↦
              let v : System = record (ref s t) {
                tasks = update s.tasks t (running_task (s.tasks t));
              } in
              let w : System = sched_enqueue v t in
              inr (
                fresh,
                (
                  deref w t,
                  step (some t) (ref s t) is same ∙ ground (arith, fresh),
                  record {
                    started = ground arith;
                    last = refl;
                    counted = λ j pos.
                        omega (arith, refs-deref w t j pos, refs-ref (ref s t) t j, refs-ref s t j);
                  },
                ),
              )
        ],
      )
    ]
