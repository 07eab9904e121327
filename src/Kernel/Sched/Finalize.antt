-- ===== src/Kernel/Sched/Finalize.antt =====
-- `sched_finalize` of sources/kernel/sched.c.
use brutal.Base.{
  ℕ, zero, suc, ◌+◌, true, false, Option-cases, length, get_elem?, All, All-get_elem?, ◌≡◌, ◌⊎◌,
  inl, inr, refl, arith,
}
use brutal.Kernel.Sched.{Sched, Task, sched_runnable}
use brutal.Kernel.Sched.Cycle.{finished, finalize_loop, sched_finalize}

-- Anything but a task that sleeps in a system call.
abbrev pub IsAwake : Task → Type 0
IsAwake t = (t.started ≡ true) × ((t.blocked ≡ false) ⊎ (t.in_syscall ≡ false))

module _ {W : Type 0} where
  awake-kept : (s : Sched W) (t : ℕ) → IsAwake (s.tasks t) → finished s t ≡ false
  unfolding finished sched_runnable
  awake-kept s t awake = ground arith

  finalize_loop-keeps :
      (left i : ℕ) (s : Sched W)
      → All (λ t. IsAwake (s.tasks t)) s.queue
      → finalize_loop left i s ≡ s
  unfolding finalize_loop
  finalize_loop-keeps zero i s all = refl
  finalize_loop-keeps (suc left) i s all = elim (Option-cases (get_elem? s.queue i)) [
    | inl past ↦ ground arith
    | inr (t, at) ↦
        let kept = awake-kept s t (All-get_elem? (λ t. IsAwake (s.tasks t)) s.queue i all at) in
        ground (arith, finalize_loop-keeps left (i + 1) s all)
  ]

  -- If every task of the queue is started, and not blocked or not inside a system call,
  -- `sched_finalize` changes nothing, whichever tasks are stopped.
  pub sched_finalize-keeps :
      (s : Sched W) → All (λ t. IsAwake (s.tasks t)) s.queue → sched_finalize s ≡ s
  unfolding sched_finalize
  sched_finalize-keeps s all = finalize_loop-keeps (length s.queue) 0 s all
