-- ===== src/Kernel/Sched/Wake.antt =====
-- `sched_updated_blocked` and `sched_schedule` of sources/kernel/sched.c.
use brutal.Base.{
  ℕ, zero, suc, ◌+◌, ◌-◌, ◌<◌, Bool, Bool-cases, true, false, some, List, [], ◌∷◌, length,
  get_elem?, get_elem?-lt, lt-length, All, ◌>>=◌, ◌≡◌, ◌≢◌, ◌⊎◌, inl, inr, refl, sym, ap, ◌∙◌,
  subst, arith, add64, word,
}
use native.Mathlib.Decide.{ℕ_discrete}
use brutal.Kernel.Sched.{Sched, Cpu, task_runnable, dispatch_loop, idle_loop}
use brutal.Kernel.Sched.Cycle.{wake_task, wake_one, wake_all, sched_updated_blocked, sched_schedule}
use brutal.Kernel.Sched.Peek.{In}
use brutal.Kernel.Sched.Cpus.{IsApart, Moved, sched_next-Moved}
use brutal.Kernel.Sched.Rounds.{IsSettled, dispatch_rounds-IsSettled}

-- Each processor has an idle task of its own, which no other processor runs next.
pub record HasIdle (cpus : List Cpu) : Type 0 where
  pub live : (i : ℕ) (c : Cpu) → get_elem? cpus i ≡ some c → 0 < c.idle
  pub own :
      (i j : ℕ) (c d : Cpu)
      → get_elem? cpus i ≡ some c
      → get_elem? cpus j ≡ some d
      → (c.idle ≡ d.idle) ⊎ (c.idle ≡ d.next)
      → i ≡ j

module _ {W : Type 0} where
  old_cpu :
      (s : Sched W) (t i : ℕ) (s' : Sched W)
      → Moved s t i s'
      → (j : ℕ) (c : Cpu) → get_elem? s'.cpus j ≡ some c
      → (d : Cpu) × (get_elem? s.cpus j ≡ some d)
  old_cpu s t i s' m j c e =
      get_elem?-lt s.cpus j (omega (arith, lt-length s'.cpus j e, m.same_size))

  -- A processor that goes idle keeps the processors apart.
  Moved-idle :
      (s : Sched W) (i : ℕ) (c : Cpu) (s' : Sched W)
      → IsApart s.cpus
      → HasIdle s.cpus
      → get_elem? s.cpus i ≡ some c
      → Moved s c.idle i s'
      → IsApart s'.cpus × HasIdle s'.cpus
  Moved-idle s i c s' v h at m = (
    record {
      some_cpu = omega (arith, m.same_size, v.some_cpu);
      busy = λ j d e.
          let (d₀, was) = old_cpu s c.idle i s' m j d e in
          ground (arith, m.cpu j d₀ was, v.busy j d₀ was, h.live i c at, e);
      apart = λ j k d e f g same.
          let (d₀, was) = old_cpu s c.idle i s' m j d f in
          let (e₀, had) = old_cpu s c.idle i s' m k e g in
          ground (
            arith,
            m.cpu j d₀ was,
            m.cpu k e₀ had,
            f,
            g,
            same,
            v.apart j k d₀ e₀ was had,
            h.own i k c e₀ at had,
            h.own i j c d₀ at was,
          );
    },
    record {
      live = λ j d e.
          let (d₀, was) = old_cpu s c.idle i s' m j d e in
          ground (arith, m.cpu j d₀ was, h.live j d₀ was, e);
      own = λ j k d e f g same.
          let (d₀, was) = old_cpu s c.idle i s' m j d f in
          let (e₀, had) = old_cpu s c.idle i s' m k e g in
          ground (
            arith,
            m.cpu j d₀ was,
            m.cpu k e₀ had,
            f,
            g,
            same,
            h.own j k d₀ e₀ was had,
            h.own i j c d₀ at was,
            h.own j i d₀ c was at,
          );
    },
  )

  -- What stays when processors go idle.
  record Idled (s s' : Sched W) : Type 0 where
    apart : IsApart s'.cpus
    has_idle : HasIdle s'.cpus
    same_queue : s'.queue ≡ s.queue
    same_tick : s'.tick ≡ s.tick
    same_size : length s'.cpus ≡ length s.cpus

  idle_loop-Idled :
      (left i : ℕ) (s : Sched W)
      → IsApart s.cpus
      → HasIdle s.cpus
      → i + left ≡ length s.cpus
      → (s' : Sched W) × (idle_loop left i s ≡ some s') × Idled s s'
  unfolding idle_loop
  idle_loop-Idled zero i s v h e = (
    s,
    ground arith,
    record { apart = v; has_idle = h; same_queue = refl; same_tick = refl; same_size = refl },
  )
  idle_loop-Idled (suc left) i s v h e =
      let (c, at) = get_elem?-lt s.cpus i (omega arith) in
      elim (Bool-cases (task_runnable (s.tasks c.current))) [
        | inl runnable ↦
            let (s', rest, k) = idle_loop-Idled left (i + 1) s v h (omega arith) in
            (s', ground arith, k)
        | inr idle ↦
            let (s₁, moves, m) = sched_next-Moved s c.idle i c v (h.live i c at) at in
            let (v₁, h₁) = Moved-idle s i c s₁ v h at m in
            let (s', rest, k) =
              idle_loop-Idled left (i + 1) s₁ v₁ h₁ (omega (arith, m.same_size)) in
            (
              s',
              ground arith,
              record {
                apart = k.apart;
                has_idle = k.has_idle;
                same_queue = k.same_queue ∙ m.same_queue;
                same_tick = k.same_tick ∙ m.same_tick;
                same_size = k.same_size ∙ m.same_size;
              },
            )
      ]

module _ {W : Type 0} (poll : ℕ → W → Bool × W) where
  wake_one-same :
      (s : Sched W) (t : ℕ)
      → ((wake_one poll s t).cpus ≡ s.cpus)
        × ((wake_one poll s t).queue ≡ s.queue)
        × ((wake_one poll s t).tick ≡ s.tick)
  unfolding wake_one
  wake_one-same s t = ground arith

  wake_all-same :
      (ts : List ℕ) (s : Sched W)
      → ((wake_all poll ts s).cpus ≡ s.cpus)
        × ((wake_all poll ts s).queue ≡ s.queue)
        × ((wake_all poll ts s).tick ≡ s.tick)
  unfolding wake_all
  wake_all-same [] s = (refl, refl, refl)
  wake_all-same (t ∷ ts) s =
      let (a, b, c) = wake_all-same ts (wake_one poll s t) in
      let (d, e, f) = wake_one-same s t in (a ∙ d, b ∙ e, c ∙ f)

  -- If no two processors run the same task next, each has an idle task of its own that no other
  -- runs next, and no task of the queue is null: `sched_schedule` returns, no two processors run
  -- the same task next afterwards, the queue is as before, and either no task of the queue could
  -- still be dispatched or every processor runs a task that started in this tick.
  pub sched_schedule-IsSettled :
      (s : Sched W)
      → IsApart s.cpus
      → HasIdle s.cpus
      → All (λ t. 0 < t) s.queue
      → (s' : Sched W) × (sched_schedule poll s ≡ some s')
        × IsSettled (record s { tick = add64 s.tick 1 }) s'
  unfolding sched_schedule sched_updated_blocked
  sched_schedule-IsSettled s v h live =
      let ticked = record s { tick = add64 s.tick 1 } in
      let woken = wake_all poll s.queue ticked in
      let (cpus, queue, tick) = wake_all-same s.queue ticked in
      let v₁ : IsApart woken.cpus = subst IsApart (sym cpus) v in
      let h₁ : HasIdle woken.cpus = subst HasIdle (sym cpus) h in
      let (s₁, idles, k) =
        idle_loop-Idled (length s.cpus) 0 woken v₁ h₁ (omega (arith, ap length cpus)) in
      let live₁ : All (λ t. 0 < t) s₁.queue =
        subst (λ q. All (λ t. 0 < t) q) (sym (k.same_queue ∙ queue)) live in
      let (s', runs, m) = dispatch_rounds-IsSettled s₁ k.apart live₁ in
      (
        s',
        ap (λ r. r >>= λ x. dispatch_loop (length x.queue + 1) x) idles ∙ runs,
        record {
          apart = m.apart;
          same_queue = m.same_queue ∙ k.same_queue ∙ queue;
          same_tick = m.same_tick ∙ k.same_tick ∙ tick;
          settled = m.settled;
        },
      )

  -- A task that an update does not concern, or that it leaves awake.
  wake_one-awake :
      (s : Sched W) (t j : ℕ)
      → (s.tasks j).blocked ≡ false
      → ((wake_one poll s t).tasks j).blocked ≡ false
  unfolding wake_one
  wake_one-awake s t j awake = elim (ℕ_discrete j t) [
    | yes same ↦ let at : (s.tasks t).blocked ≡ false = rw (← same) awake in ground (arith, at)
    | no other ↦ ground arith
  ]

  wake_all-awake :
      (ts : List ℕ) (s : Sched W) (j : ℕ)
      → (s.tasks j).blocked ≡ false
      → ((wake_all poll ts s).tasks j).blocked ≡ false
  unfolding wake_all
  wake_all-awake [] s j awake = awake
  wake_all-awake (t ∷ ts) s j awake =
      wake_all-awake ts (wake_one poll s t) j (wake_one-awake s t j awake)

  -- The clock, or a stop, wakes the task.
  abbrev pub IsDue : Sched W → ℕ → Type 0
  IsDue s t =
      ((s.tasks t).stopped ≡ true)
      ⊎ (((s.tasks t).deadline ≢ word - 1) × ((s.tasks t).deadline < s.tick))

  wake_one-IsDue : (s : Sched W) (t : ℕ) → IsDue s t → ((wake_one poll s t).tasks t).blocked ≡ false
  unfolding wake_one wake_task
  wake_one-IsDue s t due = ground arith

  wake_one-still : (s : Sched W) (t j : ℕ) → j ≢ t → IsDue s j → IsDue (wake_one poll s t) j
  unfolding wake_one
  wake_one-still s t j other due = ground arith

  -- A task of the list that was stopped, or whose deadline is not infinite and has passed, is not
  -- blocked after the loop over the list of blocked tasks, whatever the call backs answer.
  pub wake_all-IsDue :
      (ts : List ℕ) (s : Sched W) (t : ℕ)
      → In t ts
      → IsDue s t
      → ((wake_all poll ts s).tasks t).blocked ≡ false
  unfolding wake_all
  wake_all-IsDue [] s t here due = elim here [ ]
  wake_all-IsDue (x ∷ xs) s t here due = elim (ℕ_discrete t x) [
    | yes same ↦
        wake_all-awake xs (wake_one poll s x) t
          (subst (λ k. ((wake_one poll s k).tasks t).blocked ≡ false) same (wake_one-IsDue s t due))
    | no other ↦
        wake_all-IsDue xs (wake_one poll s x) t
          (elim here [ inl e ↦ absurd (other (sym e)) | inr there ↦ there ])
          (wake_one-still s x t other due)
  ]
