-- ===== src/Kernel/Sched/Rounds.antt =====
-- The loop of `sched_schedule`, of sources/kernel/sched.c.
use brutal.Base.{
  ℕ, zero, suc, ◌+◌, ◌≤◌, ◌<◌, Bool, Bool-cases, true, false, Option, Option-cases, some, List, [],
  ◌∷◌, length, get_elem?, get_elem?-lt, All, ltb, ◌==◌, if◌then◌else◌, ◌≡◌, ◌≢◌, ◌⊎◌, inl, inr,
  refl, sym, ap, ◌∙◌, subst, arith, sub64,
}
use brutal.Kernel.Sched.{
  Sched, Cpu, runs, sched_running, eligible, sched_peek, find_cpu, dispatch_to,
  sched_dispatch_to_current, sched_dispatch_to_idle, active_time, longest, sched_dispatch_to_active,
  or_else, sched_dispatch, dispatch_loop,
}
use native.Mathlib.Decide.{ℕ_discrete}
use brutal.Kernel.Sched.Peek.{In, nobody, someone, sched_peek-IsBest}
use brutal.Kernel.Sched.Cpus.{IsApart, Moved, sched_next-Moved, Moved-IsApart}

find_cpu-lt :
    (p : Cpu → Bool) (cs : List Cpu) (k i : ℕ)
    → find_cpu p cs k ≡ some i
    → (k ≤ i) × (i < k + length cs)
unfolding find_cpu
find_cpu-lt p [] k i e = absurd (ground arith)
find_cpu-lt p (c ∷ cs) k i e = elim (Bool-cases (p c)) [
  | inl hit ↦ ground arith
  | inr miss ↦ omega (arith, find_cpu-lt p cs (k + 1) i (ground arith))
]

module _ {W : Type 0} where
  -- How many of the tasks were not started in this tick.
  abbrev pub waiting : Sched W → List ℕ → ℕ
  waiting s [] = 0
  waiting s (t ∷ ts) = (if (s.tasks t).time_start == s.tick then 0 else 1) + waiting s ts

  waiting-le :
      (s : Sched W) (t i : ℕ) (s' : Sched W) (ts : List ℕ)
      → Moved s t i s'
      → waiting s' ts ≤ waiting s ts
  waiting-le s t i s' [] m = omega arith
  waiting-le s t i s' (x ∷ xs) m = ground (arith, waiting-le s t i s' xs m, m.starts x, m.same_tick)

  waiting-lt :
      (s : Sched W) (t i : ℕ) (s' : Sched W) (ts : List ℕ)
      → Moved s t i s'
      → (s.tasks t).time_start ≢ s.tick
      → In t ts
      → waiting s' ts < waiting s ts
  waiting-lt s t i s' [] m old here = elim here [ ]
  waiting-lt s t i s' (x ∷ xs) m old (inl same) =
      ground (arith, waiting-le s t i s' xs m, m.starts x, m.same_tick, at)
    where
      at : (s.tasks x).time_start ≡ (s.tasks t).time_start
      at = rw same refl
  waiting-lt s t i s' (x ∷ xs) m old (inr there) =
      ground (arith, waiting-lt s t i s' xs m old there, m.starts x, m.same_tick)

  -- Every processor took up its next task in this tick.
  abbrev pub AllFresh : Sched W → Type 0
  AllFresh s = All (λ c. active_time s c.next ≡ some 0) s.cpus

  -- An attempt changed nothing, or moved a processor to the task.
  abbrev Attempt : Sched W → ℕ → Option (Bool × Sched W) → Type 0
  Attempt s t r =
      (r ≡ some (false, s)) ⊎ ((i : ℕ) × (s' : Sched W) × (r ≡ some (true, s')) × Moved s t i s')

  module _ (s : Sched W) (t : ℕ) (v : IsApart s.cpus) (pos : 0 < t) where
    dispatch_to-Moved :
        (i : ℕ)
        → i < length s.cpus
        → (s' : Sched W) × (dispatch_to s t (some i) ≡ some (true, s')) × Moved s t i s'
    unfolding dispatch_to
    dispatch_to-Moved i lt =
        let (c, at) = get_elem?-lt s.cpus i lt in
        let (s', e, m) = sched_next-Moved s t i c v pos at in (s', ground arith, m)

    dispatch_to-Attempt : (p : Cpu → Bool) → Attempt s t (dispatch_to s t (find_cpu p s.cpus 0))
    unfolding dispatch_to
    dispatch_to-Attempt p = elim (Option-cases (find_cpu p s.cpus 0)) [
      | inl nowhere ↦ inl (ground arith)
      | inr (i, found) ↦
          let (s', e, m) = dispatch_to-Moved i (omega (arith, find_cpu-lt p s.cpus 0 i found)) in
          inr (i, s', rw found e, m)
    ]

    -- The longest time of the processors of a list, and whose it is.
    longest-max :
        (cs : List Cpu) (i best time : ℕ)
        → All (λ c. 0 < c.next) cs
        → (best' : ℕ) × (time' : ℕ) × (longest s cs i best time ≡ some (best', time'))
          × (time ≤ time')
          × All (λ c. (a : ℕ) × (active_time s c.next ≡ some a) × (a ≤ time')) cs
          × ((best' ≡ best) ⊎ ((i ≤ best') × (best' < i + length cs)))
    unfolding longest
    longest-max [] i best time live = (best, time, refl, omega arith, tt, inl refl)
    longest-max (c ∷ cs) i best time (here, live) =
        let other = sub64 s.tick (s.tasks c.next).time_start in
        let known : active_time s c.next ≡ some other = unfold active_time in ground arith in
        let best₁ : ℕ = (if ltb time other then i else best) in
        let time₁ : ℕ = (if ltb time other then other else time) in
        let (b, m, e, up, all, place) = longest-max cs (i + 1) best₁ time₁ live in
        (b, m, ground arith, ground arith, ((other, known, ground arith), all), ground arith)

    All-busy :
        (cs : List Cpu)
        → ((i : ℕ) (c : Cpu) → get_elem? cs i ≡ some c → 0 < c.next)
        → All (λ c. 0 < c.next) cs
    All-busy [] h = tt
    All-busy (c ∷ cs) h = (h 0 c refl, All-busy cs (λ i. h (suc i)))

    All-fresh :
        (cs : List Cpu) (m : ℕ)
        → m ≡ 0
        → All (λ c. (a : ℕ) × (active_time s c.next ≡ some a) × (a ≤ m)) cs
        → All (λ c. active_time s c.next ≡ some 0) cs
    All-fresh [] m z all = tt
    All-fresh (c ∷ cs) m z ((a, e, le), all) =
        let none_left : a ≡ 0 = omega arith in (e ∙ ap some none_left, All-fresh cs m z all)

    dispatch_to_active-Attempt :
        ((sched_dispatch_to_active s t ≡ some (false, s)) × AllFresh s)
        ⊎ ((i : ℕ) × (s' : Sched W) × (sched_dispatch_to_active s t ≡ some (true, s'))
            × Moved s t i s')
    unfolding sched_dispatch_to_active
    dispatch_to_active-Attempt =
        let (c, at) = get_elem?-lt s.cpus 0 v.some_cpu in
        let live = v.busy 0 c at in
        let first = sub64 s.tick (s.tasks c.next).time_start in
        let known : active_time s c.next ≡ some first = unfold active_time in ground arith in
        let (b, m, e, up, all, place) = longest-max s.cpus 0 0 first (All-busy s.cpus v.busy) in
        elim (ℕ_discrete m 0) [
          | yes nothing ↦ inl (ground arith, All-fresh s.cpus m nothing all)
          | no some_time ↦
              let (s', moves, moved) = dispatch_to-Moved b (ground (arith, v.some_cpu)) in
              inr (b, s', ground arith, moved)
        ]

    -- A dispatch moves a processor to the task, or all are fresh.
    sched_dispatch-cases :
        ((sched_dispatch s t ≡ some (false, s)) × AllFresh s)
        ⊎ ((i : ℕ) × (s' : Sched W) × (sched_dispatch s t ≡ some (true, s')) × Moved s t i s')
    unfolding sched_dispatch or_else sched_dispatch_to_current sched_dispatch_to_idle
    sched_dispatch-cases = elim (dispatch_to-Attempt (λ c. c.current == t)) [
      | inr (i, s', e, m) ↦ inr (i, s', ground arith, m)
      | inl no_current ↦ elim (dispatch_to-Attempt (λ c. c.next == c.idle)) [
        | inr (i, s', e, m) ↦ inr (i, s', ground arith, m)
        | inl no_idle ↦ elim dispatch_to_active-Attempt [
          | inr (i, s', e, m) ↦ inr (i, s', ground arith, m)
          | inl (e, fresh) ↦ inl (ground arith, fresh)
        ]
      ]
    ]

  -- What the loop ends in: no eligible task is left, or every processor is fresh.
  pub record IsSettled (s s' : Sched W) : Type 0 where
    pub apart : IsApart s'.cpus
    pub same_queue : s'.queue ≡ s.queue
    pub same_tick : s'.tick ≡ s.tick
    pub settled : All (λ t. eligible s' t ≡ false) s'.queue ⊎ AllFresh s'

  eligible_parts :
      (s : Sched W) (t : ℕ)
      → eligible s t ≡ true
      → ((s.tasks t).time_start ≢ s.tick) × (runs s.cpus t ≡ false)
  unfolding eligible sched_running
  eligible_parts s t e = ground arith

  dispatch_loop-IsSettled :
      (fuel : ℕ) (s : Sched W)
      → IsApart s.cpus
      → All (λ t. 0 < t) s.queue
      → waiting s s.queue < fuel
      → (s' : Sched W) × (dispatch_loop fuel s ≡ some s') × IsSettled s s'
  unfolding dispatch_loop
  dispatch_loop-IsSettled zero s v live enough = absurd (omega arith)
  dispatch_loop-IsSettled (suc fuel) s v live enough = elim (sched_peek-IsBest s live) [
    | nobody null all ↦
        let stops : sched_dispatch s (sched_peek s) ≡ some (false, s) =
          unfold sched_dispatch in ground arith in
        (
          s,
          ground arith,
          record { apart = v; same_queue = refl; same_tick = refl; settled = inl all },
        )
    | someone pos here el least ↦ elim (sched_dispatch-cases s (sched_peek s) v pos) [
      | inl (stops, fresh) ↦ (
        s,
        ground arith,
        record { apart = v; same_queue = refl; same_tick = refl; settled = inr fresh },
      )
      | inr (i, s₁, moves, m) ↦
          let (old, off) = eligible_parts s (sched_peek s) el in
          let v₁ = Moved-IsApart s (sched_peek s) i s₁ v pos off m in
          let fewer : waiting s₁ s₁.queue < waiting s s.queue =
            subst (λ q. waiting s₁ q < waiting s s.queue) (sym m.same_queue)
              (waiting-lt s (sched_peek s) i s₁ s.queue m old here) in
          let live₁ = subst (λ q. All (λ t. 0 < t) q) (sym m.same_queue) live in
          let (s', e, k) = dispatch_loop-IsSettled fuel s₁ v₁ live₁ (omega arith) in
          (
            s',
            ground arith,
            record {
              apart = k.apart;
              same_queue = k.same_queue ∙ m.same_queue;
              same_tick = k.same_tick ∙ m.same_tick;
              settled = k.settled;
            },
          )
    ]
  ]

  waiting-length : (s : Sched W) (ts : List ℕ) → waiting s ts ≤ length ts
  waiting-length s [] = omega arith
  waiting-length s (t ∷ ts) = ground (arith, waiting-length s ts)

  -- x
  pub dispatch_rounds-IsSettled :
      (s : Sched W)
      → IsApart s.cpus
      → All (λ t. 0 < t) s.queue
      → (s' : Sched W) × (dispatch_loop (length s.queue + 1) s ≡ some s') × IsSettled s s'
  dispatch_rounds-IsSettled s v live =
      dispatch_loop-IsSettled (length s.queue + 1) s v live
        (omega (arith, waiting-length s s.queue))
