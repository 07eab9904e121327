-- ===== src/Kernel/Sched/Peek.antt =====
-- What `sched_peek` of sources/kernel/sched.c chooses.
use brutal.Base.{
  ℕ, ◌≤◌, ◌<◌, Bool-cases, true, false, ◌&&◌, ◌||◌, List, [], ◌∷◌, All, ltb, ◌==◌, ◌≡◌, ◌⊎◌, inl,
  inr, refl, sym, subst, arith,
}
use native.Mathlib.Decide.{ℕ_discrete}
use brutal.Kernel.Sched.{Sched, eligible, sched_pick, peek_loop, sched_peek}

-- The task stands in the list.
abbrev pub In : ℕ → List ℕ → Type 0
In t [] = ⊥
In t (x ∷ xs) = (x ≡ t) ⊎ In t xs

module _ {W : Type 0} (s : Sched W) where
  -- `best` is the eligible task of the list that waits longest, or nothing and there is none.
  pub data IsBest (ts : List ℕ) (best : ℕ) : Type 0 where
    nobody : best ≡ 0 → All (λ t. eligible s t ≡ false) ts → IsBest ts best
    someone :
        0 < best
        → In best ts
        → eligible s best ≡ true
        → All (λ t. eligible s t ≡ true → (s.tasks best).time_end ≤ (s.tasks t).time_end) ts
        → IsBest ts best

  -- The same for the loop, which has the candidate `best` from before.
  data IsBetter (ts : List ℕ) (best r : ℕ) : Type 0 where
    none_yet : r ≡ 0 → best ≡ 0 → All (λ t. eligible s t ≡ false) ts → IsBetter ts best r
    chosen :
        0 < r
        → eligible s r ≡ true
        → (r ≡ best) ⊎ In r ts
        → (0 < best → (s.tasks r).time_end ≤ (s.tasks best).time_end)
        → All (λ t. eligible s t ≡ true → (s.tasks r).time_end ≤ (s.tasks t).time_end) ts
        → IsBetter ts best r

  pick_kept :
      (t : ℕ) (ts : List ℕ) (best r : ℕ)
      → (eligible s t ≡ true → (0 < best) × ((s.tasks best).time_end ≤ (s.tasks t).time_end))
      → IsBetter ts best r
      → IsBetter (t ∷ ts) best r
  pick_kept t ts best r worse (none_yet a b all) = none_yet a b (
    elim (Bool-cases (eligible s t)) [ inl e ↦ absurd (omega (arith, worse e)) | inr e ↦ e ],
    all,
  )
  pick_kept t ts best r worse (chosen pos el (inl same) le all) =
      chosen pos el (inl same) le (λ e. omega (arith, worse e, le (worse e).0), all)
  pick_kept t ts best r worse (chosen pos el (inr found) le all) =
      chosen pos el (inr (inr found)) le (λ e. omega (arith, worse e, le (worse e).0), all)

  pick_changed :
      (t : ℕ) (ts : List ℕ) (best r : ℕ)
      → 0 < t
      → (0 < best → (s.tasks t).time_end ≤ (s.tasks best).time_end)
      → IsBetter ts t r
      → IsBetter (t ∷ ts) best r
  pick_changed t ts best r pos better (none_yet a b all) = absurd (omega arith)
  pick_changed t ts best r pos better (chosen p el (inl same) le all) =
      chosen p el (inr (inl (sym same))) (λ q. omega (arith, better q, le pos)) (λ e. le pos, all)
  pick_changed t ts best r pos better (chosen p el (inr found) le all) =
      chosen p el (inr (inr found)) (λ q. omega (arith, better q, le pos)) (λ e. le pos, all)

  peek_loop-IsBetter :
      (ts : List ℕ) (best : ℕ)
      → All (λ t. 0 < t) ts
      → (best ≡ 0) ⊎ (eligible s best ≡ true)
      → IsBetter ts best (peek_loop s ts best)
  unfolding peek_loop sched_pick
  peek_loop-IsBetter [] best ok good = elim (ℕ_discrete best 0) [
    | yes null ↦ none_yet null null tt
    | no live ↦ chosen (omega arith) (ground arith) (inl refl) (λ p. omega arith) tt
  ]
  peek_loop-IsBetter (t ∷ ts) best (pos, ok) good =
      elim (Bool-cases
        (eligible s t && ((best == 0) || ltb (s.tasks t).time_end (s.tasks best).time_end))) [
          | inl taken ↦
              let kept : sched_pick s best t ≡ t = ground arith in
              subst (λ b. IsBetter (t ∷ ts) best (peek_loop s ts b)) (sym kept)
                (pick_changed t ts best (peek_loop s ts t) pos (λ p. ground arith)
                  (peek_loop-IsBetter ts t ok (inr (ground arith))))
          | inr passed ↦
              let kept : sched_pick s best t ≡ best = ground arith in
              subst (λ b. IsBetter (t ∷ ts) best (peek_loop s ts b)) (sym kept)
                (pick_kept t ts best (peek_loop s ts best) (λ e. ground arith)
                  (peek_loop-IsBetter ts best ok good))
        ]

  -- If no task of the queue is null, `sched_peek` gives an eligible task of the queue that was
  -- taken off a processor no later than any other eligible one, or nothing if none is eligible:
  -- runnable, not running, and not started in this tick.
  pub sched_peek-IsBest : All (λ t. 0 < t) s.queue → IsBest s.queue (sched_peek s)
  unfolding sched_peek
  sched_peek-IsBest ok = elim (peek_loop-IsBetter s.queue 0 ok (inl refl)) [
    | none_yet a b all ↦ nobody a all
    | chosen pos el (inl same) le all ↦ absurd (omega arith)
    | chosen pos el (inr found) le all ↦ someone pos found el all
  ]
