-- ===== src/Sync/Family.antt =====
-- Threads by their number: where each stands, one of them moved, and how many stand somewhere.
use brutal.Base.{
  ℕ, zero, suc, ◌+◌, ◌≤◌, ◌<◌, ◌≡◌, refl, ◌≢◌, inl, inr, ◌==◌, if◌then◌else◌, Bool-cases, arith,
}

abbrev pub move_to {ℓ} : {A : Type ℓ} → (ℕ → A) → ℕ → A → ℕ → A
move_to f i a j = if i == j then a else f j

module _ {ℓ} {A : Type ℓ} (w : A → ℕ) where
  -- the threads below `n`, each counted by its weight
  unfoldable pub count_of : ℕ → (ℕ → A) → ℕ
  count_of zero f = 0
  count_of (suc n) f = w (f n) + count_of n f

  count_of_above :
      (n : ℕ) (f : ℕ → A) (i : ℕ) (a : A) → n ≤ i → count_of n (move_to f i a) ≡ count_of n f
  unfolding count_of
  count_of_above zero f i a h = refl
  count_of_above (suc n) f i a h = ground (arith, count_of_above n f i a)

  pub count_of-move_to :
      (n : ℕ) (f : ℕ → A) (i : ℕ) (a : A)
      → i < n
      → count_of n (move_to f i a) + w (f i) ≡ count_of n f + w a
  unfolding count_of
  count_of-move_to zero f i a h = absurd (omega arith)
  count_of-move_to (suc n) f i a h = elim (Bool-cases (i == n)) [
    | inl last ↦
        let same : i ≡ n = ground arith in
        let at : w (f i) ≡ w (f n) = rw same in ground (arith, count_of_above n f i a)
    | inr before ↦ ground (arith, count_of-move_to n f i a)
  ]

  pub le-count_of : (n : ℕ) (f : ℕ → A) (i : ℕ) → i < n → w (f i) ≤ count_of n f
  unfolding count_of
  le-count_of zero f i h = absurd (omega arith)
  le-count_of (suc n) f i h = elim (Bool-cases (i == n)) [
    | inl last ↦
        let same : i ≡ n = ground arith in let at : w (f i) ≡ w (f n) = rw same in omega arith
    | inr before ↦ let below : i < n = ground arith in omega (arith, le-count_of n f i below)
  ]

  -- two different threads are counted apart
  pub two-le-count_of :
      (n : ℕ) (f : ℕ → A) (i j : ℕ) → i < n → j < n → i ≢ j → w (f i) + w (f j) ≤ count_of n f
  unfolding count_of
  two-le-count_of zero f i j hi hj d = absurd (omega arith)
  two-le-count_of (suc n) f i j hi hj d = elim (Bool-cases (i == n)) [
    | inl last ↦
        let same : i ≡ n = ground arith in
        let at : w (f i) ≡ w (f n) = rw same in
        let below : j < n = ground arith in omega (arith, le-count_of n f j below)
    | inr before ↦ elim (Bool-cases (j == n)) [
      | inl last ↦
          let same : j ≡ n = ground arith in
          let at : w (f j) ≡ w (f n) = rw same in
          let below : i < n = ground arith in omega (arith, le-count_of n f i below)
      | inr early ↦
          let bi : i < n = ground arith in
          let bj : j < n = ground arith in omega (arith, two-le-count_of n f i j bi bj d)
    ]
  ]

  pub count_of-zero : (n : ℕ) (f : ℕ → A) → ((i : ℕ) → w (f i) ≡ 0) → count_of n f ≡ 0
  unfolding count_of
  count_of-zero zero f h = refl
  count_of-zero (suc n) f h = omega (arith, h n, count_of-zero n f h)

-- A weight that two others cover together is counted at most as often as they are.
pub count_of_sum {ℓ} :
    {A : Type ℓ} (w u v : A → ℕ) (n : ℕ) (f : ℕ → A)
    → ((a : A) → w a ≤ u a + v a)
    → count_of w n f ≤ count_of u n f + count_of v n f
unfolding count_of
count_of_sum w u v zero f h = omega arith
count_of_sum w u v (suc n) f h = omega (arith, h (f n), count_of_sum w u v n f h)
