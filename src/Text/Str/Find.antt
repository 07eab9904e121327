-- ===== src/Text/Str/Find.antt =====
-- What the searches of sources/libs/brutal-text/str.c find.
use brutal.Base.{
  ℕ, zero, suc, ◌+◌, ◌-◌, ◌^◌, ◌%◌, ◌≤◌, ◌<◌, true, false, Option, none, some, List, [], ◌∷◌,
  length, take, drop, ◌≡◌, refl, sym, subst, ltb, ◌==◌, Bool-cases, inl, inr, ap, arith,
}
use brutal.Text.Str.{
  as_int, str_eq, slice_eq, first_loop, str_first, last_loop, str_last, count_loop, str_count,
}
use brutal.Text.Str.Eq.{str_eq→eq, str_eq_self}

-- the needle stands at position `i`
abbrev pub OccursAt : List ℕ → List ℕ → ℕ → Type 0
OccursAt l r i = (i + length r ≤ length l) × (take (length r) (drop i l) ≡ r)

-- What a search for the first position has to answer.
abbrev pub IsFirst : List ℕ → List ℕ → Option ℕ → Type 0
IsFirst l r none = (i : ℕ) → ¬ OccursAt l r i
IsFirst l r (some i) = OccursAt l r i × ((j : ℕ) → j < i → ¬ OccursAt l r j)

slice_eq→eq : (l r : List ℕ) (i : ℕ) → slice_eq l r i ≡ true → take (length r) (drop i l) ≡ r
unfolding slice_eq
slice_eq→eq l r i e = str_eq→eq _ _ e

slice_eq-no : (l r : List ℕ) (i : ℕ) → slice_eq l r i ≡ false → ¬ OccursAt l r i
unfolding slice_eq
slice_eq-no l r i e (fits, same) =
    let yes_it_is : str_eq (take (length r) (drop i l)) r ≡ true = rw same (str_eq_self r) in cc

as_int_small : (i : ℕ) → i < 2 ^ 31 → as_int i ≡ some i
unfolding as_int
as_int_small i lt =
    let same : i % 2 ^ 32 ≡ i = omega arith in
    let apart : i == 2 ^ 32 - 1 ≡ false = ground arith in rw (same, apart)

first_loop-IsFirst :
    (l r : List ℕ) (rounds i : ℕ)
    → length l < 2 ^ 31
    → i + rounds + length r ≡ length l + 1
    → ((j : ℕ) → j < i → ¬ OccursAt l r j)
    → IsFirst l r (first_loop l r rounds i)
unfolding first_loop
first_loop-IsFirst l r zero i short h before = λ j occurs. elim (Bool-cases (ltb j i)) [
  | inl lt ↦ before j (ground arith) occurs
  | inr ge ↦ absurd (ground arith)
]
first_loop-IsFirst l r (suc rounds) i short h before = elim (Bool-cases (slice_eq l r i)) [
  | inl e ↦ rw (e, as_int_small i (omega arith)) ((omega arith, slice_eq→eq l r i e), before)
  | inr e ↦ rw e (
      first_loop-IsFirst l r rounds (suc i) short (omega arith) (λ j lt.
        elim (Bool-cases (j == i)) [
          | inl at ↦
              let same : j ≡ i = ground arith in
              subst (λ k. ¬ OccursAt l r k) (sym same) (slice_eq-no l r i e)
          | inr apart ↦ before j (ground arith)
        ]))
]

-- On a text of fewer than 2 ^ 31 bytes `str_first` answers the first position at which the needle
-- stands in the text, and -1 if it stands nowhere.
pub str_first-IsFirst : (l r : List ℕ) → length l < 2 ^ 31 → IsFirst l r (str_first l r)
unfolding str_first
str_first-IsFirst l r small = elim (Bool-cases (ltb (length l) (length r))) [
  | inl over ↦ rw over (λ i occurs. ground arith)
  | inr fits ↦ rw fits (
      first_loop-IsFirst l r (length l - length r + 1) 0 small (ground arith) (λ j lt. elim lt [ ]))
]

take-whole : (s : List ℕ) → take (length s) s ≡ s
take-whole [] = refl
take-whole (c ∷ s) = ap (◌∷◌ c) (take-whole s)

slice_eq-whole : (s : List ℕ) → slice_eq s s 0 ≡ true
unfolding slice_eq
slice_eq-whole s = rw (take-whole s) (str_eq_self s)

-- Of any text in itself, `str_first` finds position 0, while `str_last` answers -1 and `str_count`
-- 0; on a needle one byte longer than the text `str_last` answers 0.
pub str_last_misses :
    (s : List ℕ)
    → (str_first s s ≡ some 0)
      × (str_last s s ≡ none)
      × (str_count s s ≡ 0)
      × ((c : ℕ) → str_last s (c ∷ s) ≡ some 0)
unfolding str_first first_loop str_last last_loop str_count count_loop as_int
str_last_misses s =
    let same : ltb (length s) (length s) ≡ false = ground arith in
    let shorter : ltb (length s) (suc (length s)) ≡ true = ground arith in
    let rounds : length s - length s ≡ 0 = omega arith in
    (rw (same, rounds, slice_eq-whole s), rw (same, rounds), rw (same, rounds), λ c. rw shorter)
