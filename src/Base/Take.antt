-- ===== src/Base/Take.antt =====
-- `take` and `erase_idx` by their lengths and elements.
use Prim.Native.Nat.{ℕ, zero, suc, ◌-◌, ◌≤◌, ◌<◌}
use mathlib.Core.Path.{◌≡◌, refl, ap}
use mathlib.Core.Option.{some}
use mathlib.Core.List.{List, [], ◌∷◌, ◌++◌}
use native.Mathlib.Omega.{arith}
use brutal.Base.Lists.{length, get_elem?, set, take, erase_idx}

module _ {A : Type 0} where
  pub get_elem?-take : (xs : List A) (n i : ℕ) → i < n → get_elem? (take n xs) i ≡ get_elem? xs i
  get_elem?-take [] zero i h = absurd (omega arith)
  get_elem?-take [] (suc n) i h = refl
  get_elem?-take (x ∷ xs) zero i h = absurd (omega arith)
  get_elem?-take (x ∷ xs) (suc n) zero h = refl
  get_elem?-take (x ∷ xs) (suc n) (suc i) h = get_elem?-take xs n i (omega arith)

  pub get_elem?-take_lt : (xs : List A) (n i : ℕ) (x : A) → get_elem? (take n xs) i ≡ some x → i < n
  get_elem?-take_lt xs zero i x e = absurd (ground arith)
  get_elem?-take_lt [] (suc n) i x e = absurd (ground arith)
  get_elem?-take_lt (y ∷ ys) (suc n) zero x e = omega arith
  get_elem?-take_lt (y ∷ ys) (suc n) (suc i) x e = omega (arith, get_elem?-take_lt ys n i x e)

  pub take-set : (xs : List A) (n i : ℕ) (x : A) → take n (set xs i x) ≡ set (take n xs) i x
  take-set [] zero i x = refl
  take-set [] (suc n) i x = refl
  take-set (y ∷ ys) zero i x = refl
  take-set (y ∷ ys) (suc n) zero x = refl
  take-set (y ∷ ys) (suc n) (suc i) x = ap (λ k. y ∷ k) (take-set ys n i x)

  pub length-take : (xs : List A) (n : ℕ) → n ≤ length xs → length (take n xs) ≡ n
  length-take xs zero h = refl
  length-take [] (suc n) h = absurd (omega arith)
  length-take (x ∷ xs) (suc n) h = ap suc (length-take xs n (omega arith))

  pub length-take_le : (xs : List A) (n : ℕ) → length (take n xs) ≡ n → n ≤ length xs
  length-take_le xs zero e = omega arith
  length-take_le [] (suc n) e = absurd (omega arith)
  length-take_le (x ∷ xs) (suc n) e = omega (arith, length-take_le xs n (omega arith))

  pub length-erase_idx :
      (xs : List A) (i : ℕ) → i < length xs → length (erase_idx xs i) ≡ length xs - 1
  length-erase_idx [] i h = absurd (omega arith)
  length-erase_idx (x ∷ xs) zero h = omega arith
  length-erase_idx (x ∷ xs) (suc i) h = omega (arith, length-erase_idx xs i (omega arith))

  pub length_snoc : (xs : List A) (x : A) → length (xs ++ x ∷ []) ≡ suc (length xs)
  length_snoc [] x = refl
  length_snoc (y ∷ ys) x = ap suc (length_snoc ys x)

  pub get_elem?_snoc : (xs : List A) (x : A) → get_elem? (xs ++ x ∷ []) (length xs) ≡ some x
  get_elem?_snoc [] x = refl
  get_elem?_snoc (y ∷ ys) x = get_elem?_snoc ys x

  pub erase_idx_snoc : (xs : List A) (x : A) → erase_idx (xs ++ x ∷ []) (length xs) ≡ xs
  erase_idx_snoc [] x = refl
  erase_idx_snoc (y ∷ ys) x = ap (λ k. y ∷ k) (erase_idx_snoc ys x)

  pub get_elem?_front :
      (xs : List A) (x : A) (i : ℕ) → i < length xs → get_elem? (xs ++ x ∷ []) i ≡ get_elem? xs i
  get_elem?_front [] x i h = absurd (omega arith)
  get_elem?_front (y ∷ ys) x zero h = refl
  get_elem?_front (y ∷ ys) x (suc i) h = get_elem?_front ys x i (omega arith)
