-- ===== src/Base/Split.antt =====
-- Lists cut in two by `take` and `drop`.
use Prim.Native.Nat.{ℕ, zero, suc, ◌+◌, ◌-◌, ◌≤◌, ◌<◌, min}
use mathlib.Core.Path.{◌≡◌, refl, ap, ◌∙◌}
use mathlib.Core.List.{List, [], ◌∷◌, ◌++◌}
use native.Mathlib.Omega.{arith}
use native.Mathlib.Nat.{suc-add}
use brutal.Base.Lists.{length, get_elem?, take, drop}

module _ {A : Type 0} where
  pub length-drop : (xs : List A) (n : ℕ) → length (drop n xs) ≡ length xs - n
  length-drop xs zero = omega arith
  length-drop [] (suc n) = omega arith
  length-drop (x ∷ xs) (suc n) = length-drop xs n ∙ omega arith

  drop-nil : (n : ℕ) → ◌≡◌ {A = List A} (drop n []) []
  drop-nil zero = refl
  drop-nil (suc n) = refl

  pub drop-drop : (xs : List A) (m n : ℕ) → drop n (drop m xs) ≡ drop (m + n) xs
  drop-drop xs zero n = ap (λ k. drop k xs) (omega arith)
  drop-drop [] (suc m) n = rw (drop-nil n, drop-nil (suc m + n))
  drop-drop (x ∷ xs) (suc m) n = rw suc-add (drop-drop xs m n)

  pub take-past : (xs : List A) (n : ℕ) → length xs ≤ n → take n xs ≡ xs
  take-past [] zero h = refl
  take-past [] (suc n) h = refl
  take-past (x ∷ xs) zero h = absurd (omega arith)
  take-past (x ∷ xs) (suc n) h = ap (◌∷◌ x) (take-past xs n (omega arith))

  pub take-append : (xs ys : List A) (n : ℕ) → length xs ≡ n → take n (xs ++ ys) ≡ xs
  take-append [] ys zero h = refl
  take-append [] ys (suc n) h = absurd (omega arith)
  take-append (x ∷ xs) ys zero h = absurd (omega arith)
  take-append (x ∷ xs) ys (suc n) h = ap (◌∷◌ x) (take-append xs ys n (omega arith))

  pub drop-append : (xs ys : List A) (n : ℕ) → length xs ≡ n → drop n (xs ++ ys) ≡ ys
  drop-append [] ys zero h = refl
  drop-append [] ys (suc n) h = absurd (omega arith)
  drop-append (x ∷ xs) ys zero h = absurd (omega arith)
  drop-append (x ∷ xs) ys (suc n) h = drop-append xs ys n (omega arith)

  pub take-append-drop : (xs : List A) (n : ℕ) → take n xs ++ drop n xs ≡ xs
  take-append-drop xs zero = refl
  take-append-drop [] (suc n) = refl
  take-append-drop (x ∷ xs) (suc n) = ap (◌∷◌ x) (take-append-drop xs n)

  -- taking is the same whether the list or its length runs out
  pub take-min : (xs : List A) (n : ℕ) → take (min n (length xs)) xs ≡ take n xs
  take-min [] zero = refl
  take-min [] (suc n) = ap (λ k. take k []) (clip n)
    where
      clip : (n : ℕ) → min (suc n) 0 ≡ 0
      clip n = omega arith
  take-min (x ∷ xs) zero = ap (λ k. take k (x ∷ xs)) (clip (length xs))
    where
      clip : (l : ℕ) → min 0 (suc l) ≡ 0
      clip l = omega arith
  take-min (x ∷ xs) (suc n) =
      ap (λ k. take k (x ∷ xs)) (clip n (length xs)) ∙ ap (◌∷◌ x) (take-min xs n)
    where
      clip : (n l : ℕ) → min (suc n) (suc l) ≡ suc (min n l)
      clip n l = omega arith

  pub get_elem?-append_right :
      (xs ys : List A) (i : ℕ) → get_elem? (xs ++ ys) (length xs + i) ≡ get_elem? ys i
  get_elem?-append_right [] ys i = ap (get_elem? ys) (omega arith)
  get_elem?-append_right (x ∷ xs) ys i = rw suc-add (get_elem?-append_right xs ys i)

  pub get_elem?-append_left :
      (xs ys : List A) (i : ℕ) → i < length xs → get_elem? (xs ++ ys) i ≡ get_elem? xs i
  get_elem?-append_left [] ys i h = absurd (omega arith)
  get_elem?-append_left (x ∷ xs) ys zero h = refl
  get_elem?-append_left (x ∷ xs) ys (suc i) h = get_elem?-append_left xs ys i (omega arith)

  pub take-append_front : (xs ys : List A) (n : ℕ) → n ≤ length xs → take n (xs ++ ys) ≡ take n xs
  take-append_front xs ys zero h = refl
  take-append_front [] ys (suc n) h = absurd (omega arith)
  take-append_front (x ∷ xs) ys (suc n) h = ap (◌∷◌ x) (take-append_front xs ys n (omega arith))

  pub drop-append_front :
      (xs ys : List A) (n : ℕ) → n ≤ length xs → drop n (xs ++ ys) ≡ drop n xs ++ ys
  drop-append_front xs ys zero h = refl
  drop-append_front [] ys (suc n) h = absurd (omega arith)
  drop-append_front (x ∷ xs) ys (suc n) h = drop-append_front xs ys n (omega arith)

  pub take-add : (xs : List A) (m n : ℕ) → take (m + n) xs ≡ take m xs ++ take n (drop m xs)
  take-add xs zero n = ap (λ k. take k xs) (omega arith)
  take-add [] (suc m) zero = ap (λ k. take k []) (add-zero (suc m))
    where
      add-zero : (k : ℕ) → k + 0 ≡ k
      add-zero k = omega arith
  take-add [] (suc m) (suc n) = rw suc-add refl
  take-add (x ∷ xs) (suc m) n = rw suc-add (ap (◌∷◌ x) (take-add xs m n))

  pub length-take-min : (xs : List A) (n : ℕ) → length (take n xs) ≡ min n (length xs)
  length-take-min xs zero = omega arith
  length-take-min [] (suc n) = omega arith
  length-take-min (x ∷ xs) (suc n) = omega (arith, length-take-min xs n)
