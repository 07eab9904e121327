-- ===== src/Parse/Glob/Spec.antt =====
-- What a pattern of sources/libs/brutal-glob/glob.c means, and what a star means for the texts after it.
use brutal.Base.{ℕ, List, [], ◌∷◌, ◌++◌, ◌≡◌, ◌≢◌, ◌⊎◌, inl, inr, refl, subst}
use brutal.Parse.Glob.{endings}

-- `?` stands for a byte, `*` for any bytes, and any other byte for itself.
pub data Matches : List ℕ → List ℕ → Type 0 where
  done : Matches [] []
  one : {c : ℕ} {p i : List ℕ} → Matches p i → Matches (63 ∷ p) (c ∷ i)
  none_left : {p i : List ℕ} → Matches p i → Matches (42 ∷ p) i
  one_more : {c : ℕ} {p i : List ℕ} → Matches (42 ∷ p) i → Matches (42 ∷ p) (c ∷ i)
  byte : {c : ℕ} {p i : List ℕ} → c ≢ 63 → c ≢ 42 → Matches p i → Matches (c ∷ p) (c ∷ i)

abbrev pub In : List ℕ → List (List ℕ) → Type 0
In x [] = ⊥
In x (y ∷ ys) = (x ≡ y) ⊎ In x ys

In-front : (x : List ℕ) (ys zs : List (List ℕ)) → In x ys → In x (ys ++ zs)
In-front x [] zs h = elim h [ ]
In-front x (y ∷ ys) zs (inl same) = inl same
In-front x (y ∷ ys) zs (inr h) = inr (In-front x ys zs h)

In-snoc : (x : List ℕ) (ys : List (List ℕ)) → In x (ys ++ x ∷ [])
In-snoc x [] = inl refl
In-snoc x (y ∷ ys) = inr (In-snoc x ys)

In-cases : (x z : List ℕ) (ys : List (List ℕ)) → In x (ys ++ z ∷ []) → In x ys ⊎ (x ≡ z)
In-cases x z [] (inl same) = inr same
In-cases x z [] (inr h) = elim h [ ]
In-cases x z (y ∷ ys) (inl same) = inl (inl same)
In-cases x z (y ∷ ys) (inr h) = elim (In-cases x z ys h) [
  | inl before ↦ inl (inr before)
  | inr same ↦ inr same
]

-- A star takes bytes off until the rest of the pattern matches.
pub star_ending :
    (p i : List ℕ) → Matches (42 ∷ p) i → (x : List ℕ) × In x (endings i) × Matches p x
star_ending p [] (none_left m) = ([], inl refl, m)
star_ending p (c ∷ i) (none_left m) = (c ∷ i, In-snoc (c ∷ i) (endings i), m)
star_ending p (c ∷ i) (one_more m) =
    let (x, h, n) = star_ending p i m in (x, In-front x (endings i) ((c ∷ i) ∷ []) h, n)
star_ending p (c ∷ i) (byte ne ne' m) = absurd (ne' refl)

pub ending_star : (p i x : List ℕ) → In x (endings i) → Matches p x → Matches (42 ∷ p) i
ending_star p [] x (inl same) m = none_left (subst (λ k. Matches p k) same m)
ending_star p [] x (inr h) m = elim h [ ]
ending_star p (c ∷ i) x h m = elim (In-cases x (c ∷ i) (endings i) h) [
  | inl before ↦ one_more (ending_star p i x before m)
  | inr same ↦ none_left (subst (λ k. Matches p k) same m)
]

-- The last byte of the pattern is no star.
abbrev pub EndsPlain : List ℕ → Type 0
EndsPlain [] = Unit
EndsPlain (c ∷ []) = c ≢ 42
EndsPlain (c ∷ d ∷ p) = EndsPlain (d ∷ p)

pub Matches-empty : (c : ℕ) (p : List ℕ) → EndsPlain (c ∷ p) → Matches (c ∷ p) [] → ⊥
Matches-empty c [] plain (none_left m) = plain refl
Matches-empty c (d ∷ p) plain (none_left m) = Matches-empty d p plain m

pub Matches-one : (p i : List ℕ) (d : ℕ) → Matches (63 ∷ p) (d ∷ i) → Matches p i
Matches-one p i d (one m) = m
Matches-one p i d (byte ne ne' m) = m

pub Matches-byte :
    (p i : List ℕ) (c d : ℕ) → c ≢ 63 → c ≢ 42 → Matches (c ∷ p) (d ∷ i) → (c ≡ d) × Matches p i
Matches-byte p i c d ne ne' (one m) = absurd (ne refl)
Matches-byte p i c d ne ne' (none_left m) = absurd (ne' refl)
Matches-byte p i c d ne ne' (one_more m) = absurd (ne' refl)
Matches-byte p i c d ne ne' (byte a b m) = (refl, m)
