-- ===== src/Parse/Glob/Equiv.antt =====
-- `glob_match` of sources/libs/brutal-glob/glob.c on patterns without groups.
use brutal.Base.{ℕ, Bool, true, false, Option, some, List, [], ◌≡◌, ◌⊎◌}
use brutal.Parse.Scan.{Scan}
use brutal.Parse.Glob.Spec.{Matches}

abbrev scan : List ℕ → Scan
scan s = record { left = s; has_error = false }

-- A match that succeeds has read both texts to the end.
abbrev Outcome : List ℕ → List ℕ → Option (Bool × Scan × Scan) → Type 0
Outcome p i r =
    ((r ≡ some (true, scan [], scan [])) × Matches p i)
    ⊎ ((q : List ℕ) × (j : List ℕ) × (r ≡ some (false, scan q, scan j)) × (Matches p i → ⊥))
