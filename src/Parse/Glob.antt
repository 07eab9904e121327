-- ===== src/Parse/Glob.antt =====
-- sources/libs/brutal-glob/glob.c: patterns of file names. A `char` is signed.
pub mod Spec
pub mod Equiv
use brutal.Base.{
  ℕ, zero, suc, ◌+◌, ◌%◌, min, max, Bool, true, false, not, ◌&&◌, ◌||◌, Option, none, some, List,
  [], ◌∷◌, ◌++◌, length, leb, ltb, ◌==◌, if◌then◌else◌, ◌>>=◌,
}
use brutal.Parse.Scan.{Scan, scan_init, scan_ended, scan_peek, scan_next, scan_next_n, scan_skip}

-- The place of a byte in the order of `char`.
abbrev pub rank : ℕ → ℕ
rank c = (c + 128) % 256

-- `range_start <= current && current <= range_end`, after the ends were swapped if need be.
abbrev pub in_range : ℕ → ℕ → ℕ → Bool
in_range a b c = leb (min (rank a) (rank b)) (rank c) && leb (rank c) (max (rank a) (rank b))

-- The inner loop, up to the end of the group; a round reads a byte.
unfoldable pub skip_group : ℕ → Scan → Scan
skip_group zero p = p
skip_group (suc left) p =
    let (closed, q) = scan_skip p 93 in
    if scan_ended p then p else (if closed then q else skip_group left (scan_next q).1)

-- The end of the range that starts at `start`.
unfoldable pub range_end_of : Scan → ℕ → ℕ × Scan
range_end_of p start =
    if (scan_peek p 0 == 45) && not (scan_peek p 1 == 93)
    then (scan_peek p 1, scan_next_n p 2)
    else (start, p)

unfoldable pub group_loop : ℕ → Bool → Scan → ℕ → Bool × Scan
group_loop zero neg p current = (neg, p)
group_loop (suc left) neg p current =
    let (closed, q) = scan_skip p 93 in
    let (start, r) = scan_next q in
    let (last, t) = range_end_of r start in
    let rest = group_loop left neg t current in
    if scan_ended p
    then (neg, p)
    else (if closed
        then (neg, q)
        else (if in_range start last current
            then (not neg, skip_group (length t.left) t)
            else rest))

unfoldable pub glob_match_group : Scan → ℕ → Bool × Scan
glob_match_group p current =
    let (neg, q) = scan_skip p 94 in group_loop (length q.left + 1) neg q current

-- The texts that are left from the end of the input back to its head.
abbrev pub endings : List ℕ → List (List ℕ)
endings [] = [] ∷ []
endings (c ∷ cs) = endings cs ++ (c ∷ cs) ∷ []

abbrev pub Match : Type 0
Match = Scan → Scan → Option (Bool × Scan × Scan)

-- The loop of `glob_match_wildcard`. The heads after a failure are not used.
unfoldable pub wildcard_loop : Match → Scan → Scan → List (List ℕ) → Option (Bool × Scan × Scan)
wildcard_loop match p i [] = some (false, p, i)
wildcard_loop match p i (x ∷ xs) = do
  (found, q, j) ← match p (record i { left = x })
  let rest = wildcard_loop match (record q { left = p.left }) (record j { left = i.left }) xs
  if found then some (true, q, j) else rest

unfoldable pub glob_match_wildcard : Match → Match
glob_match_wildcard match p i = wildcard_loop match p i (endings i.left)

-- On fuel: each round reads a byte of the pattern.
unfoldable pub glob_match : ℕ → Match
glob_match zero p i = none
glob_match (suc fuel) p i =
    let (operator, q) = scan_next p in
    let (c, j) = scan_next i in
    let any = glob_match fuel q j in
    let (inside, r) = glob_match_group q c in
    let group = (if inside then glob_match fuel r j else some (false, r, j)) in
    let wildcard =
      (glob_match_wildcard (glob_match fuel) q i >>= λ w.
      if w.0 then glob_match fuel w.1 w.2 else some (false, w.1, w.2)) in
    if scan_ended p || scan_ended i
    then some (scan_ended p && scan_ended i, p, i)
    else (if operator == 63
        then any
        else (if operator == 91
            then group
            else (if operator == 42
                then wildcard
                else (if operator == c then any else some (false, q, j)))))

unfoldable pub glob_match_str : List ℕ → List ℕ → Option Bool
glob_match_str pattern input =
    glob_match (length pattern + 1) (scan_init pattern) (scan_init input) >>= λ r. some r.0
