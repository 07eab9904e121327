-- ===== src/Text/Str.antt =====
-- sources/libs/brutal-text/str.c and `str_eq` of sources/libs/brutal-base/str.h: a text is the list
-- of its bytes. A position is an `int` in the source: `none` stands for -1, and `some p` for the
-- other `int` with the 32-bit pattern `p`. Counts below 2 ^ 31 are exact; above, the source overflows.
pub mod Eq
pub mod Find
use brutal.Base.{
  ℕ, zero, suc, ◌+◌, ◌-◌, ◌%◌, ◌^◌, ◌≤◌, Bool, true, false, ◌&&◌, Option, none, some, List, [], ◌∷◌,
  ◌++◌, length, take, drop, ltb, leb, ◌==◌, if◌then◌else◌, not,
}

-- the loop of `str_eq`, once the lengths agree
unfoldable pub eq_loop : List ℕ → List ℕ → Bool
eq_loop (x ∷ xs) (y ∷ ys) = let rest = eq_loop xs ys in if not (x == y) then false else rest
eq_loop _ _ = true

unfoldable pub str_eq : List ℕ → List ℕ → Bool
str_eq lhs rhs = if not (length lhs == length rhs) then false else eq_loop lhs rhs

unfoldable pub tolower : ℕ → ℕ
tolower c = if leb b'A' c && leb c b'Z' then c - b'A' + b'a' else c

unfoldable pub eq_ci_loop : List ℕ → List ℕ → Bool
eq_ci_loop (x ∷ xs) (y ∷ ys) =
    let rest = eq_ci_loop xs ys in if not (tolower x == tolower y) then false else rest
eq_ci_loop _ _ = true

unfoldable pub str_eq_ci : List ℕ → List ℕ → Bool
str_eq_ci lhs rhs = if not (length lhs == length rhs) then false else eq_ci_loop lhs rhs

unfoldable pub str_concat : List ℕ → List ℕ → List ℕ
str_concat lhs rhs = lhs ++ rhs

-- `str_n$(needle.len, haystack.buf + i)`, equal to the needle
unfoldable pub slice_eq : List ℕ → List ℕ → ℕ → Bool
slice_eq haystack needle i = str_eq (take (length needle) (drop i haystack)) needle

-- A `size_t` as an `int`
unfoldable pub as_int : ℕ → Option ℕ
as_int i = if i % 2 ^ 32 == 2 ^ 32 - 1 then none else some (i % 2 ^ 32)

-- The loops over positions: `rounds` are left from position `i` on.
unfoldable pub count_loop : List ℕ → List ℕ → ℕ → ℕ → ℕ → ℕ
count_loop haystack needle zero i count = count
count_loop haystack needle (suc rounds) i count =
    count_loop haystack needle rounds (suc i)
      (if slice_eq haystack needle i then count + 1 else count)

unfoldable pub str_count : List ℕ → List ℕ → ℕ
str_count haystack needle =
    if ltb (length haystack) (length needle)
    then 0
    else count_loop haystack needle (length haystack - length needle) 0 0

unfoldable pub last_loop : List ℕ → List ℕ → ℕ → ℕ → Option ℕ → Option ℕ
last_loop l r zero i pos = pos
last_loop l r (suc rounds) i pos =
    last_loop l r rounds (suc i) (if slice_eq l r i then as_int i else pos)

unfoldable pub str_last : List ℕ → List ℕ → Option ℕ
str_last l r =
    if ltb (length l) (length r) then some 0 else last_loop l r (length l - length r) 0 none

unfoldable pub first_loop : List ℕ → List ℕ → ℕ → ℕ → Option ℕ
first_loop l r zero i = none
first_loop l r (suc rounds) i =
    let rest = first_loop l r rounds (suc i) in if slice_eq l r i then as_int i else rest

-- `i <= len - needle_len` makes one round more than the other two loops.
unfoldable pub str_first : List ℕ → List ℕ → Option ℕ
str_first l r =
    if ltb (length l) (length r) then none else first_loop l r (length l - length r + 1) 0

unfoldable pub str_count_chr : List ℕ → ℕ → ℕ
str_count_chr [] chr = 0
str_count_chr (c ∷ cs) chr = (if c == chr then 1 else 0) + str_count_chr cs chr

unfoldable pub last_chr_loop : List ℕ → ℕ → ℕ → Option ℕ → Option ℕ
last_chr_loop [] chr i result = result
last_chr_loop (c ∷ cs) chr i result =
    last_chr_loop cs chr (suc i) (if c == chr then as_int i else result)

unfoldable pub str_last_chr : List ℕ → ℕ → Option ℕ
str_last_chr str chr = last_chr_loop str chr 0 none

unfoldable pub first_chr_loop : List ℕ → ℕ → ℕ → Option ℕ
first_chr_loop [] chr i = none
first_chr_loop (c ∷ cs) chr i =
    let rest = first_chr_loop cs chr (suc i) in if c == chr then as_int i else rest

unfoldable pub str_first_chr : List ℕ → ℕ → Option ℕ
str_first_chr str chr = first_chr_loop str chr 0
