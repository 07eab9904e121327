-- ===== src/Parse/Scan.antt =====
-- The start of sources/libs/brutal-parse/scan.c: a reader of bytes. Of the buffer and the head a scanner
-- keeps the bytes from the head on; the message of an error is left out.
use brutal.Base.{
  ℕ, zero, suc, Bool, true, false, ◌||◌, Option, none, some, List, [], ◌∷◌, get_elem?, ◌==◌,
  if◌then◌else◌,
}

pub record Scan : Type 0 where
  pub left : List ℕ
  pub has_error : Bool

unfoldable pub scan_init : List ℕ → Scan
scan_init s = record { left = s; has_error = false }

abbrev pub is_empty : List ℕ → Bool
is_empty [] = true
is_empty (c ∷ cs) = false

unfoldable pub scan_ended : Scan → Bool
scan_ended s = is_empty s.left || s.has_error

abbrev pub or_zero : Option ℕ → ℕ
or_zero none = 0
or_zero (some c) = c

-- At an offset that is not negative.
unfoldable pub scan_peek : Scan → ℕ → ℕ
scan_peek s offset = if s.has_error then 0 else or_zero (get_elem? s.left offset)

unfoldable pub scan_curr : Scan → ℕ
scan_curr s = scan_peek s 0

abbrev pub advance : List ℕ → ℕ × Scan
advance [] = (0, record { left = []; has_error = true })
advance (c ∷ cs) = (c, record { left = cs; has_error = false })

-- At the end of the text it is an error.
unfoldable pub scan_next : Scan → ℕ × Scan
scan_next s = if s.has_error then (0, s) else advance s.left

unfoldable pub scan_next_n : Scan → ℕ → Scan
scan_next_n s zero = s
scan_next_n s (suc n) = scan_next_n (scan_next s).1 n

unfoldable pub scan_skip : Scan → ℕ → Bool × Scan
scan_skip s c = if scan_curr s == c then (true, (scan_next s).1) else (false, s)
