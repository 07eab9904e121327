-- ===== src/Bvm/Int64.antt =====
-- `int64_t`: the integers, and their representation in a machine word. A result that does not
-- fit is undefined behaviour in C, and a fault here.
pub mod Laws
use brutal.Base.{
  ℕ, zero, suc, ◌+◌, ◌-◌, ◌*◌, ◌/◌, ◌%◌, ◌^◌, Bool, true, false, Option, none, some, ltb, ◌==◌,
  if◌then◌else◌, ◌>>=◌, word, same, not,
}

pub data ℤ : Type 0 where
  pos : ℕ → ℤ
  negsuc : ℕ → ℤ

abbrev pub half : ℕ
half = 2 ^ 63

-- The integer that a word stands for, in two's complement.
unfoldable pub to_int : ℕ → ℤ
to_int w = if ltb w half then pos w else negsuc (word - 1 - w)

-- The word of an integer in the range of `int64_t`.
unfoldable pub from_int : ℤ → Option ℕ
from_int (pos n) = if ltb n half then some n else none
from_int (negsuc n) = if ltb n half then some (word - 1 - n) else none

unfoldable pub negℤ : ℤ → ℤ
negℤ (pos zero) = pos 0
negℤ (pos (suc n)) = negsuc n
negℤ (negsuc n) = pos (n + 1)

infixl 60 ◌+ℤ◌ ◌-ℤ◌
unfoldable pub ◌+ℤ◌ : ℤ → ℤ → ℤ
pos a +ℤ pos b = pos (a + b)
pos a +ℤ negsuc b = if ltb b a then pos (a - b - 1) else negsuc (b - a)
negsuc a +ℤ pos b = if ltb a b then pos (b - a - 1) else negsuc (a - b)
negsuc a +ℤ negsuc b = negsuc (a + b + 1)

unfoldable pub ◌-ℤ◌ : ℤ → ℤ → ℤ
a -ℤ b = a +ℤ negℤ b

abbrev pub abs : ℤ → ℕ
abs (pos n) = n
abs (negsuc n) = n + 1

abbrev pub is_neg : ℤ → Bool
is_neg (pos n) = false
is_neg (negsuc n) = true

-- The integer of that sign and magnitude.
unfoldable pub signed : Bool → ℕ → ℤ
signed neg n = if neg then negℤ (pos n) else pos n

unfoldable pub mulℤ : ℤ → ℤ → ℤ
mulℤ a b = signed (not (same (is_neg a) (is_neg b))) (abs a * abs b)

-- Division rounds towards 0, and the remainder has the sign of the dividend.
unfoldable pub divℤ : ℤ → ℤ → Option ℤ
divℤ a b =
    if abs b == 0 then none else some (signed (not (same (is_neg a) (is_neg b))) (abs a / abs b))

-- A remainder whose quotient does not fit is undefined too.
unfoldable pub modℤ : ℤ → ℤ → Option ℤ
modℤ a b = do q ← divℤ a b; _ ← from_int q; some (signed (is_neg a) (abs a % abs b))

unfoldable pub gtℤ : ℤ → ℤ → Bool
gtℤ (pos a) (pos b) = ltb b a
gtℤ (pos a) (negsuc b) = true
gtℤ (negsuc a) (pos b) = false
gtℤ (negsuc a) (negsuc b) = ltb a b
