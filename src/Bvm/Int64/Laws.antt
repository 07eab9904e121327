-- ===== src/Bvm/Int64/Laws.antt =====
-- The signed operations of Bvm/Int64 against the words that hold their operands.
use brutal.Base.{ℕ, ◌<◌, some, ◌≡◌, arith, word, add64, sub64}
use brutal.Bvm.Int64.{to_int, from_int, negℤ, ◌+ℤ◌, ◌-ℤ◌}

-- Every word stands for an integer in range, whose word it is.
pub from_int-to_int : (w : ℕ) → w < word → from_int (to_int w) ≡ some w
unfolding from_int to_int
from_int-to_int w h = ground arith

-- A signed sum that fits is the unsigned sum of the words.
pub from_int-add :
    (a b c : ℕ) → a < word → b < word → from_int (to_int a +ℤ to_int b) ≡ some c → c ≡ add64 a b
unfolding from_int to_int ◌+ℤ◌
from_int-add a b c p q e = ground arith

-- A signed difference that fits is the unsigned difference of the words.
pub from_int-sub :
    (a b c : ℕ) → a < word → b < word → from_int (to_int a -ℤ to_int b) ≡ some c → c ≡ sub64 a b
unfolding from_int to_int ◌+ℤ◌ ◌-ℤ◌ negℤ
from_int-sub a b c p q e = ground arith
