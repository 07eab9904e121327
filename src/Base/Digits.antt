-- ===== src/Base/Digits.antt =====
-- The binary digits of a number, for the flags that C keeps in one.
use Prim.Native.Nat.{
  ℕ, zero, suc, ◌+◌, ◌-◌, ◌*◌, ◌/◌, ◌%◌, ◌^◌, ◌≤◌, ◌<◌, min, max, bit_and, bit_or, digits,
  bit_and-bitwise, bit_or-bitwise,
}
use mathlib.Core.Path.{◌≡◌, refl, ap, ◌∙◌}
use native.Mathlib.Omega.{arith}

-- The digit of weight `2 ^ k`.
abbrev pub digit : ℕ → ℕ → ℕ
digit x zero = x % 2
digit x (suc k) = digit (x / 2) k

digit_of_zero : (k : ℕ) → digit 0 k ≡ 0
digit_of_zero zero = refl
digit_of_zero (suc k) = digit_of_zero k

pub digit_lt : (x k : ℕ) → digit x k < 2
digit_lt x zero = omega arith
digit_lt x (suc k) = digit_lt (x / 2) k

digit_of_step : (x b k : ℕ) → b < 2 → digit (x * 2 + b) (suc k) ≡ digit x k
digit_of_step x b k h = ap (λ y. digit y k) (omega arith)

digit-digits :
    (n a b k : ℕ) → a ≤ n → digit (digits (λ b. zero) min n a b) k ≡ min (digit a k) (digit b k)
digit-digits zero a b k h =
    let none : a ≡ 0 = omega arith in omega (arith, digit_of_zero k, ap (λ x. digit x k) none)
digit-digits (suc n) zero b k h = omega (arith, digit_of_zero k)
digit-digits (suc n) (suc a) b zero h = omega arith
digit-digits (suc n) (suc a) b (suc k) h =
    digit_of_step (digits (λ b. zero) min n (suc a / 2) (b / 2)) (min (suc a % 2) (b % 2)) k
      (omega arith)
    ∙ digit-digits n (suc a / 2) (b / 2) k (omega arith)

-- A digit of `a & b` is set when both are.
pub digit-bit_and : (a b k : ℕ) → digit (bit_and a b) k ≡ min (digit a k) (digit b k)
digit-bit_and a b k = ap (λ x. digit x k) (bit_and-bitwise a b) ∙ digit-digits a a b k (omega arith)

-- The digits of `~b`, of `w` bits.
pub digit_of_complement : (w b k : ℕ) → b < 2 ^ w → k < w → digit (2 ^ w - 1 - b) k ≡ 1 - digit b k
digit_of_complement zero b k h lt = absurd (omega arith)
digit_of_complement (suc w) b zero h lt =
    let twice : 2 ^ suc w ≡ 2 * 2 ^ w = omega arith in omega arith
digit_of_complement (suc w) b (suc k) h lt =
    let twice : 2 ^ suc w ≡ 2 * 2 ^ w = omega arith in
    ap (λ x. digit x k) (omega arith) ∙ digit_of_complement w (b / 2) k (omega arith) (omega arith)

pub digit_of_small : (w b k : ℕ) → b < 2 ^ w → w ≤ k → digit b k ≡ 0
digit_of_small zero b k h le =
    let none : b ≡ 0 = omega arith in ap (λ x. digit x k) none ∙ digit_of_zero k
digit_of_small (suc w) b zero h le = absurd (omega arith)
digit_of_small (suc w) b (suc k) h le =
    let twice : 2 ^ suc w ≡ 2 * 2 ^ w = omega arith in
    digit_of_small w (b / 2) k (omega arith) (omega arith)

digits_of_no_mask : (n a : ℕ) → a ≤ n → digits (λ b. zero) min n a 0 ≡ 0
digits_of_no_mask zero a h = refl
digits_of_no_mask (suc n) zero h = refl
digits_of_no_mask (suc n) (suc a) h = omega (arith, digits_of_no_mask n (suc a / 2) (omega arith))

-- `2 ^ w - 1`, the low `w` digits of a number, and a number shifted up by `w`.
abbrev ones : ℕ → ℕ
ones zero = 0
ones (suc w) = ones w * 2 + 1

abbrev pub low : ℕ → ℕ → ℕ
low zero a = 0
low (suc w) a = low w (a / 2) * 2 + a % 2

abbrev pub shifted : ℕ → ℕ → ℕ
shifted zero x = x
shifted (suc w) x = shifted w x * 2

low_of_zero : (w : ℕ) → low w 0 ≡ 0
low_of_zero zero = refl
low_of_zero (suc w) = omega (arith, low_of_zero w)

digits_of_mask : (w n a b : ℕ) → a ≤ n → b ≡ ones w → digits (λ b. zero) min n a b ≡ low w a
digits_of_mask zero n a b h e = rw e (digits_of_no_mask n a h)
digits_of_mask (suc w) zero a b h e =
    let none : a ≡ 0 = omega arith in rw none (omega (arith, low_of_zero w))
digits_of_mask (suc w) (suc n) zero b h e = omega (arith, low_of_zero w)
digits_of_mask (suc w) (suc n) (suc a) b h e =
    omega (arith, digits_of_mask w n (suc a / 2) (b / 2) (omega arith) (omega arith))

bit_and_mask : (w a b : ℕ) → b ≡ ones w → bit_and a b ≡ low w a
bit_and_mask w a b e = bit_and-bitwise a b ∙ digits_of_mask w a a b (omega arith) e

-- A mask of ones is a remainder.
pub bit_and_15 : (a : ℕ) → bit_and a 15 ≡ a % 16
bit_and_15 a = bit_and_mask 4 a 15 refl ∙ omega arith

pub bit_and_31 : (a : ℕ) → bit_and a 31 ≡ a % 32
bit_and_31 a = bit_and_mask 5 a 31 refl ∙ omega arith

pub bit_and_63 : (a : ℕ) → bit_and a 63 ≡ a % 64
bit_and_63 a = bit_and_mask 6 a 63 refl ∙ omega arith

pub bit_and_7 : (a : ℕ) → bit_and a 7 ≡ a % 8
bit_and_7 a = bit_and_mask 3 a 7 refl ∙ omega arith

digits_of_no_low : (n a : ℕ) → a ≤ n → digits (λ b. b) max n a 0 ≡ a
digits_of_no_low zero a h = omega arith
digits_of_no_low (suc n) zero h = refl
digits_of_no_low (suc n) (suc a) h = omega (arith, digits_of_no_low n (suc a / 2) (omega arith))

digits_of_or :
    (w n x a b : ℕ) → a ≤ n → a ≡ shifted w x → b < 2 ^ w → digits (λ b. b) max n a b ≡ a + b
digits_of_or zero n x a b h e lt =
    let none : b ≡ 0 = omega arith in rw none (digits_of_no_low n a h ∙ omega arith)
digits_of_or (suc w) zero x a b h e lt = omega arith
digits_of_or (suc w) (suc n) x zero b h e lt = omega arith
digits_of_or (suc w) (suc n) x (suc a) b h e lt =
    let twice : 2 ^ suc w ≡ 2 * 2 ^ w = omega arith in
    omega (arith, digits_of_or w n x (suc a / 2) (b / 2) (omega arith) (omega arith) (omega arith))

-- Where the digits do not meet, `|` is `+`.
pub bit_or_low : (w x a b : ℕ) → a ≡ shifted w x → b < 2 ^ w → bit_or a b ≡ a + b
bit_or_low w x a b e lt = bit_or-bitwise a b ∙ digits_of_or w a x a b (omega arith) e lt

pow-ones : (w : ℕ) → 2 ^ w ≡ ones w + 1
pow-ones zero = refl
pow-ones (suc w) = let twice : 2 ^ suc w ≡ 2 * 2 ^ w = omega arith in omega (arith, pow-ones w)

-- A mask of `w` ones leaves the low `w` digits.
pub bit_and-low : (w a : ℕ) → bit_and a (2 ^ w - 1) ≡ low w a
bit_and-low w a = bit_and_mask w a (2 ^ w - 1) (omega (arith, pow-ones w))

pub shifted-pow : (w x : ℕ) → x * 2 ^ w ≡ shifted w x
shifted-pow zero x = omega arith
shifted-pow (suc w) x =
    let twice : 2 ^ suc w ≡ 2 * 2 ^ w = omega arith in
    ap (λ t. x * t) twice ∙ omega (arith, shifted-pow w x)
