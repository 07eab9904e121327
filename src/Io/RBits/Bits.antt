-- ===== src/Io/RBits/Bits.antt =====
-- The bits of numbers and of bytes, the lowest first.
use brutal.Base.{
  ℕ, zero, suc, ◌+◌, ◌-◌, ◌*◌, ◌/◌, ◌%◌, ◌^◌, ◌≤◌, ◌<◌, List, [], ◌∷◌, ◌++◌, length, take, drop,
  ◌≡◌, refl, ap, arith, low, shifted,
}
use native.Mathlib.Nat.{div-div-eq-div-mul}

-- the `n` lowest bits of a number, the lowest first, and the number that such bits stand for
abbrev pub bits_of : ℕ → ℕ → List ℕ
bits_of zero x = []
bits_of (suc n) x = (x % 2) ∷ bits_of n (x / 2)

abbrev pub value : List ℕ → ℕ
value [] = 0
value (b ∷ bs) = value bs * 2 + b

abbrev pub bytes_bits : List ℕ → List ℕ
bytes_bits [] = []
bytes_bits (b ∷ bs) = bits_of 8 b ++ bytes_bits bs

pub length-bits_of : (n x : ℕ) → length (bits_of n x) ≡ n
length-bits_of zero x = refl
length-bits_of (suc n) x = ap suc (length-bits_of n (x / 2))

-- More bits on top of the `c` bits of `x`.
pub bits_of_above :
    (c n x y : ℕ) → x < 2 ^ c → bits_of (c + n) (shifted c y + x) ≡ bits_of c x ++ bits_of n y
bits_of_above zero n x y h =
    let count : 0 + n ≡ n = omega arith in let whole : y + x ≡ y = omega arith in rw (count, whole)
bits_of_above (suc c) n x y h =
    let twice : 2 ^ suc c ≡ 2 * 2 ^ c = omega arith in
    let count : suc c + n ≡ suc (c + n) = omega arith in
    let bit : (shifted c y * 2 + x) % 2 ≡ x % 2 = omega arith in
    let rest : (shifted c y * 2 + x) / 2 ≡ shifted c y + x / 2 = omega arith in
    rw (count, bit, rest) (ap (◌∷◌ (x % 2)) (bits_of_above c n (x / 2) y (omega arith)))

pub bits_of-low : (n c x : ℕ) → n ≤ c → value (take n (bits_of c x)) ≡ low n x
bits_of-low zero c x h = refl
bits_of-low (suc n) zero x h = elim h [ ]
bits_of-low (suc n) (suc c) x h = ap (λ v. v * 2 + x % 2) (bits_of-low n c (x / 2) (omega arith))

pub bits_of-drop : (n c x : ℕ) → n ≤ c → drop n (bits_of c x) ≡ bits_of (c - n) (x / 2 ^ n)
bits_of-drop zero c x h =
    let count : c - 0 ≡ c = omega arith in let whole : x / 1 ≡ x = omega arith in rw (count, whole)
bits_of-drop (suc n) zero x h = elim h [ ]
bits_of-drop (suc n) (suc c) x h =
    let count : suc c - suc n ≡ c - n = omega arith in
    let twice : 2 ^ suc n ≡ 2 * 2 ^ n = omega arith in
    rw (count, twice, ← div-div-eq-div-mul x 2 (2 ^ n)) (bits_of-drop n c (x / 2) (omega arith))

pub above_small : (c b x : ℕ) → b < 256 → x < 2 ^ c → shifted c b + x < 2 ^ (c + 8)
above_small zero b x h k = omega arith
above_small (suc c) b x h k =
    let twice : 2 ^ suc c ≡ 2 * 2 ^ c = omega arith in
    let count : suc c + 8 ≡ suc (c + 8) = omega arith in
    let half : x / 2 < 2 ^ c = omega arith in
    let wide : 2 ^ suc (c + 8) ≡ 2 * 2 ^ (c + 8) = omega arith in
    rw (count, wide) (omega (arith, above_small c b (x / 2) h half))

pub shrinks : (n c x : ℕ) → n ≤ c → x < 2 ^ c → x / 2 ^ n < 2 ^ (c - n)
shrinks zero c x h k = let count : c - 0 ≡ c = omega arith in rw count (omega arith)
shrinks (suc n) zero x h k = elim h [ ]
shrinks (suc n) (suc c) x h k =
    let count : suc c - suc n ≡ c - n = omega arith in
    let twice : 2 ^ suc n ≡ 2 * 2 ^ n = omega arith in
    let wide : 2 ^ suc c ≡ 2 * 2 ^ c = omega arith in
    rw (count, twice, ← div-div-eq-div-mul x 2 (2 ^ n))
      (shrinks n c (x / 2) (omega arith) (omega arith))
