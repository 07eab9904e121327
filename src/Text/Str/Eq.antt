-- ===== src/Text/Str/Eq.antt =====
-- `str_eq` of sources/libs/brutal-base/str.h decides equality.
use brutal.Base.{ℕ, true, List, [], ◌∷◌, length, ◌≡◌, refl, arith}
use brutal.Text.Str.{eq_loop, str_eq}

eq_loop→eq : (x y : List ℕ) → length x ≡ length y → eq_loop x y ≡ true → x ≡ y
unfolding eq_loop
eq_loop→eq [] [] h e = refl
eq_loop→eq [] (b ∷ y) h e = absurd (omega arith)
eq_loop→eq (a ∷ x) [] h e = absurd (omega arith)
eq_loop→eq (a ∷ x) (b ∷ y) h e = ground (arith, eq_loop→eq x y)

eq_loop_self : (x : List ℕ) → eq_loop x x ≡ true
unfolding eq_loop
eq_loop_self [] = refl
eq_loop_self (a ∷ x) = ground (arith, eq_loop_self x)

pub str_eq→eq : (x y : List ℕ) → str_eq x y ≡ true → x ≡ y
unfolding str_eq
str_eq→eq x y e = ground (arith, eq_loop→eq x y)

pub str_eq_self : (x : List ℕ) → str_eq x x ≡ true
unfolding str_eq
str_eq_self x = ground (arith, eq_loop_self x)
