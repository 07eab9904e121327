-- ===== src/Io/Res.antt =====
-- The result of a call that may report an error: `TRY` passes an error on. `fault` is a failed
-- assertion, an access outside an array, or a use of a byte that no read has written; in a loop on
-- fuel it is also the end of the fuel.
use brutal.Base.{Bool, true, false, Option, none, some}

pub data Error : Type 0 where
  unknown_block too_many_symbols not_enough_table_space invalid_code bad_data : Error

pub data Res {ℓ} (A : Type ℓ) : Type ℓ where
  ok : A → Res A
  err : Error → Res A
  fault : Res A

infixl 5 ◌>>=◌ ◌>>◌
abbrev pub ◌>>=◌ {ℓ κ} : {A : Type ℓ} {B : Type κ} → Res A → (A → Res B) → Res B
ok a >>= f = f a
err e >>= f = err e
fault >>= f = fault

abbrev pub ◌>>◌ {ℓ} : {B : Type ℓ} → Res (Unit {0}) → Res B → Res B
m >> k = m >>= λ _. k

abbrev pub assert : Bool → Res (Unit {0})
assert true = ok tt
assert false = fault

-- An assertion or an array access inside a call that reports errors
abbrev pub must {ℓ} : {A : Type ℓ} → Option A → Res A
must none = fault
must (some a) = ok a
