-- ===== src/Hash/Adler32.antt =====
-- sources/libs/brutal-hash/adler32.c: a running checksum. The data is the list of its bytes; the
-- writer below, which gets the same bytes, is left out.
pub mod Sums
use brutal.Base.{ℕ, ◌+◌, ◌*◌, ◌%◌, ◌^◌, ◌<<<◌, List, [], ◌∷◌, bit_or}

abbrev pub a32_base : ℕ
a32_base = 65521

pub record Adler32 : Type 0 where
  pub s1 : ℕ
  pub s2 : ℕ

unfoldable pub adler32_init : Adler32
adler32_init = record { s1 = 1; s2 = 0 }

-- One round of the loop, in 32-bit words.
unfoldable pub adler32_round : Adler32 → ℕ → Adler32
adler32_round a b =
    let s1 = (a.s1 + b) % 2 ^ 32 % a32_base in
    record { s1 = s1; s2 = (a.s2 + s1) % 2 ^ 32 % a32_base }

unfoldable pub adler32_write_impl : Adler32 → List ℕ → Adler32
adler32_write_impl a [] = a
adler32_write_impl a (b ∷ bs) = adler32_write_impl (adler32_round a b) bs

unfoldable pub adler32_get : Adler32 → ℕ
adler32_get a = bit_or ((a.s2 <<< 16) % 2 ^ 32) a.s1

-- `adler32` has the loop of `adler32_write_impl` on its own variables.
unfoldable pub adler32 : List ℕ → ℕ
adler32 bs = adler32_get (adler32_write_impl adler32_init bs)
