-- ===== src/Hash/Adler32/Sums.antt =====
-- The checksum of sources/libs/brutal-hash/adler32.c as sums over the data.
use brutal.Base.{
  ℕ, ◌+◌, ◌*◌, ◌%◌, ◌^◌, ◌<◌, List, [], ◌∷◌, length, All, ◌≡◌, refl, ap, ◌∙◌, arith, bit_or,
  bit_or_low,
}
use native.Mathlib.Nat.{suc-mul, mul-add}
use brutal.Hash.Adler32.{
  Adler32, a32_base, adler32_init, adler32_round, adler32_write_impl, adler32_get, adler32,
}

abbrev pub total : List ℕ → ℕ
total [] = 0
total (b ∷ bs) = b + total bs

-- Each byte, times the number of bytes from it on.
abbrev pub weighted : List ℕ → ℕ
weighted [] = 0
weighted (b ∷ bs) = (length bs * b + b) + weighted bs

abbrev IsByte : ℕ → Type 0
IsByte b = b < 256

write_sums :
    (bs : List ℕ) (a : Adler32) (x y : ℕ)
    → All IsByte bs
    → a.s1 ≡ x % a32_base
    → a.s2 ≡ y % a32_base
    → ((adler32_write_impl a bs).s1 ≡ (x + total bs) % a32_base)
      × ((adler32_write_impl a bs).s2 ≡ (y + length bs * x + weighted bs) % a32_base)
unfolding adler32_write_impl adler32_round
write_sums [] a x y small e₁ e₂ = (omega arith, omega arith)
write_sums (b ∷ bs) a x y small e₁ e₂ =
    let next : Adler32 = adler32_round a b in
    let byte : b < 256 = small.0 in
    let f₁ : next.s1 ≡ (x + b) % a32_base = omega arith in
    let f₂ : next.s2 ≡ (y + (x + b)) % a32_base = omega arith in
    let rest = write_sums bs next (x + b) (y + (x + b)) small.1 f₁ f₂ in
    (
      rest.0 ∙ omega arith,
      rest.1
          ∙ ap (λ k. k % a32_base) (omega (arith, suc-mul (length bs) x, mul-add (length bs) x b)),
    )

-- On any list of bytes `adler32` is the sum of the bytes and 1, and above it the number of the
-- bytes plus each byte times the number of bytes from it on, both taken modulo 65521 once at the
-- end.
pub adler32-sums :
    (bs : List ℕ)
    → All IsByte bs
    → adler32 bs ≡ (length bs + weighted bs) % a32_base * 65536 + (1 + total bs) % a32_base
unfolding adler32 adler32_get adler32_init
adler32-sums bs small =
    let sums = write_sums bs adler32_init 1 0 small refl refl in
    let a = adler32_write_impl adler32_init bs in
    let low : a.s1 ≡ (1 + total bs) % a32_base = sums.0 in
    let high : a.s2 ≡ (length bs + weighted bs) % a32_base = sums.1 ∙ omega arith in
    let fits : a.s2 * 65536 % 2 ^ 32 ≡ a.s2 * 65536 = omega arith in
    let both : bit_or (a.s2 * 65536) a.s1 ≡ a.s2 * 65536 + a.s1 =
      bit_or_low 16 a.s2 (a.s2 * 65536) a.s1 (omega arith) (omega arith) in
    ap (λ k. bit_or k a.s1) fits ∙ both ∙ omega arith
