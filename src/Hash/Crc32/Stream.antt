-- ===== src/Hash/Crc32/Stream.antt =====
-- Writing data in pieces through sources/libs/brutal-hash/crc32.c.
use brutal.Base.{
  ℕ, ◌+◌, ◌/◌, ◌%◌, ◌<◌, Option, some, List, [], ◌∷◌, ◌++◌, length, length-append, get_elem?-lt,
  ◌>>=◌, ◌≡◌, refl, ◌∙◌, arith, bit_and, bit_and_15, bit_xor, word, add64,
}
use brutal.Hash.Crc32.{
  Crc32, crc32tab, crc32_init, crc32_nibble, crc32_impl, crc32_write_impl, crc32_get, crc32,
}

-- The pieces are written one after the other.
abbrev pub write_all : Crc32 → List (List ℕ) → Option Crc32
write_all c [] = some c
write_all c (bs ∷ rest) = crc32_write_impl c bs >>= λ d. write_all d rest

abbrev pub joined : List (List ℕ) → List ℕ
joined [] = []
joined (bs ∷ rest) = bs ++ joined rest

crc32_nibble_total : (crc : ℕ) → (next : ℕ) × (crc32_nibble crc ≡ some next)
unfolding crc32_nibble
crc32_nibble_total crc =
    let (t, here) = get_elem?-lt crc32tab (bit_and crc 0x0F) (omega (arith, bit_and_15 crc)) in
    (bit_xor t (crc / 16), ground (arith, here))

crc32_impl_total : (bs : List ℕ) (crc : ℕ) → (out : ℕ) × (crc32_impl crc bs ≡ some out)
unfolding crc32_impl
crc32_impl_total [] crc = (crc, refl)
crc32_impl_total (b ∷ bs) crc =
    let (low, e) = crc32_nibble_total (bit_xor crc b) in
    let (high, f) = crc32_nibble_total low in
    let (out, g) = crc32_impl_total bs high in (out, ground (arith, e, f, g))

crc32_impl-append :
    (bs cs : List ℕ) (crc : ℕ)
    → crc32_impl crc (bs ++ cs) ≡ (crc32_impl crc bs >>= λ d. crc32_impl d cs)
unfolding crc32_impl
crc32_impl-append [] cs crc = refl
crc32_impl-append (b ∷ bs) cs crc =
    let (low, e) = crc32_nibble_total (bit_xor crc b) in
    let (high, f) = crc32_nibble_total low in ground (arith, e, f, crc32_impl-append bs cs high)

write_all-joined :
    (bss : List (List ℕ)) (c : Crc32)
    → c.count < word
    → (d : Crc32) × (write_all c bss ≡ some d)
      × (crc32_impl c.crc (joined bss) ≡ some d.crc)
      × (d.count ≡ (c.count + length (joined bss)) % word)
unfolding crc32_write_impl crc32_impl
write_all-joined [] c small = (c, refl, refl, omega arith)
write_all-joined (bs ∷ rest) c small =
    let (out, e) = crc32_impl_total bs c.crc in
    let next : Crc32 = record { crc = out; count = add64 c.count (length bs) } in
    let (d, ran, crc, count) = write_all-joined rest next (omega arith) in
    (
      d,
      ground (arith, e, ran),
      crc32_impl-append bs (joined rest) c.crc ∙ ground (arith, e, crc),
      omega (arith, count, length-append bs (joined rest)),
    )

-- x
pub crc32-joined :
    (bss : List (List ℕ))
    → (d : Crc32) × (write_all crc32_init bss ≡ some d)
      × (crc32 (joined bss) ≡ some (crc32_get d))
      × (d.count ≡ length (joined bss) % word)
unfolding crc32 crc32_get crc32_init
crc32-joined bss =
    let (d, ran, crc, count) = write_all-joined bss crc32_init (omega arith) in
    (d, ran, ground (arith, crc), omega (arith, count))
