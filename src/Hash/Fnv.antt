-- ===== src/Hash/Fnv.antt =====
-- sources/libs/brutal-hash/fnv.c: the four variants, on the list of the bytes.
use brutal.Base.{ℕ, ◌*◌, ◌%◌, ◌^◌, List, [], ◌∷◌, bit_xor, mul64}

abbrev pub fnv1_32_init : ℕ
fnv1_32_init = 0x811c9dc5

abbrev pub fnv_32_prime : ℕ
fnv_32_prime = 0x01000193

abbrev pub fnv1_64_init : ℕ
fnv1_64_init = 0xcbf29ce484222325

abbrev pub fnv_64_prime : ℕ
fnv_64_prime = 0x100000001b3

unfoldable pub fnv_32 : List ℕ → ℕ → ℕ
fnv_32 [] hval = hval
fnv_32 (b ∷ bs) hval = fnv_32 bs (bit_xor ((hval * fnv_32_prime) % 2 ^ 32) b)

unfoldable pub fnv_32a : List ℕ → ℕ → ℕ
fnv_32a [] hval = hval
fnv_32a (b ∷ bs) hval = fnv_32a bs ((bit_xor hval b * fnv_32_prime) % 2 ^ 32)

unfoldable pub fnv_64 : List ℕ → ℕ → ℕ
fnv_64 [] hval = hval
fnv_64 (b ∷ bs) hval = fnv_64 bs (bit_xor (mul64 hval fnv_64_prime) b)

unfoldable pub fnv_64a : List ℕ → ℕ → ℕ
fnv_64a [] hval = hval
fnv_64a (b ∷ bs) hval = fnv_64a bs (mul64 (bit_xor hval b) fnv_64_prime)
