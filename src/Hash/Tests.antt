-- ===== src/Hash/Tests.antt =====
-- The theorems on sources/libs/brutal-hash at concrete inputs.
use brutal.Base.{[], ◌∷◌, ◌≡◌, arith}
use brutal.Hash.Adler32.{adler32}
use brutal.Hash.Adler32.Sums.{adler32-sums}

-- The bytes of `abc`.
adler32_example : adler32 (97 ∷ 98 ∷ 99 ∷ []) ≡ 0x024D0127
adler32_example = adler32-sums (97 ∷ 98 ∷ 99 ∷ []) (omega arith, (omega arith, (omega arith, tt)))
