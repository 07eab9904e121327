-- ===== src/Codec/Stored.antt =====
-- Uncompressed blocks, as RFC 1951 lays them out: what sources/libs/codec-deflate writes at level 0.
pub mod Write
pub mod Read
pub mod Blocks
pub mod RoundTrip
use brutal.Base.{
  ℕ, zero, suc, ◌+◌, ◌-◌, ◌<◌, Bool, List, [], ◌∷◌, ◌++◌, length, take, drop, ltb, if◌then◌else◌,
}
use brutal.Codec.Deflate.{to_nat, uint16_bytes}

-- the mark of the last block, the length, its complement, and the bytes
abbrev pub block : Bool → List ℕ → List ℕ
block is_last bytes =
    to_nat is_last ∷ []
    ++ uint16_bytes (length bytes)
    ++ uint16_bytes (65535 - length bytes)
    ++ bytes

-- blocks of 65535 bytes, and a shorter one at the end
unfoldable pub stored : ℕ → List ℕ → List ℕ
stored zero bytes = []
stored (suc fuel) bytes =
    let chunk = take 65535 bytes in
    let rest = stored fuel (drop 65535 bytes) in
    block (ltb (length chunk) 65535) chunk ++ (if ltb (length chunk) 65535 then [] else rest)
