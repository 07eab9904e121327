-- ===== src/Hash/Crc32.antt =====
-- sources/libs/brutal-hash/crc32.c: a running checksum. The data is the list of its bytes; the
-- writer below gets the same bytes, and what the reader below gave is an argument.
pub mod Stream
use brutal.Base.{
  ℕ, zero, suc, ◌+◌, ◌/◌, ◌%◌, ◌^◌, ◌>>>◌, Option, none, some, List, [], ◌∷◌, length, get_elem?,
  ◌>>=◌, ◌>>◌, bit_and, bit_xor, add64,
}

abbrev pub crc32tab : List ℕ
crc32tab =
    0x00000000 ∷ 0x1DB71064 ∷ 0x3B6E20C8 ∷ 0x26D930AC ∷ 0x76DC4190 ∷ 0x6B6B51F4 ∷ 0x4DB26158
    ∷ 0x5005713C ∷ 0xEDB88320 ∷ 0xF00F9344 ∷ 0xD6D6A3E8 ∷ 0xCB61B38C ∷ 0x9B64C2B0 ∷ 0x86D3D2D4
    ∷ 0xA00AE278 ∷ 0xBDBDF21C ∷ []

pub record Crc32 : Type 0 where
  pub crc : ℕ
  pub count : ℕ

-- `crc32_init_writer`, and `crc32_init_reader`, which differ in the stream below
unfoldable pub crc32_init : Crc32
crc32_init = record { crc = 0xFFFFFFFF; count = 0 }

-- `crc32tab[crc & 0x0F] ^ (crc >> 4)`
unfoldable pub crc32_nibble : ℕ → Option ℕ
crc32_nibble crc = get_elem? crc32tab (bit_and crc 0x0F) >>= λ t. some (bit_xor t (crc >>> 4))

unfoldable pub crc32_impl : ℕ → List ℕ → Option ℕ
crc32_impl crc [] = some crc
crc32_impl crc (b ∷ bs) = do
  low ← crc32_nibble (bit_xor crc b)
  high ← crc32_nibble low
  crc32_impl high bs

unfoldable pub crc32_write_impl : Crc32 → List ℕ → Option Crc32
crc32_write_impl c bs = do
  crc ← crc32_impl c.crc bs
  some (record { crc = crc; count = add64 c.count (length bs) })

-- A read that failed changes nothing.
unfoldable pub crc32_read_impl : Crc32 → Option (List ℕ) → Option (Option ℕ × Crc32)
crc32_read_impl c none = some (none, c)
crc32_read_impl c (some bs) = do
  crc ← crc32_impl c.crc bs
  some (some (length bs), record { crc = crc; count = add64 c.count (length bs) })

unfoldable pub crc32_get : Crc32 → ℕ
crc32_get c = bit_xor c.crc 0xFFFFFFFF

unfoldable pub crc32 : List ℕ → Option ℕ
crc32 bs = do crc ← crc32_impl 0xFFFFFFFF bs; some (bit_xor crc 0xFFFFFFFF)
