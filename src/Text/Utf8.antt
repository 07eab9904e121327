-- ===== src/Text/Utf8.antt =====
-- sources/libs/brutal-text/utf8.c and the decoder of sources/libs/brutal-text/utf8.h. A string is the list of its
-- bytes; a rune has 32 bits, and so has each intermediate value.
pub mod Bytes
pub mod Round
use brutal.Base.{
  ℕ, zero, suc, ◌+◌, ◌*◌, ◌/◌, ◌%◌, ◌^◌, ◌<<<◌, ◌>>>◌, Bool, true, false, not, ◌&&◌, Option, none,
  some, List, [], ◌∷◌, ◌++◌, length, get_elem?, set, drop, ltb, leb, ◌==◌, if◌then◌else◌, ◌>>=◌,
  ◌>>◌, bit_and, bit_or,
}

-- The cast to `uint8_t`.
abbrev pub byte : ℕ → ℕ
byte x = x % 256

-- `(uint8_t)(((rune >> shift) & 0x3F) | 0x80)`
abbrev pub following : ℕ → ℕ → ℕ
following rune shift = byte (bit_or (bit_and (rune >>> shift) 0x3F) 0x80)

unfoldable pub utf8_from_rune : ℕ → List ℕ
utf8_from_rune rune =
    if leb rune 0x7F
    then byte rune ∷ []
    else (if leb rune 0x07FF
        then byte (bit_or (bit_and (rune >>> 6) 0x1F) 0xC0) ∷ following rune 0 ∷ []
        else (if leb rune 0xFFFF
            then byte (bit_or (bit_and (rune >>> 12) 0x0F) 0xE0)
              ∷ following rune 6
              ∷ following rune 0
              ∷ []
            else (if leb rune 0x10FFFF
                then byte (bit_or (bit_and (rune >>> 18) 0x07) 0xF0)
                  ∷ following rune 12
                  ∷ following rune 6
                  ∷ following rune 0
                  ∷ []
                else 0xEF ∷ 0xBF ∷ 0xBD ∷ [])))

unfoldable pub utf8_rune_len : ℕ → ℕ
utf8_rune_len rune =
    if leb rune 0x7F
    then 1
    else (if leb rune 0x07FF
        then 2
        else (if leb rune 0xFFFF then 3 else (if leb rune 0x10FFFF then 4 else 0)))

unfoldable pub utf8_byte_len : ℕ → ℕ
utf8_byte_len first =
    if bit_and first 0xF8 == 0xF0
    then 4
    else (if bit_and first 0xF0 == 0xE0 then 3 else (if bit_and first 0xE0 == 0xC0 then 2 else 1))

unfoldable pub utf8_valid : List ℕ → Bool
utf8_valid [] = false
utf8_valid (b ∷ bs) = leb (utf8_byte_len b) (length (b ∷ bs))

abbrev pub replacement : ℕ
replacement = 0xFFFD

-- The branches of `utf8_to_rune` on a valid string; a read past the end is `none`.
unfoldable pub decode : List ℕ → Option ℕ
decode s = do
  b₀ ← get_elem? s 0
  let four = (do
    b₁ ← get_elem? s 1
    b₂ ← get_elem? s 2
    b₃ ← get_elem? s 3
    some (
        bit_or
          (bit_or (bit_or ((bit_and 0x07 b₀) <<< 18) ((bit_and 0x3F b₁) <<< 12))
            ((bit_and 0x3F b₂) <<< 6))
          (bit_and 0x3F b₃)))
  let three = (do
    b₁ ← get_elem? s 1
    b₂ ← get_elem? s 2
    some (bit_or (bit_or ((bit_and 0x0F b₀) <<< 12) ((bit_and 0x3F b₁) <<< 6)) (bit_and 0x3F b₂)))
  let two = (do b₁ ← get_elem? s 1; some (bit_or ((bit_and 0x1F b₀) <<< 6) (bit_and 0x3F b₁)))
  if bit_and b₀ 0xF8 == 0xF0
      then four
      else (if bit_and b₀ 0xF0 == 0xE0
          then three
          else (if bit_and b₀ 0xE0 == 0xC0 then two else some b₀))

unfoldable pub utf8_to_rune : List ℕ → Option ℕ
utf8_to_rune s = if not (utf8_valid s) then some replacement else decode s

-- The rune and the rest of the string, or the null result when the string is not valid.
unfoldable pub uft8_next_rune : List ℕ → Option (Option (ℕ × List ℕ))
uft8_next_rune s =
    let taken = (do
      b ← get_elem? s 0
      rune ← utf8_to_rune s
      some (some (rune, drop (utf8_byte_len b) s))) in
    if not (utf8_valid s) then some none else taken
