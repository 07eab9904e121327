-- ===== src/Text/Utf8/Round.antt =====
-- Encoding and decoding of runes in sources/libs/brutal-text/utf8.c are inverse.
use brutal.Base.{
  ℕ, ◌+◌, ◌/◌, ◌%◌, ◌≤◌, ◌<◌, Bool-cases, some, List, [], ◌∷◌, ◌++◌, length, ltb, ◌≡◌, ap, ◌∙◌, inl,
  inr, arith,
}
use brutal.Text.Utf8.{
  utf8_from_rune, utf8_rune_len, utf8_byte_len, utf8_valid, decode, utf8_to_rune, uft8_next_rune,
}
use brutal.Text.Utf8.Bytes.{
  following_value, lead_values, decode_two, decode_three, decode_four, head_two, head_three,
  head_four,
}

-- What the encoding of a rune is followed by is what the decoder leaves.
abbrev RoundTrips : ℕ → Type 0
RoundTrips r =
    (rest : List ℕ)
    → (uft8_next_rune (utf8_from_rune r ++ rest) ≡ some (some (r, rest)))
      × (length (utf8_from_rune r) ≡ utf8_rune_len r)

one_byte : (r : ℕ) → r < 0x80 → RoundTrips r
unfolding utf8_from_rune utf8_rune_len uft8_next_rune utf8_to_rune utf8_valid utf8_byte_len decode
one_byte r h rest = (ground (arith, lead_values r (omega arith)), ground arith)

two_bytes : (r : ℕ) → 0x80 ≤ r → r < 0x800 → RoundTrips r
two_bytes r low high rest =
    let bytes : utf8_from_rune r ≡ (r / 64 + 192) ∷ (r % 64 + 128) ∷ [] =
      unfold utf8_from_rune in ground (arith, head_two r high, following_value r 0) in
    let value : decode ((r / 64 + 192) ∷ (r % 64 + 128) ∷ rest) ≡ some r =
      decode_two (r / 64 + 192) (r % 64 + 128) rest (omega arith) (omega arith)
      ∙ ap some (omega arith) in
    (
      rw bytes (
          unfold uft8_next_rune utf8_to_rune utf8_valid utf8_byte_len in
          ground (arith, lead_values (r / 64 + 192) (omega arith), value)),
      rw bytes (unfold utf8_rune_len in ground arith),
    )

three_bytes : (r : ℕ) → 0x800 ≤ r → r < 0x10000 → RoundTrips r
three_bytes r low high rest =
    let bytes : utf8_from_rune r ≡ (r / 4096 + 224) ∷ (r / 64 % 64 + 128) ∷ (r % 64 + 128) ∷ [] =
      unfold utf8_from_rune in
      ground (arith, head_three r high, following_value r 0, following_value r 6) in
    let value : decode ((r / 4096 + 224) ∷ (r / 64 % 64 + 128) ∷ (r % 64 + 128) ∷ rest) ≡ some r =
      decode_three (r / 4096 + 224) (r / 64 % 64 + 128) (r % 64 + 128) rest (omega arith)
        (omega arith) (omega arith)
      ∙ ap some (omega arith) in
    (
      rw bytes (
          unfold uft8_next_rune utf8_to_rune utf8_valid utf8_byte_len in
          ground (arith, lead_values (r / 4096 + 224) (omega arith), value)),
      rw bytes (unfold utf8_rune_len in ground arith),
    )

four_bytes : (r : ℕ) → 0x10000 ≤ r → r ≤ 0x10FFFF → RoundTrips r
four_bytes r low high rest =
    let bytes : utf8_from_rune r
        ≡ (r / 262144 + 240) ∷ (r / 4096 % 64 + 128) ∷ (r / 64 % 64 + 128) ∷ (r % 64 + 128) ∷ [] =
      unfold utf8_from_rune in
      ground
        (arith, head_four r high, following_value r 0, following_value r 6, following_value r 12) in
    let value : decode
          ((r / 262144 + 240) ∷ (r / 4096 % 64 + 128) ∷ (r / 64 % 64 + 128) ∷ (r % 64 + 128) ∷ rest)
        ≡ some r =
      decode_four (r / 262144 + 240) (r / 4096 % 64 + 128) (r / 64 % 64 + 128) (r % 64 + 128) rest
        (omega arith) (omega arith) (omega arith) (omega arith)
      ∙ ap some (omega arith) in
    (
      rw bytes (
          unfold uft8_next_rune utf8_to_rune utf8_valid utf8_byte_len in
          ground (arith, lead_values (r / 262144 + 240) (omega arith), value)),
      rw bytes (unfold utf8_rune_len in ground arith),
    )

-- For a rune up to 0x10FFFF, the next rune of its encoding followed by any bytes is that rune and
-- leaves exactly those bytes, and the encoding is as long as `utf8_rune_len` says.
pub next_rune-from_rune :
    (r : ℕ) (rest : List ℕ)
    → r ≤ 0x10FFFF
    → (uft8_next_rune (utf8_from_rune r ++ rest) ≡ some (some (r, rest)))
      × (length (utf8_from_rune r) ≡ utf8_rune_len r)
next_rune-from_rune r rest h = elim (Bool-cases (ltb r 0x80)) [
  | inl one ↦ one_byte r (ground arith) rest
  | inr more ↦ elim (Bool-cases (ltb r 0x800)) [
    | inl two ↦ two_bytes r (ground arith) (ground arith) rest
    | inr more₂ ↦ elim (Bool-cases (ltb r 0x10000)) [
      | inl three ↦ three_bytes r (ground arith) (ground arith) rest
      | inr four ↦ four_bytes r (ground arith) h rest
    ]
  ]
]
