-- ===== src/Text/Utf8/Bytes.antt =====
-- The bytes that sources/libs/brutal-text/utf8.c makes and reads, as numbers.
use brutal.Base.{
  ℕ, ◌+◌, ◌-◌, ◌*◌, ◌/◌, ◌%◌, ◌≤◌, ◌<◌, ◌<<<◌, ◌>>>◌, Bool, true, not, ◌&&◌, ◌||◌, some, List, ◌∷◌,
  ltb, ◌==◌, ==_iff, bit_and, bit_or, ◌≡◌, refl, ap, ◌∙◌, arith, same, same→eq, all_below,
  all_below-lt, bit_and_7, bit_and_15, bit_and_31, bit_and_63, bit_or_low,
}
use brutal.Text.Utf8.{byte, following, decode}

table_of_following : all_below 64 (λ a. bit_or a 0x80 == a + 0x80) ≡ true
unfolding all_below
table_of_following = refl

pub following_value : (r k : ℕ) → following r k ≡ (r >>> k) % 64 + 128
following_value r k =
    let low : bit_and (r >>> k) 0x3F ≡ (r >>> k) % 64 = bit_and_63 (r >>> k) in
    let marked = (==_iff _ _).0 (
      all_below-lt 64 (λ a. bit_or a 0x80 == a + 0x80) ((r >>> k) % 64) table_of_following
        (omega arith)) in
    ap (λ a. byte (bit_or a 0x80)) low ∙ ap byte marked ∙ omega arith

abbrev lead_table : ℕ → ℕ → ℕ → Bool
lead_table mask lead b = same (bit_and b mask == lead) (b / (256 - mask) == lead / (256 - mask))

table_of_leads :
    all_below 256 (λ b. lead_table 0xF8 0xF0 b && lead_table 0xF0 0xE0 b && lead_table 0xE0 0xC0 b)
    ≡ true
unfolding all_below
table_of_leads = refl

-- The tests of the decoder on a first byte.
pub lead_values :
    (b : ℕ)
    → b < 256
    → ((bit_and b 0xF8 == 0xF0) ≡ (b / 8 == 30))
      × ((bit_and b 0xF0 == 0xE0) ≡ (b / 16 == 14))
      × ((bit_and b 0xE0 == 0xC0) ≡ (b / 32 == 6))
lead_values b lt =
    let t =
      all_below-lt 256
        (λ b. lead_table 0xF8 0xF0 b && lead_table 0xF0 0xE0 b && lead_table 0xE0 0xC0 b) b
        table_of_leads lt in
    (
      same→eq (bit_and b 0xF8 == 0xF0) (b / 8 == 30) (ground arith),
      same→eq (bit_and b 0xF0 == 0xE0) (b / 16 == 14) (ground arith),
      same→eq (bit_and b 0xE0 == 0xC0) (b / 32 == 6) (ground arith),
    )

table_of_masks :
    all_below 256 (λ b.
      (bit_and 0x07 b == b % 8)
      && (bit_and 0x0F b == b % 16)
      && (bit_and 0x1F b == b % 32)
      && (bit_and 0x3F b == b % 64))
    ≡ true
unfolding all_below
table_of_masks = refl

mask_values :
    (b : ℕ)
    → b < 256
    → (bit_and 0x07 b ≡ b % 8)
      × (bit_and 0x0F b ≡ b % 16)
      × (bit_and 0x1F b ≡ b % 32)
      × (bit_and 0x3F b ≡ b % 64)
mask_values b lt =
    let t =
      all_below-lt 256
        (λ b.
          (bit_and 0x07 b == b % 8)
          && (bit_and 0x0F b == b % 16)
          && (bit_and 0x1F b == b % 32)
          && (bit_and 0x3F b == b % 64))
        b table_of_masks lt in
    (
      (==_iff _ _).0 (ground arith),
      (==_iff _ _).0 (ground arith),
      (==_iff _ _).0 (ground arith),
      (==_iff _ _).0 (ground arith),
    )

pub decode_two :
    (b₀ b₁ : ℕ) (rest : List ℕ)
    → b₀ / 32 ≡ 6
    → b₁ < 256
    → decode (b₀ ∷ b₁ ∷ rest) ≡ some (b₀ % 32 * 64 + b₁ % 64)
unfolding decode
decode_two b₀ b₁ rest lead lt =
    let m₀ = mask_values b₀ (omega arith) in
    let m₁ = mask_values b₁ lt in
    let tests = lead_values b₀ (omega arith) in
    let joined = bit_or_low 6 (b₀ % 32) (b₀ % 32 * 64) (b₁ % 64) (omega arith) (omega arith) in
    ground (
      arith,
      tests,
      ap (λ x. bit_or (x <<< 6) (bit_and 0x3F b₁)) m₀.2,
      ap (λ x. bit_or (b₀ % 32 * 64) x) m₁.3,
      joined,
    )

pub decode_three :
    (b₀ b₁ b₂ : ℕ) (rest : List ℕ)
    → b₀ / 16 ≡ 14
    → b₁ < 256
    → b₂ < 256
    → decode (b₀ ∷ b₁ ∷ b₂ ∷ rest) ≡ some (b₀ % 16 * 4096 + b₁ % 64 * 64 + b₂ % 64)
unfolding decode
decode_three b₀ b₁ b₂ rest lead lt₁ lt₂ =
    let m₀ = mask_values b₀ (omega arith) in
    let m₁ = mask_values b₁ lt₁ in
    let m₂ = mask_values b₂ lt₂ in
    let tests = lead_values b₀ (omega arith) in
    let x = b₀ % 16 * 4096 in
    let y = b₁ % 64 * 64 in
    let masked : bit_or (bit_or ((bit_and 0x0F b₀) <<< 12) ((bit_and 0x3F b₁) <<< 6))
          (bit_and 0x3F b₂)
        ≡ bit_or (bit_or x y) (b₂ % 64) =
      rw (m₀.1, m₁.3, m₂.3) refl in
    let high : bit_or x y ≡ x + y = bit_or_low 12 (b₀ % 16) x y (omega arith) (omega arith) in
    let joined : bit_or (x + y) (b₂ % 64) ≡ x + y + b₂ % 64 =
      bit_or_low 6 (b₀ % 16 * 64 + b₁ % 64) (x + y) (b₂ % 64) (omega arith) (omega arith) in
    let value = masked ∙ ap (λ z. bit_or z (b₂ % 64)) high ∙ joined in ground (arith, tests, value)

pub decode_four :
    (b₀ b₁ b₂ b₃ : ℕ) (rest : List ℕ)
    → b₀ / 8 ≡ 30
    → b₁ < 256
    → b₂ < 256
    → b₃ < 256
    → decode (b₀ ∷ b₁ ∷ b₂ ∷ b₃ ∷ rest)
      ≡ some (b₀ % 8 * 262144 + b₁ % 64 * 4096 + b₂ % 64 * 64 + b₃ % 64)
unfolding decode
decode_four b₀ b₁ b₂ b₃ rest lead lt₁ lt₂ lt₃ =
    let m₀ = mask_values b₀ (omega arith) in
    let m₁ = mask_values b₁ lt₁ in
    let m₂ = mask_values b₂ lt₂ in
    let m₃ = mask_values b₃ lt₃ in
    let tests = lead_values b₀ (omega arith) in
    let x = b₀ % 8 * 262144 in
    let y = b₁ % 64 * 4096 in
    let z = b₂ % 64 * 64 in
    let masked : bit_or
          (bit_or (bit_or ((bit_and 0x07 b₀) <<< 18) ((bit_and 0x3F b₁) <<< 12))
            ((bit_and 0x3F b₂) <<< 6))
          (bit_and 0x3F b₃)
        ≡ bit_or (bit_or (bit_or x y) z) (b₃ % 64) =
      rw (m₀.0, m₁.3, m₂.3, m₃.3) refl in
    let top : bit_or x y ≡ x + y = bit_or_low 18 (b₀ % 8) x y (omega arith) (omega arith) in
    let high : bit_or (x + y) z ≡ x + y + z =
      bit_or_low 12 (b₀ % 8 * 64 + b₁ % 64) (x + y) z (omega arith) (omega arith) in
    let joined : bit_or (x + y + z) (b₃ % 64) ≡ x + y + z + b₃ % 64 =
      bit_or_low 6 (b₀ % 8 * 4096 + b₁ % 64 * 64 + b₂ % 64) (x + y + z) (b₃ % 64) (omega arith)
        (omega arith) in
    let value =
      masked
      ∙ ap (λ k. bit_or (bit_or k z) (b₃ % 64)) top
      ∙ ap (λ k. bit_or k (b₃ % 64)) high
      ∙ joined in
    ground (arith, tests, value)

table_of_heads :
    all_below 32 (λ a.
      (bit_or a 0xC0 == a + 0xC0)
      && (not (ltb a 16) || (bit_or a 0xE0 == a + 0xE0))
      && (not (ltb a 8) || (bit_or a 0xF0 == a + 0xF0)))
    ≡ true
unfolding all_below
table_of_heads = refl

head_values :
    (a : ℕ)
    → a < 32
    → (bit_or a 0xC0 ≡ a + 0xC0)
      × (not (ltb a 16) || (bit_or a 0xE0 == a + 0xE0) ≡ true)
      × (not (ltb a 8) || (bit_or a 0xF0 == a + 0xF0) ≡ true)
head_values a lt =
    let t =
      all_below-lt 32
        (λ a.
          (bit_or a 0xC0 == a + 0xC0)
          && (not (ltb a 16) || (bit_or a 0xE0 == a + 0xE0))
          && (not (ltb a 8) || (bit_or a 0xF0 == a + 0xF0)))
        a table_of_heads lt in
    ((==_iff _ _).0 (ground arith), ground arith, ground arith)

pub head_two : (r : ℕ) → r < 0x800 → byte (bit_or (bit_and (r >>> 6) 0x1F) 0xC0) ≡ r / 64 + 192
head_two r h =
    let low : bit_and (r >>> 6) 0x1F ≡ r / 64 = bit_and_31 (r >>> 6) ∙ omega arith in
    ap (λ a. byte (bit_or a 0xC0)) low
    ∙ ap byte (head_values (r / 64) (omega arith)).0
    ∙ omega arith

pub head_three :
    (r : ℕ) → r < 0x10000 → byte (bit_or (bit_and (r >>> 12) 0x0F) 0xE0) ≡ r / 4096 + 224
head_three r h =
    let low : bit_and (r >>> 12) 0x0F ≡ r / 4096 = bit_and_15 (r >>> 12) ∙ omega arith in
    let marked : bit_or (r / 4096) 0xE0 ≡ r / 4096 + 224 =
      ground (arith, head_values (r / 4096) (omega arith)) in
    ap (λ a. byte (bit_or a 0xE0)) low ∙ ap byte marked ∙ omega arith

pub head_four :
    (r : ℕ) → r ≤ 0x10FFFF → byte (bit_or (bit_and (r >>> 18) 0x07) 0xF0) ≡ r / 262144 + 240
head_four r h =
    let low : bit_and (r >>> 18) 0x07 ≡ r / 262144 = bit_and_7 (r >>> 18) ∙ omega arith in
    let marked : bit_or (r / 262144) 0xF0 ≡ r / 262144 + 240 =
      ground (arith, head_values (r / 262144) (omega arith)) in
    ap (λ a. byte (bit_or a 0xF0)) low ∙ ap byte marked ∙ omega arith
