-- ===== src/Text/Tests.antt =====
-- The theorems on sources/libs/brutal-text at concrete inputs.
use brutal.Base.{ℕ, none, List, [], ◌∷◌, ◌++◌, length, some, ◌≡◌, refl, arith}
use brutal.Text.Str.{str_first, str_last, str_count}
use brutal.Text.Str.Find.{IsFirst, str_first-IsFirst, str_last_misses}
use brutal.Text.Utf8.{utf8_from_rune, utf8_rune_len, uft8_next_rune}
use brutal.Text.Utf8.Round.{next_rune-from_rune}

-- The euro sign before a letter.
next_rune_example :
    (uft8_next_rune (utf8_from_rune 0x20AC ++ 97 ∷ []) ≡ some (some (0x20AC, 97 ∷ [])))
    × (length (utf8_from_rune 0x20AC) ≡ utf8_rune_len 0x20AC)
next_rune_example = next_rune-from_rune 0x20AC (97 ∷ []) (omega arith)

abbrev banana : List ℕ
banana = b'b' ∷ b'a' ∷ b'n' ∷ b'a' ∷ b'n' ∷ b'a' ∷ []

abbrev ana : List ℕ
ana = b'a' ∷ b'n' ∷ b'a' ∷ []

str_first-IsFirst_example : IsFirst banana ana (str_first banana ana)
str_first-IsFirst_example = str_first-IsFirst banana ana (omega arith)

str_last_misses_example :
    (str_first ana ana ≡ some 0)
    × (str_last ana ana ≡ none)
    × (str_count ana ana ≡ 0)
    × ((c : ℕ) → str_last ana (c ∷ ana) ≡ some 0)
str_last_misses_example = str_last_misses ana

-- The second occurrence, at 3, is the last position.
banana_last : (str_first banana ana ≡ some 1) × (str_last banana ana ≡ some 1)
unfolding str_first str_last brutal.Text.Str.first_loop brutal.Text.Str.last_loop
    brutal.Text.Str.slice_eq brutal.Text.Str.as_int brutal.Text.Str.str_eq brutal.Text.Str.eq_loop
banana_last = (refl, refl)
