-- ===== src/Codec/Huff.antt =====
-- sources/libs/codec-deflate/huff.h: a code as the number of its words of each length and the
-- symbols in the order of their words.
use brutal.Base.{
  ℕ, zero, suc, ◌+◌, ◌-◌, ◌*◌, ◌&&◌, ◌||◌, Option, none, some, List, [], ◌∷◌, length, get_elem?,
  set, replicate, ltb, leb, ◌==◌, if◌then◌else◌, not,
}
use brutal.Io.Res.{
  Res, ok, err, fault, ◌>>=◌, ◌>>◌, assert, must, not_enough_table_space, invalid_code,
}
use brutal.Io.RBits.{IoRBits, io_rbits_ensure_bits, io_rbits_pop_bits}

-- `max_sym` is `none` where the source has -1.
pub record HuffTree : Type 0 where
  pub counts : List ℕ
  pub symbols : List ℕ
  pub max_sym : Option ℕ

-- `array[i] = f(array[i])`
abbrev pub update_at : List ℕ → ℕ → (ℕ → ℕ) → Res (List ℕ)
update_at xs i f = must (get_elem? xs i) >>= λ v. ok (set xs i (f v))

-- the first loop over the lengths, from symbol `i` on
unfoldable pub count_loop : List ℕ → ℕ → List ℕ → Option ℕ → Res (List ℕ × Option ℕ)
count_loop [] i counts max_sym = ok (counts, max_sym)
count_loop (l ∷ ls) i counts max_sym = do
  assert (ltb l 16)
  counts' ← if l == 0 then ok counts else update_at counts l (λ c. c + 1)
  count_loop ls (suc i) counts' (if l == 0 then max_sym else some i)

-- the offset table, over the counts that are left: the offsets, what is still available, and the
-- number of codes
unfoldable pub offset_loop : List ℕ → ℕ → ℕ → Res (List ℕ × ℕ × ℕ)
offset_loop [] available num_codes = ok ([], available, num_codes)
offset_loop (used ∷ counts) available num_codes =
    let rest = offset_loop counts (2 * (available - used)) (num_codes + used) in
    if ltb available used
    then err not_enough_table_space
    else (rest >>= λ r. ok (num_codes ∷ r.0, r.1, r.2))

-- the last loop over the lengths: the symbols sorted by code
unfoldable pub fill_loop : List ℕ → ℕ → List ℕ → List ℕ → Res (List ℕ)
fill_loop [] i offs symbols = ok symbols
fill_loop (l ∷ ls) i offs symbols =
    let rest = (do
      at ← must (get_elem? offs l)
      symbols' ← update_at symbols at (λ _. i)
      fill_loop ls (suc i) (set offs l (at + 1)) symbols') in
    let skip = fill_loop ls (suc i) offs symbols in if l == 0 then skip else rest

unfoldable pub single_code : HuffTree → ℕ → Res HuffTree
single_code t num_codes =
    if num_codes == 1
    then (do
      top ← must t.max_sym
      counts ← update_at t.counts 1 (λ _. 2)
      symbols ← update_at t.symbols 1 (λ _. top + 1)
      ok (record t { counts = counts; symbols = symbols }))
    else ok t

unfoldable pub build_huff_tree : HuffTree → List ℕ → Res HuffTree
build_huff_tree t lengths = do
  assert (leb (length lengths) 288)
  (counts, max_sym) ← count_loop lengths 0 (replicate 16 0) none
  (offs, available, num_codes) ← offset_loop counts 1 0
  ones ← must (get_elem? counts 1)
  let bad = (ltb 1 num_codes && ltb 0 available) || ((num_codes == 1) && not (ones == 1))
  let built =
      (fill_loop lengths 0 offs t.symbols >>= λ symbols.
      single_code (record { counts = counts; symbols = symbols; max_sym = max_sym }) num_codes)
  if bad then err invalid_code else built

-- The loop of `huff_decoder_next`; a code has at most 15 bits, so 16 rounds are enough.
unfoldable pub decode_loop : ℕ → HuffTree → ℕ → ℕ → ℕ → IoRBits → Res (ℕ × IoRBits)
decode_loop zero tree len base offs r = fault
decode_loop (suc fuel) tree len base offs r = do
  r₁ ← io_rbits_ensure_bits 1 r
  (bit, r₂) ← io_rbits_pop_bits 1 r₁
  assert (leb len 15)
  count ← must (get_elem? tree.counts len)
  let offs' = 2 * offs + bit
  let rest = decode_loop fuel tree (suc len) (base + count) (offs' - count) r₂
  if ltb offs' count then ok (base + offs', r₂) else rest

unfoldable pub huff_decoder_next : HuffTree → IoRBits → Res (ℕ × IoRBits)
huff_decoder_next tree r = do
  (at, r') ← decode_loop 16 tree 1 0 0 r
  assert (ltb at 288)
  symbol ← must (get_elem? tree.symbols at)
  ok (symbol, r')
