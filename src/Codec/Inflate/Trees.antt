-- ===== src/Codec/Inflate/Trees.antt =====
-- The codes of a block, in sources/libs/codec-deflate/inflate.c: the fixed ones, and those that
-- the block itself gives.
use brutal.Base.{
  ℕ, zero, suc, ◌+◌, ◌-◌, ◌||◌, none, some, List, [], ◌∷◌, ◌++◌, get_elem?, take, drop, replicate,
  ltb, ◌==◌, if◌then◌else◌,
}
use brutal.Io.Res.{Res, ok, err, fault, ◌>>=◌, must, too_many_symbols, bad_data, invalid_code}
use brutal.Io.RBits.{IoRBits, io_rbits_ensure_bits, io_rbits_pop_bits}
use brutal.Codec.Huff.{HuffTree, update_at, build_huff_tree, huff_decoder_next}

-- Making sure of some bits and popping them
unfoldable pub next_bits : ℕ → IoRBits → Res (ℕ × IoRBits)
next_bits n r = io_rbits_ensure_bits n r >>= io_rbits_pop_bits n

-- `n` numbers from `start` on
unfoldable pub count_up : ℕ → ℕ → List ℕ
count_up zero start = []
count_up (suc n) start = start ∷ count_up n (suc start)

-- The symbols past the 32 of the distances, and the 288 of the lengths, stay as they were.
unfoldable pub build_static_huff_trees : HuffTree → HuffTree → HuffTree × HuffTree
build_static_huff_trees lt dt = (
  record {
    counts = replicate 7 0 ++ (24 ∷ 152 ∷ 112 ∷ []) ++ replicate 6 0;
    symbols =
        count_up 24 256
        ++ count_up 144 0
        ++ count_up 8 280
        ++ count_up 112 144
        ++ drop 288 lt.symbols;
    max_sym = some 285;
  },
  record {
    counts = replicate 5 0 ++ (32 ∷ []) ++ replicate 10 0;
    symbols = count_up 32 0 ++ drop 32 dt.symbols;
    max_sym = some 29;
  },
)

abbrev pub order : List ℕ
order = 16 ∷ 17 ∷ 18 ∷ 0 ∷ 8 ∷ 7 ∷ 9 ∷ 6 ∷ 10 ∷ 5 ∷ 11 ∷ 4 ∷ 12 ∷ 3 ∷ 13 ∷ 2 ∷ 14 ∷ 1 ∷ 15 ∷ []

-- the loop over the lengths of the codes of lengths
unfoldable pub precode_loop : List ℕ → List ℕ → IoRBits → Res (List ℕ × IoRBits)
precode_loop [] lengths r = ok (lengths, r)
precode_loop (at ∷ ats) lengths r = do
  (len, r') ← next_bits 3 r
  lengths' ← update_at lengths at (λ _. len)
  precode_loop ats lengths' r'

-- What one symbol stands for: the length, and how often it is repeated. The element before the
-- first is outside the array.
unfoldable pub repeat_of : ℕ → ℕ → List ℕ → IoRBits → Res (ℕ × ℕ × IoRBits)
repeat_of symbol num lengths r =
    if symbol == 16
    then (do
      (more, r') ← next_bits 2 r
      last ← must (if num == 0 then none else get_elem? lengths (num - 1))
      ok (last, more + 3, r'))
    else if symbol == 17
    then (next_bits 3 r >>= λ b. ok (0, b.0 + 3, b.1))
    else if symbol == 18
    then (next_bits 7 r >>= λ b. ok (0, b.0 + 11, b.1))
    else ok (symbol, 1, r)

unfoldable pub repeat_loop : ℕ → ℕ → ℕ → List ℕ → Res (List ℕ)
repeat_loop zero symbol num lengths = ok lengths
repeat_loop (suc n) symbol num lengths = do
  lengths' ← update_at lengths num (λ _. symbol)
  repeat_loop n symbol (suc num) lengths'

-- the loop over the lengths of both codes, `all` of them; every round gives one at least
unfoldable pub lengths_loop : ℕ → HuffTree → ℕ → ℕ → List ℕ → IoRBits → Res (List ℕ × IoRBits)
lengths_loop zero tree all num lengths r = if ltb num all then fault else ok (lengths, r)
lengths_loop (suc fuel) tree all num lengths r =
    let more = (do
      (next, r₁) ← huff_decoder_next tree r
      (symbol, count, r₂) ← repeat_of next num lengths r₁
      let filled =
          (repeat_loop count symbol num lengths >>= λ lengths'.
          lengths_loop fuel tree all (num + count) lengths' r₂)
      if ltb (all - num) count then err bad_data else filled) in
    if ltb num all then more else ok (lengths, r)

unfoldable pub build_dynamic_huff_trees :
    List ℕ → HuffTree → HuffTree → IoRBits → Res (HuffTree × HuffTree × IoRBits)
build_dynamic_huff_trees junk lt dt r = do
  r₀ ← io_rbits_ensure_bits 14 r
  (hlit', r₁) ← io_rbits_pop_bits 5 r₀
  (hdist', r₂) ← io_rbits_pop_bits 5 r₁
  (hclen', r₃) ← io_rbits_pop_bits 4 r₂
  let hlit = hlit' + 257
  let hdist = hdist' + 1
  let hclen = hclen' + 4
  let build = (do
    (precode, r₄) ← precode_loop (take hclen order) (replicate 19 0 ++ drop 19 junk) r₃
    code ← build_huff_tree lt (take 19 precode)
    (lengths, r₅) ← lengths_loop (hlit + hdist) code (hdist + hlit) 0 precode r₄
    end_of_block ← must (get_elem? lengths 256)
    let trees = (do
      lt' ← build_huff_tree code (take hlit lengths)
      dt' ← build_huff_tree dt (take hdist (drop hlit lengths))
      ok (lt', dt', r₅))
    if end_of_block == 0 then err invalid_code else trees)
  if ltb 286 hlit || ltb 30 hdist then err too_many_symbols else build
