-- ===== src/Codec/Inflate.antt =====
-- sources/libs/codec-deflate/inflate.c: decompression into a window of 32 KiB. What the calls of
-- `io_rbits_ensure_bits` return is not looked at in the source; where one fails, a byte that was
-- never written is used, which is a fault here.
pub mod Trees
use brutal.Base.{
  ℕ, zero, suc, ◌+◌, ◌-◌, ◌*◌, ◌%◌, ◌^◌, Bool, true, false, ◌||◌, Option, none, some, List, [], ◌∷◌,
  get_elem?, length, ltb, leb, ◌==◌, if◌then◌else◌,
}
use brutal.Io.Res.{Res, ok, err, fault, ◌>>=◌, ◌>>◌, assert, must, unknown_block, bad_data}
use brutal.Io.Mem.{IoMem, io_mem_init, io_mem_read}
use brutal.Io.Window.{
  IoWindow, io_window_init, io_window_write, io_window_peek_from_back, io_window_flush_all,
}
use brutal.Io.RBits.{
  IoRBits, io_rbits_init, io_rbits_ensure_bits, io_rbits_pop_bits, io_rbits_align,
}
use brutal.Io.Copy.{io_copy_n}
use brutal.Codec.Deflate.{
  deflate_blocktype_uncompressed, deflate_blocktype_static_huffman,
  deflate_blocktype_dynamic_huffman,
}
use brutal.Codec.Huff.{HuffTree, huff_decoder_next}
use brutal.Codec.Inflate.Trees.{next_bits, build_static_huff_trees, build_dynamic_huff_trees}

abbrev pub lens_base : List ℕ
lens_base =
    3 ∷ 4 ∷ 5 ∷ 6 ∷ 7 ∷ 8 ∷ 9 ∷ 10 ∷ 11 ∷ 13 ∷ 15 ∷ 17 ∷ 19 ∷ 23 ∷ 27 ∷ 31 ∷ 35 ∷ 43 ∷ 51 ∷ 59 ∷ 67
    ∷ 83 ∷ 99 ∷ 115 ∷ 131 ∷ 163 ∷ 195 ∷ 227 ∷ 258 ∷ 0 ∷ []

abbrev pub lens_bits : List ℕ
lens_bits =
    0 ∷ 0 ∷ 0 ∷ 0 ∷ 0 ∷ 0 ∷ 0 ∷ 0 ∷ 1 ∷ 1 ∷ 1 ∷ 1 ∷ 2 ∷ 2 ∷ 2 ∷ 2 ∷ 3 ∷ 3 ∷ 3 ∷ 3 ∷ 4 ∷ 4 ∷ 4 ∷ 4
    ∷ 5 ∷ 5 ∷ 5 ∷ 5 ∷ 0 ∷ 127 ∷ []

abbrev pub dist_base : List ℕ
dist_base =
    1 ∷ 2 ∷ 3 ∷ 4 ∷ 5 ∷ 7 ∷ 9 ∷ 13 ∷ 17 ∷ 25 ∷ 33 ∷ 49 ∷ 65 ∷ 97 ∷ 129 ∷ 193 ∷ 257 ∷ 385 ∷ 513 ∷ 769
    ∷ 1025 ∷ 1537 ∷ 2049 ∷ 3073 ∷ 4097 ∷ 6145 ∷ 8193 ∷ 12289 ∷ 16385 ∷ 24577 ∷ []

-- An array of 32 cells, of which the last two are not written out and so hold 0.
abbrev pub dist_bits : List ℕ
dist_bits =
    0 ∷ 0 ∷ 0 ∷ 0 ∷ 1 ∷ 1 ∷ 2 ∷ 2 ∷ 3 ∷ 3 ∷ 4 ∷ 4 ∷ 5 ∷ 5 ∷ 6 ∷ 6 ∷ 7 ∷ 7 ∷ 8 ∷ 8 ∷ 9 ∷ 9 ∷ 10 ∷ 10
    ∷ 11 ∷ 11 ∷ 12 ∷ 12 ∷ 13 ∷ 13 ∷ 0 ∷ 0 ∷ []

pub record DeflateDecompressor : Type 0 where
  pub length_tree : HuffTree
  pub dist_tree : HuffTree
  pub window : IoWindow
  pub bit_reader : IoRBits

-- A `uint16_t` that a read of two bytes has filled.
unfoldable pub read_uint16 : List ℕ → Res ℕ
read_uint16 (lo ∷ hi ∷ []) = ok (lo + hi * 256)
read_uint16 _ = fault

-- A copy of an earlier part of the stream, a byte at a time.
unfoldable pub copy_match : ℕ → ℕ → IoWindow → Res IoWindow
copy_match zero offset w = ok w
copy_match (suc length) offset w = do
  val ← must (io_window_peek_from_back w offset)
  copy_match length offset (io_window_write w (val ∷ [])).1

-- No distance code in the tree, or a length symbol that stands for none
abbrev pub bad_symbol : DeflateDecompressor → ℕ → Bool
bad_symbol ctx symbol = elim ctx.length_tree.max_sym [
  | none ↦ true
  | some top ↦
      ltb top symbol
      || ltb 28 (symbol - 257)
      || elim ctx.dist_tree.max_sym [ none ↦ true | some _ ↦ false ]
]

unfoldable pub read_match : DeflateDecompressor → ℕ → Res (ℕ × DeflateDecompressor)
read_match ctx symbol = do
  len_bits ← must (get_elem? lens_bits symbol)
  len_base ← must (get_elem? lens_base symbol)
  (len_more, r₁) ← next_bits len_bits ctx.bit_reader
  (dist, r₂) ← huff_decoder_next ctx.dist_tree r₁
  off_bits ← must (get_elem? dist_bits dist)
  (off_more, r₃) ← next_bits off_bits r₂
  off_base ← must (get_elem? dist_base dist)
  w ← copy_match (len_base + len_more) (off_base + off_more) ctx.window
  ok (len_base + len_more, record ctx { bit_reader = r₃; window = w })

-- The loop over the symbols of a compressed block, on fuel
unfoldable pub symbol_loop : ℕ → DeflateDecompressor → ℕ → Res (ℕ × DeflateDecompressor)
symbol_loop zero ctx size = fault
symbol_loop (suc fuel) ctx size = do
  (symbol, r) ← huff_decoder_next ctx.length_tree ctx.bit_reader
  let ctx' : DeflateDecompressor = record ctx { bit_reader = r }
  let literal =
      symbol_loop fuel (record ctx' { window = (io_window_write ctx'.window (symbol ∷ [])).1 })
        (size + 1)
  let matched = (read_match ctx' (symbol - 257) >>= λ m. symbol_loop fuel m.1 (size + m.0))
  if ltb symbol 256
      then literal
      else if symbol == 256
      then ok (size, ctx')
      else if bad_symbol ctx symbol
      then err bad_data
      else matched

unfoldable pub uncompressed_block : DeflateDecompressor → Res (ℕ × DeflateDecompressor)
uncompressed_block ctx = do
  r ← io_rbits_align ctx.bit_reader
  let (bytes₁, reader₁) = io_mem_read r.reader 2
  let (bytes₂, reader₂) = io_mem_read reader₁ 2
  len ← read_uint16 bytes₁
  nlen ← read_uint16 bytes₂
  assert (len == 2 ^ 16 - 1 - nlen)
  (size, reader₃, w) ← io_copy_n reader₂ ctx.window len
  ok (size, record ctx { bit_reader = record r { reader = reader₃ }; window = w })

-- `junk` is what the memory of a local array holds before it is written.
unfoldable pub compressed_block :
    ℕ → List ℕ → Bool → DeflateDecompressor → Res (ℕ × DeflateDecompressor)
compressed_block fuel junk dynamic ctx = do
  (lt, dt, r) ←
      if dynamic
      then build_dynamic_huff_trees junk ctx.length_tree ctx.dist_tree ctx.bit_reader
      else (ok (
        (build_static_huff_trees ctx.length_tree ctx.dist_tree).0,
        (build_static_huff_trees ctx.length_tree ctx.dist_tree).1,
        ctx.bit_reader,
      ))
  symbol_loop fuel (record ctx { length_tree = lt; dist_tree = dt; bit_reader = r }) 0

unfoldable pub deflate_decompress_block :
    ℕ → List ℕ → DeflateDecompressor → Res (Bool × ℕ × DeflateDecompressor)
deflate_decompress_block fuel junk ctx = do
  r₁ ← io_rbits_ensure_bits 3 ctx.bit_reader
  (final, r₂) ← io_rbits_pop_bits 1 r₁
  (block_type, r₃) ← io_rbits_pop_bits 2 r₂
  let ctx' : DeflateDecompressor = record ctx { bit_reader = r₃ }
  (size, done) ←
      if block_type == deflate_blocktype_uncompressed
      then uncompressed_block ctx'
      else if block_type == deflate_blocktype_static_huffman
      then compressed_block fuel junk false ctx'
      else if block_type == deflate_blocktype_dynamic_huffman
      then compressed_block fuel junk true ctx'
      else err unknown_block
  ok (final == 1, size, done)

-- The loop over the blocks of `deflate_decompress_stream`
unfoldable pub block_loop : ℕ → ℕ → List ℕ → DeflateDecompressor → ℕ → Res (ℕ × DeflateDecompressor)
block_loop zero fuel junk ctx total = fault
block_loop (suc rounds) fuel junk ctx total = do
  (final, size, ctx') ← deflate_decompress_block fuel junk ctx
  let rest = block_loop rounds fuel junk ctx' (total + size)
  if final then ok (total + size, ctx') else rest

-- The trees of the context are not written before the first block: `trees` is what they hold.
unfoldable pub deflate_decompress_stream :
    ℕ → ℕ → List ℕ → HuffTree → IoMem → IoMem → Res (ℕ × IoMem)
deflate_decompress_stream rounds fuel junk trees writer reader = do
  (total, ctx) ←
      block_loop rounds fuel junk
        (record {
          length_tree = trees;
          dist_tree = trees;
          window = io_window_init writer 0x8000;
          bit_reader = io_rbits_init reader;
        })
        0
  ok (total, (io_window_flush_all ctx.window).underlying)

unfoldable pub deflate_decompress_data :
    ℕ → ℕ → List ℕ → HuffTree → List ℕ → List ℕ → Res (ℕ × IoMem)
deflate_decompress_data rounds fuel junk trees bytes out =
    deflate_decompress_stream rounds fuel junk trees (io_mem_init out) (io_mem_init bytes)
