-- ===== src/Codec/Tests.antt =====
-- Compression at level 0 and back; a block of the fixed codes.
use brutal.Base.{ℕ, ◌≤◌, none, List, [], ◌∷◌, length, replicate, ◌≡◌, refl, arith}
use brutal.Io.Res.{ok}
use brutal.Io.Mem.{IoMem, io_mem_init}
use brutal.Io.Mem.Laws.{written}
use brutal.Io.WBits.{io_wbits_init}
use brutal.Codec.Deflate.{deflate_init, deflate_compress_data}
use brutal.Codec.Huff.{HuffTree}
use brutal.Codec.Inflate.{deflate_decompress_data}
use brutal.Codec.Stored.{stored}
use brutal.Codec.Stored.RoundTrip.{deflate_decompress_data-deflate_compress_data}

abbrev some_bytes : List ℕ
some_bytes = 1 ∷ 200 ∷ 3 ∷ []

abbrev no_tree : HuffTree
no_tree = record { counts = []; symbols = []; max_sym = none }

four_blocks : length (stored 4 some_bytes) ≤ length (replicate {A = ℕ} 9 0)
unfolding stored
four_blocks = omega arith

deflate_decompress_data-deflate_compress_data_example :
    (packed : IoMem) × (unpacked : IoMem) × (deflate_compress_data
        (deflate_init 0 (io_wbits_init (io_mem_init (replicate 9 0))))
        some_bytes
        (replicate 9 0)
      ≡ ok (length (written packed), packed))
    × (deflate_decompress_data 4 20 [] no_tree (written packed) (replicate 5 0) ≡ ok (3, unpacked))
    × (written unpacked ≡ some_bytes)
deflate_decompress_data-deflate_compress_data_example =
    deflate_decompress_data-deflate_compress_data some_bytes (replicate 9 0) (replicate 5 0) [] 20
      no_tree (omega arith, (omega arith, (omega arith, tt))) four_blocks (omega arith)

-- A block of the fixed codes: three letters, and a copy of nine from three back.
abbrev fixed_block : List ℕ
fixed_block = 75 ∷ 76 ∷ 74 ∷ 78 ∷ 132 ∷ 33 ∷ 0 ∷ []

abc_again :
    deflate_decompress_data 1 20 [] no_tree fixed_block (replicate 12 0)
    ≡ ok (
      12,
      record { bytes = 97 ∷ 98 ∷ 99 ∷ 97 ∷ 98 ∷ 99 ∷ 97 ∷ 98 ∷ 99 ∷ 97 ∷ 98 ∷ 99 ∷ []; used = 12 },
    )
unfolding deflate_decompress_data brutal.Codec.Inflate.deflate_decompress_stream
    brutal.Codec.Inflate.block_loop brutal.Codec.Inflate.deflate_decompress_block
    brutal.Codec.Inflate.compressed_block brutal.Codec.Inflate.symbol_loop
    brutal.Codec.Inflate.read_match brutal.Codec.Inflate.copy_match
    brutal.Codec.Inflate.Trees.next_bits brutal.Codec.Inflate.Trees.build_static_huff_trees
    brutal.Codec.Inflate.Trees.count_up brutal.Codec.Huff.huff_decoder_next
    brutal.Codec.Huff.decode_loop brutal.Io.RBits.io_rbits_init brutal.Io.RBits.io_rbits_ensure_bits
    brutal.Io.RBits.ensure_loop brutal.Io.RBits.take_byte brutal.Io.RBits.io_rbits_pop_bits
    brutal.Io.RBits.io_rbits_get_bits brutal.Io.RBits.io_rbits_remove_bits brutal.Io.Mem.io_mem_init
    brutal.Io.Mem.io_mem_read brutal.Io.Mem.io_mem_write brutal.Io.Window.io_window_init
    brutal.Io.Window.io_window_write brutal.Io.Window.io_window_flush_chunk
    brutal.Io.Window.io_window_flush_all brutal.Io.Window.io_window_peek_from_back
abc_again = refl
