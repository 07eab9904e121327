-- ===== src/Codec/Deflate.antt =====
-- sources/libs/codec-deflate/deflate.c: compression, of which only level 0 is there: uncompressed
-- blocks of at most 65535 bytes. What the writes return is not looked at, as in the source.
use brutal.Base.{
  ℕ, zero, suc, ◌+◌, ◌-◌, ◌/◌, ◌%◌, ◌^◌, Bool, true, false, List, [], ◌∷◌, length, ltb, ◌==◌,
  if◌then◌else◌,
}
use brutal.Io.Res.{Res, ok, fault, ◌>>=◌}
use brutal.Io.Mem.{IoMem, io_mem_init, io_mem_read, io_mem_write}
use brutal.Io.WBits.{
  IoWBits, io_wbits_init, io_wbits_add_bits, io_wbits_flush_bits, io_wbits_align_bitstream,
}

abbrev pub deflate_blocktype_uncompressed : ℕ
deflate_blocktype_uncompressed = 0

abbrev pub deflate_blocktype_static_huffman : ℕ
deflate_blocktype_static_huffman = 1

abbrev pub deflate_blocktype_dynamic_huffman : ℕ
deflate_blocktype_dynamic_huffman = 2

-- `compress_block_impl` is left unset at any other level than 0.
pub data CompressBlock : Type 0 where
  uncompressed unset : CompressBlock

pub record DeflateCompressor : Type 0 where
  pub compression_level : ℕ
  pub compress_block_impl : CompressBlock
  pub bit_writer : IoWBits

unfoldable pub deflate_init : ℕ → IoWBits → DeflateCompressor
deflate_init level bit_writer = record {
  compression_level = level;
  compress_block_impl = if level == 0 then CompressBlock.uncompressed else CompressBlock.unset;
  bit_writer = bit_writer;
}

abbrev pub to_nat : Bool → ℕ
to_nat true = 1
to_nat false = 0

unfoldable pub deflate_write_block_header : IoWBits → Bool → ℕ → IoWBits
deflate_write_block_header bit_writer is_final_block block_type =
    io_wbits_flush_bits
      (io_wbits_add_bits block_type 2 (io_wbits_add_bits (to_nat is_final_block) 1 bit_writer))

-- A `uint16_t` as it stands in memory.
abbrev pub uint16_bytes : ℕ → List ℕ
uint16_bytes n = (n % 256) ∷ (n / 256 % 256) ∷ []

abbrev pub write : IoWBits → List ℕ → IoWBits
write w bytes = record w { writer = (io_mem_write w.writer bytes).1 }

unfoldable pub deflate_compress_block_uncompressed : IoWBits → List ℕ → Bool → ℕ × IoWBits
deflate_compress_block_uncompressed bit_writer bytes is_last =
    let header =
      io_wbits_align_bitstream
        (deflate_write_block_header bit_writer is_last deflate_blocktype_uncompressed) in
    let in_nbytes = length bytes in
    let block_len = in_nbytes % 2 ^ 16 in
    let block_len_inv = (2 ^ 64 - 1 - in_nbytes) % 2 ^ 16 in
    (
      in_nbytes + 5,
      write (write (write header (uint16_bytes block_len)) (uint16_bytes block_len_inv)) bytes,
    )

unfoldable pub compress_block : CompressBlock → IoWBits → List ℕ → Bool → Res (ℕ × IoWBits)
compress_block CompressBlock.uncompressed w bytes is_last =
    ok (deflate_compress_block_uncompressed w bytes is_last)
compress_block CompressBlock.unset w bytes is_last = fault

-- The loop of `deflate_compress_stream`: a read that is not full is the last one.
unfoldable pub compress_loop : ℕ → CompressBlock → IoWBits → IoMem → ℕ → Res (ℕ × IoMem × IoWBits)
compress_loop zero impl w reader total = fault
compress_loop (suc fuel) impl w reader total = do
  let (buf, reader') = io_mem_read reader 65535
  let last = ltb (length buf) 65535
  (count, w') ← compress_block impl w buf last
  let rest = compress_loop fuel impl w' reader' (total + count)
  if last then ok (total + count, reader', w') else rest

unfoldable pub deflate_compress_stream : ℕ → DeflateCompressor → IoMem → IoMem → Res (ℕ × IoMem)
deflate_compress_stream fuel ctx writer reader =
    compress_loop fuel ctx.compress_block_impl (io_wbits_init writer) reader 0 >>= λ r.
    ok (r.0, r.2.writer)

-- With more rounds than bytes the loop ends.
unfoldable pub deflate_compress_data : DeflateCompressor → List ℕ → List ℕ → Res (ℕ × IoMem)
deflate_compress_data ctx bytes out =
    deflate_compress_stream (suc (length bytes)) ctx (io_mem_init out) (io_mem_init bytes)
