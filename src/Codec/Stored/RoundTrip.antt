-- ===== src/Codec/Stored/RoundTrip.antt =====
-- Compression at level 0 and decompression, sources/libs/codec-deflate/deflate.c and inflate.c.
use brutal.Base.{
  ℕ, zero, suc, ◌+◌, ◌≤◌, Bool, true, false, List, [], ◌∷◌, ◌++◌, All, length, take, drop, ltb, ◌≡◌,
  refl, ap, sym, ◌∙◌, arith, Bool-cases, inl, inr,
}
use mathlib.Core.List.{append-nil}
use brutal.Io.Res.{ok}
use brutal.Io.Mem.{IoMem, io_mem_init}
use brutal.Io.Mem.Laws.{written}
use brutal.Io.Window.{io_window_init, io_window_flush_all}
use brutal.Io.Window.Laws.{io_window_flush_all-stream}
use brutal.Io.RBits.{io_rbits_init}
use brutal.Io.RBits.Laws.{IsByte}
use brutal.Io.WBits.{io_wbits_init}
use brutal.Codec.Deflate.{deflate_init, deflate_compress_stream, deflate_compress_data}
use brutal.Codec.Huff.{HuffTree}
use brutal.Codec.Inflate.{DeflateDecompressor, deflate_decompress_stream, deflate_decompress_data}
use brutal.Codec.Stored.{block, stored}
use brutal.Codec.Stored.Write.{stored-last, stored-more, compress_loop-Wrote}
use brutal.Codec.Stored.Read.{Between}
use brutal.Codec.Stored.Blocks.{inflate_all}

All-take : (xs : List ℕ) (n : ℕ) → All IsByte xs → All IsByte (take n xs)
All-take xs zero h = tt
All-take [] (suc n) h = tt
All-take (x ∷ xs) (suc n) h = (h.0, All-take xs n h.1)

All-drop : (xs : List ℕ) (n : ℕ) → All IsByte xs → All IsByte (drop n xs)
All-drop xs zero h = h
All-drop [] (suc n) h = tt
All-drop (x ∷ xs) (suc n) h = All-drop xs n h.1

All-append : (xs ys : List ℕ) → All IsByte xs → All IsByte ys → All IsByte (xs ++ ys)
All-append [] ys h k = k
All-append (x ∷ xs) ys h k = (h.0, All-append xs ys h.1 k)

block-IsByte :
    (is_last : Bool) (chunk : List ℕ) → All IsByte chunk → All IsByte (block is_last chunk)
block-IsByte true chunk h =
    (omega arith, (omega arith, (omega arith, (omega arith, (omega arith, h)))))
block-IsByte false chunk h =
    (omega arith, (omega arith, (omega arith, (omega arith, (omega arith, h)))))

stored-none : (bytes : List ℕ) → stored zero bytes ≡ []
unfolding stored
stored-none bytes = refl

stored-IsByte : (fuel : ℕ) (bytes : List ℕ) → All IsByte bytes → All IsByte (stored fuel bytes)
stored-IsByte zero bytes h = rw (stored-none bytes) tt
stored-IsByte (suc fuel) bytes h =
    let chunk = take 65535 bytes in
    elim (Bool-cases (ltb (length chunk) 65535)) [
      | inl last ↦
          rw (stored-last fuel bytes chunk refl last)
            (block-IsByte true chunk (All-take bytes 65535 h))
      | inr full ↦ rw (stored-more fuel bytes chunk refl full) (
          All-append (block false chunk) (stored fuel (drop 65535 bytes))
            (block-IsByte false chunk (All-take bytes 65535 h))
            (stored-IsByte fuel (drop 65535 bytes) (All-drop bytes 65535 h)))
    ]

compresses :
    (bytes out : List ℕ)
    → length (stored (suc (length bytes)) bytes) ≤ length out
    → (packed : IoMem) × (deflate_compress_data
          (deflate_init 0 (io_wbits_init (io_mem_init out)))
          bytes
          out
        ≡ ok (length (stored (suc (length bytes)) bytes), packed))
      × (written packed ≡ stored (suc (length bytes)) bytes)
unfolding deflate_compress_data deflate_compress_stream deflate_init io_mem_init io_wbits_init
compresses bytes out room =
    let w =
      compress_loop-Wrote (suc (length bytes)) (record { bytes = out; used = 0 })
        (record { bytes = bytes; used = 0 }) 0 (omega arith) (omega arith) in
    (w.writer', rw w.ran (ap (λ k. ok (k, w.writer')) (omega arith)), w.grown)

decompresses :
    (bytes packed back junk : List ℕ) (fuel : ℕ) (trees : HuffTree)
    → packed ≡ stored (suc (length bytes)) bytes
    → All IsByte packed
    → length bytes ≤ length back
    → (unpacked : IoMem) × (deflate_decompress_data (suc (length bytes)) fuel junk trees packed back
        ≡ ok (length bytes, unpacked))
      × (written unpacked ≡ bytes)
unfolding deflate_decompress_data deflate_decompress_stream io_mem_init io_rbits_init io_window_init
decompresses bytes packed back junk fuel trees e valid space =
    let ctx : DeflateDecompressor = record {
      length_tree = trees;
      dist_tree = trees;
      window = record {
        held = [];
        capacity = 0x8000;
        underlying = record { bytes = back; used = 0 };
      };
      bit_reader = record {
        reader = record { bytes = packed; used = 0 };
        bitbuf = 0;
        bitcount = 0;
      };
    } in
    let between : Between ctx (stored (suc (length bytes)) bytes ++ []) (length bytes + 0) =
      record {
        empty = refl;
        clean = record { small = omega arith; bytes = valid };
        coming = e ∙ sym (append-nil (stored (suc (length bytes)) bytes));
        kept = record { few = omega arith; enough = omega arith; room = omega arith };
        wide = omega arith;
      } in
    let all =
      inflate_all fuel junk (suc (length bytes)) (suc (length bytes)) ctx 0 bytes [] 0 (omega arith)
        (omega arith) between in
    (
      (io_window_flush_all all.done.window).underlying,
      rw all.ran (ap (λ k. ok (k, (io_window_flush_all all.done.window).underlying)) (omega arith)),
      io_window_flush_all-stream all.done.window 0 all.took.ready.kept ∙ all.took.grown,
    )

-- Whatever bytes are compressed at level 0 into an array with room for their blocks, compression
-- returns the length of what it wrote; decompressing exactly that into an array with room for the
-- bytes returns their number and has written the same bytes, in one round over the blocks more
-- than there are bytes.
pub deflate_decompress_data-deflate_compress_data :
    (bytes out back junk : List ℕ) (fuel : ℕ) (trees : HuffTree)
    → All IsByte bytes
    → length (stored (suc (length bytes)) bytes) ≤ length out
    → length bytes ≤ length back
    → (packed : IoMem) × (unpacked : IoMem) × (deflate_compress_data
          (deflate_init 0 (io_wbits_init (io_mem_init out)))
          bytes
          out
        ≡ ok (length (written packed), packed))
      × (deflate_decompress_data (suc (length bytes)) fuel junk trees (written packed) back
          ≡ ok (length bytes, unpacked))
      × (written unpacked ≡ bytes)
deflate_decompress_data-deflate_compress_data bytes out back junk fuel trees valid room space =
    let (packed, ran, row) = compresses bytes out room in
    let (unpacked, done, same) =
      decompresses bytes (written packed) back junk fuel trees row
        (rw row (stored-IsByte (suc (length bytes)) bytes valid)) space in
    (packed, unpacked, rw row ran, done, same)
