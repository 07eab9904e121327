-- ===== src/Codec/Stored/Write.antt =====
-- What sources/libs/codec-deflate/deflate.c writes is a row of uncompressed blocks.
use brutal.Base.{
  ℕ, zero, suc, ◌+◌, ◌-◌, ◌%◌, ◌^◌, ◌≤◌, ◌<◌, Bool, true, false, List, [], ◌∷◌, ◌++◌, length, take,
  drop, ltb, ◌≡◌, refl, ap, sym, ◌∙◌, subst, arith, length-append, length-drop, length-take-min,
  min, Bool-cases, inl, inr,
}
use mathlib.Core.List.{append_assoc, append-nil}
use brutal.Io.Res.{ok}
use brutal.Io.Mem.{IoMem, io_mem_read, io_mem_write}
use brutal.Io.Mem.Laws.{left, written, Room, io_mem_read-left, io_mem_write-written}
use brutal.Io.WBits.{
  IoWBits, io_wbits_add_bits, io_wbits_flush_bits, io_wbits_align_bitstream, flush_loop,
}
use brutal.Codec.Deflate.{
  uncompressed, to_nat, uint16_bytes, write, deflate_write_block_header,
  deflate_compress_block_uncompressed, compress_block, compress_loop,
}
use brutal.Codec.Stored.{block, stored}

-- Between two blocks the bit buffer is empty.
abbrev pub empty_buffer : IoMem → IoWBits
empty_buffer writer = record { writer = writer; bitbuf = 0; bitcount = 0 }

header-write :
    (writer : IoMem) (is_last : Bool)
    → io_wbits_align_bitstream (deflate_write_block_header (empty_buffer writer) is_last 0)
      ≡ write (empty_buffer writer) (to_nat is_last ∷ [])
unfolding deflate_write_block_header io_wbits_add_bits io_wbits_flush_bits io_wbits_align_bitstream
    flush_loop
header-write writer true = refl
header-write writer false = refl

-- The bytes went out, and `n` more still fit.
record Sent (before : IoMem) (bytes : List ℕ) (n : ℕ) (after : IoMem) : Type 0 where
  grown : written after ≡ written before ++ bytes
  room : Room after n

io_mem_write-Sent :
    (m : IoMem) (bytes : List ℕ) (n : ℕ)
    → Room m (length bytes + n)
    → Sent m bytes n (io_mem_write m bytes).1
io_mem_write-Sent m bytes n room =
    let (count, grown, more) = io_mem_write-written m bytes (omega arith) in
    record { grown = grown; room = more n room }

Sent-twice :
    {a b c : IoMem} {xs ys : List ℕ} {k n : ℕ}
    → Sent a xs k b
    → Sent b ys n c
    → Sent a (xs ++ ys) n c
Sent-twice {a} {xs} {ys} s t = record {
  grown = t.grown ∙ ap (λ l. l ++ ys) s.grown ∙ append_assoc (written a) xs ys;
  room = t.room;
}

length-block : (is_last : Bool) (bytes : List ℕ) → length (block is_last bytes) ≡ length bytes + 5
length-block is_last bytes = omega arith

-- One block of at most 65535 bytes, after which the bit buffer is empty again.
compress_block-Sent :
    (writer : IoMem) (bytes : List ℕ) (is_last : Bool) (n : ℕ)
    → length bytes ≤ 65535
    → Room writer (length bytes + 5 + n)
    → (writer' : IoMem) × (deflate_compress_block_uncompressed (empty_buffer writer) bytes is_last
        ≡ (length bytes + 5, empty_buffer writer'))
      × Sent writer (block is_last bytes) n writer'
unfolding deflate_compress_block_uncompressed
compress_block-Sent writer bytes is_last n small room =
    let len : length bytes % 2 ^ 16 ≡ length bytes = omega arith in
    let inv : (2 ^ 64 - 1 - length bytes) % 2 ^ 16 ≡ 65535 - length bytes = omega arith in
    let w₁ = (io_mem_write writer (to_nat is_last ∷ [])).1 in
    let w₂ = (io_mem_write w₁ (uint16_bytes (length bytes))).1 in
    let w₃ = (io_mem_write w₂ (uint16_bytes (65535 - length bytes))).1 in
    let s₁ = io_mem_write-Sent writer (to_nat is_last ∷ []) (4 + length bytes + n) (omega arith) in
    let s₂ =
      io_mem_write-Sent w₁ (uint16_bytes (length bytes)) (2 + length bytes + n)
        (omega (arith, s₁.room)) in
    let s₃ =
      io_mem_write-Sent w₂ (uint16_bytes (65535 - length bytes)) (length bytes + n)
        (omega (arith, s₂.room)) in
    let s₄ = io_mem_write-Sent w₃ bytes n s₃.room in
    (
      (io_mem_write w₃ bytes).1,
      rw (header-write writer is_last, len, inv),
      Sent-twice (Sent-twice (Sent-twice s₁ s₂) s₃) s₄,
    )

pub stored-last :
    (fuel : ℕ) (bytes chunk : List ℕ)
    → take 65535 bytes ≡ chunk
    → ltb (length chunk) 65535 ≡ true
    → stored (suc fuel) bytes ≡ block true chunk
unfolding stored
stored-last fuel bytes chunk e last = rw (e, last) (append-nil (block true chunk))

pub stored-more :
    (fuel : ℕ) (bytes chunk : List ℕ)
    → take 65535 bytes ≡ chunk
    → ltb (length chunk) 65535 ≡ false
    → stored (suc fuel) bytes ≡ block false chunk ++ stored fuel (drop 65535 bytes)
unfolding stored
stored-more fuel bytes chunk e full = rw (e, full)

module _ (fuel : ℕ) (writer reader writer' : IoMem) (total count : ℕ) (chunk : List ℕ)
    (read : (io_mem_read reader 65535).0 ≡ chunk) where
  compress_loop-last :
      ltb (length chunk) 65535 ≡ true
      → deflate_compress_block_uncompressed (empty_buffer writer) chunk true
        ≡ (count, empty_buffer writer')
      → compress_loop (suc fuel) uncompressed (empty_buffer writer) reader total
        ≡ ok (total + count, (io_mem_read reader 65535).1, empty_buffer writer')
  unfolding compress_loop compress_block
  compress_loop-last last ran = rw (read, last, ran)

  compress_loop-more :
      ltb (length chunk) 65535 ≡ false
      → deflate_compress_block_uncompressed (empty_buffer writer) chunk false
        ≡ (count, empty_buffer writer')
      → compress_loop (suc fuel) uncompressed (empty_buffer writer) reader total
        ≡ compress_loop fuel uncompressed
            (empty_buffer writer')
            (io_mem_read reader 65535).1
            (total + count)
  unfolding compress_loop compress_block
  compress_loop-more full ran = rw (read, full, ran)

-- The loop has written `out` and reports the length of it.
pub record Wrote (fuel : ℕ) (writer reader : IoMem) (total : ℕ) (out : List ℕ) : Type 0 where
  pub reader' : IoMem
  pub writer' : IoMem
  pub ran :
      compress_loop fuel uncompressed (empty_buffer writer) reader total
      ≡ ok (total + length out, reader', empty_buffer writer')
  pub grown : written writer' ≡ written writer ++ out

Wrote-last :
    (fuel : ℕ) (writer reader : IoMem) (total : ℕ) (chunk : List ℕ)
    → (io_mem_read reader 65535).0 ≡ chunk
    → ltb (length chunk) 65535 ≡ true
    → length chunk ≤ 65535
    → Room writer (length (block true chunk))
    → Wrote (suc fuel) writer reader total (block true chunk)
Wrote-last fuel writer reader total chunk read last few room =
    let (writer', ran, sent) = compress_block-Sent writer chunk true 0 few (omega arith) in
    record {
      reader' = (io_mem_read reader 65535).1;
      writer' = writer';
      ran =
          compress_loop-last fuel writer reader writer' total (length chunk + 5) chunk read last ran
          ∙ ap (λ k. ok (total + k, (io_mem_read reader 65535).1, empty_buffer writer'))
              (sym (length-block true chunk));
      grown = sent.grown;
    }

Wrote-more :
    (fuel : ℕ) (writer reader w : IoMem) (total : ℕ) (chunk blocks : List ℕ)
    → (io_mem_read reader 65535).0 ≡ chunk
    → ltb (length chunk) 65535 ≡ false
    → deflate_compress_block_uncompressed (empty_buffer writer) chunk false
      ≡ (length chunk + 5, empty_buffer w)
    → written w ≡ written writer ++ block false chunk
    → Wrote fuel w (io_mem_read reader 65535).1 (total + (length chunk + 5)) blocks
    → Wrote (suc fuel) writer reader total (block false chunk ++ blocks)
Wrote-more fuel writer reader w total chunk blocks read full ran sent rest = record {
  reader' = rest.reader';
  writer' = rest.writer';
  ran =
      compress_loop-more fuel writer reader w total (length chunk + 5) chunk read full ran
      ∙ rest.ran
      ∙ ap (λ k. ok (k, rest.reader', empty_buffer rest.writer'))
          (sizes total (length chunk) (length blocks) (length (block false chunk ++ blocks)) (
            length-append (block false chunk) blocks
            ∙ ap (λ k. k + length blocks) (length-block false chunk)));
  grown =
      rest.grown
      ∙ ap (λ l. l ++ blocks) sent
      ∙ append_assoc (written writer) (block false chunk) blocks;
}
  where
    sizes : (t c b l : ℕ) → l ≡ c + 5 + b → t + (c + 5) + b ≡ t + l
    sizes t c b l e = omega arith

pub full_chunk : (n : ℕ) → n ≤ 65535 → ltb n 65535 ≡ false → n ≡ 65535
full_chunk n h e = ground arith

-- One round, on what the read gave, and the rounds after it.
compress_round :
    (fuel : ℕ) (writer reader : IoMem) (total : ℕ) (chunk : List ℕ)
    → ((w r : IoMem) (t : ℕ)
        → length (left r) < fuel
        → Room w (length (stored fuel (left r)))
        → Wrote fuel w r t (stored fuel (left r)))
    → take 65535 (left reader) ≡ chunk
    → (io_mem_read reader 65535).0 ≡ chunk
    → left (io_mem_read reader 65535).1 ≡ drop (length chunk) (left reader)
    → length chunk ≡ min 65535 (length (left reader))
    → length (left reader) < suc fuel
    → Room writer (length (stored (suc fuel) (left reader)))
    → Wrote (suc fuel) writer reader total (stored (suc fuel) (left reader))
compress_round fuel writer reader total chunk again e read rest size h room =
    elim (Bool-cases (ltb (length chunk) 65535)) [
      | inl last ↦
          let is = stored-last fuel (left reader) chunk e last in
          rw is (Wrote-last fuel writer reader total chunk read last (omega arith) (rw is at room))
      | inr full ↦
          let is = stored-more fuel (left reader) chunk e full in
          let all = full_chunk (length chunk) (omega arith) full in
          let tail : left (io_mem_read reader 65535).1 ≡ drop 65535 (left reader) =
            rest ∙ ap (λ k. drop k (left reader)) all in
          let blocks = stored fuel (drop 65535 (left reader)) in
          let fits : Room writer (length (block false chunk ++ blocks)) = rw is at room in
          let size' = length-append (block false chunk) blocks in
          let (w, ran, sent) =
            compress_block-Sent writer chunk false (length blocks) (omega arith)
              (omega (arith, length-block false chunk)) in
          let after =
            again w (io_mem_read reader 65535).1 (total + (length chunk + 5))
              (omega (arith, ap length tail, length-drop (left reader) 65535))
              (rw tail sent.room) in
          rw is (
            Wrote-more fuel writer reader w total chunk blocks read full ran sent.grown (
              subst
                (λ l.
                  Wrote fuel w (io_mem_read reader 65535).1 (total + (length chunk + 5))
                    (stored fuel l))
                tail after))
    ]

-- With more rounds than bytes and room for the blocks, the loop writes them all, in order, and
-- reports their length.
pub compress_loop-Wrote :
    (fuel : ℕ) (writer reader : IoMem) (total : ℕ)
    → length (left reader) < fuel
    → Room writer (length (stored fuel (left reader)))
    → Wrote fuel writer reader total (stored fuel (left reader))
compress_loop-Wrote zero writer reader total h room = elim h [ ]
compress_loop-Wrote (suc fuel) writer reader total h room =
    let (read, rest) = io_mem_read-left reader 65535 in
    compress_round fuel writer reader total (take 65535 (left reader))
      (λ w r t. compress_loop-Wrote fuel w r t) refl read rest (length-take-min (left reader) 65535)
      h room
