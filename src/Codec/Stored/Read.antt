-- ===== src/Codec/Stored/Read.antt =====
-- What sources/libs/codec-deflate/inflate.c makes of a row of uncompressed blocks.
use brutal.Base.{
  ℕ, ◌+◌, ◌-◌, ◌*◌, ◌/◌, ◌%◌, ◌^◌, ◌≤◌, Bool, true, false, List, [], ◌∷◌, ◌++◌, All, length, take,
  drop, ◌==◌, ◌≡◌, refl, ap, ◌∙◌, arith, length-append, take-append, drop-append,
}
use brutal.Io.Res.{ok}
use brutal.Io.Mem.{IoMem, io_mem_read}
use brutal.Io.Mem.Laws.{left, io_mem_read-left}
use brutal.Io.Window.{IoWindow}
use brutal.Io.Window.Laws.{stream, IsKept}
use brutal.Io.Copy.{io_copy_n}
use brutal.Io.Copy.Laws.{io_copy_n-Copied}
use brutal.Io.RBits.{IoRBits, io_rbits_ensure_bits, io_rbits_pop_bits, io_rbits_align}
use brutal.Io.RBits.Bits.{bits_of, bytes_bits, value}
use brutal.Io.RBits.Laws.{
  IsByte, IsClean, bits_left, ensure_fresh, io_rbits_pop_bits-value, io_rbits_align-drops,
}
use brutal.Codec.Deflate.{to_nat}
use brutal.Codec.Inflate.{
  DeflateDecompressor, read_uint16, uncompressed_block, deflate_decompress_block,
}
use brutal.Codec.Stored.{block}

-- The three bits of a header, and the reader before the length of the block.
record Header (is_last : Bool) (tail : List ℕ) (self : IoRBits) : Type 0 where
  r₁ : IoRBits
  r₂ : IoRBits
  r₃ : IoRBits
  r₄ : IoRBits
  ensured : io_rbits_ensure_bits 3 self ≡ ok r₁
  final : io_rbits_pop_bits 1 r₁ ≡ ok (to_nat is_last, r₂)
  kind : io_rbits_pop_bits 2 r₂ ≡ ok (0, r₃)
  aligned : io_rbits_align r₃ ≡ ok r₄
  count : r₄.bitcount ≡ 0
  rest : left r₄.reader ≡ tail
  clean : IsClean r₄

header_bits :
    (is_last : Bool) (bits : List ℕ) (rest : List ℕ)
    → bits ≡ bits_of 8 (to_nat is_last) ++ rest
    → (value (take 1 bits) ≡ to_nat is_last) × (value (take 2 (drop 1 bits)) ≡ 0)
header_bits true bits rest e = rw e (refl, refl)
header_bits false bits rest e = rw e (refl, refl)

read-Header :
    (is_last : Bool) (tail : List ℕ) (self : IoRBits)
    → self.bitcount ≡ 0
    → IsClean self
    → left self.reader ≡ to_nat is_last ∷ tail
    → Header is_last tail self
read-Header is_last tail self zero_bits clean e =
    let (r₁, ensured, eight, tail₁, same, clean₁) =
      ensure_fresh self 3 (to_nat is_last) tail zero_bits clean e (omega arith) (omega arith) in
    let bits : bits_left r₁ ≡ bits_of 8 (to_nat is_last) ++ bytes_bits tail =
      same
      ∙ ap (λ k. bits_of k self.bitbuf ++ bytes_bits (left self.reader)) zero_bits
      ∙ ap bytes_bits e in
    let (one, two) = header_bits is_last (bits_left r₁) (bytes_bits tail) bits in
    let (r₂, final, left₂, clean₂, count₂, reader₂) =
      io_rbits_pop_bits-value 1 r₁ clean₁ (omega arith) (omega arith) in
    let (r₃, kind, left₃, clean₃, count₃, reader₃) =
      io_rbits_pop_bits-value 2 r₂ clean₂ (omega arith) (omega arith) in
    let (r₄, aligned, count₄, reader₄, clean₄) = io_rbits_align-drops r₃ (omega arith) clean₃ in
    record {
      r₁ = r₁;
      r₂ = r₂;
      r₃ = r₃;
      r₄ = r₄;
      ensured = ensured;
      final = final ∙ ap (λ v. ok (v, r₂)) one;
      kind = kind ∙ ap (λ l. ok (value (take 2 l), r₃)) left₂ ∙ ap (λ v. ok (v, r₃)) two;
      aligned = aligned;
      count = count₄;
      rest = ap left (reader₄ ∙ reader₃ ∙ reader₂) ∙ tail₁;
      clean = clean₄;
    }

-- A block whose bits and bytes are known.
uncompressed_block-reads :
    (ctx : DeflateDecompressor) (r : IoRBits) (lo hi lo' hi' len : ℕ) (reader₃ : IoMem)
    (w : IoWindow)
    → io_rbits_align ctx.bit_reader ≡ ok r
    → (io_mem_read r.reader 2).0 ≡ lo ∷ hi ∷ []
    → (io_mem_read (io_mem_read r.reader 2).1 2).0 ≡ lo' ∷ hi' ∷ []
    → lo + hi * 256 ≡ len
    → (len == 2 ^ 16 - 1 - (lo' + hi' * 256)) ≡ true
    → io_copy_n (io_mem_read (io_mem_read r.reader 2).1 2).1 ctx.window len ≡ ok (len, reader₃, w)
    → uncompressed_block ctx
      ≡ ok (len, record ctx { bit_reader = record r { reader = reader₃ }; window = w })
unfolding uncompressed_block read_uint16
uncompressed_block-reads ctx r lo hi lo' hi' len reader₃ w a e₁ e₂ el t c = rw (a, e₁, e₂, el, t, c)

deflate_decompress_block-reads :
    (fuel : ℕ) (junk : List ℕ) (ctx done : DeflateDecompressor) (r₁ r₂ r₃ : IoRBits) (bit size : ℕ)
    → io_rbits_ensure_bits 3 ctx.bit_reader ≡ ok r₁
    → io_rbits_pop_bits 1 r₁ ≡ ok (bit, r₂)
    → io_rbits_pop_bits 2 r₂ ≡ ok (0, r₃)
    → uncompressed_block (record ctx { bit_reader = r₃ }) ≡ ok (size, done)
    → deflate_decompress_block fuel junk ctx ≡ ok (bit == 1, size, done)
unfolding deflate_decompress_block
deflate_decompress_block-reads fuel junk ctx done r₁ r₂ r₃ bit size e f k u = rw (e, f, k, u)

-- The decompressor between two blocks: an empty bit buffer, and room for `n` bytes more.
pub record Between (ctx : DeflateDecompressor) (rest : List ℕ) (n : ℕ) : Type 0 where
  pub empty : ctx.bit_reader.bitcount ≡ 0
  pub clean : IsClean ctx.bit_reader
  pub coming : left ctx.bit_reader.reader ≡ rest
  pub kept : IsKept ctx.window n
  pub wide : 512 ≤ ctx.window.capacity

-- What reading `bytes` has done.
pub record Took (ctx : DeflateDecompressor) (bytes rest : List ℕ) (n : ℕ)
    (done : DeflateDecompressor) : Type 0 where
  pub ready : Between done rest n
  pub grown : stream done.window ≡ stream ctx.window ++ bytes

read_lengths :
    (reader : IoMem) (lo hi lo' hi' : ℕ) (rest : List ℕ)
    → left reader ≡ lo ∷ hi ∷ lo' ∷ hi' ∷ rest
    → ((io_mem_read reader 2).0 ≡ lo ∷ hi ∷ [])
      × ((io_mem_read (io_mem_read reader 2).1 2).0 ≡ lo' ∷ hi' ∷ [])
      × (left (io_mem_read (io_mem_read reader 2).1 2).1 ≡ rest)
read_lengths reader lo hi lo' hi' rest e =
    let (a, b) = io_mem_read-left reader 2 in
    let (c, d) = io_mem_read-left (io_mem_read reader 2).1 2 in
    let next : left (io_mem_read reader 2).1 ≡ lo' ∷ hi' ∷ rest =
      b ∙ ap (λ l. drop (length (take 2 l)) l) e in
    (a ∙ ap (take 2) e, c ∙ ap (take 2) next, d ∙ ap (λ l. drop (length (take 2 l)) l) next)

All-append_right : (xs ys : List ℕ) → All IsByte (xs ++ ys) → All IsByte ys
All-append_right [] ys h = h
All-append_right (x ∷ xs) ys h = All-append_right xs ys h.1

-- One block of at most 65535 bytes.
pub block-Took :
    (fuel : ℕ) (junk : List ℕ) (ctx : DeflateDecompressor) (is_last : Bool) (chunk rest : List ℕ)
    (n : ℕ)
    → length chunk ≤ 65535
    → Between ctx (block is_last chunk ++ rest) (length chunk + n)
    → (done : DeflateDecompressor) × (deflate_decompress_block fuel junk ctx
        ≡ ok (to_nat is_last == 1, length chunk, done))
      × Took ctx chunk rest n done
block-Took fuel junk ctx is_last chunk rest n few between =
    let len = length chunk in
    let lo = len % 256 in
    let hi = len / 256 % 256 in
    let lo' = (65535 - len) % 256 in
    let hi' = (65535 - len) / 256 % 256 in
    let h =
      read-Header is_last (lo ∷ hi ∷ lo' ∷ hi' ∷ (chunk ++ rest)) ctx.bit_reader between.empty
        between.clean between.coming in
    let (e₁, e₂, tail) = read_lengths h.r₄.reader lo hi lo' hi' (chunk ++ rest) h.rest in
    let reader₂ = (io_mem_read (io_mem_read h.r₄.reader 2).1 2).1 in
    let there : len ≤ length (left reader₂) =
      omega (arith, ap length tail, length-append chunk rest) in
    let (reader₃, w, ran, copied) =
      io_copy_n-Copied reader₂ ctx.window len n there between.wide between.kept in
    let done : DeflateDecompressor = record ctx {
      bit_reader = record h.r₄ { reader = reader₃ };
      window = w;
    } in
    let after : left reader₃ ≡ rest =
      copied.rest ∙ ap (drop len) tail ∙ drop-append chunk rest len refl in
    let bytes : All IsByte (block is_last chunk ++ rest) =
      rw between.coming at between.clean.bytes in
    (
      done,
      deflate_decompress_block-reads fuel junk ctx done h.r₁ h.r₂ h.r₃ (to_nat is_last) len
          h.ensured h.final h.kind
          (uncompressed_block-reads (record ctx { bit_reader = h.r₃ }) h.r₄ lo hi lo' hi' len
            reader₃ w h.aligned e₁ e₂ (length_back len few) (complement_back len few) ran),
      record {
        ready = record {
          empty = h.count;
          clean = record {
            small = h.clean.small;
            bytes = rw after (All-append_right (block is_last chunk) rest bytes);
          };
          coming = after;
          kept = copied.kept;
          wide = rw copied.capacity between.wide;
        };
        grown =
            copied.grown
            ∙ ap (λ l. stream ctx.window ++ take len l) tail
            ∙ ap (λ l. stream ctx.window ++ l) (take-append chunk rest len refl);
      },
    )
  where
    length_back : (n : ℕ) → n ≤ 65535 → n % 256 + n / 256 % 256 * 256 ≡ n
    length_back n h = omega arith

    complement_back :
        (n : ℕ)
        → n ≤ 65535
        → (n == 2 ^ 16 - 1 - ((65535 - n) % 256 + (65535 - n) / 256 % 256 * 256)) ≡ true
    complement_back n h =
        let e : 2 ^ 16 - 1 - ((65535 - n) % 256 + (65535 - n) / 256 % 256 * 256) ≡ n =
          omega arith in
        rw e (ground arith)
