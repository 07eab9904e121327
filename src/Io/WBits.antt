-- ===== src/Io/WBits.antt =====
-- sources/libs/brutal-io/wbits.h: bits to a stream over an array, the lowest bit of a byte first.
use brutal.Base.{
  ℕ, zero, suc, ◌+◌, ◌-◌, ◌%◌, ◌^◌, ◌<<<◌, ◌>>>◌, [], ◌∷◌, bit_and, bit_or, leb, if◌then◌else◌,
  add64, sub64,
}
use brutal.Io.Mem.{IoMem, io_mem_write}

pub record IoWBits : Type 0 where
  pub writer : IoMem
  pub bitbuf : ℕ
  pub bitcount : ℕ

unfoldable pub io_wbits_init : IoMem → IoWBits
io_wbits_init writer = record { writer = writer; bitbuf = 0; bitcount = 0 }

unfoldable pub io_wbits_add_bits : ℕ → ℕ → IoWBits → IoWBits
io_wbits_add_bits bits num_bits self = record self {
  bitbuf = bit_or self.bitbuf ((bits <<< self.bitcount) % 2 ^ 64);
  bitcount = self.bitcount + num_bits;
}

-- The loop runs while a whole byte is in the buffer: `bitcount / 8` rounds, and the fuel is larger.
unfoldable pub flush_loop : ℕ → IoWBits → IoWBits
flush_loop zero self = self
flush_loop (suc fuel) self =
    let rest = flush_loop fuel (record {
      writer = (io_mem_write self.writer (self.bitbuf % 256 ∷ [])).1;
      bitbuf = self.bitbuf >>> 8;
      bitcount = self.bitcount - 8;
    }) in
    if leb 8 self.bitcount then rest else self

unfoldable pub io_wbits_flush_bits : IoWBits → IoWBits
io_wbits_flush_bits self = flush_loop (suc self.bitcount) self

unfoldable pub io_wbits_flush_bits_remaining : IoWBits → IoWBits
io_wbits_flush_bits_remaining self =
    let flushed = io_wbits_flush_bits self in
    record {
      writer = (io_mem_write flushed.writer (flushed.bitbuf % 256 ∷ [])).1;
      bitbuf = 0;
      bitcount = 0;
    }

-- `-self->bitcount & 7` bits are missing to the next byte.
unfoldable pub io_wbits_align_bitstream : IoWBits → IoWBits
io_wbits_align_bitstream self =
    io_wbits_flush_bits
      (record self { bitcount = add64 self.bitcount (bit_and (sub64 0 self.bitcount) 7) })
