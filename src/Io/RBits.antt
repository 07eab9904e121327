-- ===== src/Io/RBits.antt =====
-- sources/libs/brutal-io/rbits.h: bits from a stream, the lowest bit of a byte first. A read at the
-- end of the stream gives no byte and no error, and the source then uses a byte that was never
-- written: a fault here. Shifts whose left operand is an `int` are undefined once the result is no
-- `int`: a fault too.
pub mod Bits
pub mod Laws
use brutal.Base.{
  ℕ, zero, suc, ◌+◌, ◌-◌, ◌%◌, ◌^◌, Bool, ◌&&◌, ◌<<<◌, ◌>>>◌, List, [], ◌∷◌, bit_and, bit_or, ltb,
  leb, if◌then◌else◌,
}
use brutal.Io.Res.{Res, ok, fault, ◌>>=◌, ◌>>◌, assert}
use brutal.Io.Mem.{IoMem, io_mem_read}

pub record IoRBits : Type 0 where
  pub reader : IoMem
  pub bitbuf : ℕ
  pub bitcount : ℕ

abbrev pub bitbuf_nbits : ℕ
bitbuf_nbits = 64

abbrev pub max_ensure : ℕ
max_ensure = bitbuf_nbits - 7

unfoldable pub io_rbits_init : IoMem → IoRBits
io_rbits_init reader = record { reader = reader; bitbuf = 0; bitcount = 0 }

-- `x << n` is defined and positive as an `int`.
abbrev pub shift_is_int : ℕ → ℕ → Bool
shift_is_int x n = ltb n 32 && ltb (x <<< n) (2 ^ 31)

-- One byte more in the buffer, from the bytes that `io_read` gave.
unfoldable pub take_byte : IoRBits → List ℕ × IoMem → Res IoRBits
take_byte self ([], reader) = fault
take_byte self (b ∷ bs, reader) =
    assert (shift_is_int b self.bitcount)
    >> ok (record {
      reader = reader;
      bitbuf = bit_or (b <<< self.bitcount) self.bitbuf;
      bitcount = self.bitcount + 8;
    })

-- The loop of `io_rbits_ensure_bits`; every round adds eight bits.
unfoldable pub ensure_loop : ℕ → ℕ → IoRBits → Res IoRBits
ensure_loop zero num_bits self = if ltb self.bitcount num_bits then fault else ok self
ensure_loop (suc fuel) num_bits self =
    let more = take_byte self (io_mem_read self.reader 1) >>= ensure_loop fuel num_bits in
    if ltb self.bitcount num_bits then more else ok self

unfoldable pub io_rbits_ensure_bits : ℕ → IoRBits → Res IoRBits
io_rbits_ensure_bits num_bits self =
    assert (leb num_bits max_ensure) >> ensure_loop num_bits num_bits self

unfoldable pub io_rbits_get_bits : ℕ → IoRBits → Res ℕ
io_rbits_get_bits num_bits self =
    assert (leb num_bits self.bitcount)
    >> assert (shift_is_int 1 num_bits)
    >> ok (bit_and self.bitbuf ((1 <<< num_bits) - 1))

unfoldable pub io_rbits_remove_bits : ℕ → IoRBits → Res IoRBits
io_rbits_remove_bits num_bits self =
    assert (leb num_bits self.bitcount)
    >> ok (record self { bitbuf = self.bitbuf >>> num_bits; bitcount = self.bitcount - num_bits })

unfoldable pub io_rbits_pop_bits : ℕ → IoRBits → Res (ℕ × IoRBits)
io_rbits_pop_bits num_bits self = do
  assert (leb num_bits self.bitcount)
  result ← io_rbits_get_bits num_bits self
  self' ← io_rbits_remove_bits num_bits self
  ok (result, self')

unfoldable pub io_rbits_align : IoRBits → Res IoRBits
io_rbits_align self = io_rbits_remove_bits (self.bitcount % 8) self
