-- ===== src/Ds/Bits.antt =====
-- sources/libs/brutal-ds/bits.h and bits.c: a bitmap over bytes, and the range type that it
-- hands out. An access outside the bytes is a fault.
pub mod Laws
pub mod Range
pub mod Find
pub mod Down
use brutal.Base.{
  ℕ, zero, suc, ◌+◌, ◌-◌, ◌*◌, ◌/◌, ◌%◌, ◌^◌, min, bit_and, bit_or, Bool, true, false, not, ◌||◌,
  Option, none, some, List, length, get_elem?, set, replicate, ltb, leb, ◌==◌, same, if◌then◌else◌,
  ◌>>=◌, ◌>>◌, assert, add64,
}

-- `Bits`: `size` is the number of bytes.
pub record Bits : Type 0 where
  pub data_ : List ℕ
  pub size : ℕ

-- `Range(size_t)`
pub record BitsRange : Type 0 where
  pub base : ℕ
  pub size : ℕ

abbrev pub empty_range : BitsRange
empty_range = record { base = 0; size = 0 }

abbrev pub range_end : BitsRange → ℕ
range_end r = add64 r.base r.size

-- `byte & (1 << k)`, as a Boolean
unfoldable pub test_bit : ℕ → ℕ → Bool
test_bit byte k = not (bit_and byte (2 ^ k) == 0)

-- `byte | (1 << k)` and `byte & ~(1 << k)`, for a byte
unfoldable pub change_bit : ℕ → ℕ → Bool → ℕ
change_bit byte k true = bit_or byte (2 ^ k)
change_bit byte k false = bit_and byte (255 - 2 ^ k)

unfoldable pub bits_get : Bits → ℕ → Option Bool
bits_get bits index = do byte ← get_elem? bits.data_ (index / 8); some (test_bit byte (index % 8))

unfoldable pub bits_set : Bits → ℕ → Bool → Option Bits
bits_set bits index value = do
  byte ← get_elem? bits.data_ (index / 8)
  some (record bits { data_ = set bits.data_ (index / 8) (change_bit byte (index % 8) value) })

abbrev pub bits_len : Bits → ℕ
bits_len bits = bits.size * 8

unfoldable pub bits_init : List ℕ → ℕ → Bits
bits_init data_ size = record { data_ = data_; size = size }

-- `memset` writes `size` bytes; the storage is taken to hold exactly these.
unfoldable pub bits_fill : Bits → Bool → Bits
bits_fill bits value = record bits { data_ = replicate bits.size (if value then 0xff else 0) }

-- The loop of `bits_set_range`, with `left` rounds to go at bit `index`.
unfoldable pub set_loop : ℕ → Bits → ℕ → Bool → ℕ → Option (ℕ × Bits)
set_loop zero bits index value count = some (count, bits)
set_loop (suc left) bits index value count = do
  old ← bits_get bits index
  elim (same old value) [
    | true ↦ set_loop left bits (index + 1) value count
    | false ↦ bits_set bits index value >>= λ new. set_loop left new (index + 1) value (count + 1)
  ]

unfoldable pub bits_set_range : Bits → BitsRange → Bool → Option (ℕ × Bits)
bits_set_range bits range value = do
  assert (leb (range_end range) (bits_len bits))
  set_loop range.size bits range.base value 0

-- The run of free bits that ends at bit `index`, after that bit has been read.
unfoldable pub extend_run : Bool → ℕ → Bool → BitsRange → BitsRange
extend_run upper index used run = if used then empty_range else (record {
  base = if (run.size == 0) || upper then index else run.base;
  size = run.size + 1;
})

-- The loop of `bits_find_free`, with `left` rounds to go at bit `index`.
unfoldable pub find_loop : ℕ → Bits → ℕ → Bool → ℕ → BitsRange → Option BitsRange
find_loop zero bits size upper index run = some empty_range
find_loop (suc left) bits size upper index run = do
  used ← bits_get bits index
  let next = extend_run upper index used run
  let rest = find_loop left bits size upper (if upper then index - 1 else index + 1) next
  if size == next.size then some next else rest

-- Downwards the loop runs while `i > 0`, upwards while `i < bits_len(bits)`.
unfoldable pub bits_find_free : Bits → ℕ → ℕ → Bool → Option BitsRange
bits_find_free bits start size upper = do
  assert (ltb 1 (bits_len bits))
  let first = min start (bits_len bits)
  let rounds = if upper then first else bits_len bits - first
  if bits.size == 0 then some empty_range else find_loop rounds bits size upper first empty_range
