-- ===== src/Io/RBits/Laws.antt =====
-- A bit stream as the list of the bits that are left: those in the buffer, then those of the bytes.
use brutal.Base.{
  ◌%◌, ℕ, zero, suc, ◌+◌, ◌-◌, ◌*◌, ◌^◌, ◌≤◌, ◌<◌, true, false, List, [], ◌∷◌, ◌++◌, All, length,
  take, drop, ◌≡◌, refl, ◌⊎◌, ap, sym, ◌∙◌, ltb, leb, ◌<<<◌, ◌>>>◌, bit_and, bit_or, Bool-cases,
  inl, inr, arith, shifted, bit_and-low, bit_or_low, shifted-pow, length-append, take-append,
  drop-append, take-append_front, drop-append_front,
}
use native.Mathlib.Nat.{mul-le-mul, pow-le-pow_right}
use mathlib.Core.List.{append_assoc, append-nil}
use brutal.Io.Res.{ok, ◌>>=◌}
use brutal.Io.Mem.{IoMem, io_mem_read}
use brutal.Io.Mem.Laws.{left, io_mem_read-left}
use brutal.Io.RBits.{
  IoRBits, shift_is_int, take_byte, ensure_loop, io_rbits_ensure_bits, io_rbits_get_bits,
  io_rbits_remove_bits, io_rbits_pop_bits, io_rbits_align,
}
use brutal.Io.RBits.Bits.{
  bits_of, value, bytes_bits, length-bits_of, bits_of_above, bits_of-low, bits_of-drop, above_small,
  shrinks,
}

abbrev pub bits_left : IoRBits → List ℕ
bits_left self = bits_of self.bitcount self.bitbuf ++ bytes_bits (left self.reader)

abbrev pub IsByte : ℕ → Type 0
IsByte b = b < 256

-- The buffer has no bit beyond its count, and the stream gives bytes.
pub record IsClean (self : IoRBits) : Type 0 where
  pub small : self.bitbuf < 2 ^ self.bitcount
  pub bytes : All IsByte (left self.reader)

take_byte-cons :
    (self : IoRBits) (p : List ℕ × IoMem) (b : ℕ)
    → p.0 ≡ b ∷ []
    → shift_is_int b self.bitcount ≡ true
    → take_byte self p
      ≡ ok (record {
        reader = p.1;
        bitbuf = bit_or (b <<< self.bitcount) self.bitbuf;
        bitcount = self.bitcount + 8;
      })
unfolding take_byte
take_byte-cons self ([], r) b e exact = absurd (ground arith)
take_byte-cons self (x ∷ xs, r) b e exact = let at : x ≡ b = ground arith in rw (at, exact)

List-cases : (xs : List ℕ) → (xs ≡ []) ⊎ ((x : ℕ) × (rest : List ℕ) × (xs ≡ x ∷ rest))
List-cases [] = inl refl
List-cases (x ∷ xs) = inr (x, xs, refl)

length_no_bytes : (self : IoRBits) → left self.reader ≡ [] → length (bits_left self) ≡ self.bitcount
length_no_bytes self e =
    rw e
      (ap length (append-nil (bits_of self.bitcount self.bitbuf)) ∙ length-bits_of self.bitcount _)

-- What the bits that are left become when `self` gets ready for a read.
record Readied (self r : IoRBits) : Type 0 where
  same : bits_left r ≡ bits_left self
  clean : IsClean r

-- A byte shifted by at most 23 is an `int`.
shift_is_int_byte : (b n : ℕ) → IsByte b → n ≤ 23 → shift_is_int b n ≡ true
shift_is_int_byte b n byte le =
    let pow : 2 ^ n ≤ 2 ^ 23 = pow-le-pow_right (omega arith) le in
    let exact : b * 2 ^ n ≤ 255 * 2 ^ 23 = mul-le-mul {n₂ = 255} (omega arith) pow in
    ground (arith, exact)

-- One byte moves into the buffer.
take_byte-Readied :
    (self : IoRBits) (b : ℕ) (bs : List ℕ)
    → IsClean self
    → self.bitcount ≤ 23
    → left self.reader ≡ b ∷ bs
    → (r : IoRBits) × (take_byte self (io_mem_read self.reader 1) ≡ ok r)
      × (r.bitcount ≡ self.bitcount + 8)
      × (left r.reader ≡ bs)
      × Readied self r
take_byte-Readied self b bs clean room e =
    let (got, rest) = io_mem_read-left self.reader 1 in
    let first : (io_mem_read self.reader 1).0 ≡ b ∷ [] = got ∙ ap (take 1) e in
    let rest' : left (io_mem_read self.reader 1).1 ≡ bs =
      rest ∙ ap (λ l. drop (length (take 1 l)) l) e in
    let bytes : All IsByte (b ∷ bs) = rw e at clean.bytes in
    let or : bit_or (b <<< self.bitcount) self.bitbuf ≡ shifted self.bitcount b + self.bitbuf =
      bit_or_low self.bitcount b _ self.bitbuf (shifted-pow self.bitcount b) clean.small
      ∙ ap (λ t. t + self.bitbuf) (shifted-pow self.bitcount b) in
    (
      record {
        reader = (io_mem_read self.reader 1).1;
        bitbuf = bit_or (b <<< self.bitcount) self.bitbuf;
        bitcount = self.bitcount + 8;
      },
      take_byte-cons self (io_mem_read self.reader 1) b first
          (shift_is_int_byte b self.bitcount bytes.0 room),
      refl,
      rest',
      record {
        same =
            rw (or, rest', e)
              (ap (λ l. l ++ bytes_bits bs)
                  (bits_of_above self.bitcount 8 self.bitbuf b clean.small)
                ∙ append_assoc (bits_of self.bitcount self.bitbuf) (bits_of 8 b) (bytes_bits bs));
        clean = record {
          small = rw or (above_small self.bitcount b self.bitbuf bytes.0 clean.small);
          bytes = rw rest' bytes.1;
        };
      },
    )

ensure_loop-Readied :
    (fuel n : ℕ) (self : IoRBits)
    → IsClean self
    → n ≤ length (bits_left self)
    → n ≤ self.bitcount + fuel
    → n ≤ 24
    → (r : IoRBits) × (ensure_loop fuel n self ≡ ok r) × (n ≤ r.bitcount) × Readied self r
unfolding ensure_loop
ensure_loop-Readied zero n self clean h k narrow =
    let full : ltb self.bitcount n ≡ false = ground arith in
    (self, rw full, ground arith, record { same = refl; clean = clean })
ensure_loop-Readied (suc fuel) n self clean h k narrow = elim (Bool-cases (ltb self.bitcount n)) [
  | inr full ↦ (self, rw full, ground arith, record { same = refl; clean = clean })
  | inl short ↦ elim (List-cases (left self.reader)) [
    | inl none_left ↦
        absurd
          (ground (arith, length-bits_of self.bitcount self.bitbuf, length_no_bytes self none_left))
    | inr (b, bs, e) ↦
        let (t, took, count, tail, ready) = take_byte-Readied self b bs clean (ground arith) e in
        let enough : n ≤ length (bits_left t) = rw ready.same h in
        let (r, ran, all, done) =
          ensure_loop-Readied fuel n t ready.clean enough (omega arith) narrow in
        (r, rw (short, took) ran, all, record { same = done.same ∙ ready.same; clean = done.clean })
  ]
]

-- A buffer with at least `n` bits gives the number that the first `n` of them stand for.
pub io_rbits_pop_bits-value :
    (n : ℕ) (self : IoRBits)
    → IsClean self
    → n ≤ self.bitcount
    → n ≤ 30
    → (r : IoRBits) × (io_rbits_pop_bits n self ≡ ok (value (take n (bits_left self)), r))
      × (bits_left r ≡ drop n (bits_left self))
      × IsClean r
      × (r.bitcount ≡ self.bitcount - n)
      × (r.reader ≡ self.reader)
unfolding io_rbits_pop_bits io_rbits_get_bits io_rbits_remove_bits
io_rbits_pop_bits-value n self clean h narrow =
    let test : leb n self.bitcount ≡ true = ground arith in
    let exact : shift_is_int 1 n ≡ true =
      let pow : 2 ^ n ≤ 2 ^ 30 = pow-le-pow_right (omega arith) narrow in ground arith in
    let front = bits_of self.bitcount self.bitbuf in
    let mask : 1 * 2 ^ n - 1 ≡ 2 ^ n - 1 = omega arith in
    let read : bit_and self.bitbuf (1 * 2 ^ n - 1) ≡ value (take n (bits_left self)) =
      ap (bit_and self.bitbuf) mask
      ∙ bit_and-low n self.bitbuf
      ∙ sym (bits_of-low n self.bitcount self.bitbuf h)
      ∙ ap value (sym (take-append_front front _ n (rw length-bits_of h))) in
    (
      record self { bitbuf = self.bitbuf >>> n; bitcount = self.bitcount - n },
      rw (test, exact, read),
      ap (λ l. l ++ bytes_bits (left self.reader))
            (sym (bits_of-drop n self.bitcount self.bitbuf h))
          ∙ sym (drop-append_front front _ n (rw length-bits_of h)),
      record { small = shrinks n self.bitcount self.bitbuf h clean.small; bytes = clean.bytes },
      refl,
      refl,
    )

ensure_full : (fuel n : ℕ) (self : IoRBits) → n ≤ self.bitcount → ensure_loop fuel n self ≡ ok self
unfolding ensure_loop
ensure_full zero n self h = let full : ltb self.bitcount n ≡ false = ground arith in rw full
ensure_full (suc fuel) n self h = let full : ltb self.bitcount n ≡ false = ground arith in rw full

-- On a clean bit reader whose next bits, the lowest of a byte first, are at most 24 given ones:
-- making sure of that many and popping them gives their number, and leaves exactly the bits after
-- them, in a clean reader.
pub io_rbits_pop_bits-io_rbits_ensure_bits :
    (self : IoRBits) (bits rest : List ℕ)
    → IsClean self
    → bits_left self ≡ bits ++ rest
    → length bits ≤ 24
    → (r : IoRBits) × ((io_rbits_ensure_bits (length bits) self >>= io_rbits_pop_bits (length bits))
        ≡ ok (value bits, r))
      × (bits_left r ≡ rest)
      × IsClean r
unfolding io_rbits_ensure_bits
io_rbits_pop_bits-io_rbits_ensure_bits self bits rest clean e small =
    let n = length bits in
    let test : leb n 57 ≡ true = ground arith in
    let there : n ≤ length (bits_left self) = omega (arith, ap length e, length-append bits rest) in
    let (t, ran, full, ready) = ensure_loop-Readied n n self clean there (omega arith) small in
    let (r, popped, left_over, done, count, same) =
      io_rbits_pop_bits-value n t ready.clean full (omega arith) in
    let now : bits_left t ≡ bits ++ rest = ready.same ∙ e in
    (
      r,
      rw (test, ran)
          (popped
            ∙ ap (λ l. ok (value (take n l), r)) now
            ∙ ap (λ l. ok (value l, r)) (take-append bits rest n refl)),
      left_over ∙ ap (drop n) now ∙ drop-append bits rest n refl,
      done,
    )

-- A first byte is taken into an empty buffer.
pub ensure_fresh :
    (self : IoRBits) (n b : ℕ) (bs : List ℕ)
    → self.bitcount ≡ 0
    → IsClean self
    → left self.reader ≡ b ∷ bs
    → 0 < n
    → n ≤ 8
    → (r : IoRBits) × (io_rbits_ensure_bits n self ≡ ok r)
      × (r.bitcount ≡ 8)
      × (left r.reader ≡ bs)
      × (bits_left r ≡ bits_left self)
      × IsClean r
unfolding io_rbits_ensure_bits ensure_loop
ensure_fresh self zero b bs zero_bits clean e pos small = elim pos [ ]
ensure_fresh self (suc n) b bs zero_bits clean e pos small =
    let test : leb (suc n) 57 ≡ true = ground arith in
    let (t, took, count, tail, ready) = take_byte-Readied self b bs clean (omega arith) e in
    let short : ltb self.bitcount (suc n) ≡ true = ground arith in
    (
      t,
      rw (test, short, took) (ensure_full n (suc n) t (omega arith)),
      omega arith,
      tail,
      ready.same,
      ready.clean,
    )

-- Aligning drops what is left of a byte.
pub io_rbits_align-drops :
    (self : IoRBits)
    → self.bitcount < 8
    → IsClean self
    → (r : IoRBits) × (io_rbits_align self ≡ ok r)
      × (r.bitcount ≡ 0)
      × (r.reader ≡ self.reader)
      × IsClean r
unfolding io_rbits_align io_rbits_remove_bits
io_rbits_align-drops self small clean =
    let count : self.bitcount % 8 ≡ self.bitcount = omega arith in
    let test : leb self.bitcount self.bitcount ≡ true = ground arith in
    (
      record self {
        bitbuf = self.bitbuf >>> self.bitcount;
        bitcount = self.bitcount - self.bitcount;
      },
      rw (count, test),
      omega arith,
      refl,
      record {
        small = shrinks self.bitcount self.bitcount self.bitbuf (omega arith) clean.small;
        bytes = clean.bytes;
      },
    )
