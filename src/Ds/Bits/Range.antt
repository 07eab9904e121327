-- ===== src/Ds/Bits/Range.antt =====
-- `bits_set_range` of sources/libs/brutal-ds/bits.c.
use brutal.Base.{
  ℕ, zero, suc, ◌+◌, ◌≤◌, ◌<◌, Bool, false, Option, none, some, ◌≡◌, refl, ap, arith, ltb, leb,
  word, same, same→eq, ◌&&◌, if◌then◌else◌, Bool-cases, inl, inr, ◌∙◌,
}
use native.Mathlib.Nat.{add-zero}
use brutal.Ds.Bits.{Bits, BitsRange, bits_get, bits_set, bits_len, set_loop, bits_set_range}
use brutal.Ds.Bits.Laws.{IsBitmap, bits_get-lt, bits_set-lt, bits_set-IsBitmap, bits_get-bits_set}

abbrev pub in_span : ℕ → ℕ → ℕ → Bool
in_span base size j = leb base j && ltb j (base + size)

-- How many of the `n` bits from `i` on do not read as `v`.
unfoldable pub differing : ℕ → Bits → ℕ → Bool → ℕ
differing zero b i v = 0
differing (suc n) b i v =
    (elim (bits_get b i) [ none ↦ 0 | some u ↦ if same u v then 0 else 1 ])
    + differing n b (i + 1) v

-- The result of setting the bits `[base, base + n)` of `b` to `v`.
pub record IsSpanSet (b : Bits) (base n : ℕ) (v : Bool) (c : Bits) : Type 0 where
  pub bitmap : IsBitmap c
  pub same_size : c.size ≡ b.size
  pub reads : (j : ℕ) → bits_get c j ≡ (if in_span base n j then some v else bits_get b j)

pub record LoopSets (b : Bits) (base n : ℕ) (v : Bool) (count : ℕ) : Type 0 where
  pub new : Bits
  pub returns : set_loop n b base v count ≡ some (count + differing n b base v, new)
  pub result : IsSpanSet b base n v new

-- A later part of a bitmap is counted alike when it reads alike.
differing_ext :
    (n : ℕ) (b c : Bits) (i : ℕ) (v : Bool)
    → ((j : ℕ) → i ≤ j → bits_get c j ≡ bits_get b j)
    → differing n c i v ≡ differing n b i v
unfolding differing
differing_ext zero b c i v h = refl
differing_ext (suc n) b c i v h =
    rw (h i (omega arith), differing_ext n b c (i + 1) v (λ j le. h j (omega arith)))

module _ (n : ℕ) (b : Bits) (i : ℕ) (v : Bool) (w : IsBitmap b) where
  IsSpanSet-skip :
      {c : Bits} → bits_get b i ≡ some v → IsSpanSet b (i + 1) n v c → IsSpanSet b i (suc n) v c
  IsSpanSet-skip {c} read rest = record {
    bitmap = rest.bitmap;
    same_size = rest.same_size;
    reads = λ j. ground (arith, rest.reads j, read);
  }

  IsSpanSet-write :
      {c d : Bits} → bits_set b i v ≡ some c → IsSpanSet c (i + 1) n v d → IsSpanSet b i (suc n) v d
  IsSpanSet-write {c} {d} put rest = record {
    bitmap = rest.bitmap;
    same_size = rest.same_size ∙ (bits_set-IsBitmap i v w put).1;
    reads = λ j. ground (arith, rest.reads j, bits_get-bits_set i v j w put);
  }

  LoopSets-skip :
      (count : ℕ)
      → bits_get b i ≡ some v
      → LoopSets b (i + 1) n v count
      → LoopSets b i (suc n) v count
  unfolding set_loop differing
  LoopSets-skip count read rest = record {
    new = rest.new;
    returns = ground (arith, rest.returns, read);
    result = IsSpanSet-skip read rest.result;
  }

  LoopSets-write :
      (count : ℕ) (u : Bool) {c : Bits}
      → bits_get b i ≡ some u
      → same u v ≡ false
      → bits_set b i v ≡ some c
      → LoopSets c (i + 1) n v (count + 1)
      → LoopSets b i (suc n) v count
  unfolding set_loop differing
  LoopSets-write count u {c} read ne put rest = record {
    new = rest.new;
    returns = ground (
      arith,
      rest.returns,
      differing_ext n b c (i + 1) v (λ j le. ground (arith, bits_get-bits_set i v j w put)),
    );
    result = IsSpanSet-write put rest.result;
  }

-- Within the bitmap the loop returns, and does what the range operation promises.
pub set_loop-LoopSets :
    (n : ℕ) (b : Bits) (i : ℕ) (v : Bool) (count : ℕ)
    → IsBitmap b
    → i + n ≤ bits_len b
    → LoopSets b i n v count
unfolding set_loop differing
set_loop-LoopSets zero b i v count w h = record {
  new = b;
  returns = rw add-zero;
  result = record { bitmap = w; same_size = refl; reads = λ j. ground arith };
}
set_loop-LoopSets (suc n) b i v count w h =
    let (u, read) = bits_get-lt i w (omega arith) in
    elim (Bool-cases (same u v)) [
      | inl eq ↦
          LoopSets-skip n b i v w count (read ∙ ap some (same→eq u v eq))
            (set_loop-LoopSets n b (i + 1) v count w (omega arith))
      | inr ne ↦
          let (c, put) = bits_set-lt i v w (omega arith) in
          let kept = bits_set-IsBitmap i v w put in
          LoopSets-write n b i v w count u read ne put
            (set_loop-LoopSets n c (i + 1) v (count + 1) kept.0 (omega (arith, kept.1)))
    ]

-- What a call of `bits_set_range` leaves: the bits of the range read `v`, all others are as
-- before, and `count` is the number of bits of the range that had to change.
pub record SetRange (b : Bits) (r : BitsRange) (v : Bool) (result : Option (ℕ × Bits))
    : Type 0 where
  pub new : Bits
  pub returns : result ≡ some (differing r.size b r.base v, new)
  pub changed : IsSpanSet b r.base r.size v new

-- On a well-formed bitmap a range that ends within it and does not wrap is set without a fault:
-- its bits read the value, all others are unchanged, and the count is the number of its bits that
-- had to change.
pub bits_set_range-SetRange :
    (b : Bits) (r : BitsRange) (v : Bool)
    → IsBitmap b
    → r.base + r.size < word
    → r.base + r.size ≤ bits_len b
    → SetRange b r v (bits_set_range b r v)
unfolding bits_set_range
bits_set_range-SetRange b r v w small h =
    let loop = set_loop-LoopSets r.size b r.base v 0 w h in
    record { new = loop.new; returns = ground (arith, loop.returns); changed = loop.result }
