-- ===== src/Ds/Bits/Laws.antt =====
-- Single bits of sources/libs/brutal-ds/bits.h: a read after a write.
use brutal.Base.{
  ℕ, ◌/◌, ◌%◌, ◌≤◌, ◌<◌, Bool, true, false, none, some, length, get_elem?, set, All, ◌≡◌, refl,
  arith, ◌==◌, ltb, same, same→eq, if◌then◌else◌, all_below, all_below-lt, length-set,
  get_elem?-set_self, get_elem?-set_ne, get_elem?-lt, get_elem?-ge, ◌∙◌, lt-length, All-get_elem?,
  All-set, Option-cases, inl, inr, ltb→lt,
}
use brutal.Ds.Bits.{Bits, test_bit, change_bit, bits_get, bits_set, bits_len}

-- The bytes are bytes, and there are `size` of them.
pub record IsBitmap (b : Bits) : Type 0 where
  pub bytes : All (λ x. x < 256) b.data_
  pub sized : length b.data_ ≡ b.size

bit_table :
    (v : Bool)
    → all_below 256 (λ x. all_below 8 (λ k.
      all_below 8 (λ j. same (test_bit (change_bit x k v) j) (if j == k then v else test_bit x j))))
      ≡ true
unfolding all_below test_bit change_bit
bit_table true = refl
bit_table false = refl

-- A bit of a byte reads as it was written, and a write leaves the other bits alone.
test_bit-change_bit :
    (v : Bool) (x k j : ℕ)
    → x < 256
    → k < 8
    → j < 8
    → test_bit (change_bit x k v) j ≡ (if j == k then v else test_bit x j)
test_bit-change_bit v x k j hx hk hj =
    same→eq _ _
      (all_below-lt 8 _ j (all_below-lt 8 _ k (all_below-lt 256 _ x (bit_table v) hx) hk) hj)

byte_table : (v : Bool) → all_below 256 (λ x. all_below 8 (λ k. ltb (change_bit x k v) 256)) ≡ true
unfolding all_below change_bit
byte_table true = refl
byte_table false = refl

change_bit-lt : (v : Bool) (x k : ℕ) → x < 256 → k < 8 → change_bit x k v < 256
change_bit-lt v x k hx hk =
    ltb→lt _ _ (all_below-lt 8 _ k (all_below-lt 256 _ x (byte_table v) hx) hk)

-- A set within the bitmap succeeds.
pub bits_get-lt :
    {b : Bits} (i : ℕ) → IsBitmap b → i < bits_len b → (v : Bool) × (bits_get b i ≡ some v)
unfolding bits_get
bits_get-lt {b} i w h =
    let (x, e) = get_elem?-lt b.data_ (i / 8) (omega (arith, w.sized)) in (test_bit x (i % 8), rw e)

pub bits_get-ge : {b : Bits} (i : ℕ) → IsBitmap b → bits_len b ≤ i → bits_get b i ≡ none
unfolding bits_get
bits_get-ge {b} i w h = rw (get_elem?-ge b.data_ (i / 8) (omega (arith, w.sized)))

abbrev written : Bits → ℕ → Bool → ℕ → Bits
written b i v x = record b { data_ = set b.data_ (i / 8) (change_bit x (i % 8) v) }

pub bits_set-lt :
    {b : Bits} (i : ℕ) (v : Bool)
    → IsBitmap b
    → i < bits_len b
    → (c : Bits) × (bits_set b i v ≡ some c)
unfolding bits_set
bits_set-lt {b} i v w h =
    let (x, e) = get_elem?-lt b.data_ (i / 8) (omega (arith, w.sized)) in (written b i v x, rw e)

bits_set-some :
    (b : Bits) {c : Bits} (i : ℕ) (v : Bool)
    → bits_set b i v ≡ some c
    → (x : ℕ) × (get_elem? b.data_ (i / 8) ≡ some x) × (c ≡ written b i v x)
unfolding bits_set
bits_set-some b i v e = elim (Option-cases (get_elem? b.data_ (i / 8))) [
  | inl out ↦ absurd (ground (arith, out))
  | inr (x, found) ↦ (x, found, ground arith)
]

pub bits_set-IsBitmap :
    {b c : Bits} (i : ℕ) (v : Bool)
    → IsBitmap b
    → bits_set b i v ≡ some c
    → IsBitmap c × (c.size ≡ b.size)
bits_set-IsBitmap {b} {c} i v w e =
    let (x, found, is) = bits_set-some b i v e in
    rw is (
      record {
        bytes =
            All-set (λ (y : ℕ). y < 256) b.data_ (i / 8) (change_bit x (i % 8) v) w.bytes
              (change_bit-lt v x (i % 8)
                (All-get_elem? (λ y. y < 256) b.data_ (i / 8) w.bytes found) (omega arith));
        sized = length-set b.data_ (i / 8) (change_bit x (i % 8) v) ∙ w.sized;
      },
      refl,
    )

-- Reading after a write.
pub bits_get-bits_set :
    {b c : Bits} (i : ℕ) (v : Bool) (j : ℕ)
    → IsBitmap b
    → bits_set b i v ≡ some c
    → bits_get c j ≡ (if j == i then some v else bits_get b j)
unfolding bits_get
bits_get-bits_set {b} {c} i v j w e =
    let (x, found, is) = bits_set-some b i v e in
    rw is (
      ground (
        arith,
        get_elem?-set_self b.data_ (i / 8) (change_bit x (i % 8) v),
        get_elem?-set_ne b.data_ (i / 8) (j / 8) (change_bit x (i % 8) v),
        lt-length b.data_ (i / 8) found,
        found,
        test_bit-change_bit v x (i % 8) (j % 8)
            (All-get_elem? (λ y. y < 256) b.data_ (i / 8) w.bytes found),
      ))
