-- ===== src/Ds/Slot.antt =====
-- sources/libs/brutal-ds/slot.c: a table of slots with a mark for each slot in use. A cell holds
-- one element, which stands for its `data_size` bytes; `zeroed` is the cell of all zero bytes.
-- A `SlotIndex` is an `int`: `none` stands for a negative one.
pub mod Laws
use brutal.Base.{
  ℕ, ◌+◌, ◌-◌, ◌/◌, ◌<◌, Bool, true, false, not, ◌&&◌, Option, none, some, List, [], ◌∷◌, ◌++◌,
  length, get_elem?, set, replicate, ltb, leb, ◌==◌, if◌then◌else◌, ◌>>=◌, ◌>>◌, assert,
}

pub record Slot {ℓ} (A : Type ℓ) : Type ℓ where
  pub data_ : List A
  pub used : List Bool
  pub capacity : ℕ

-- The index of the first unused slot.
unfoldable pub first_unused : List Bool → Option ℕ
first_unused [] = none
first_unused (true ∷ us) = first_unused us >>= λ i. some (i + 1)
first_unused (false ∷ us) = some 0

module _ {ℓ} {A : Type ℓ} where
  unfoldable pub slot_init : Slot A
  slot_init = record { data_ = []; used = []; capacity = 0 }

  unfoldable pub slot_find : Slot A → Option ℕ × Slot A
  slot_find s = elim (first_unused s.used) [
    | none ↦ (none, s)
    | some i ↦ (some i, record s { used = set s.used i true })
  ]

  unfoldable pub slot_acquire : Slot A → ℕ → Option (Slot A)
  slot_acquire s index = do
    u ← get_elem? s.used index
    assert (not u)
    some (record s { used = set s.used index true })

  unfoldable pub slot_release : Slot A → Option ℕ → Option (Slot A)
  slot_release s index = do
    i ← index
    u ← get_elem? s.used i
    assert u
    some (record s { used = set s.used i false })

  unfoldable pub used_at : Slot A → ℕ → Bool
  used_at s i = elim (get_elem? s.used i) [ none ↦ false | some u ↦ u ]

  unfoldable pub slot_valid : Slot A → Option ℕ → Bool
  unfolding used_at
  slot_valid s none = false
  slot_valid s (some i) = ltb i s.capacity && used_at s i

module _ {ℓ} {A : Type ℓ} (zeroed : A) where
  -- The old cells are copied to the front of zeroed memory.
  unfoldable pub slot_capacity : Slot A → ℕ → Slot A
  slot_capacity s new_capacity = if leb new_capacity s.capacity then s else record {
    data_ = s.data_ ++ replicate (new_capacity - s.capacity) zeroed;
    used = s.used ++ replicate (new_capacity - s.capacity) false;
    capacity = new_capacity;
  }

  -- The second half of `slot_alloc_impl`: a full table grows by a quarter.
  unfoldable pub retry : Option ℕ × Slot A → Option ℕ × Slot A
  retry (some i, s) = (some i, s)
  retry (none, s) = slot_find (slot_capacity s (s.capacity + s.capacity / 4))

  unfoldable pub slot_alloc : Slot A → Option ℕ × Slot A
  slot_alloc s = retry (slot_find (slot_capacity s 16))
