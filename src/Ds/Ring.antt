-- ===== src/Ds/Ring.antt =====
-- sources/libs/brutal-ds/ring.c: a ring buffer over a fixed number of cells. A cell holds one
-- element, which stands for the `data_size` bytes that are copied. The counters are `int`s that
-- never pass the capacity.
pub mod Fifo
use brutal.Base.{
  ℕ, ◌+◌, ◌-◌, ◌%◌, Bool, true, false, not, Option, none, some, List, [], get_elem?, set, replicate,
  ◌==◌, if◌then◌else◌, ◌>>=◌,
}

-- `RingImpl`
pub record Ring {ℓ} (A : Type ℓ) : Type ℓ where
  pub data_ : List A
  pub head : ℕ
  pub tail : ℕ
  pub used : ℕ
  pub capacity : ℕ

module _ {ℓ} {A : Type ℓ} where
  -- `zeroed` is the cell of all zero bytes that `alloc_calloc` returns.
  unfoldable pub ring_init : A → ℕ → Ring A
  ring_init zeroed capacity = record {
    data_ = replicate capacity zeroed;
    head = 0;
    tail = 0;
    used = 0;
    capacity = capacity;
  }

  unfoldable pub ring_push : Ring A → A → Bool × Ring A
  ring_push r x = if r.used == r.capacity then (false, r) else (
    true,
    record r { data_ = set r.data_ r.head x; head = (r.head + 1) % r.capacity; used = r.used + 1 },
  )

  -- What is copied out of the ring; `none` in the outer option is a read past the cells.
  unfoldable pub ring_pop : Ring A → Option (Option A × Ring A)
  ring_pop r =
      if r.used == 0
      then some (none, r)
      else (get_elem? r.data_ r.tail >>= λ x.
          some (some x, record r { tail = (r.tail + 1) % r.capacity; used = r.used - 1 }))

  unfoldable pub ring_clear : Ring A → Ring A
  ring_clear r = record r { head = 0; tail = 0; used = 0 }

  unfoldable pub ring_len : Ring A → ℕ
  ring_len r = r.used

  unfoldable pub ring_full : Ring A → Bool
  ring_full r = r.used == r.capacity

  unfoldable pub ring_any : Ring A → Bool
  ring_any r = not (r.used == 0)
