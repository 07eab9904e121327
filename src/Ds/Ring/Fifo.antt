-- ===== src/Ds/Ring/Fifo.antt =====
-- A ring of sources/libs/brutal-ds/ring.c as a queue: its elements, oldest first, are in the cells
-- from `tail` on, going round at the capacity.
use brutal.Base.{
  ℕ, suc, ◌+◌, ◌-◌, ◌%◌, ◌≤◌, ◌<◌, true, false, none, some, ◌≡◌, ◌≢◌, refl, arith, List, [], ◌∷◌,
  ◌++◌, length, get_elem?, set, length-append, length-set, length-replicate, get_elem?-set_self,
  get_elem?-set_ne, ◌⊎◌, ◌↔◌, inl, inr, ap, ◌∙◌,
}
use native.Mathlib.Decide.{dec_lt, ℕ_discrete}
use native.Mathlib.Nat.{mod-eq_of_lt, mod-eq-sub-mod, mod-add-mod, add-zero}
use brutal.Ds.Ring.{Ring, ring_init, ring_push, ring_pop, ring_clear, ring_len, ring_full, ring_any}

module _ {ℓ} {A : Type ℓ} where
  -- The cells from index `i` on, going round at `cap`, hold the elements of the list in order.
  abbrev pub Holds : List A → ℕ → ℕ → List A → Type ℓ
  Holds cells cap i [] = Unit
  Holds cells cap i (x ∷ xs) = (get_elem? cells i ≡ some x) × Holds cells cap ((i + 1) % cap) xs

  -- `r` is a well-formed ring that holds the queue `q`.
  pub record IsRingOf (q : List A) (r : Ring A) : Type ℓ where
    pub cells : length r.data_ ≡ r.capacity
    pub tail_in : r.tail < r.capacity
    pub fits : r.used ≤ r.capacity
    pub head_at : r.head ≡ (r.tail + r.used) % r.capacity
    pub count : length q ≡ r.used
    pub holds : Holds r.data_ r.capacity r.tail q

-- One step round the ring.
next_lt : (i cap : ℕ) → i < cap → (i + 1) % cap < cap
next_lt i cap h = omega arith

-- Going round fewer than `cap` cells never comes back to the start.
round_ne : (i k cap : ℕ) → i < cap → suc k < cap → (i + suc k) % cap ≢ i
round_ne i k cap h hk = elim (dec_lt (i + suc k) cap) [
  | yes p ↦ omega (arith, mod-eq_of_lt p)
  | no p ↦ omega (
    arith,
    mod-eq-sub-mod {n = i + suc k} {m = cap} (omega arith),
    mod-eq_of_lt {n = i + suc k - cap} {m = cap} (omega arith),
  )
]

round_suc : (i k cap : ℕ) → i < cap → (i + suc k) % cap ≡ ((i + 1) % cap + k) % cap
round_suc i k cap h = rw mod-add-mod (ap (λ n. n % cap) (omega arith))

mod_suc : (i k cap : ℕ) → i < cap → (i + (k + 1)) % cap ≡ ((i + k) % cap + 1) % cap
mod_suc i k cap h = rw mod-add-mod (ap (λ n. n % cap) (omega arith))

module _ {ℓ} {A : Type ℓ} where
  -- A write just past the held cells appends to the queue.
  Holds-append :
      (cells : List A) (cap : ℕ) (x : A) (xs : List A) (i h : ℕ)
      → length cells ≡ cap
      → i < cap
      → length xs < cap
      → h ≡ (i + length xs) % cap
      → Holds cells cap i xs
      → Holds (set cells h x) cap i (xs ++ x ∷ [])
  Holds-append cells cap x [] i h len hi hx e hold =
      let at : h ≡ i = e ∙ (rw add-zero (mod-eq_of_lt hi)) in
      (rw at (get_elem?-set_self cells i x (omega arith)), tt)
  Holds-append cells cap x (y ∷ ys) i h len hi hx e hold = (
    get_elem?-set_ne cells h i x (rw e (round_ne i (length ys) cap hi hx)) ∙ hold.0,
    Holds-append cells cap x ys ((i + 1) % cap) h len (next_lt i cap hi) (omega arith)
        (e ∙ round_suc i (length ys) cap hi) hold.1,
  )

  -- A new ring holds the empty queue.
  pub ring_init-IsRingOf : (z : A) (cap : ℕ) → 0 < cap → IsRingOf [] (ring_init z cap)
  unfolding ring_init
  ring_init-IsRingOf z cap h = ground (arith, length-replicate cap z)

  -- Clearing forgets the queue.
  pub ring_clear-IsRingOf : {q : List A} {r : Ring A} → IsRingOf q r → IsRingOf [] (ring_clear r)
  unfolding ring_clear
  ring_clear-IsRingOf v = ground (arith, v.cells, v.tail_in)

  -- On a ring that holds a queue: a push to a full ring returns false and changes nothing, and any
  -- other push returns true and appends to the queue.
  pub ring_push-IsRingOf :
      {q : List A} {r : Ring A} (x : A)
      → IsRingOf q r
      → let (done, r') = ring_push r x in
        ((length q ≡ r.capacity) × (done ≡ false) × (r' ≡ r))
        ⊎ ((length q < r.capacity) × (done ≡ true) × IsRingOf (q ++ x ∷ []) r')
  unfolding ring_push
  ring_push-IsRingOf {q} {r} x v = elim (ℕ_discrete r.used r.capacity) [
    | yes full ↦ ground (arith, v.count)
    | no room ↦ inr (
        ground (
          arith,
          v.count,
          v.fits,
          v.head_at,
          v.tail_in,
          v.cells,
          length-append q (x ∷ []),
          length-set r.data_ r.head x,
          round_suc r.tail r.used r.capacity,
          mod_suc r.tail r.used r.capacity,
          Holds-append r.data_ r.capacity x q r.tail r.head,
          v.holds,
        ))
  ]

  -- On a ring that holds a queue: a pop from an empty queue returns nothing and changes nothing,
  -- and any other pop returns the oldest element and leaves the others, in order.
  pub ring_pop-IsRingOf :
      {q : List A} {r : Ring A}
      → IsRingOf q r
      → ((q ≡ []) × (ring_pop r ≡ some (none, r)))
        ⊎ ((x : A) × (xs : List A) × (r' : Ring A) × (q ≡ x ∷ xs)
            × (ring_pop r ≡ some (some x, r'))
            × IsRingOf xs r')
  unfolding ring_pop
  ring_pop-IsRingOf {q = []} {r} v = inl (refl, ground (arith, v.count))
  ring_pop-IsRingOf {q = x ∷ xs} {r} v = inr (
    x,
    xs,
    record r { tail = (r.tail + 1) % r.capacity; used = r.used - 1 },
    refl,
    ground (arith, v.count, v.holds),
    record {
      cells = v.cells;
      tail_in = next_lt r.tail r.capacity v.tail_in;
      fits = omega (arith, v.fits);
      head_at =
          v.head_at
          ∙ ap (λ k. (r.tail + k) % r.capacity) (omega (arith, v.count))
          ∙ round_suc r.tail (r.used - 1) r.capacity v.tail_in;
      count = omega (arith, v.count);
      holds = v.holds.1;
    },
  )

  -- On a ring that holds a queue: the length is that of the queue, the ring is full if the queue
  -- is as long as the capacity and only then, and it has an element if the queue is not empty and
  -- only then.
  pub ring_len-IsRingOf :
      {q : List A} {r : Ring A}
      → IsRingOf q r
      → (ring_len r ≡ length q)
        × ((ring_full r ≡ true) ↔ (length q ≡ r.capacity))
        × ((ring_any r ≡ true) ↔ (q ≢ []))
  unfolding ring_len ring_full ring_any
  ring_len-IsRingOf {q = []} {r} v = ground (arith, v.count, v.fits, v.tail_in)
  ring_len-IsRingOf {q = x ∷ xs} {r} v = ground (arith, v.count)
