-- ===== src/Ds/Slot/Laws.antt =====
-- `slot_alloc` and what it uses, of sources/libs/brutal-ds/slot.c.
use brutal.Base.{
  ℕ, zero, suc, ◌+◌, ◌-◌, ◌/◌, ◌≤◌, ◌<◌, Bool, true, false, none, some, ◌≡◌, ◌≢◌, refl, arith, List,
  [], ◌∷◌, ◌++◌, length, get_elem?, set, replicate, ◌==◌, if◌then◌else◌, ap, sym, ◌∙◌,
  length-append, length-set, length-replicate, get_elem?-set_self, get_elem?-set_ne, inl, inr,
  lt-length, ◌⊎◌,
}
use native.Mathlib.Numerals.{add-one}
use brutal.Ds.Slot.{Slot, first_unused, slot_find, used_at, slot_capacity, retry, slot_alloc}

pub record IsSlot {ℓ} {A : Type ℓ} (s : Slot A) : Type ℓ where
  pub cells : length s.data_ ≡ s.capacity
  pub marks : length s.used ≡ s.capacity

still_true :
    (us : List Bool)
    → ((i : ℕ) → get_elem? us i ≢ some false)
    → (i : ℕ) → get_elem? (true ∷ us) i ≢ some false
still_true us all zero e = cc
still_true us all (suc i) e = all i e

-- The first unused slot is unused, or all slots are in use.
first_unused_cases :
    (us : List Bool)
    → ((i : ℕ) × (first_unused us ≡ some i) × (get_elem? us i ≡ some false))
      ⊎ ((first_unused us ≡ none) × ((i : ℕ) → get_elem? us i ≢ some false))
unfolding first_unused
first_unused_cases [] = inr (refl, λ i e. cc)
first_unused_cases (false ∷ us) = inl (0, refl, refl)
first_unused_cases (true ∷ us) = step (first_unused_cases us)
  where
    step :
        ((i : ℕ) × (first_unused us ≡ some i) × (get_elem? us i ≡ some false))
          ⊎ ((first_unused us ≡ none) × ((i : ℕ) → get_elem? us i ≢ some false))
        → ((i : ℕ) × (first_unused (true ∷ us) ≡ some i) × (get_elem? (true ∷ us) i ≡ some false))
          ⊎ ((first_unused (true ∷ us) ≡ none) × ((i : ℕ) → get_elem? (true ∷ us) i ≢ some false))
    step (inl (i, e, u)) = inl (suc i, rw e (ap some (add-one i)), u)
    step (inr (e, all)) = inr (rw e, still_true us all)

append_fresh :
    (us : List Bool) (n : ℕ) → 0 < n → get_elem? (us ++ replicate n false) (length us) ≡ some false
append_fresh [] zero h = elim h [ ]
append_fresh [] (suc n) h = refl
append_fresh (u ∷ us) n h = append_fresh us n h

abbrev marked : List Bool → ℕ → Bool
marked us i = elim (get_elem? us i) [ none ↦ false | some u ↦ u ]

marked-append : (us : List Bool) (n j : ℕ) → marked (us ++ replicate n false) j ≡ marked us j
marked-append [] zero j = refl
marked-append [] (suc n) zero = refl
marked-append [] (suc n) (suc j) = marked-append [] n j
marked-append (u ∷ us) n zero = refl
marked-append (u ∷ us) n (suc j) = marked-append us n j

get_elem?-append {ℓ} :
    {A : Type ℓ} (xs ys : List A) (j : ℕ) → j < length xs → get_elem? (xs ++ ys) j ≡ get_elem? xs j
get_elem?-append [] ys j h = elim h [ ]
get_elem?-append (x ∷ xs) ys zero h = refl
get_elem?-append (x ∷ xs) ys (suc j) h = get_elem?-append xs ys j (omega arith)

module _ {A : Type 0} where
  -- `t` is `s` with the slot `i`, unused before, in use: every other slot is as it was.
  pub record Taken (s : Slot A) (i : ℕ) (t : Slot A) : Type 0 where
    pub table : IsSlot t
    pub was_unused : used_at s i ≡ false
    pub inside : i < t.capacity
    pub marks_now : (j : ℕ) → used_at t j ≡ (if j == i then true else used_at s j)
    pub same_cells : (j : ℕ) → j < s.capacity → get_elem? t.data_ j ≡ get_elem? s.data_ j
    pub grown : s.capacity ≤ t.capacity

  -- A larger table: the same marks, and the old cells.
  record Grown (s t : Slot A) : Type 0 where
    table : IsSlot t
    same_marks : (j : ℕ) → used_at t j ≡ used_at s j
    same_cells : (j : ℕ) → j < s.capacity → get_elem? t.data_ j ≡ get_elem? s.data_ j
    grown : s.capacity ≤ t.capacity

  slot_capacity-Grown :
      (z : A) (s : Slot A) (n : ℕ)
      → IsSlot s
      → Grown s (slot_capacity z s n) × (n ≤ (slot_capacity z s n).capacity)
  unfolding slot_capacity used_at
  slot_capacity-Grown z s n v = (
    record {
      table = ground (
        arith,
        v.cells,
        v.marks,
        length-append s.data_ (replicate (n - s.capacity) z),
        length-replicate (n - s.capacity) z,
        length-append s.used (replicate (n - s.capacity) false),
        length-replicate (n - s.capacity) false,
      );
      same_marks = λ j. ground (arith, marked-append s.used (n - s.capacity) j);
      same_cells =
          λ j h. ground (arith, v.cells, get_elem?-append s.data_ (replicate (n - s.capacity) z) j);
      grown = ground arith;
    },
    ground arith,
  )

  -- What `slot_find` takes is unused.
  slot_find-cases :
      (s : Slot A)
      → IsSlot s
      → ((i : ℕ) × (t : Slot A) × (slot_find s ≡ (some i, t)) × Taken s i t)
        ⊎ ((slot_find s ≡ (none, s)) × ((i : ℕ) → get_elem? s.used i ≢ some false))
  unfolding slot_find used_at
  slot_find-cases s v = cases (first_unused_cases s.used)
    where
      cases :
          ((i : ℕ) × (first_unused s.used ≡ some i) × (get_elem? s.used i ≡ some false))
            ⊎ ((first_unused s.used ≡ none) × ((i : ℕ) → get_elem? s.used i ≢ some false))
          → ((i : ℕ) × (t : Slot A) × (slot_find s ≡ (some i, t)) × Taken s i t)
            ⊎ ((slot_find s ≡ (none, s)) × ((i : ℕ) → get_elem? s.used i ≢ some false))
      cases (inr (e, all)) = inr (rw (e, slot_find), all)
      cases (inl (i, e, u)) = inl (
        i,
        record s { used = set s.used i true },
        rw (e, slot_find),
        record {
          table = record { cells = v.cells; marks = length-set s.used i true ∙ v.marks };
          was_unused = rw (u, used_at);
          inside = omega (arith, lt-length s.used i u, v.marks);
          marks_now = λ j. ground (
            arith,
            lt-length s.used i u,
            get_elem?-set_self s.used i true,
            get_elem?-set_ne s.used i j true,
          );
          same_cells = λ j h. refl;
          grown = omega arith;
        },
      )

  Taken-Grown : {s t u : Slot A} {i : ℕ} → Grown s t → Taken t i u → Taken s i u
  Taken-Grown {s} {t} {u} {i} g k = record {
    table = k.table;
    was_unused = sym (g.same_marks i) ∙ k.was_unused;
    inside = k.inside;
    marks_now = λ j. ground (arith, k.marks_now j, g.same_marks j);
    same_cells = λ j h. k.same_cells j (omega (arith, g.grown)) ∙ g.same_cells j h;
    grown = omega (arith, k.grown, g.grown);
  }

  Grown-trans : {s t u : Slot A} → Grown s t → Grown t u → Grown s u
  Grown-trans g h = record {
    table = h.table;
    same_marks = λ j. h.same_marks j ∙ g.same_marks j;
    same_cells = λ j k. h.same_cells j (omega (arith, g.grown)) ∙ g.same_cells j k;
    grown = omega (arith, g.grown, h.grown);
  }

  -- The first slot that a larger table adds is unused.
  slot_capacity-fresh :
      (z : A) (s : Slot A) (n : ℕ)
      → IsSlot s
      → s.capacity < n
      → get_elem? (slot_capacity z s n).used s.capacity ≡ some false
  unfolding slot_capacity
  slot_capacity-fresh z s n v h =
      rw (← v.marks) (ground (arith, v.marks, append_fresh s.used (n - s.capacity)))

  -- On a well-formed table `slot_alloc` always returns an index: its slot was not in use and is in
  -- use now, every other slot is as before, and the table has not shrunk.
  pub slot_alloc-Taken :
      (z : A) (s : Slot A)
      → IsSlot s
      → (i : ℕ) × (t : Slot A) × (slot_alloc z s ≡ (some i, t)) × Taken s i t
  unfolding slot_alloc retry
  slot_alloc-Taken z s v = first (slot_find-cases wide grown.0.table)
    where
      wide : Slot A
      wide = slot_capacity z s 16

      grown : Grown s wide × (16 ≤ wide.capacity)
      grown = slot_capacity-Grown z s 16 v

      wider : Slot A
      wider = slot_capacity z wide (wide.capacity + wide.capacity / 4)

      grown_again : Grown s wider
      grown_again =
          Grown-trans grown.0
            (slot_capacity-Grown z wide (wide.capacity + wide.capacity / 4) grown.0.table).0

      second :
          slot_find wide ≡ (none, wide)
          → ((i : ℕ) × (t : Slot A) × (slot_find wider ≡ (some i, t)) × Taken wider i t)
            ⊎ ((slot_find wider ≡ (none, wider)) × ((i : ℕ) → get_elem? wider.used i ≢ some false))
          → (i : ℕ) × (t : Slot A) × (slot_alloc z s ≡ (some i, t)) × Taken s i t
      second full (inl (i, t, e, k)) = (i, t, rw full e, Taken-Grown grown_again k)
      second full (inr (e, all)) = absurd (
          all wide.capacity (
            slot_capacity-fresh z wide (wide.capacity + wide.capacity / 4) grown.0.table
              (omega (arith, grown.1))))

      first :
          ((i : ℕ) × (t : Slot A) × (slot_find wide ≡ (some i, t)) × Taken wide i t)
            ⊎ ((slot_find wide ≡ (none, wide)) × ((i : ℕ) → get_elem? wide.used i ≢ some false))
          → (i : ℕ) × (t : Slot A) × (slot_alloc z s ≡ (some i, t)) × Taken s i t
      first (inl (i, t, e, k)) = (i, t, rw e, Taken-Grown grown.0 k)
      first (inr (e, full)) = second e (slot_find-cases wider grown_again.table)
