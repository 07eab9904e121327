-- ===== src/Kernel/Domain/Laws.antt =====
-- What a handle of sources/kernel/domain.c stands for.
use brutal.Base.{
  subst, Option, ℕ, ◌+◌, ◌%◌, ◌^◌, ◌≤◌, ◌<◌, true, false, ◌||◌, none, some, ◌≡◌, ◌≢◌, ◌⊎◌, inl, inr,
  ◌*◌, refl, arith, get_elem?, set, ◌==◌, if◌then◌else◌, length-set, get_elem?-set_self,
  get_elem?-set_ne, get_elem?-ge, get_elem?-lt, ap, ◌∙◌, sym, Bool-cases,
}
use brutal.Ds.Slot.{slot_release, slot_valid, used_at}
use brutal.Ds.Slot.Laws.{IsSlot, slot_alloc-Taken}
use brutal.Kernel.Abi.{success, BrType, any_, type_eq}
use brutal.Kernel.Object.{Objects, object_ref, object_deref, deref-ref}
use brutal.Kernel.Domain.{Domain, null, to_slot_index, domain_add, domain_remove, domain_lookup}

-- `d'` is `d` with the object `o` under the new handle `h`.
pub record Added (d : Domain) (w : Objects) (o h : ℕ) (d' : Domain) (w' : Objects) : Type 0 where
  pub table : IsSlot d'
  pub was_unused : used_at d h ≡ false
  pub inside : h < d'.capacity
  pub marks : (j : ℕ) → used_at d' j ≡ (if j == h then true else used_at d j)
  pub cell : get_elem? d'.data_ h ≡ some o
  pub other_cells : (j : ℕ) → j < d.capacity → j ≢ h → get_elem? d'.data_ j ≡ get_elem? d.data_ j
  pub counted : w' ≡ object_ref w o

-- On a well-formed table `domain_add` always succeeds: it gives the object a handle that was not
-- in use, takes one reference, and leaves every other handle as it is.
pub domain_add-Added :
    (d : Domain) (w : Objects) (o : ℕ)
    → IsSlot d
    → (h : ℕ) × (d' : Domain) × (w' : Objects) × (domain_add d w o ≡ some (h, d', w'))
      × Added d w o h d' w'
unfolding domain_add used_at
domain_add-Added d w o v =
    let (i, t, e, k) = slot_alloc-Taken null d v in
    (
      i,
      record t { data_ = set t.data_ i o },
      object_ref w o,
      rw (e, domain_add),
      record {
        table = record { cells = length-set t.data_ i o ∙ k.table.cells; marks = k.table.marks };
        was_unused = k.was_unused;
        inside = k.inside;
        marks = k.marks_now;
        cell = get_elem?-set_self t.data_ i o (omega (arith, k.inside, k.table.cells));
        other_cells = λ j h ne. get_elem?-set_ne t.data_ i j o (λ p. ne (sym p)) ∙ k.same_cells j h;
        counted = refl;
      },
    )

-- A handle within the range of an `int` is its own index.
to_slot_index-lt : (h : ℕ) → h < 2 ^ 31 → to_slot_index h ≡ some h
unfolding to_slot_index
to_slot_index-lt h lt = ground arith

module _ (d : Domain) (w : Objects) (o h : ℕ) {d' : Domain} {w' : Objects} (a : Added d w o h d' w')
    (small : h < 2 ^ 31) where
  Added-valid : slot_valid d' (to_slot_index h) ≡ true
  unfolding slot_valid
  Added-valid = rw (to_slot_index-lt h small) (ground (arith, a.inside, a.marks h))

  lookup-Added :
      (t : BrType)
      → (type_eq (w'.types o) t ≡ true) ⊎ (type_eq t any_ ≡ true)
      → domain_lookup d' w' h t ≡ some (some o, object_ref w' o)
  unfolding domain_lookup
  lookup-Added t ok = ground (arith, Added-valid, a.cell)

  remove-Added :
      0 < o
      → (d'' : Domain) × (w'' : Objects) × (domain_remove d' w' h ≡ some (success, d'', w''))
        × ((j : ℕ) → used_at d'' j ≡ used_at d j)
        × ((j : ℕ) → w''.refs j ≡ w.refs j)
  unfolding domain_remove slot_release used_at
  remove-Added alive = (
    record d' { used = set d'.used h false },
    object_deref w' o,
    ground (arith, Added-valid, a.cell, index, marked),
    λ j. ground (
      arith,
      a.marks j,
      a.was_unused,
      at j,
      a.table.marks,
      a.inside,
      get_elem?-set_self d'.used h false,
      get_elem?-set_ne d'.used h j false,
    ),
    λ j. (ap (λ (x : Objects). (object_deref x o).refs j) a.counted ∙ deref-ref w o j alive),
  )
    where
      index : to_slot_index h ≡ some h
      index = to_slot_index-lt h small

      marked : get_elem? d'.used h ≡ some true
      marked = unfold used_at in ground (arith, a.marks h)

      at : (j : ℕ) → j ≡ h → used_at d j ≡ used_at d h
      at j e = ap (used_at d) e

-- What a `domain_add` that returned has done.
domain_add-some :
    (d : Domain) (w : Objects) (o : ℕ) {h : ℕ} {d' : Domain} {w' : Objects}
    → IsSlot d
    → domain_add d w o ≡ some (h, d', w')
    → Added d w o h d' w'
domain_add-some d w o {h} {d'} {w'} v e =
    let (i, c, u, ran, a) = domain_add-Added d w o v in
    let same : (i, c, u) ≡ (h, d', w') =
      ap (λ (x : Option (ℕ × Domain × Objects)). elim x [ none ↦ (i, c, u) | some y ↦ y ])
        (sym ran ∙ e) in
    subst (λ (x : ℕ × Domain × Objects). Added d w o x.0 x.1 x.2) same a

-- After `domain_add` on a well-formed table returned a handle below 2 ^ 31, a lookup of that
-- handle, of the type of the object or of any type, gives the object back with one more reference.
pub domain_lookup-domain_add :
    (d : Domain) (w : Objects) (o : ℕ) (t : BrType) {h : ℕ} {d' : Domain} {w' : Objects}
    → IsSlot d
    → domain_add d w o ≡ some (h, d', w')
    → h < 2 ^ 31
    → (type_eq (w'.types o) t ≡ true) ⊎ (type_eq t any_ ≡ true)
    → domain_lookup d' w' h t ≡ some (some o, object_ref w' o)
domain_lookup-domain_add d w o t {h} v e small typed =
    lookup-Added d w o h (domain_add-some d w o v e) small t typed

-- After `domain_add` of an object that is not null, on a well-formed table, returned a handle
-- below 2 ^ 31, removing the handle succeeds, and the handles in use and every reference count are
-- as they were before the object was added.
domain_remove-domain_add :
    (d : Domain) (w : Objects) (o : ℕ) {h : ℕ} {d' : Domain} {w' : Objects}
    → IsSlot d
    → domain_add d w o ≡ some (h, d', w')
    → h < 2 ^ 31
    → 0 < o
    → (d'' : Domain) × (w'' : Objects) × (domain_remove d' w' h ≡ some (success, d'', w''))
      × ((j : ℕ) → used_at d'' j ≡ used_at d j)
      × ((j : ℕ) → w''.refs j ≡ w.refs j)
domain_remove-domain_add d w o {h} v e small alive =
    remove-Added d w o h (domain_add-some d w o v e) small alive

-- On a well-formed table and for a handle below 2 ^ 31: a lookup under a handle in use gives the
-- object and takes a reference if the type is right, and under any other handle or type it gives
-- the null pointer and changes nothing.
pub domain_lookup_cases :
    (d : Domain) (w : Objects) (h : ℕ) (t : BrType)
    → IsSlot d
    → h < 2 ^ 31
    → ((slot_valid d (some h) ≡ true)
        × ((o : ℕ) × (get_elem? d.data_ h ≡ some o)
            × (domain_lookup d w h t
                ≡ some (
                    if type_eq (w.types o) t || type_eq t any_
                    then (some o, object_ref w o)
                    else (none, w)))))
      ⊎ ((slot_valid d (some h) ≡ false) × (domain_lookup d w h t ≡ some (none, w)))
unfolding domain_lookup slot_valid
domain_lookup_cases d w h t v small = elim (Bool-cases (slot_valid d (some h))) [
  | inl good ↦
      let (o, cell) = get_elem?-lt d.data_ h (ground (arith, good, v.cells)) in
      inl (good, (o, cell, ground (arith, good, cell, to_slot_index-lt h small)))
  | inr bad ↦ inr (bad, ground (arith, bad, to_slot_index-lt h small))
]

-- On a well-formed table of at most 2 ^ 31 slots, the lookup of a valid handle below 2 ^ 31 plus a
-- multiple of 2 ^ 32 that is not 0 faults: it reads past the cells.
pub domain_lookup_high_handle :
    (d : Domain) (w : Objects) (h k : ℕ) (t : BrType)
    → IsSlot d
    → d.capacity ≤ 2 ^ 31
    → h < 2 ^ 31
    → slot_valid d (some h) ≡ true
    → 0 < k
    → domain_lookup d w (h + k * 2 ^ 32) t ≡ none
unfolding domain_lookup to_slot_index
domain_lookup_high_handle d w h k t v cap small valid pos =
    let low : (h + k * 2 ^ 32) % 2 ^ 32 ≡ h = omega arith in
    ground (arith, low, get_elem?-ge d.data_ (h + k * 2 ^ 32) (omega (arith, v.cells)))
