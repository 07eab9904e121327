-- ===== src/Kernel/Parcel/Laws.antt =====
-- The reference counts that sources/kernel/parcel.c keeps.
use brutal.Base.{
  ℕ, zero, suc, ◌+◌, ◌-◌, ◌≤◌, ◌<◌, true, false, not, ◌&&◌, Option, none, some, ◌≡◌, ◌⊎◌, inl, inr,
  refl, arith, List, [], ◌∷◌, get_elem?, get_elem?-set_ne, set, replicate, ◌==◌, if◌then◌else◌, ap,
  ◌∙◌, Bool-cases, Option-cases,
}
use brutal.Kernel.Abi.{BrResult, success, bad_handle, any_, type_eq}
use brutal.Kernel.Object.{Objects, object_ref, object_deref, refs-object_deref}
use brutal.Ds.Slot.{slot_valid}
use brutal.Kernel.Domain.{Domain, to_slot_index, domain_lookup}
use brutal.Kernel.Parcel.{
  BrMsg, Parcel, no_objs, arg_count, has_handle, parcel_deinit, pointer, pack_loop, parcel_pack,
}

-- How often an object stands in a parcel.
abbrev pub count : ℕ → List ℕ → ℕ
count j [] = 0
count j (o ∷ os) = (if o == j then 1 else 0) + count j os

-- Dropping a parcel drops one reference for each time an object stands in it.
pub refs-parcel_deinit :
    (os : List ℕ) (w : Objects) (j : ℕ)
    → 0 < j
    → (parcel_deinit os w).refs j ≡ w.refs j - count j os
unfolding parcel_deinit
refs-parcel_deinit [] w j h = omega arith
refs-parcel_deinit (o ∷ os) w j h = ground (
  arith,
  refs-parcel_deinit os (if o == 0 then w else object_deref w o) j h,
  refs-object_deref w o j,
  at,
)
  where
    at : j ≡ o → w.refs j ≡ w.refs o
    at e = ap w.refs e

-- A lookup of any type returns nothing, or an object with a reference.
lookup_any_cases :
    (d : Domain) (w : Objects) (handle : ℕ) {found : Option ℕ} {w' : Objects}
    → domain_lookup d w handle any_ ≡ some (found, w')
    → ((found ≡ none) × (w' ≡ w)) ⊎ ((o : ℕ) × (found ≡ some o) × (w' ≡ object_ref w o))
unfolding domain_lookup
lookup_any_cases d w handle {found} {w'} e =
    elim (Bool-cases (slot_valid d (to_slot_index handle))) [
      | inr bad ↦ inl (ground arith, ground arith)
      | inl good ↦ elim (Option-cases (get_elem? d.data_ handle)) [
        | inl out ↦ absurd (ground arith)
        | inr (o, cell) ↦
            let typed : (not (type_eq (w.types o) any_) && not true) ≡ false = ground arith in
            inr (o, ground arith, ground arith)
      ]
    ]

lookup_any-refs :
    (w w' : Objects) (found : Option ℕ) (j : ℕ)
    → 0 < j
    → ((found ≡ none) × (w' ≡ w)) ⊎ ((o : ℕ) × (found ≡ some o) × (w' ≡ object_ref w o))
    → w'.refs j ≡ w.refs j + (if pointer found == j then 1 else 0)
unfolding object_ref
lookup_any-refs w w' found j h (inl (a, b)) = rw (a, b) (ground arith)
lookup_any-refs w w' found j h (inr (o, a, b)) = rw (a, b) (ground (arith, at))
  where
    at : j ≡ o → w.refs j ≡ w.refs o
    at e = ap w.refs e

get_elem?-replicate : (n k a : ℕ) → k < n → get_elem? (replicate n a) k ≡ some a
get_elem?-replicate zero k a h = elim h [ ]
get_elem?-replicate (suc n) zero a h = refl
get_elem?-replicate (suc n) (suc k) a h = get_elem?-replicate n k a (omega arith)

count-set :
    (j : ℕ) (os : List ℕ) (i o : ℕ)
    → 0 < j
    → get_elem? os i ≡ some 0
    → count j (set os i o) ≡ count j os + (if o == j then 1 else 0)
count-set j [] i o h e = absurd (ground arith)
count-set j (x ∷ xs) zero o h e = ground arith
count-set j (x ∷ xs) (suc i) o h e = omega (arith, count-set j xs i o h e)

-- From argument `i` on the parcel is still empty.
abbrev Empty : List ℕ → ℕ → ℕ → Type 0
Empty objs i left = (k : ℕ) → i ≤ k → k < i + left → get_elem? objs k ≡ some 0

-- What packing leaves behind, from the counts `refs` before: the references of the parcel on
-- success, none otherwise.
abbrev pub Packed : (ℕ → ℕ) → BrResult → List ℕ → Objects → Type 0
Packed refs res objs w =
    ((res ≡ success) × ((j : ℕ) → 0 < j → w.refs j ≡ refs j + count j objs))
    ⊎ ((res ≡ bad_handle) × ((j : ℕ) → 0 < j → w.refs j ≡ refs j))

module _ (m : BrMsg) (d : Domain) (refs : ℕ → ℕ) where
  -- An argument that is a handle: it is looked up, and a null pointer ends the loop.
  pack_taken :
      (left i : ℕ) (objs : List ℕ) (w : Objects) {res : BrResult} {objs' : List ℕ} {w' : Objects}
      → has_handle m i ≡ true
      → pack_loop (suc left) i m d objs w ≡ some (res, objs', w')
      → (found : Option ℕ) × (w₁ : Objects) × (((found ≡ none) × (w₁ ≡ w))
          ⊎ ((o : ℕ) × (found ≡ some o) × (w₁ ≡ object_ref w o)))
        × (((res ≡ bad_handle) × (w' ≡ parcel_deinit (set objs i (pointer found)) w₁))
            ⊎ (pack_loop left (i + 1) m d (set objs i (pointer found)) w₁ ≡ some (res, objs', w')))
  unfolding pack_loop
  pack_taken left i objs w {res} {objs'} {w'} taken e = elim (Option-cases (get_elem? m.args i)) [
    | inl out ↦ absurd (ground arith)
    | inr (handle, at) ↦ elim (Option-cases (domain_lookup d w handle any_)) [
      | inl fault ↦ absurd (ground arith)
      | inr ((found, w₁), got) ↦ (
        found,
        w₁,
        lookup_any_cases d w handle got,
        elim (Bool-cases (pointer found == 0)) [
          | inl null ↦ inl (ground arith, ground arith)
          | inr live ↦ inr (ground arith)
        ],
      )
    ]
  ]

  -- A bad handle undoes the references taken so far; otherwise the loop goes on.
  undo_or :
      (objs : List ℕ) (i : ℕ) (found : Option ℕ) (w₁ : Objects) {res : BrResult} (objs' : List ℕ)
      {w' : Objects} {Q : Type 0}
      → ((j : ℕ) → 0 < j → w₁.refs j ≡ refs j + count j (set objs i (pointer found)))
      → ((res ≡ bad_handle) × (w' ≡ parcel_deinit (set objs i (pointer found)) w₁)) ⊎ Q
      → (Q → Packed refs res objs' w')
      → Packed refs res objs' w'
  undo_or objs i found w₁ objs' counts (inl (bad, undone)) go_on = inr (
    bad,
    λ j h.
        rw undone
          (omega (arith, refs-parcel_deinit (set objs i (pointer found)) w₁ j h, counts j h)),
  )
  undo_or objs i found w₁ objs' counts (inr more) go_on = go_on more

  pack_loop-Packed :
      (left i : ℕ) (objs : List ℕ) (w : Objects) {res : BrResult} {objs' : List ℕ} {w' : Objects}
      → Empty objs i left
      → ((j : ℕ) → 0 < j → w.refs j ≡ refs j + count j objs)
      → pack_loop left i m d objs w ≡ some (res, objs', w')
      → Packed refs res objs' w'
  unfolding pack_loop
  pack_loop-Packed zero i objs w {res} {objs'} {w'} free counts e =
      inl (ground arith, λ j h. ground (arith, counts j h))
  pack_loop-Packed (suc left) i objs w {res} {objs'} {w'} free counts e =
      elim (Bool-cases (has_handle m i)) [
        | inr skip ↦
            let e' : pack_loop left (i + 1) m d objs w ≡ some (res, objs', w') = ground arith in
            pack_loop-Packed left (i + 1) objs w (λ k p q. free k (omega arith) (omega arith))
              counts e'
        | inl taken ↦
            let (found, w₁, cases, rest) = pack_taken left i objs w taken e in
            let empty : get_elem? objs i ≡ some 0 = free i (omega arith) (omega arith) in
            let counts' : (j : ℕ)
                → 0 < j
                → w₁.refs j ≡ refs j + count j (set objs i (pointer found)) =
              λ j h. omega (
                arith,
                lookup_any-refs w w₁ found j h cases,
                count-set j objs i (pointer found) h empty,
                counts j h,
              ) in
            undo_or objs i found w₁ objs' counts' rest (
              pack_loop-Packed left (i + 1) (set objs i (pointer found)) w₁
                (λ k p q.
                  get_elem?-set_ne objs i k (pointer found) (omega arith)
                  ∙ free k (omega arith) (omega arith))
                counts')
      ]

-- When `parcel_pack` returns, it succeeded and took one reference for each time an object stands
-- in the parcel, or it found a bad handle and every reference count is as before.
pub parcel_pack-Packed :
    (m : BrMsg) (d : Option Domain) (w : Objects) {res : BrResult} {p : Parcel} {w' : Objects}
    → parcel_pack m d w ≡ some (res, p, w')
    → Packed w.refs res p.objs w'
unfolding parcel_pack
parcel_pack-Packed m none w {res} {p} {w'} e =
    inl (ground arith, λ j h. ground (arith, no_objs-count j h))
  where
    no_objs-count : (j : ℕ) → 0 < j → count j no_objs ≡ 0
    no_objs-count j h = ground arith
parcel_pack-Packed m (some d) w {res} {p} {w'} e =
    elim (Option-cases (pack_loop arg_count 0 m d no_objs w)) [
      | inl fault ↦ absurd (ground arith)
      | inr ((res₁, objs, w₁), got) ↦
          let packed =
            pack_loop-Packed m d w.refs arg_count 0 no_objs w empty (λ j h. ground arith) got in
          let a : res₁ ≡ res = ground arith in
          let b : objs ≡ p.objs = ground arith in
          let c : w₁ ≡ w' = ground arith in rw (← a, ← b, ← c) packed
    ]
  where
    empty : Empty no_objs 0 arg_count
    empty k p q = get_elem?-replicate arg_count k 0 (omega arith)
