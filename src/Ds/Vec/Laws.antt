-- ===== src/Ds/Vec/Laws.antt =====
-- A vector of sources/libs/brutal-ds/vec.c as the list of its elements.
use brutal.Base.{
  ℕ, zero, suc, ◌+◌, ◌-◌, ◌*◌, ◌≤◌, ◌<◌, min, true, Option, some, ◌≡◌, ◌≢◌, refl, arith, List, [],
  ◌∷◌, ◌++◌, length, get_elem?, set, take, drop, erase_idx, ◌==◌, if◌then◌else◌, ap, length-set,
  get_elem?-set_self, get_elem?-set_ne,
}
use native.Mathlib.Numerals.{add-one}
use brutal.Ds.Vec.{
  Vec, capacity, vec_splice, vec_realloc, vec_expand, vec_push, vec_insert_impl, vec_insert,
}

abbrev pub items {ℓ} : {A : Type ℓ} → Vec A → List A
items v = take v.len v.cells

module _ {ℓ} {A : Type ℓ} where
  take-set_snoc :
      (xs : List A) (n : ℕ) (x : A)
      → n < length xs
      → take (suc n) (set xs n x) ≡ take n xs ++ x ∷ []
  take-set_snoc [] n x h = elim h [ ]
  take-set_snoc (y ∷ ys) zero x h = refl
  take-set_snoc (y ∷ ys) (suc n) x h = ap (◌∷◌ y) (take-set_snoc ys n x (omega arith))

  take-append_take : (n : ℕ) (xs ys : List A) → n ≤ length xs → take n (take n xs ++ ys) ≡ take n xs
  take-append_take zero xs ys h = refl
  take-append_take (suc n) [] ys h = elim h [ ]
  take-append_take (suc n) (x ∷ xs) ys h = ap (◌∷◌ x) (take-append_take n xs ys (omega arith))

  length-take-drop :
      (n : ℕ) (xs ys : List A)
      → n ≤ length xs
      → n ≤ length ys
      → length (take n xs ++ drop n ys) ≡ length ys
  length-take-drop zero xs ys h k = refl
  length-take-drop (suc n) [] ys h k = elim h [ ]
  length-take-drop (suc n) (x ∷ xs) [] h k = elim k [ ]
  length-take-drop (suc n) (x ∷ xs) (y ∷ ys) h k =
      ap suc (length-take-drop n xs ys (omega arith) (omega arith))

  splice_take :
      (xs : List A) (s m k d l : ℕ) (rest : List A)
      → s ≤ m
      → m < length xs
      → k ≡ m - s
      → d ≡ suc s
      → l ≡ suc m
      → take m (take s xs ++ take k (drop d xs) ++ rest) ≡ erase_idx (take l xs) s
  splice_take [] s m k d l rest h lt ek ed el = elim lt [ ]
  splice_take (x ∷ xs) zero m k d l rest h lt ek ed el =
      let at : k ≡ m = omega arith in rw (at, ed, el) (take-append_take m xs rest (omega arith))
  splice_take (x ∷ xs) (suc s) zero k d l rest h lt ek ed el = elim h [ ]
  splice_take (x ∷ xs) (suc s) (suc m) k d l rest h lt ek ed el =
      rw (ed, el)
        (ap (◌∷◌ x) (
          splice_take xs s m k (suc s) (suc m) rest (omega arith) (omega arith) (omega arith) refl
            refl))

  -- On a vector no longer than its cells, splicing out the one element at an index in range
  -- removes exactly that element.
  pub items-vec_splice :
      (v : Vec A) (i : ℕ)
      → i < v.len
      → v.len ≤ capacity v
      → items (vec_splice v i 1) ≡ erase_idx (items v) i
  unfolding vec_splice
  items-vec_splice v i h k =
      splice_take v.cells i (v.len - 1) (v.len - i - 1) (i + 1) v.len (drop (v.len - 1) v.cells)
        (omega arith) (omega arith) (omega arith) (omega arith) (omega arith)

module _ {A : Type 0} (acquire : ℕ → Option (List A)) where
  -- `acquire n` returns `n` cells, for what this vector may ask.
  abbrev pub Supplies : Type 0
  Supplies = (n : ℕ) → (fresh : List A) × (acquire n ≡ some fresh) × (length fresh ≡ n)

  -- Expanding makes room for one more element and keeps the elements.
  vec_expand-room :
      (v : Vec A)
      → Supplies
      → v.len ≤ capacity v
      → let (done, w) = vec_expand acquire v in
        (done ≡ true) × (w.len ≡ v.len) × (items w ≡ items v) × (v.len < capacity w)
  unfolding vec_expand vec_realloc
  vec_expand-room v supply h =
      let (fresh, got, size) = supply (if capacity v == 0 then 1 else capacity v * 2) in
      ground (
        arith,
        got,
        size,
        take-append_take v.len v.cells
            (drop (min v.len (if capacity v == 0 then 1 else capacity v * 2)) fresh),
        length-take-drop v.len v.cells fresh h,
        clip v.len (if capacity v == 0 then 1 else capacity v * 2),
      )
    where
      clip : (a b : ℕ) → a ≤ b → min a b ≡ a
      clip a b le = omega arith

  -- With memory for every request, and a vector no longer than its cells: a push succeeds and
  -- appends the element, whether or not the cells have to be moved.
  pub items-vec_push :
      (v : Vec A) (x : A)
      → Supplies
      → v.len ≤ capacity v
      → let (done, w) = vec_push acquire v x in
        (done ≡ true) × (items w ≡ items v ++ x ∷ []) × (w.len ≤ capacity w)
  unfolding vec_push
  items-vec_push v x supply h =
      let room = vec_expand-room v supply h in
      let w = (vec_expand acquire v).1 in
      ground (
        arith,
        room,
        take-set_snoc w.cells w.len x,
        length-set w.cells w.len x,
        ap (λ n. take n (set w.cells w.len x)) (add-one w.len),
      )

  -- With a free cell, `vec_insert` at an index in range returns true and counts one element more,
  -- but writes over the element at the index and changes no other cell.
  vec_insert_overwrites :
      (v : Vec A) (idx : ℕ) (x : A)
      → idx < v.len
      → v.len < capacity v
      → let (done, w) = vec_insert acquire v idx x in
        (done ≡ true)
        × (w.len ≡ v.len + 1)
        × (get_elem? w.cells idx ≡ some x)
        × ((j : ℕ) → j ≢ idx → get_elem? w.cells j ≡ get_elem? v.cells j)
  unfolding vec_insert vec_insert_impl vec_expand
  vec_insert_overwrites v idx x h k =
      ground (arith, get_elem?-set_self v.cells idx x, λ (j : ℕ). get_elem?-set_ne v.cells idx j x)
