-- ===== src/Bvm/Obj/Chain.antt =====
-- The walks up the prototypes in sources/libs/bvm/obj/obj.c.
use brutal.Base.{
  ℕ, zero, suc, ◌≤◌, ◌<◌, leb, Bool-cases, some, List, [], ◌∷◌, length, get_elem?, ◌≡◌, inl, inr,
  refl, arith,
}
use brutal.Bvm.Val.{BvmVal, bvm_val_undef}
use brutal.Bvm.Obj.{BvmObj, bvm_obj_loadv, is_undef}

-- Every object is younger than its prototype, and has the values that its length says.
pub record IsHeap (h : List BvmObj) : Type 0 where
  pub older : (i : ℕ) (o : BvmObj) → get_elem? h i ≡ some o → o.proto ≤ i
  pub filled : (i : ℕ) (o : BvmObj) → get_elem? h i ≡ some o → o.len ≤ length o.vals

get_elem?-in :
    {A : Type 0} (xs : List A) (i : ℕ) → i < length xs → (a : A) × (get_elem? xs i ≡ some a)
get_elem?-in [] i h = absurd (omega arith)
get_elem?-in (x ∷ xs) zero h = (x, refl)
get_elem?-in (x ∷ xs) (suc i) h = get_elem?-in xs i (omega arith)

-- On objects that are younger than their prototypes and have the values that their lengths say:
-- with more fuel than the number of the object, the search for a value up the prototypes ends with
-- one.
pub bvm_obj_loadv-total :
    (fuel : ℕ) (h : List BvmObj) (self index : ℕ)
    → IsHeap h
    → self ≤ length h
    → self < fuel
    → (v : BvmVal) × (bvm_obj_loadv fuel h self index ≡ some v)
unfolding bvm_obj_loadv
bvm_obj_loadv-total zero h self index ok inside enough = absurd (omega arith)
bvm_obj_loadv-total (suc fuel) h zero index ok inside enough = (bvm_val_undef, refl)
bvm_obj_loadv-total (suc fuel) h (suc i) index ok inside enough =
    let (o, at) = get_elem?-in h i (omega arith) in
    let old : o.proto ≤ i = ok.older i o at in
    let full : o.len ≤ length o.vals = ok.filled i o at in
    let (rest, goes_on) = bvm_obj_loadv-total fuel h o.proto index ok (omega arith) (omega arith) in
    elim (Bool-cases (leb o.len index)) [
      | inl past ↦ (bvm_val_undef, ground arith)
      | inr within ↦
          let (v, cell) = get_elem?-in o.vals index (ground arith) in
          elim (Bool-cases (is_undef v)) [
            | inl undefined ↦ (rest, ground arith)
            | inr defined ↦ (v, ground arith)
          ]
    ]
