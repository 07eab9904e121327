-- ===== src/Bvm/Obj/Store.antt =====
-- `bvm_obj_storev` against `bvm_obj_loadv`, of sources/libs/bvm/obj/obj.c.
use brutal.Base.{
  ℕ, zero, suc, ◌≤◌, ◌<◌, leb, Bool-cases, true, false, Option-cases, some, List, length, get_elem?,
  set, get_elem?-set_self, get_elem?-set_ne, lt-length, ◌≡◌, inl, inr, sym, ◌∙◌, ap, subst, arith,
}
use native.Mathlib.Decide.{ℕ_discrete}
use brutal.Bvm.Val.{BvmVal, bvm_val_undef}
use brutal.Bvm.Obj.{BvmObj, bvm_obj_loadv, bvm_obj_storev, store_val, is_undef}

-- No object is older than its prototype.
abbrev pub Older : List BvmObj → Type 0
Older h = (i : ℕ) (o : BvmObj) → get_elem? h i ≡ some o → o.proto ≤ i

-- The objects after a write to the object `o` at `i`.
abbrev written : List BvmObj → ℕ → BvmObj → ℕ → BvmVal → List BvmObj
written h i o index d = set h i (record o { vals = set o.vals index d })

Older-written :
    (h : List BvmObj) (i : ℕ) (o : BvmObj) (index : ℕ) (d : BvmVal)
    → Older h
    → get_elem? h i ≡ some o
    → Older (written h i o index d)
Older-written h i o index d old at j o' e = elim (ℕ_discrete i j) [
  | yes same ↦
      let here =
        get_elem?-set_self h i (record o { vals = set o.vals index d }) (lt-length h i at) in
      let there : get_elem? (written h i o index d) i ≡ some o' =
        subst (λ k. get_elem? (written h i o index d) k ≡ some o') (sym same) e in
      let proto : o.proto ≡ o'.proto = ground (arith, here, there) in
      let bound : o.proto ≤ i = old i o at in omega arith
  | no other ↦
      old j o' (sym (get_elem?-set_ne h i j (record o { vals = set o.vals index d }) other) ∙ e)
]

-- What one round of `bvm_obj_storev` does to an object.
data Round (fuel : ℕ) (h : List BvmObj) (i index : ℕ) (d : BvmVal) (h' : List BvmObj) (o : BvmObj)
    : Type 0 where
  past : leb o.len index ≡ true → h' ≡ h → Round fuel h i index d h' o
  skipped :
      (v : BvmVal)
      → leb o.len index ≡ false
      → get_elem? o.vals index ≡ some v
      → is_undef v ≡ true
      → bvm_obj_storev fuel h o.proto index d ≡ some h'
      → Round fuel h i index d h' o
  stored :
      (v : BvmVal)
      → leb o.len index ≡ false
      → get_elem? o.vals index ≡ some v
      → is_undef v ≡ false
      → bvm_obj_storev fuel (written h i o index d) o.proto index d ≡ some h'
      → Round fuel h i index d h' o

storev-Round :
    (fuel : ℕ) (h : List BvmObj) (i index : ℕ) (d : BvmVal) (h' : List BvmObj)
    → bvm_obj_storev (suc fuel) h (suc i) index d ≡ some h'
    → (o : BvmObj) × (get_elem? h i ≡ some o) × Round fuel h i index d h' o
unfolding bvm_obj_storev store_val
storev-Round fuel h i index d h' e = elim (Option-cases (get_elem? h i)) [
  | inl out ↦ absurd (ground arith)
  | inr (o, at) ↦ (
    o,
    at,
    elim (Bool-cases (leb o.len index)) [
      | inl over ↦ past over (ground arith)
      | inr under ↦ elim (Option-cases (get_elem? o.vals index)) [
        | inl out ↦ absurd (ground arith)
        | inr (v, cell) ↦ elim (Bool-cases (is_undef v)) [
          | inl undefined ↦ skipped v under cell undefined (ground arith)
          | inr defined ↦
              let inside : index < length o.vals = lt-length o.vals index cell in
              stored v under cell defined (ground arith)
        ]
      ]
    ],
  )
]

-- Objects from `self` on, in the order of creation, are left alone after it.
storev-younger :
    (fuel : ℕ) (h : List BvmObj) (self index : ℕ) (d : BvmVal) (h' : List BvmObj)
    → Older h
    → bvm_obj_storev fuel h self index d ≡ some h'
    → (j : ℕ) → self ≤ j
    → get_elem? h' j ≡ get_elem? h j
unfolding bvm_obj_storev
storev-younger zero h self index d h' old e j le = absurd (ground arith)
storev-younger (suc fuel) h zero index d h' old e j le =
    let same : h ≡ h' = ground arith in ap (λ k. get_elem? k j) (sym same)
storev-younger (suc fuel) h (suc i) index d h' old e j le =
    let (o, at, round) = storev-Round fuel h i index d h' e in
    let bound : o.proto ≤ i = old i o at in
    elim round [
      | past over same ↦ ap (λ k. get_elem? k j) same
      | skipped v under cell undefined rest ↦
          storev-younger fuel h o.proto index d h' old rest j (omega arith)
      | stored v under cell defined rest ↦
          storev-younger fuel (written h i o index d) o.proto index d h'
            (Older-written h i o index d old at) rest j (omega arith)
          ∙ get_elem?-set_ne h i j (record o { vals = set o.vals index d }) (omega arith)
    ]

-- On objects that are younger than their prototypes: if the search up the prototypes finds a
-- defined value, and the write up the prototypes of another defined value returns, the search
-- finds the new value.
bvm_obj_loadv-storev :
    (fuel : ℕ) (h : List BvmObj) (self index : ℕ) (d v : BvmVal) (h' : List BvmObj)
    → Older h
    → is_undef v ≡ false
    → is_undef d ≡ false
    → bvm_obj_loadv fuel h self index ≡ some v
    → bvm_obj_storev fuel h self index d ≡ some h'
    → bvm_obj_loadv fuel h' self index ≡ some d
unfolding bvm_obj_loadv bvm_val_undef
bvm_obj_loadv-storev zero h self index d v h' old found new got e = absurd (ground arith)
bvm_obj_loadv-storev (suc fuel) h zero index d v h' old found new got e =
    let undefined : bvm_val_undef ≡ v = ground arith in
    absurd (ground (arith, ap is_undef undefined))
bvm_obj_loadv-storev (suc fuel) h (suc i) index d v h' old found new got e =
    let (o, at, round) = storev-Round fuel h i index d h' e in
    let bound : o.proto ≤ i = old i o at in
    elim round [
      | past over same ↦
          let undefined : bvm_val_undef ≡ v = ground arith in
          absurd (ground (arith, ap is_undef undefined))
      | skipped u under cell undefined rest ↦
          let got' : bvm_obj_loadv fuel h o.proto index ≡ some v = ground arith in
          let there = bvm_obj_loadv-storev fuel h o.proto index d v h' old found new got' rest in
          let stays = storev-younger fuel h o.proto index d h' old rest i bound in ground arith
      | stored u under cell defined rest ↦
          let stays =
            storev-younger fuel (written h i o index d) o.proto index d h'
              (Older-written h i o index d old at) rest i bound in
          let here =
            get_elem?-set_self h i (record o { vals = set o.vals index d }) (lt-length h i at) in
          let value = get_elem?-set_self o.vals index d (lt-length o.vals index cell) in
          ground arith
    ]
