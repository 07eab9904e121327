-- ===== src/Bvm/Obj.antt =====
-- sources/libs/bvm/obj/obj.c: objects with a prototype. An object is its number from 1, in the
-- order of creation, and 0 is the null pointer. The chain of prototypes is followed on fuel.
pub mod Chain
pub mod Store
use brutal.Base.{
  ℕ, zero, suc, ◌+◌, ◌-◌, ltb, leb, not, Bool, true, false, Option, none, some, List, [], ◌∷◌, ◌++◌,
  length, get_elem?, set, ◌==◌, if◌then◌else◌, ◌>>=◌,
}
use brutal.Bvm.Val.{BvmVal, BvmType, bvm_undef, bvm_type_eq, bvm_val_undef}

pub record BvmObj : Type 0 where
  pub proto : ℕ
  pub len : ℕ
  pub vals : List BvmVal

-- The object at an address; the null pointer has none.
abbrev pub obj_at : List BvmObj → ℕ → Option BvmObj
obj_at h zero = none
obj_at h (suc i) = get_elem? h i

abbrev pub set_obj : List BvmObj → ℕ → BvmObj → List BvmObj
set_obj h zero o = h
set_obj h (suc i) o = set h i o

abbrev pub is_undef : BvmVal → Bool
is_undef v = bvm_type_eq v.type_ bvm_undef

-- `fresh` is what the memory for the `size` values holds. The length is that of the prototype.
unfoldable pub bvm_obj_create : List BvmVal → ℕ → List BvmObj → Option (ℕ × List BvmObj)
bvm_obj_create fresh proto h = do
  p ← obj_at h proto
  some (length h + 1, h ++ (record { proto = proto; len = p.len; vals = fresh } ∷ []))

unfoldable pub bvm_obj_load : List BvmObj → ℕ → ℕ → Option BvmVal
bvm_obj_load h self index = do
  o ← obj_at h self
  if leb o.len index then some bvm_val_undef else get_elem? o.vals index

unfoldable pub bvm_obj_loadv : ℕ → List BvmObj → ℕ → ℕ → Option BvmVal
bvm_obj_loadv zero h self index = none
bvm_obj_loadv (suc fuel) h self index =
    let found = (do
      o ← obj_at h self
      let rest = bvm_obj_loadv fuel h o.proto index
      if leb o.len index
          then some bvm_val_undef
          else (get_elem? o.vals index >>= λ v. if is_undef v then rest else some v)) in
    if self == 0 then some bvm_val_undef else found

-- The write of one value of an object.
unfoldable pub store_val : List BvmObj → ℕ → BvmObj → ℕ → BvmVal → Option (List BvmObj)
store_val h self o index data_ =
    if ltb index (length o.vals)
    then some (set_obj h self (record o { vals = set o.vals index data_ }))
    else none

unfoldable pub bvm_obj_store : List BvmObj → ℕ → ℕ → BvmVal → Option (List BvmObj)
bvm_obj_store h self index data_ = do
  o ← obj_at h self
  if leb o.len index then some h else store_val h self o index data_

unfoldable pub bvm_obj_storev : ℕ → List BvmObj → ℕ → ℕ → BvmVal → Option (List BvmObj)
bvm_obj_storev zero h self index data_ = none
bvm_obj_storev (suc fuel) h self index data_ =
    let write = (do
      o ← obj_at h self
      v ← get_elem? o.vals index
      h' ← if is_undef v then some h else store_val h self o index data_
      bvm_obj_storev fuel h' o.proto index data_) in
    let found = (do o ← obj_at h self; if leb o.len index then some h else write) in
    if self == 0 then some h else found

unfoldable pub bvm_obj_isa : ℕ → List BvmObj → ℕ → ℕ → Option Bool
bvm_obj_isa zero h self proto = none
bvm_obj_isa (suc fuel) h self proto =
    let found = (do
      o ← obj_at h self
      let rest = bvm_obj_isa fuel h o.proto proto
      if o.proto == proto then some true else rest) in
    if self == 0 then some false else found
