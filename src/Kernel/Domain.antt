-- ===== src/Kernel/Domain.antt =====
-- sources/kernel/domain.c: a table of handles to objects. The read-write lock makes each call
-- atomic. A handle is 64 bits wide; the tests on a slot take it as an `int`, which cuts it to its
-- low 32 bits, and the access to the cell does not.
pub mod Laws
use brutal.Base.{
  ℕ, zero, suc, ◌+◌, ◌%◌, ◌^◌, Bool, true, false, not, ◌&&◌, Option, none, some, List, [], ◌∷◌,
  length, get_elem?, set, ltb, ◌==◌, if◌then◌else◌, ◌>>=◌, ◌>>◌,
}
use brutal.Ds.Slot.{Slot, slot_init, slot_alloc, slot_release, slot_valid}
use brutal.Kernel.Abi.{BrResult, success, bad_handle, BrType, any_, domain, type_eq}
use brutal.Kernel.Object.{Objects, object_init, object_ref, object_deref}

-- The conversion of a 64-bit handle to `SlotIndex`; `none` is a negative index.
unfoldable pub to_slot_index : ℕ → Option ℕ
to_slot_index handle = if ltb (handle % 2 ^ 32) (2 ^ 31) then some (handle % 2 ^ 32) else none

-- The objects of a domain; 0 is the null pointer of a zeroed cell.
abbrev pub Domain : Type 0
Domain = Slot ℕ

abbrev pub null : ℕ
null = 0

unfoldable pub domain_create : Objects → ℕ → Domain × Objects
domain_create w o = (slot_init, object_init w o domain)

-- The loop of `domain_destroy`, with `left` slots to go at slot `i`.
unfoldable pub destroy_loop : ℕ → Domain → Objects → ℕ → Option (Domain × Objects)
destroy_loop zero d w i = some (d, w)
destroy_loop (suc left) d w i =
    let rest = destroy_loop left d w (i + 1) in
    let release =
      (get_elem? d.data_ i >>= λ o.
      slot_release d (some i) >>= λ d'. destroy_loop left d' (object_deref w o) (i + 1)) in
    if slot_valid d (some i) then release else rest

unfoldable pub domain_destroy : Domain → Objects → Option (Domain × Objects)
domain_destroy d w = do (d', w') ← destroy_loop d.capacity d w 0; some (slot_init, w')

unfoldable pub domain_add : Domain → Objects → ℕ → Option (ℕ × Domain × Objects)
domain_add d w o = do
  let (found, d') = slot_alloc null d
  handle ← found
  some (handle, record d' { data_ = set d'.data_ handle o }, object_ref w o)

unfoldable pub domain_remove : Domain → Objects → ℕ → Option (BrResult × Domain × Objects)
domain_remove d w handle =
    if slot_valid d (to_slot_index handle)
    then (do
      o ← get_elem? d.data_ handle
      d' ← slot_release d (to_slot_index handle)
      some (success, d', object_deref w o))
    else some (bad_handle, d, w)

-- The object, with a reference taken, or the null pointer.
unfoldable pub domain_lookup : Domain → Objects → ℕ → BrType → Option (Option ℕ × Objects)
domain_lookup d w handle type_ =
    if slot_valid d (to_slot_index handle)
    then (do
      o ← get_elem? d.data_ handle
      if not (type_eq (w.types o) type_) && not (type_eq type_ any_)
          then some (none, w)
          else some (some o, object_ref w o))
    else some (none, w)
