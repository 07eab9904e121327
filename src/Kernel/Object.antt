-- ===== src/Kernel/Object.antt =====
-- sources/kernel/object.c and sources/libs/brutal-sync/ref.h: reference counts. An object is its
-- address, and 0 is the null pointer. The counters are taken to stay in the range of an `int`.
use brutal.Base.{
  ℕ, ◌+◌, ◌-◌, ◌<◌, ◌≡◌, ap, arith, List, [], ◌∷◌, ◌++◌, ◌==◌, if◌then◌else◌, ◌||◌, ◌&&◌, Option,
  none, some,
}
use brutal.Kernel.Abi.{BrType, any_, type_eq}

-- The heap of objects: the count, id and type of each, the registered objects in order, the next
-- id, and the objects whose destructor has been called, the last one first.
pub record Objects : Type 0 where
  pub refs : ℕ → ℕ
  pub ids : ℕ → ℕ
  pub types : ℕ → BrType
  pub global : List ℕ
  pub next_id : ℕ
  pub destroyed : List ℕ

abbrev pub update {ℓ} : {A : Type ℓ} → (ℕ → A) → ℕ → A → ℕ → A
update f k v j = if j == k then v else f j

-- `vec_remove`: the first entry of that value is spliced out.
unfoldable pub remove : ℕ → List ℕ → List ℕ
remove o [] = []
remove o (x ∷ xs) = if x == o then xs else x ∷ remove o xs

unfoldable pub object_init : Objects → ℕ → BrType → Objects
object_init w o type_ = record w {
  refs = update w.refs o 1;
  ids = update w.ids o w.next_id;
  types = update w.types o type_;
  global = w.global ++ (o ∷ []);
  next_id = w.next_id + 1;
}

unfoldable pub object_ref : Objects → ℕ → Objects
object_ref w o = record w { refs = update w.refs o (w.refs o + 1) }

-- The destructor runs when the last reference goes.
unfoldable pub object_deref : Objects → ℕ → Objects
object_deref w o =
    if o == 0
    then w
    else (if w.refs o == 1
        then record w {
          refs = update w.refs o 0;
          global = remove o w.global;
          destroyed = o ∷ w.destroyed;
        }
        else record w { refs = update w.refs o (w.refs o - 1) })

-- The first registered object with that id, of the type that is asked for.
unfoldable pub find_global : Objects → List ℕ → ℕ → BrType → Option ℕ
find_global w [] id type_ = none
find_global w (o ∷ os) id type_ =
    if (w.ids o == id) && (type_eq (w.types o) type_ || type_eq type_ any_)
    then some o
    else find_global w os id type_

unfoldable pub global_lookup : Objects → ℕ → BrType → Option ℕ × Objects
global_lookup w id type_ = elim (find_global w w.global id type_) [
  | none ↦ (none, w)
  | some o ↦ (some o, object_ref w o)
]

-- The counts after a reference was dropped.
pub refs-object_deref :
    (w : Objects) (o j : ℕ)
    → 0 < o
    → (object_deref w o).refs j ≡ (if j == o then w.refs o - 1 else w.refs j)
unfolding object_deref
refs-object_deref w o j h = ground arith

-- Taking and dropping a reference leaves the counts as they were.
pub deref-ref :
    (w : Objects) (o j : ℕ) → 0 < o → (object_deref (object_ref w o) o).refs j ≡ w.refs j
unfolding object_ref
deref-ref w o j h = ground (arith, refs-object_deref (object_ref w o) o j h, at)
  where
    at : j ≡ o → w.refs j ≡ w.refs o
    at e = ap w.refs e
