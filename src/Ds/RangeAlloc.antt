-- ===== src/Ds/RangeAlloc.antt =====
-- sources/libs/brutal-ds/range.c, and the macros of sources/libs/brutal-base/range.h that it uses:
-- a vector of free address ranges.
pub mod Cover
use brutal.Base.{
  ℕ, zero, suc, ◌+◌, ◌-◌, ◌*◌, min, max, Bool, true, false, not, ◌&&◌, ◌||◌, Option, none, some,
  List, [], ◌∷◌, length, get_elem?, set, ltb, leb, ◌==◌, if◌then◌else◌, ◌>>=◌, add64, sub64,
}
use brutal.Ds.Bits.{BitsRange, empty_range, range_end}
use brutal.Ds.Vec.{Vec, vec_splice, vec_push, vec_insert}

-- `USizeRange` has the shape of `BitsRange`.
abbrev pub USizeRange : Type 0
USizeRange = BitsRange

unfoldable pub range_eq : USizeRange → USizeRange → Bool
range_eq a b = (a.base == b.base) && (a.size == b.size)

unfoldable pub range_colide : USizeRange → USizeRange → Bool
range_colide a b = ltb a.base (range_end b) && ltb b.base (range_end a)

unfoldable pub range_contiguous : USizeRange → USizeRange → Bool
range_contiguous a b = (a.base == range_end b) || (range_end a == b.base)

unfoldable pub range_merge : USizeRange → USizeRange → USizeRange
range_merge a b = record {
  base = min a.base b.base;
  size = sub64 (max (range_end a) (range_end b)) (min a.base b.base);
}

unfoldable pub range_half_under : USizeRange → USizeRange → USizeRange
range_half_under r split =
    if range_colide r split && ltb r.base split.base
    then record { base = r.base; size = sub64 split.base r.base }
    else empty_range

unfoldable pub range_half_over : USizeRange → USizeRange → USizeRange
range_half_over r split =
    if range_colide r split && ltb (range_end split) (range_end r)
    then record { base = range_end split; size = sub64 (range_end r) (range_end split) }
    else empty_range

abbrev pub RangeAlloc : Type 0
RangeAlloc = Vec USizeRange

abbrev pub put_range : RangeAlloc → ℕ → USizeRange → RangeAlloc
put_range v i r = record v { cells = set v.cells i r }

-- `i < self->len`, and the element there.
abbrev pub at : RangeAlloc → ℕ → Option USizeRange
at v i = if ltb i v.len then get_elem? v.cells i else none

-- What `range_alloc_alloc` does with the element `r` that it found at `i`.
unfoldable pub take_range : RangeAlloc → ℕ → USizeRange → ℕ → USizeRange × RangeAlloc
take_range v i r size = if r.size == size then (r, vec_splice v i 1) else (
  record { base = r.base; size = size },
  put_range v i (record { base = add64 r.base size; size = r.size - size }),
)

unfoldable pub alloc_loop : ℕ → ℕ → RangeAlloc → ℕ → Option (USizeRange × RangeAlloc)
alloc_loop zero i v size = some (empty_range, v)
alloc_loop (suc left) i v size = do
  r ← get_elem? v.cells i
  let rest = alloc_loop left (i + 1) v size
  if leb size r.size then some (take_range v i r size) else rest

unfoldable pub range_alloc_alloc : RangeAlloc → ℕ → Option (USizeRange × RangeAlloc)
range_alloc_alloc v size = alloc_loop v.len 0 v size

-- The two loops of `range_alloc_compress`, on the number of rounds that are left.
unfoldable pub compress_up : ℕ → RangeAlloc → ℕ → RangeAlloc
compress_up zero v start = v
compress_up (suc left) v start = elim (at v start) [
  | none ↦ v
  | some a ↦ elim (at v (start + 1)) [
    | none ↦ v
    | some b ↦
        if range_contiguous a b
        then compress_up left (vec_splice (put_range v start (range_merge a b)) (start + 1) 1) start
        else v
  ]
]

-- After a splice below it the element at `start` is one lower, and `start` is not changed.
unfoldable pub compress_down : ℕ → RangeAlloc → ℕ → Option RangeAlloc
compress_down zero v start = none
compress_down (suc left) v zero = some v
compress_down (suc left) v (suc below) = do
  a ← get_elem? v.cells (suc below)
  b ← get_elem? v.cells below
  let merged = put_range v (suc below) (range_merge a b)
  let rest = compress_down left (vec_splice merged below 1) (suc below)
  if range_contiguous a b then rest else some v

unfoldable pub range_alloc_compress : RangeAlloc → ℕ → Option RangeAlloc
range_alloc_compress v start =
    let up = compress_up v.len v start in compress_down (up.len + 1) up start

module _ (acquire : ℕ → Option (List USizeRange)) where
  -- `i + 1 < len` and the range lies between the elements at `i` and `i + 1`.
  unfoldable pub between : RangeAlloc → ℕ → USizeRange → USizeRange → Bool
  between v i curr r = elim (at v (i + 1)) [
    | none ↦ false
    | some next ↦ ltb curr.base r.base && ltb r.base next.base
  ]

  unfoldable pub unused_loop : ℕ → ℕ → RangeAlloc → USizeRange → Option RangeAlloc
  unused_loop zero i v r = some (vec_push acquire v r).1
  unused_loop (suc left) i v r = do
    curr ← get_elem? v.cells i
    let rest = unused_loop left (i + 1) v r
    let merged = range_alloc_compress (put_range v i (range_merge curr r)) i
    if range_contiguous curr r
        then merged
        else (if between v i curr r then some (vec_insert acquire v (i + 1) r).1 else rest)

  unfoldable pub range_alloc_unused : RangeAlloc → USizeRange → Option RangeAlloc
  range_alloc_unused v r = unused_loop v.len 0 v r

  -- What is left of the element `curr` at `i` around the range.
  unfoldable pub carve : RangeAlloc → ℕ → USizeRange → USizeRange → Option RangeAlloc
  carve v i curr r =
      let lower = range_half_under curr r in
      let upper = range_half_over curr r in
      if lower.size == 0
      then some (if upper.size == 0 then v else put_range v i upper)
      else (if upper.size == 0
          then some (put_range v i lower)
          else range_alloc_unused (put_range v i lower) upper)

  -- The loop of `range_alloc_used`, on fuel: the vector may grow under it.
  unfoldable pub used_loop : ℕ → ℕ → RangeAlloc → USizeRange → Option RangeAlloc
  used_loop zero i v r = none
  used_loop (suc fuel) i v r = elim (at v i) [
    | none ↦ some v
    | some curr ↦
        (let stay = used_loop fuel (i + 1) v r in
          let carved = (carve v i curr r >>= λ v'. used_loop fuel (i + 1) v' r) in
          if range_eq curr r
          then some (vec_splice v i 1)
          else (if range_colide curr r then carved else stay))
  ]

  -- A piece that was cut off is free and is not cut again, so this many rounds are enough.
  unfoldable pub range_alloc_used : RangeAlloc → USizeRange → Option RangeAlloc
  range_alloc_used v r = used_loop (2 * v.len + 2) 0 v r
