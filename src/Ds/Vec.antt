-- ===== src/Ds/Vec.antt =====
-- sources/libs/brutal-ds/vec.h and vec.c: a growing array. `cells` are the allocated cells, of
-- which the first `len` are in use. The allocator is a parameter: `acquire n` is what `n` fresh
-- cells hold, or `none` when there is no memory.
pub mod Laws
use brutal.Base.{
  ℕ, ◌+◌, ◌-◌, ◌*◌, min, Bool, true, false, Option, none, some, List, [], ◌∷◌, ◌++◌, length,
  get_elem?, set, take, drop, ltb, ◌==◌, if◌then◌else◌,
}

pub record Vec {ℓ} (A : Type ℓ) : Type ℓ where
  pub cells : List A
  pub len : ℕ

module _ {ℓ} {A : Type ℓ} where
  abbrev pub capacity : Vec A → ℕ
  capacity v = length v.cells

  -- `vec_splice(v, start, count)`: the cells after the gap move down.
  unfoldable pub vec_splice : Vec A → ℕ → ℕ → Vec A
  vec_splice v start count = record {
    cells =
        take start v.cells
        ++ take (v.len - start - count) (drop (start + count) v.cells)
        ++ drop (v.len - count) v.cells;
    len = v.len - count;
  }

module _ {ℓ} {A : Type ℓ} (acquire : ℕ → Option (List A)) where
  -- The first `min(len, new_len)` cells are copied into fresh memory.
  unfoldable pub vec_realloc : Vec A → ℕ → Bool × Vec A
  vec_realloc v new_len = elim (acquire new_len) [
    | none ↦ (false, v)
    | some fresh ↦ (
      true,
      record v { cells = take (min v.len new_len) v.cells ++ drop (min v.len new_len) fresh },
    )
  ]

  unfoldable pub vec_expand : Vec A → Bool × Vec A
  vec_expand v =
      if ltb (capacity v) (v.len + 1)
      then vec_realloc v (if capacity v == 0 then 1 else capacity v * 2)
      else (true, v)

  unfoldable pub vec_push : Vec A → A → Bool × Vec A
  vec_push v x =
      let (grown, w) = vec_expand v in
      if grown
      then (true, record w { cells = set w.cells w.len x; len = w.len + 1 })
      else (false, w)

  -- `vec_insert_impl`: the result of the expansion is taken for an error code, so the cells move
  -- up only when there was no memory.
  unfoldable pub vec_insert_impl : Vec A → ℕ → Bool × Vec A
  vec_insert_impl v idx =
      let (err, w) = vec_expand v in
      if err then (err, w) else (
        false,
        record w {
          cells =
              take (idx + 1) w.cells
              ++ take (w.len - idx) (drop idx w.cells)
              ++ drop (w.len + 1) w.cells;
        },
      )

  -- The macro stores the element and counts it when the call returned true.
  unfoldable pub vec_insert : Vec A → ℕ → A → Bool × Vec A
  vec_insert v idx x =
      let (result, w) = vec_insert_impl v idx in
      if result
      then (result, record w { cells = set w.cells idx x; len = w.len + 1 })
      else (result, w)
