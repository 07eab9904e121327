-- ===== src/Ds/Map/Laws.antt =====
-- The map of sources/libs/brutal-ds/map.c as a finite map from keys to values.
use brutal.Base.{
  ℕ, zero, suc, ◌%◌, ◌≤◌, ◌<◌, Bool, Option, none, some, List, [], ◌∷◌, ◌++◌, get_elem?, take,
  replicate, sym, ◌≡◌, refl, ap, ◌∙◌, Option-cases, inl, inr, arith, get_elem?-take,
  get_elem?-take_lt,
}
use mathlib.Core.List.{append-nil, append_assoc}
use brutal.Ds.Vec.{Vec, capacity, vec_push}
use brutal.Ds.Vec.Laws.{items, Supplies, items-vec_push}
use brutal.Ds.Map.{
  MapBucket, MapImpl, map_bucket_count, map_hash, map_bucket, node_index, map_node, map_read,
  map_get_impl, init_loop, map_init_impl,
}
use brutal.Ds.Map.Nodes.{lookup, lookup_absent, lookup_present}

-- All 512 buckets are there, and none counts more nodes than it has cells.
pub record IsValid {V : Type 0} (impl : MapImpl V) : Type 0 where
  pub bucket :
      (i : ℕ)
      → i < map_bucket_count
      → (b : MapBucket V) × (get_elem? impl.buckets.cells i ≡ some b) × (b.len ≤ capacity b)

module _ {V : Type 0} where
  -- What the map holds at a key whose bucket is `b`.
  map_get_reads :
      (impl : MapImpl V) (key : List ℕ) (b : MapBucket V)
      → get_elem? impl.buckets.cells (map_hash key % map_bucket_count) ≡ some b
      → map_get_impl impl key ≡ some (lookup key (map_hash key) (items b))
  unfolding map_get_impl map_node map_bucket map_read
  map_get_reads impl key b at = elim (Option-cases (node_index key (map_hash key) (items b))) [
    | inl gone ↦ rw (at, gone, lookup_absent key (map_hash key) (items b) gone)
    | inr (i, found) ↦
        let (x, got, reads, is) = lookup_present key (map_hash key) (items b) i found in
        let cell : get_elem? b.cells i ≡ some x =
          ground (arith, get_elem?-take b.cells b.len i, get_elem?-take_lt b.cells b.len i x) in
        rw (at, found, at, cell, reads)
  ]

  module _ (impl : MapImpl V) (valid : IsValid impl) (key : List ℕ) (value : V) where
    abbrev home : ℕ
    home = map_hash key % map_bucket_count

module _ {V : Type 0} (table : ℕ → Option (List (MapBucket V))) (supply : Supplies table) where
  abbrev empty : MapBucket V
  empty = record { cells = []; len = 0 }

  -- Each of the first `n` buckets is an empty one, or was there before.
  init_loop-items :
      (n : ℕ) (v : Vec (MapBucket V))
      → v.len ≤ capacity v
      → (items (init_loop table n v) ≡ items v ++ replicate n empty)
        × ((init_loop table n v).len ≤ capacity (init_loop table n v))
  unfolding init_loop
  init_loop-items zero v h = (sym (append-nil (items v)), h)
  init_loop-items (suc n) v h =
      let push = items-vec_push table v empty supply h in
      let (all, fits) = init_loop-items n (vec_push table v empty).1 push.2 in
      (
        all ∙ ap (λ xs. xs ++ replicate n empty) push.1 ∙ append_assoc (items v) (empty ∷ []) _,
        fits,
      )

  get_elem?-replicate : (n i : ℕ) → i < n → get_elem? (replicate n empty) i ≡ some empty
  get_elem?-replicate zero i h = elim h [ ]
  get_elem?-replicate (suc n) zero h = refl
  get_elem?-replicate (suc n) (suc i) h = get_elem?-replicate n i (omega arith)

  init_bucket :
      (n i : ℕ)
      → i < n
      → get_elem? (init_loop table n (record { cells = []; len = 0 })).cells i ≡ some empty
  init_bucket n i lt =
      let v : Vec (MapBucket V) = record { cells = []; len = 0 } in
      let w = init_loop table n v in
      let (all, fits) = init_loop-items n v (omega arith) in
      let got : get_elem? (take w.len w.cells) i ≡ some empty =
        ap (λ xs. get_elem? xs i) all ∙ get_elem?-replicate n i lt in
      sym (get_elem?-take w.cells w.len i (get_elem?-take_lt w.cells w.len i empty got)) ∙ got

  -- With memory for every request, a fresh map is well formed and holds no key.
  pub map_init_impl-reads :
      (data_size : ℕ)
      → IsValid (map_init_impl table data_size)
        × ((q : List ℕ) → map_get_impl (map_init_impl table data_size) q ≡ some none)
  unfolding map_init_impl lookup
  map_init_impl-reads data_size = (
    record { bucket = λ i lt. (empty, init_bucket map_bucket_count i lt, omega arith) },
    λ q. map_get_reads _ q empty (init_bucket map_bucket_count _ (omega arith)),
  )
