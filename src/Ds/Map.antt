-- ===== src/Ds/Map.antt =====
-- sources/libs/brutal-ds/map.c: 512 buckets of nodes, by the hash of the key. The value type stands
-- for the `data_size` bytes that are copied. The allocator is a parameter: `malloc n` tells whether
-- a node of `n` bytes was given, and a failed one is a write through a null pointer; `nodes` and
-- `table` give the cells of a bucket and of the table, as in Ds/Vec.antt.
pub mod Nodes
pub mod Laws
mod Tests
use brutal.Base.{
  ℕ, zero, suc, ◌+◌, ◌*◌, ◌/◌, ◌%◌, Bool, true, false, ◌&&◌, Option, none, some, List, [], ◌∷◌,
  length, get_elem?, set, ◌==◌, ◌>>=◌, ◌>>◌, assert,
}
use mathlib.Core.Option
use brutal.Hash.Fnv.{fnv_32, fnv1_32_init}
use brutal.Text.Str.{str_eq}
use brutal.Ds.Vec.{Vec, vec_push}
use brutal.Ds.Vec.Laws.{items}

abbrev pub map_bucket_count : ℕ
map_bucket_count = 512

pub record MapNode (V : Type 0) : Type 0 where
  pub hash : ℕ
  pub value : V
  pub key : List ℕ

abbrev pub MapBucket : Type 0 → Type 0
MapBucket V = Vec (MapNode V)

pub record MapImpl (V : Type 0) : Type 0 where
  pub buckets : Vec (MapBucket V)
  pub data_size : ℕ

unfoldable pub map_hash : List ℕ → ℕ
map_hash key = fnv_32 key fnv1_32_init

-- `sizeof(MapNode) + align_up$(key.len, 16) + data_size`
abbrev pub node_size : List ℕ → ℕ → ℕ
node_size key data_size = 24 + (length key + 15) / 16 * 16 + data_size

module _ {V : Type 0} where
  unfoldable pub map_node_create : (ℕ → Bool) → ℕ → List ℕ → V → Option (MapNode V)
  map_node_create malloc data_size key value = do
    assert (malloc (node_size key data_size))
    some (record { hash = map_hash key; value = value; key = key })

  unfoldable pub map_bucket : MapImpl V → ℕ → Option (MapBucket V)
  map_bucket impl hash = get_elem? impl.buckets.cells (hash % map_bucket_count)

  abbrev pub is_node : List ℕ → ℕ → MapNode V → Bool
  is_node key hash node = (node.hash == hash) && str_eq key node.key

  -- the loop of `map_node`: the index of the node that it returns
  unfoldable pub node_index : List ℕ → ℕ → List (MapNode V) → Option ℕ
  node_index key hash [] = none
  node_index key hash (node ∷ rest) =
      let later = Option.map suc (node_index key hash rest) in
      elim (is_node key hash node) [ true ↦ some 0 | false ↦ later ]

  unfoldable pub map_node : MapImpl V → List ℕ → ℕ → Option (Option ℕ)
  map_node impl key hash = do
    bucket ← map_bucket impl hash
    some (node_index key hash (items bucket))

  -- what `node->data` reads
  unfoldable pub map_read : MapImpl V → ℕ → Option ℕ → Option (Option V)
  map_read impl hash none = some none
  map_read impl hash (some i) = do
    bucket ← map_bucket impl hash
    node ← get_elem? bucket.cells i
    some (some node.value)

  unfoldable pub map_get_impl : MapImpl V → List ℕ → Option (Option V)
  map_get_impl impl key = do
    node ← map_node impl key (map_hash key)
    map_read impl (map_hash key) node

  abbrev pub put_bucket : MapImpl V → ℕ → MapBucket V → MapImpl V
  put_bucket impl hash bucket = record impl {
    buckets = record impl.buckets {
      cells = set impl.buckets.cells (hash % map_bucket_count) bucket;
    };
  }

  -- The result of the push is not looked at.
  unfoldable pub map_write :
      (ℕ → Bool)
      → (ℕ → Option (List (MapNode V)))
      → MapImpl V
      → List ℕ
      → V
      → Option ℕ
      → Option (MapImpl V)
  map_write malloc nodes impl key value none = do
    bucket ← map_bucket impl (map_hash key)
    node ← map_node_create malloc impl.data_size key value
    some (put_bucket impl (map_hash key) (vec_push nodes bucket node).1)
  map_write malloc nodes impl key value (some i) = do
    bucket ← map_bucket impl (map_hash key)
    node ← get_elem? bucket.cells i
    some (
        put_bucket impl (map_hash key)
          (record bucket { cells = set bucket.cells i (record node { value = value }) }))

  unfoldable pub map_put_impl :
      (ℕ → Bool)
      → (ℕ → Option (List (MapNode V)))
      → MapImpl V
      → List ℕ
      → V
      → Option (Bool × MapImpl V)
  map_put_impl malloc nodes impl key value = do
    node ← map_node impl key (map_hash key)
    impl' ← map_write malloc nodes impl key value node
    some (true, impl')

  unfoldable pub init_loop :
      (ℕ → Option (List (MapBucket V))) → ℕ → Vec (MapBucket V) → Vec (MapBucket V)
  init_loop table zero buckets = buckets
  init_loop table (suc n) buckets =
      init_loop table n (vec_push table buckets (record { cells = []; len = 0 })).1

  unfoldable pub map_init_impl : (ℕ → Option (List (MapBucket V))) → ℕ → MapImpl V
  map_init_impl table data_size = record {
    buckets = init_loop table map_bucket_count (record { cells = []; len = 0 });
    data_size = data_size;
  }
