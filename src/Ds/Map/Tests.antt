-- ===== src/Ds/Map/Tests.antt =====
-- A map of numbers.
use brutal.Base.{ℕ, Option, some, List, [], ◌∷◌, replicate}
use brutal.Ds.Map.{MapNode, MapBucket}

abbrev no_node : MapNode ℕ
no_node = record { hash = 0; value = 0; key = [] }

abbrev no_bucket : MapBucket ℕ
no_bucket = record { cells = []; len = 0 }

abbrev nodes : ℕ → Option (List (MapNode ℕ))
nodes n = some (replicate n no_node)

abbrev buckets : ℕ → Option (List (MapBucket ℕ))
buckets n = some (replicate n no_bucket)

abbrev a_key : List ℕ
a_key = b'a' ∷ []
