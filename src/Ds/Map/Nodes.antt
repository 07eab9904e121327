-- ===== src/Ds/Map/Nodes.antt =====
-- The nodes of one bucket of sources/libs/brutal-ds/map.c, read by key and hash.
use brutal.Base.{
  ℕ, suc, true, ◌&&◌, Option, none, some, List, [], ◌∷◌, ◌++◌, get_elem?, set, ◌==◌, ◌≡◌, refl,
  Bool-cases, Option-cases, inl, inr, arith,
}
use mathlib.Core.Bool.{cond}
use brutal.Text.Str.{str_eq}
use brutal.Text.Str.Eq.{str_eq→eq}
use brutal.Ds.Map.{MapNode, is_node, node_index}

module _ {V : Type 0} where
  -- the value of the first node with the key and the hash
  unfoldable pub lookup : List ℕ → ℕ → List (MapNode V) → Option V
  lookup key hash [] = none
  lookup key hash (node ∷ rest) =
      cond (is_node key hash node) (some node.value) (lookup key hash rest)

  pub lookup_absent :
      (k : List ℕ) (h : ℕ) (xs : List (MapNode V)) → node_index k h xs ≡ none → lookup k h xs ≡ none
  unfolding lookup node_index
  lookup_absent k h [] e = refl
  lookup_absent k h (x ∷ xs) e = elim (Bool-cases (is_node k h x)) [
    | inl hit ↦ absurd (ground arith)
    | inr miss ↦ elim (Option-cases (node_index k h xs)) [
      | inl gone ↦ rw miss (lookup_absent k h xs gone)
      | inr (j, at) ↦ absurd (ground arith)
    ]
  ]

  -- The index that the loop stops at holds a node with the key and the hash.
  pub lookup_present :
      (k : List ℕ) (h : ℕ) (xs : List (MapNode V)) (i : ℕ)
      → node_index k h xs ≡ some i
      → (x : MapNode V) × (get_elem? xs i ≡ some x)
        × (lookup k h xs ≡ some x.value)
        × (is_node k h x ≡ true)
  unfolding lookup node_index
  lookup_present k h [] i e = absurd (ground arith)
  lookup_present k h (x ∷ xs) i e = elim (Bool-cases (is_node k h x)) [
    | inl hit ↦ let at : i ≡ 0 = ground arith in (x, rw (at), rw hit, hit)
    | inr miss ↦ elim (Option-cases (node_index k h xs)) [
      | inl gone ↦ absurd (ground arith)
      | inr (j, found) ↦
          let at : i ≡ suc j = ground arith in
          let (y, got, reads, is) = lookup_present k h xs j found in
          (y, rw (at) got, rw miss reads, is)
    ]
  ]

  is_node_other :
      (k q : List ℕ) (h g : ℕ) (x : MapNode V)
      → is_node k h x ≡ true
      → is_node q g x ≡ ((g == h) && str_eq q k)
  is_node_other k q h g x e =
      let key : k ≡ x.key = str_eq→eq k x.key (ground arith) in rw key (ground arith)

  is_node_same :
      (k q : List ℕ) (h g : ℕ) (x : MapNode V)
      → ((g == h) && str_eq q k) ≡ true
      → is_node q g x ≡ is_node k h x
  is_node_same k q h g x e =
      let key : q ≡ k = str_eq→eq q k (ground arith) in
      let hash : g ≡ h = ground arith in rw (key, hash)

  pub lookup-set :
      (k q : List ℕ) (h g : ℕ) (v : V) (xs : List (MapNode V)) (i : ℕ) (x : MapNode V)
      → node_index k h xs ≡ some i
      → get_elem? xs i ≡ some x
      → lookup q g (set xs i (record x { value = v }))
        ≡ cond ((g == h) && str_eq q k) (some v) (lookup q g xs)
  unfolding lookup node_index
  lookup-set k q h g v [] i x e got = absurd (ground arith)
  lookup-set k q h g v (y ∷ xs) i x e got = elim (Bool-cases (is_node k h y)) [
    | inl hit ↦
        let at : i ≡ 0 = ground arith in
        let same : y ≡ x = ground arith in rw (at) (ground (arith, is_node_other k q h g y hit))
    | inr miss ↦ elim (Option-cases (node_index k h xs)) [
      | inl gone ↦ absurd (ground arith)
      | inr (j, found) ↦
          let at : i ≡ suc j = ground arith in
          let there : get_elem? xs j ≡ some x = rw at at got in
          let rest = lookup-set k q h g v xs j x found there in
          rw (at) (rw rest (ground (arith, is_node_same k q h g y)))
    ]
  ]

  pub lookup-append :
      (k q : List ℕ) (h g : ℕ) (x : MapNode V) (xs : List (MapNode V))
      → node_index k h xs ≡ none
      → x.key ≡ k
      → x.hash ≡ h
      → lookup q g (xs ++ x ∷ []) ≡ cond ((g == h) && str_eq q k) (some x.value) (lookup q g xs)
  unfolding lookup node_index
  lookup-append k q h g x [] e key hash = rw (key, hash) (ground arith)
  lookup-append k q h g x (y ∷ xs) e key hash = elim (Bool-cases (is_node k h y)) [
    | inl hit ↦ absurd (ground arith)
    | inr miss ↦ elim (Option-cases (node_index k h xs)) [
      | inr (j, at) ↦ absurd (ground arith)
      | inl gone ↦
          rw (lookup-append k q h g x xs gone key hash) (ground (arith, is_node_same k q h g y))
    ]
  ]
