-- ===== src/Ds/RangeAlloc/Cover.antt =====
-- `range_alloc_alloc` of sources/libs/brutal-ds/range.c, by how many free ranges hold an address.
use brutal.Base.{
  get_elem?-take, get_elem?-take_lt, take-set, ℕ, zero, suc, ◌+◌, ◌-◌, ◌≤◌, ◌<◌, Bool-cases, false,
  ◌&&◌, some, List, [], ◌∷◌, get_elem?, ◌==◌, get_elem?-lt, set, erase_idx, All, All-get_elem?, ltb,
  leb, if◌then◌else◌, ◌≡◌, ◌⊎◌, inl, inr, refl, sym, ap, ◌∙◌, subst, arith, add64, word,
}
use native.Mathlib.Decide.{ℕ_discrete}
use brutal.Ds.Bits.{empty_range}
use brutal.Ds.Vec.{capacity}
use brutal.Ds.Vec.Laws.{items, items-vec_splice}
use brutal.Ds.RangeAlloc.{USizeRange, RangeAlloc, take_range, alloc_loop, range_alloc_alloc}

abbrev pub inside : USizeRange → ℕ → ℕ
inside r a = if leb r.base a && ltb a (r.base + r.size) then 1 else 0

-- How many ranges of the list hold the address.
abbrev pub cover : List USizeRange → ℕ → ℕ
cover [] a = 0
cover (r ∷ rs) a = inside r a + cover rs a

cover-erase_idx :
    (rs : List USizeRange) (i : ℕ) (r : USizeRange) (a : ℕ)
    → get_elem? rs i ≡ some r
    → cover rs a ≡ cover (erase_idx rs i) a + inside r a
cover-erase_idx [] i r a e = absurd (ground arith)
cover-erase_idx (x ∷ xs) zero r a e = let same : x ≡ r = ground arith in rw same (omega arith)
cover-erase_idx (x ∷ xs) (suc i) r a e = omega (arith, cover-erase_idx xs i r a e)

cover-set :
    (rs : List USizeRange) (i : ℕ) (r new : USizeRange) (a : ℕ)
    → get_elem? rs i ≡ some r
    → cover rs a + inside new a ≡ cover (set rs i new) a + inside r a
cover-set [] i r new a e = absurd (ground arith)
cover-set (x ∷ xs) zero r new a e = let same : x ≡ r = ground arith in rw same (omega arith)
cover-set (x ∷ xs) (suc i) r new a e = omega (arith, cover-set xs i r new a e)

-- A vector of ranges whose ends are words.
pub record IsRanges (v : RangeAlloc) : Type 0 where
  pub fits : v.len ≤ capacity v
  pub words : All (λ r. r.base + r.size < word) (items v)

-- What was taken out, and what is left.
abbrev pub Taken : RangeAlloc → ℕ → USizeRange → RangeAlloc → Type 0
Taken v size out v' =
    (out.size ≡ size) × ((a : ℕ) → cover (items v) a ≡ cover (items v') a + inside out a)

take_range-Taken :
    (v : RangeAlloc) (i size : ℕ) (r : USizeRange)
    → IsRanges v
    → i < v.len
    → get_elem? v.cells i ≡ some r
    → size ≤ r.size
    → Taken v size (take_range v i r size).0 (take_range v i r size).1
unfolding take_range
take_range-Taken v i size r ok lt e big =
    let here : get_elem? (items v) i ≡ some r = get_elem?-take v.cells v.len i lt ∙ e in
    let word_end : r.base + r.size < word =
      All-get_elem? (λ r. r.base + r.size < word) (items v) i ok.words here in
    elim (ℕ_discrete r.size size) [
      | yes exact ↦ (
        ground arith,
        λ a. ground (
          arith,
          items-vec_splice v i lt ok.fits,
          cover-erase_idx (items v) i r a here,
          ap (λ k. cover k a) (items-vec_splice v i lt ok.fits),
        ),
      )
      | no more ↦
          let new : USizeRange = record { base = add64 r.base size; size = r.size - size } in
          (
            ground arith,
            λ a. ground (
              arith,
              cover-set (items v) i r new a here,
              ap (λ k. cover k a) (take-set v.cells v.len i new),
            ),
          )
    ]

-- The ranges from the index on are smaller.
abbrev pub AllSmaller : RangeAlloc → ℕ → ℕ → Type 0
AllSmaller v i size =
    (j : ℕ) (r : USizeRange) → i ≤ j → get_elem? (items v) j ≡ some r → r.size < size

AllSmaller-cons :
    (v : RangeAlloc) (i size : ℕ) (r : USizeRange)
    → i < v.len
    → get_elem? v.cells i ≡ some r
    → leb size r.size ≡ false
    → AllSmaller v (i + 1) size
    → AllSmaller v i size
AllSmaller-cons v i size r lt here small later j q le e = elim (ℕ_discrete j i) [
  | yes same ↦
      let found : get_elem? v.cells i ≡ some q =
        sym (get_elem?-take v.cells v.len i lt)
        ∙ subst (λ k. get_elem? (items v) k ≡ some q) same e in
      let eq : r ≡ q = ground arith in rw (sym eq) (ground arith)
  | no other ↦ later j q (omega arith) e
]

-- What was taken out is the front of a range of the list.
abbrev pub StartsIn : RangeAlloc → ℕ → USizeRange → Type 0
StartsIn v size out =
    (j : ℕ) × (r : USizeRange) × (get_elem? (items v) j ≡ some r)
    × (out.base ≡ r.base)
    × (size ≤ r.size)

take_range-base :
    (v : RangeAlloc) (i size : ℕ) (r : USizeRange) → (take_range v i r size).0.base ≡ r.base
unfolding take_range
take_range-base v i size r = elim (Bool-cases (r.size == size)) [
  | inl exact ↦ rw exact
  | inr more ↦ rw more
]

abbrev pub AllocCases : RangeAlloc → ℕ → ℕ → USizeRange → RangeAlloc → Type 0
AllocCases v i size out v' =
    ((out ≡ empty_range) × (v' ≡ v) × AllSmaller v i size)
    ⊎ (Taken v size out v' × StartsIn v size out)

alloc_loop-cases :
    (left i : ℕ) (v : RangeAlloc) (size : ℕ)
    → IsRanges v
    → i + left ≡ v.len
    → (out : USizeRange) × (v' : RangeAlloc) × (alloc_loop left i v size ≡ some (out, v'))
      × AllocCases v i size out v'
unfolding alloc_loop
alloc_loop-cases zero i v size ok e = (
  empty_range,
  v,
  refl,
  inl (
    refl,
    refl,
    λ j r le found. absurd (omega (arith, get_elem?-take_lt v.cells v.len j r found)),
  ),
)
alloc_loop-cases (suc left) i v size ok e =
    let (r, here) = get_elem?-lt v.cells i (omega (arith, ok.fits)) in
    elim (Bool-cases (leb size r.size)) [
      | inl big ↦ (
        (take_range v i r size).0,
        (take_range v i r size).1,
        ground arith,
        inr (
          take_range-Taken v i size r ok (omega arith) here (ground arith),
          (
            i,
            r,
            get_elem?-take v.cells v.len i (omega arith) ∙ here,
            take_range-base v i size r,
            ground arith,
          ),
        ),
      )
      | inr small ↦
          let (out, v', ran, cases) = alloc_loop-cases left (i + 1) v size ok (omega arith) in
          (
            out,
            v',
            ground arith,
            elim cases [
              | inl (none_out, same, later) ↦
                  inl (none_out, same, AllSmaller-cons v i size r (omega arith) here small later)
              | inr taken ↦ inr taken
            ],
          )
    ]

-- x
pub range_alloc_alloc-AllocCases :
    (v : RangeAlloc) (size : ℕ)
    → IsRanges v
    → (out : USizeRange) × (v' : RangeAlloc) × (range_alloc_alloc v size ≡ some (out, v'))
      × AllocCases v 0 size out v'
unfolding range_alloc_alloc
range_alloc_alloc-AllocCases v size ok = alloc_loop-cases v.len 0 v size ok (omega arith)
