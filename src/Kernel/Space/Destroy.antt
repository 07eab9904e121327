-- ===== src/Kernel/Space/Destroy.antt =====
-- What `space_destroy` of sources/kernel/space.c releases.
use brutal.Base.{
  length-take, length-take_le, length-erase_idx, get_elem?-take, get_elem?-take_lt, ℕ, zero, suc,
  ◌+◌, ◌-◌, inl, inr, ◌≤◌, ◌<◌, Bool-cases, Option-cases, true, false, Option, none, some, List, [],
  ◌∷◌, length, get_elem?, get_elem?-lt, erase_idx, ltb, All, All-get_elem?, ◌≡◌, refl, sym, ap, ◌∙◌,
  subst, arith,
}
use brutal.Ds.Vec.{Vec, capacity, vec_splice}
use brutal.Ds.Vec.Laws.{items, items-vec_splice}
use brutal.Ds.RangeAlloc.Cover.{inside}
use native.Mathlib.Numerals.{add-one}
use brutal.Kernel.Object.{Objects, object_deref}
use brutal.Kernel.Vmm.{
  VmmCall, vmm_unmap, vmm_flush, vmm_space_destroy, range_has, is_present, unmap_range,
}
use brutal.Kernel.Vmm.Laws.{IsPages, unmap_range-present}
use brutal.Kernel.Space.{Mmap, Space, space_mmap_destroy, space_destroy_loop, space_destroy}

-- The first, third, ... mapping.
abbrev pub odd_ones : List Mmap → List Mmap
odd_ones [] = []
odd_ones (m ∷ []) = m ∷ []
odd_ones (m ∷ n ∷ ms) = m ∷ odd_ones ms

-- The objects of the mappings lose a reference each.
abbrev pub derefs : List Mmap → Objects → Objects
derefs [] w = w
derefs (m ∷ ms) w = derefs ms (object_deref w m.object)

-- The mappings that the rounds take out, on the list alone.
abbrev dropped : ℕ → ℕ → List Mmap → List Mmap
dropped zero i ms = []
dropped (suc left) i ms = elim (get_elem? ms i) [
  | none ↦ []
  | some m ↦ m ∷ dropped left (suc i) (erase_idx ms i)
]

dropped-cons :
    (left i : ℕ) (m : Mmap) (ms : List Mmap) → dropped left (suc i) (m ∷ ms) ≡ dropped left i ms
dropped-cons zero i m ms = refl
dropped-cons (suc left) i m ms =
    elim (get_elem? ms i)
      as (λ o.
        elim o as (λ _. List Mmap) [
          | none ↦ []
          | some n ↦ n ∷ dropped left (suc (suc i)) (m ∷ erase_idx ms i)
        ]
        ≡ elim o as (λ _. List Mmap) [
          | none ↦ []
          | some n ↦ n ∷ dropped left (suc i) (erase_idx ms i)
        ]) [ none ↦ refl | some n ↦ ap (λ l. n ∷ l) (dropped-cons left (suc i) m (erase_idx ms i)) ]

dropped_nil : (left i : ℕ) → dropped left i [] ≡ []
dropped_nil zero i = refl
dropped_nil (suc left) i = refl

dropped-odd_ones : (left : ℕ) (ms : List Mmap) → length ms ≤ left → dropped left 0 ms ≡ odd_ones ms
dropped-odd_ones zero [] h = refl
dropped-odd_ones zero (m ∷ ms) h = absurd (omega arith)
dropped-odd_ones (suc left) [] h = refl
dropped-odd_ones (suc left) (m ∷ []) h = ap (λ l. m ∷ l) (dropped_nil left 1)
dropped-odd_ones (suc left) (m ∷ n ∷ ms) h =
    ap (λ l. m ∷ l) (dropped-cons left 0 n ms ∙ dropped-odd_ones left ms (omega arith))

-- How many of the mappings hold the address.
abbrev pub covers : List Mmap → ℕ → ℕ
covers [] a = 0
covers (m ∷ ms) a = inside m.range a + covers ms a

covers-erase_idx :
    (ms : List Mmap) (i : ℕ) (m : Mmap) (a : ℕ)
    → get_elem? ms i ≡ some m
    → covers ms a ≡ covers (erase_idx ms i) a + inside m.range a
covers-erase_idx [] i m a e = absurd (ground arith)
covers-erase_idx (x ∷ xs) zero m a e = let same : x ≡ m = ground arith in rw same (omega arith)
covers-erase_idx (x ∷ xs) (suc i) m a e = omega (arith, covers-erase_idx xs i m a e)

All-erase_idx : (P : Mmap → Type 0) (ms : List Mmap) (i : ℕ) → All P ms → All P (erase_idx ms i)
All-erase_idx P [] i h = tt
All-erase_idx P (x ∷ xs) zero h = h.1
All-erase_idx P (x ∷ xs) (suc i) h = (h.0, All-erase_idx P xs i h.1)

-- The mappings are whole pages that are mapped, each once.
pub record IsHeld (ms : List Mmap) (calls : List VmmCall) : Type 0 where
  pub pages : All (λ m. IsPages m.range) ms
  pub once : (a : ℕ) → covers ms a ≤ 1
  pub present : (a : ℕ) → 0 < covers ms a → is_present calls a ≡ true

-- A mapping that is held can be unmapped, and the others stay held.
unmapped-IsHeld :
    (ms : List Mmap) (calls : List VmmCall) (i : ℕ) (m : Mmap)
    → IsHeld ms calls
    → get_elem? ms i ≡ some m
    → (unmap_range calls m.range ≡ some (vmm_unmap m.range ∷ calls))
      × IsHeld (erase_idx ms i) (vmm_flush m.range ∷ vmm_unmap m.range ∷ calls)
unfolding is_present
unmapped-IsHeld ms calls i m held at = (
  unmap_range-present calls m.range (All-get_elem? (λ m. IsPages m.range) ms i held.pages at)
      (λ a h. held.present a (let split = covers-erase_idx ms i m a at in ground arith)),
  record {
    pages = All-erase_idx (λ m. IsPages m.range) ms i held.pages;
    once = λ a. omega (arith, covers-erase_idx ms i m a at, held.once a);
    present = λ a h.
        let split = covers-erase_idx ms i m a at in
        let single = held.once a in
        let outside : range_has m.range a ≡ false = ground arith in
        rw (outside, held.present a (omega arith));
  },
)

-- The elements are as many as the vector says.
abbrev IsFull : Vec Mmap → Type 0
IsFull v = length (items v) ≡ v.len

vec_splice-IsFull : (v : Vec Mmap) (i : ℕ) → i < v.len → IsFull v → IsFull (vec_splice v i 1)
unfolding vec_splice
vec_splice-IsFull v i lt full =
    let fits : v.len ≤ capacity v = length-take_le v.cells v.len full in
    ap length (items-vec_splice v i lt fits)
    ∙ length-erase_idx (items v) i (omega arith)
    ∙ ap (λ k. k - 1) full

dropped-at :
    (left i : ℕ) (m : Mmap) (ms : List Mmap)
    → get_elem? ms i ≡ some m
    → dropped (suc left) i ms ≡ m ∷ dropped left (suc i) (erase_idx ms i)
dropped-at left i m ms at = rw (dropped, at) refl

dropped_over : (left i : ℕ) (ms : List Mmap) → get_elem? ms i ≡ none → dropped (suc left) i ms ≡ []
dropped_over left i ms over = rw (dropped, over) refl

-- A round on a mapping that can be unmapped
destroy_loop-round :
    (left i : ℕ) (s : Space) (w : Objects) (m : Mmap) (r : Option (Space × Objects))
    → ltb i s.mmaps.len ≡ true
    → get_elem? s.mmaps.cells i ≡ some m
    → unmap_range s.vmm m.range ≡ some (vmm_unmap m.range ∷ s.vmm)
    → space_destroy_loop left
        (i + 1)
        (record s {
          mmaps = vec_splice s.mmaps i 1;
          vmm = vmm_flush m.range ∷ vmm_unmap m.range ∷ s.vmm;
        })
        (object_deref w m.object)
      ≡ r
    → space_destroy_loop (suc left) i s w ≡ r
unfolding space_destroy_loop space_mmap_destroy
destroy_loop-round left i s w m r lt here gone next = rw (lt, here, gone) next

destroy_loop-dropped :
    (left i : ℕ) (s : Space) (w : Objects)
    → IsFull s.mmaps
    → IsHeld (items s.mmaps) s.vmm
    → (s' : Space) × (space_destroy_loop left i s w
        ≡ some (s', derefs (dropped left i (items s.mmaps)) w))
unfolding space_destroy_loop space_mmap_destroy
destroy_loop-dropped zero i s w full held = (s, refl)
destroy_loop-dropped (suc left) i s w full held =
    let fits : s.mmaps.len ≤ capacity s.mmaps = length-take_le s.mmaps.cells s.mmaps.len full in
    elim (Bool-cases (ltb i s.mmaps.len)) [
      | inl lt ↦
          let (m, here) = get_elem?-lt s.mmaps.cells i (ground arith) in
          let at : get_elem? (items s.mmaps) i ≡ some m =
            get_elem?-take s.mmaps.cells s.mmaps.len i (ground arith) ∙ here in
          let (gone, kept) = unmapped-IsHeld (items s.mmaps) s.vmm i m held at in
          let rest = items-vec_splice s.mmaps i (ground arith) fits in
          let s₁ : Space = record s {
            mmaps = vec_splice s.mmaps i 1;
            vmm = vmm_flush m.range ∷ vmm_unmap m.range ∷ s.vmm;
          } in
          let (s', ran) =
            destroy_loop-dropped left (suc i) s₁ (object_deref w m.object)
              (vec_splice-IsFull s.mmaps i (ground arith) full)
              (subst (λ l. IsHeld l s₁.vmm) (sym rest) kept) in
          let next : space_destroy_loop left (i + 1) s₁ (object_deref w m.object)
              ≡ some (
                s',
                derefs (dropped left (suc i) (erase_idx (items s.mmaps) i))
                    (object_deref w m.object),
              ) =
            ap (λ k. space_destroy_loop left k s₁ (object_deref w m.object)) (add-one i)
            ∙ ran
            ∙ ap (λ l. some (s', derefs (dropped left (suc i) l) (object_deref w m.object))) rest in
          (
            s',
            destroy_loop-round left i s w m _ lt here gone next
                ∙ ap (λ l. some (s', derefs l w)) (sym (dropped-at left i m (items s.mmaps) at)),
          )
      | inr ge ↦
          let over : get_elem? (items s.mmaps) i ≡ none =
            elim (Option-cases (get_elem? (items s.mmaps) i)) [
              | inl nothing ↦ nothing
              | inr (m, at) ↦
                  let lt = get_elem?-take_lt s.mmaps.cells s.mmaps.len i m at in
                  absurd (ground arith)
            ] in
          (
            s,
            rw ge (ap (λ l. some (s, derefs l w)) (sym (dropped_over left i (items s.mmaps) over))),
          )
    ]

-- On a space whose mappings are no more than their cells, and are whole pages that are mapped,
-- each once: `space_destroy` returns, without mappings, free ranges and mapped pages, and only the
-- objects of the first, third and every other mapping have lost a reference: the others keep
-- theirs.
pub space_destroy-odd_ones :
    (s : Space) (w : Objects)
    → s.mmaps.len ≤ capacity s.mmaps
    → IsHeld (items s.mmaps) s.vmm
    → (s' : Space) × (space_destroy s w ≡ some (s', derefs (odd_ones (items s.mmaps)) w))
      × (items s'.mmaps ≡ [])
      × (items s'.alloc ≡ [])
      × ((a : ℕ) → is_present s'.vmm a ≡ false)
unfolding space_destroy is_present
space_destroy-odd_ones s w fits held =
    let full = length-take s.mmaps.cells s.mmaps.len fits in
    let (s', ran) = destroy_loop-dropped s.mmaps.len 0 s w full held in
    let all : dropped s.mmaps.len 0 (items s.mmaps) ≡ odd_ones (items s.mmaps) =
      dropped-odd_ones s.mmaps.len (items s.mmaps) (omega arith) in
    (
      record s' {
        alloc = record { cells = []; len = 0 };
        mmaps = record { cells = []; len = 0 };
        vmm = vmm_space_destroy ∷ s'.vmm;
      },
      rw (ran, all),
      refl,
      refl,
      λ a. refl,
    )
