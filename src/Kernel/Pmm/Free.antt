-- ===== src/Kernel/Pmm/Free.antt =====
-- Two allocations of sources/kernel/pmm.c, and an allocation that is freed.
use brutal.Base.{
  ℕ, zero, suc, ◌+◌, ◌/◌, ◌%◌, ◌≤◌, ◌<◌, Bool, true, false, some, ◌≡◌, ◌≢◌, refl, arith, ◌⊎◌, inl,
  inr, ap, ◌∙◌, sub64, mul64, word,
}
use native.Mathlib.Decide.{dec_le}
use brutal.Ds.Bits.{Bits, BitsRange, bits_get, bits_set_range}
use brutal.Ds.Bits.Range.{SetRange, bits_set_range-SetRange, differing}
use brutal.Kernel.Pmm.{
  Pmm, PmmRange, ok, page_size, addr2pages, pmm_alloc, pmm_unused, move_hints, give_back,
}
use brutal.Kernel.Pmm.Alloc.{IsPmm, Allocated, Allocated-ok}

pub Allocated-IsPmm :
    {p q : Pmm} {size : ℕ} {r : PmmRange} → IsPmm p → Allocated p size r q → IsPmm q
Allocated-IsPmm {p} {q} v a = record {
  bitmap = a.marked.bitmap;
  some_pages = omega (arith, v.some_pages, a.marked.same_size);
  fits = omega (arith, v.fits, a.marked.same_size, ap (λ (u : PmmRange). u.base) a.same_usable);
}

-- Two pages that are handed out one after the other are different.
disjoint :
    {p q q' : Pmm} {m n : ℕ} {r s : PmmRange}
    → m % page_size ≡ 0
    → n % page_size ≡ 0
    → 0 < m
    → 0 < n
    → (a : Allocated p m r q) → (c : Allocated q n s q')
    → (a.start + m / page_size ≤ c.start) ⊎ (c.start + n / page_size ≤ a.start)
disjoint {p} {q} {m = m} {n = n} hm hn pm pn a c = elim (dec_le (a.start + m / page_size) c.start) [
  | yes h ↦ inl h
  | no h ↦ elim (dec_le (c.start + n / page_size) a.start) [
    | yes k ↦ inr k
    | no k ↦ elim (dec_le a.start c.start) [
      | yes le ↦ absurd (ground (arith, c.was_free c.start, a.marked.reads c.start))
      | no gt ↦ absurd (ground (arith, c.was_free a.start, a.marked.reads a.start))
    ]
  ]
]

-- From a well-formed state and for sizes above 0: the ranges of two successful allocations in a
-- row do not overlap.
pub pmm_alloc_disjoint :
    (p : Pmm) (m n : ℕ) (up up' : Bool) {r s : PmmRange} {q q' : Pmm}
    → IsPmm p
    → 0 < m
    → 0 < n
    → pmm_alloc p m up ≡ some (ok r, q)
    → pmm_alloc q n up' ≡ some (ok s, q')
    → (r.base + r.size ≤ s.base) ⊎ (s.base + s.size ≤ r.base)
pmm_alloc_disjoint p m n up up' {r} {s} {q} {q'} v pm pn e e' =
    let a = Allocated-ok p m up v pm e in
    let c = Allocated-ok q n up' (Allocated-IsPmm v a) pn e' in
    omega (
      arith,
      disjoint a.whole c.whole pm pn a c,
      a.base,
      a.exact,
      a.whole,
      c.base,
      c.exact,
      c.whole,
      ap (λ (u : PmmRange). u.base) a.same_usable,
    )

all_set-differing :
    (n : ℕ) (b : Bits) (i : ℕ)
    → ((j : ℕ) → i ≤ j → j < i + n → bits_get b j ≡ some true)
    → differing n b i false ≡ n
unfolding differing
all_set-differing zero b i h = refl
all_set-differing (suc n) b i h =
    rw
      (
        h i (omega arith) (omega arith),
        all_set-differing n b (i + 1) (λ j p q. h j (omega arith) (omega arith)),
      )
      (omega arith)

pages_of :
    {p q : Pmm} {size : ℕ} {r : PmmRange}
    → (a : Allocated p size r q) → IsPmm p
    → addr2pages q r ≡ record { base = a.start; size = size / page_size }
unfolding addr2pages
pages_of a v = ground (arith, a.base, a.exact, a.inside, v.fits, a.same_usable)

-- `pmm_unused` of an aligned range of pages of the bitmap.
pub pmm_unused-give_back :
    (p : Pmm) (r : PmmRange) (pages : BitsRange)
    → r.base % page_size ≡ 0
    → r.size % page_size ≡ 0
    → r.base ≢ 0
    → addr2pages p r ≡ pages
    → (s : SetRange p.bitmap pages false (bits_set_range p.bitmap pages false))
    → pmm_unused p r
      ≡ some (ok r, give_back p pages (differing pages.size p.bitmap pages.base false) s.new)
unfolding pmm_unused
pmm_unused-give_back p r pages base_aligned size_aligned off_zero at s =
    ground (arith, s.returns, base_aligned, size_aligned)

give_back_fields :
    (p : Pmm) (pages : BitsRange) (count : ℕ) (b : Bits)
    → ((give_back p pages count b).bitmap ≡ b)
      × ((give_back p pages count b).used_memory ≡ sub64 p.used_memory (mul64 count page_size))
unfolding give_back move_hints
give_back_fields p pages count b = (refl, refl)

-- From a well-formed state with an aligned usable range above address 0, and with a used memory
-- that does not wrap: freeing what a `pmm_alloc` of a size above 0 just returned succeeds, makes
-- every page read as before the allocation, and takes the used memory back to what it was.
pub pmm_unused-pmm_alloc :
    (p : Pmm) (size : ℕ) (upper : Bool) {r : PmmRange} {q : Pmm}
    → IsPmm p
    → 0 < size
    → p.usable_range.base % page_size ≡ 0
    → 0 < p.usable_range.base
    → p.used_memory + size < word
    → pmm_alloc p size upper ≡ some (ok r, q)
    → (q' : Pmm) × (pmm_unused q r ≡ some (ok r, q'))
      × ((j : ℕ) → bits_get q'.bitmap j ≡ bits_get p.bitmap j)
      × (q'.used_memory ≡ p.used_memory)
pmm_unused-pmm_alloc p size upper {r} {q} v pos aligned off_zero room e =
    let a = Allocated-ok p size upper v pos e in
    let v' = Allocated-IsPmm v a in
    let n = size / page_size in
    let pages : BitsRange = record { base = a.start; size = n } in
    let set =
      bits_set_range-SetRange q.bitmap pages false v'.bitmap (omega (arith, v.fits, a.inside))
        (omega (arith, a.inside, a.marked.same_size)) in
    let fields = give_back_fields q pages (differing n q.bitmap a.start false) set.new in
    let all : differing n q.bitmap a.start false ≡ n =
      all_set-differing n q.bitmap a.start (λ j x y. ground (arith, a.marked.reads j)) in
    (
      give_back q pages (differing n q.bitmap a.start false) set.new,
      pmm_unused-give_back q r pages (omega (arith, a.base, aligned))
          (omega (arith, a.exact, a.whole)) (omega (arith, a.base, off_zero)) (pages_of a v) set,
      λ j. rw fields.0 (ground (arith, set.changed.reads j, a.marked.reads j, a.was_free j)),
      fields.1 ∙ omega (arith, all, a.counted, a.whole, a.inside, v.fits, room),
    )
