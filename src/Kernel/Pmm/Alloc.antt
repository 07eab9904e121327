-- ===== src/Kernel/Pmm/Alloc.antt =====
-- What one `pmm_alloc` of sources/kernel/pmm.c does.
use brutal.Base.{
  ℕ, ◌+◌, ◌-◌, ◌*◌, ◌/◌, ◌%◌, ◌≤◌, ◌<◌, Bool, Bool-cases, true, false, Option, Option-cases, none,
  some, ◌≡◌, refl, arith, ◌==◌, if◌then◌else◌, ◌⊎◌, inl, inr, ap, sym, ◌∙◌, add64, word, ltb,
  assert, ltb→lt, subst, subst₂, >>=-eq-some,
}
use brutal.Ds.Bits.{Bits, BitsRange, empty_range, bits_len, bits_find_free}
use brutal.Ds.Bits.Laws.{IsBitmap}
use brutal.Ds.Bits.Range.{IsSpanSet, bits_set_range-SetRange}
use brutal.Ds.Bits.Find.{FreeRun, NoFreeRun, Search, bits_find_free-up}
use brutal.Ds.Bits.Down.{bits_find_free-down, bits_find_free-down_past_end}
use brutal.Kernel.Pmm.{
  Pmm, PmmRange, PmmResult, ok, page_size, pages2addr, search_again, reset_hint, take_pages,
  account, pmm_alloc, is_size_page_aligned,
}

-- The bitmap is well formed and not empty, and the addresses of its pages are words.
pub record IsPmm (p : Pmm) : Type 0 where
  pub bitmap : IsBitmap p.bitmap
  pub some_pages : 0 < p.bitmap.size
  pub fits : p.usable_range.base + bits_len p.bitmap * page_size < word

-- The pages `[start, start + size / page_size)` went from free to used, and `r` is their address.
pub record Allocated (p : Pmm) (size : ℕ) (r : PmmRange) (q : Pmm) : Type 0 where
  pub start : ℕ
  pub whole : size % page_size ≡ 0
  pub inside : start + size / page_size ≤ bits_len p.bitmap
  pub was_free : FreeRun p.bitmap start (size / page_size)
  pub base : r.base ≡ p.usable_range.base + start * page_size
  pub exact : r.size ≡ size
  pub marked : IsSpanSet p.bitmap start (size / page_size) true q.bitmap
  pub counted : q.used_memory ≡ add64 p.used_memory size
  pub same_usable : q.usable_range ≡ p.usable_range

-- A run that `bits_find_free` may hand to `pmm_alloc`.
abbrev pub Usable : Bits → ℕ → BitsRange → Type 0
Usable b n run = (run.size ≡ n) × (run.base + n ≤ bits_len b) × FreeRun b run.base n

pub Search-cases :
    {b : Bits} {n lo hi : ℕ} {result : Option BitsRange} {run : BitsRange}
    → Search b n lo hi result
    → result ≡ some run
    → hi ≤ bits_len b
    → Usable b n run ⊎ ((run ≡ empty_range) × NoFreeRun b n lo hi)
Search-cases {b} {n} {lo} {hi} {run = run} s e h =
    subst (λ x. Usable b n x ⊎ ((x ≡ empty_range) × NoFreeRun b n lo hi)) same_run (cases s.verdict)
  where
    same_run : s.found ≡ run
    same_run = cc (s.returns)

    cases :
        ((s.found.size ≡ n)
            × (lo ≤ s.found.base)
            × (s.found.base + n ≤ hi)
            × FreeRun b s.found.base n)
          ⊎ ((s.found ≡ empty_range) × NoFreeRun b n lo hi)
        → Usable b n s.found ⊎ ((s.found ≡ empty_range) × NoFreeRun b n lo hi)
    cases (inl (a, c, d, f)) = inl (a, omega arith, f)
    cases (inr m) = inr m

pub or_left {ℓ} : {A B C : Type ℓ} → A ⊎ (B × C) → A ⊎ B
or_left (inl a) = inl a
or_left (inr (b, c)) = inr b

find_free_cases :
    (b : Bits) (start n : ℕ) (upper : Bool) {run : BitsRange}
    → IsBitmap b
    → 0 < b.size
    → 0 < n
    → bits_find_free b start n upper ≡ some run
    → Usable b n run ⊎ (run ≡ empty_range)
find_free_cases b start n true {run} w pos n_pos e = elim (Bool-cases (ltb start (bits_len b))) [
  | inl lt ↦ or_left (
      Search-cases (bits_find_free-down b start n w (ltb→lt _ _ lt) n_pos) e
        (omega (arith, ltb→lt start (bits_len b) lt)))
  | inr ge ↦ ground (arith, bits_find_free-down_past_end b start n w pos)
]
find_free_cases b start n false {run} w pos n_pos e =
    or_left (Search-cases (bits_find_free-up b start n w pos n_pos) e (omega arith))

-- Marking the pages that were found.
pub take_pages-Allocated :
    (p : Pmm) (size : ℕ) (upper : Bool) (run : BitsRange)
    → IsPmm p
    → 0 < size / page_size
    → size % page_size ≡ 0
    → Usable p.bitmap (size / page_size) run
    → (r : PmmRange) × (q : Pmm) × (take_pages p upper run ≡ some (ok r, q)) × Allocated p size r q
unfolding take_pages account pages2addr
take_pages-Allocated p size upper run v pos aligned (n_eq, inside, free) =
    let set =
      bits_set_range-SetRange p.bitmap run true v.bitmap (omega (arith, v.fits, n_eq))
        (omega (arith, n_eq)) in
    (
      pages2addr p run,
      account p upper run set.new,
      ground (arith, set.returns),
      record {
        start = run.base;
        whole = aligned;
        inside = inside;
        was_free = free;
        base = omega (arith, v.fits);
        exact = exact_size;
        marked = subst (λ k. IsSpanSet p.bitmap run.base k true set.new) n_eq set.changed;
        counted = ap (add64 p.used_memory) exact_size;
        same_usable = refl;
      },
    )
  where
    exact_size : (pages2addr p run).size ≡ size
    exact_size = omega (arith, v.fits)

-- What the two searches leave: at most a hint has changed.
record Searched (p : Pmm) (n : ℕ) (q : Pmm) (run : BitsRange) : Type 0 where
  same_bitmap : q.bitmap ≡ p.bitmap
  same_range : q.usable_range ≡ p.usable_range
  same_used : q.used_memory ≡ p.used_memory
  usable : Usable p.bitmap n run ⊎ (run ≡ empty_range)

reset_hint-Searched :
    (p : Pmm) (upper : Bool) (n : ℕ) (run : BitsRange)
    → Usable p.bitmap n run ⊎ (run ≡ empty_range)
    → Searched p n (reset_hint p upper) run
unfolding reset_hint
reset_hint-Searched p true n run u = record {
  same_bitmap = refl;
  same_range = refl;
  same_used = refl;
  usable = u;
}
reset_hint-Searched p false n run u = record {
  same_bitmap = refl;
  same_range = refl;
  same_used = refl;
  usable = u;
}

search_again-Searched :
    (p : Pmm) (n : ℕ) (upper : Bool) (first : BitsRange) {q : Pmm} {run : BitsRange}
    → IsPmm p
    → 0 < n
    → Usable p.bitmap n first ⊎ (first ≡ empty_range)
    → search_again p n upper first ≡ some (q, run)
    → Searched p n q run
unfolding search_again
search_again-Searched p n upper first {q} {run} v pos u e = elim (Bool-cases (first.size == 0)) [
  | inl again ↦
      elim (Option-cases (bits_find_free p.bitmap (if upper then word - 1 else 0) n upper)) [
        | inl out ↦ absurd (ground arith)
        | inr (pages, found) ↦
            let at_q : reset_hint p upper ≡ q = ground arith in
            let at_run : pages ≡ run = ground arith in
            subst₂ (λ x y. Searched p n x y) at_q at_run
              (reset_hint-Searched p upper n pages (
                find_free_cases p.bitmap (if upper then word - 1 else 0) n upper v.bitmap
                  v.some_pages pos found))
      ]
  | inr done ↦
      let at_q : p ≡ q = ground arith in
      let at_run : first ≡ run = ground arith in
      subst₂ (λ x y. Searched p n x y) at_q at_run
        (record { same_bitmap = refl; same_range = refl; same_used = refl; usable = u })
]

Searched-IsPmm : {p q : Pmm} {n : ℕ} {run : BitsRange} → Searched p n q run → IsPmm p → IsPmm q
Searched-IsPmm s v = record {
  bitmap = rw s.same_bitmap v.bitmap;
  some_pages = rw s.same_bitmap v.some_pages;
  fits = rw (s.same_bitmap, s.same_range) v.fits;
}

-- The two searches changed nothing that an allocation is about.
Allocated-before :
    {p p' q : Pmm} {n size : ℕ} {run : BitsRange} {r : PmmRange}
    → Searched p n p' run
    → Allocated p' size r q
    → Allocated p size r q
Allocated-before {p} {p'} {q} {size = size} s a = record {
  start = a.start;
  whole = a.whole;
  inside = subst (λ b. a.start + size / page_size ≤ bits_len b) s.same_bitmap a.inside;
  was_free = subst (λ b. FreeRun b a.start (size / page_size)) s.same_bitmap a.was_free;
  base = a.base ∙ ap (λ (u : PmmRange). u.base + a.start * page_size) s.same_range;
  exact = a.exact;
  marked = subst (λ b. IsSpanSet b a.start (size / page_size) true q.bitmap) s.same_bitmap a.marked;
  counted = a.counted ∙ ap (λ u. add64 u size) s.same_used;
  same_usable = a.same_usable ∙ s.same_range;
}

take_pages-empty :
    (p : Pmm) (upper : Bool) (run : BitsRange) → run ≡ empty_range → take_pages p upper run ≡ none
unfolding take_pages
take_pages-empty p upper run e = rw e

take-Searched :
    (p : Pmm) (size : ℕ) (upper : Bool) (run : BitsRange) {p' q : Pmm} {result : PmmResult}
    → IsPmm p
    → 0 < size / page_size
    → size % page_size ≡ 0
    → Searched p (size / page_size) p' run
    → take_pages p' upper run ≡ some (result, q)
    → (r : PmmRange) × (result ≡ ok r) × Allocated p size r q
take-Searched p size upper run {p'} {q} {result} v pos aligned s e = by_case s.usable
  where
    by_case :
        Usable p.bitmap (size / page_size) run ⊎ (run ≡ empty_range)
        → (r : PmmRange) × (result ≡ ok r) × Allocated p size r q
    by_case (inl u) =
        let (r, q', ret, a) =
          take_pages-Allocated p' size upper run (Searched-IsPmm s v) pos aligned
            (subst (λ b. Usable b (size / page_size) run) (sym s.same_bitmap) u) in
        let at_result : result ≡ ok r = ground arith in
        let at_q : q' ≡ q = ground arith in
        (r, at_result, Allocated-before s (subst (λ x. Allocated p' size r x) at_q a))
    by_case (inr none_found) = absurd (ground (arith, take_pages-empty p' upper run none_found))

-- From a well-formed state and for a size above 0: whatever `pmm_alloc` returns, in either
-- direction, is a range whose pages were free and lie in the bitmap, exactly as large as asked
-- for; its pages become used, every other page reads as before, and the size is added to the used
-- memory.
pub pmm_alloc-Allocated :
    (p : Pmm) (size : ℕ) (upper : Bool) {result : PmmResult} {q : Pmm}
    → IsPmm p
    → 0 < size
    → pmm_alloc p size upper ≡ some (result, q)
    → (r : PmmRange) × (result ≡ ok r) × Allocated p size r q
unfolding pmm_alloc
pmm_alloc-Allocated p size upper {result} {q} v pos e =
    let (_, aligned, e₁) = >>=-eq-some (assert (is_size_page_aligned size)) _ e in
    let (first, found, e₂) =
      >>=-eq-some
        (bits_find_free p.bitmap (if upper then p.bestbet_upper else p.bestbet_lower)
          (size / page_size) upper)
        _ e₁ in
    let ((p', run), again, e₃) = >>=-eq-some (search_again p (size / page_size) upper first) _ e₂ in
    let whole : size % page_size ≡ 0 = ground arith in
    let n_pos : 0 < size / page_size = omega arith in
    take-Searched p size upper run v n_pos whole
      (search_again-Searched p (size / page_size) upper first v n_pos
        (find_free_cases p.bitmap _ (size / page_size) upper v.bitmap v.some_pages n_pos found)
        again)
      e₃

pub Allocated-ok :
    (p : Pmm) (size : ℕ) (upper : Bool) {r : PmmRange} {q : Pmm}
    → IsPmm p
    → 0 < size
    → pmm_alloc p size upper ≡ some (ok r, q)
    → Allocated p size r q
Allocated-ok p size upper {r} {q} v pos e =
    let (r', same_result, a) = pmm_alloc-Allocated p size upper v pos e in
    let at_r : r' ≡ r = cc same_result in subst (λ x. Allocated p size x q) at_r a
