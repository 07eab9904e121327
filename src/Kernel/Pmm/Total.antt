-- ===== src/Kernel/Pmm/Total.antt =====
-- When `pmm_alloc` of sources/kernel/pmm.c returns.
use brutal.Base.{ℕ, ◌+◌, ◌/◌, ◌%◌, ◌≤◌, ◌<◌, min, false, some, ◌≡◌, arith, ◌⊎◌, inl, inr}
use brutal.Ds.Bits.{BitsRange, empty_range, bits_len, bits_find_free}
use brutal.Ds.Bits.Find.{FreeRun, NoFreeRun, Search, bits_find_free-up}
use brutal.Kernel.Pmm.{
  Pmm, PmmRange, ok, page_size, search_again, reset_hint, take_pages, pmm_alloc,
}
use brutal.Kernel.Pmm.Alloc.{IsPmm, Usable, Search-cases, take_pages-Allocated}

module _ (p : Pmm) (size c : ℕ) (v : IsPmm p) (pos : 0 < size / page_size)
    (whole : size % page_size ≡ 0) (inside : c + size / page_size ≤ bits_len p.bitmap)
    (free : FreeRun p.bitmap c (size / page_size)) where
  -- The second search, from page 0, cannot miss the run.
  second_search :
      (run : BitsRange) × (bits_find_free p.bitmap 0 (size / page_size) false ≡ some run)
      × Usable p.bitmap (size / page_size) run
  second_search = (s.found, s.returns, found_it (Search-cases s s.returns (omega arith)))
    where
      s :
          Search p.bitmap
            (size / page_size)
            (min 0 (bits_len p.bitmap))
            (bits_len p.bitmap)
            (bits_find_free p.bitmap 0 (size / page_size) false)
      s = bits_find_free-up p.bitmap 0 (size / page_size) v.bitmap v.some_pages pos

      found_it :
          Usable p.bitmap (size / page_size) s.found
            ⊎ ((s.found ≡ empty_range)
                × NoFreeRun p.bitmap
                    (size / page_size)
                    (min 0 (bits_len p.bitmap))
                    (bits_len p.bitmap))
          → Usable p.bitmap (size / page_size) s.found
      found_it (inl u) = u
      found_it (inr (_, missed)) = absurd (missed c (omega arith) inside free)

  reset-IsPmm : IsPmm (reset_hint p false)
  unfolding reset_hint
  reset-IsPmm = record { bitmap = v.bitmap; some_pages = v.some_pages; fits = v.fits }

  again_total :
      (r : PmmRange) × (q : Pmm) × (take_pages (reset_hint p false) false second_search.0
        ≡ some (ok r, q))
  unfolding reset_hint
  again_total =
      let (r, q, e, _) =
        take_pages-Allocated (reset_hint p false) size false second_search.0 reset-IsPmm pos whole
          second_search.2 in
      (r, q, e)

  -- From a well-formed state: an allocation from below of a whole number of pages, at least one,
  -- succeeds if that many free pages in a row lie anywhere in the bitmap.
  pub pmm_alloc-total : (r : PmmRange) × (q : Pmm) × (pmm_alloc p size false ≡ some (ok r, q))
  unfolding pmm_alloc search_again
  pmm_alloc-total =
      let s =
        bits_find_free-up p.bitmap p.bestbet_lower (size / page_size) v.bitmap v.some_pages pos in
      by_case s (Search-cases s s.returns (omega arith))
    where
      by_case :
          (s : Search p.bitmap
            (size / page_size)
            (min p.bestbet_lower (bits_len p.bitmap))
            (bits_len p.bitmap)
            (bits_find_free p.bitmap p.bestbet_lower (size / page_size) false))
          → Usable p.bitmap (size / page_size) s.found
            ⊎ ((s.found ≡ empty_range)
                × NoFreeRun p.bitmap
                    (size / page_size)
                    (min p.bestbet_lower (bits_len p.bitmap))
                    (bits_len p.bitmap))
          → (r : PmmRange) × (q : Pmm) × (pmm_alloc p size false ≡ some (ok r, q))
      by_case s (inl u) =
          let (r, q, e, _) = take_pages-Allocated p size false s.found v pos whole u in
          (r, q, ground (arith, s.returns, u.0, e))
      by_case s (inr (none_found, _)) =
          let (run, e, u) = second_search in
          let (r, q, e') = again_total in (r, q, ground (arith, s.returns, none_found, e, e'))
