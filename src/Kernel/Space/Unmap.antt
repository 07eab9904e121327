-- ===== src/Kernel/Space/Unmap.antt =====
-- `space_unmap` of sources/kernel/space.c, after a mapping.
use brutal.Base.{
  All, All-get_elem?, get_elem?-take, length-take, length_snoc, get_elem?_snoc, get_elem?_front,
  erase_idx_snoc, ℕ, zero, suc, ◌+◌, ◌≤◌, ◌<◌, true, false, Option, some, [], ◌∷◌, ◌++◌, length,
  get_elem?, get_elem?-lt, erase_idx, ◌≡◌, refl, sym, ap, ◌∙◌, arith,
}
use brutal.Ds.Vec.{capacity, vec_splice}
use brutal.Ds.Vec.Laws.{items, items-vec_splice}
use brutal.Ds.RangeAlloc.{USizeRange, range_eq}
use brutal.Kernel.Object.{Objects, object_ref, object_deref, deref-ref}
use brutal.Kernel.Memory.{Memories}
use brutal.Kernel.Space.{Mmap, Space, SpaceResult, ok, space_mmap_destroy, unmap_loop, space_unmap}
use brutal.Kernel.Vmm.{VmmRange, vmm_unmap, vmm_flush, is_present, unmap_range}
use brutal.Kernel.Vmm.Laws.{unmap_range-present}
use brutal.Kernel.Space.Laws.{IsMapped}

-- The space `s` with the mapping at `i` taken out, and without its reference.
abbrev Removed : Space → Objects → ℕ → Mmap → Option (SpaceResult × Space × Objects) → Type 0
Removed s w i m run =
    (s' : Space) × (run ≡ some (ok m.range, s', object_deref w m.object))
    × (items s'.mmaps ≡ erase_idx (items s.mmaps) i)
    × (s'.alloc ≡ s.alloc)
    × (s'.vmm ≡ vmm_flush m.range ∷ vmm_unmap m.range ∷ s.vmm)

range_eq_self : (r : USizeRange) → range_eq r r ≡ true
unfolding range_eq
range_eq_self r = ground arith

-- The loop passes `k` mappings of other ranges, and takes out the next.
unmap_loop-Removed :
    (k left i : ℕ) (s : Space) (w : Objects) (m : Mmap)
    → s.mmaps.len ≤ capacity s.mmaps
    → i + suc (k + left) ≡ s.mmaps.len
    → ((j : ℕ) (x : Mmap)
        → i ≤ j
        → j < i + k
        → get_elem? s.mmaps.cells j ≡ some x
        → range_eq x.range m.range ≡ false)
    → get_elem? s.mmaps.cells (i + k) ≡ some m
    → unmap_range s.vmm m.range ≡ some (vmm_unmap m.range ∷ s.vmm)
    → Removed s w (i + k) m (unmap_loop (suc (k + left)) i s w m.range)
unfolding unmap_loop space_mmap_destroy
unmap_loop-Removed zero left i s w m fits e others here gone =
    let at : get_elem? s.mmaps.cells i ≡ some m = ground arith in
    (
      record s {
        mmaps = vec_splice s.mmaps i 1;
        vmm = vmm_flush m.range ∷ vmm_unmap m.range ∷ s.vmm;
      },
      rw (at, gone, range_eq_self m.range),
      ground (arith, items-vec_splice s.mmaps i (omega arith) fits),
      refl,
      refl,
    )
unmap_loop-Removed (suc k) left i s w m fits e others here gone =
    let (x, at) = get_elem?-lt s.mmaps.cells i (omega arith) in
    let other : range_eq x.range m.range ≡ false = others i x (omega arith) (omega arith) at in
    let (s', ran, list, alloc, calls) =
      unmap_loop-Removed k left (i + 1) s w m fits (omega arith)
        (λ j y le lt. others j y (omega arith) (omega arith)) (ground arith) gone in
    (s', ground arith, list ∙ ap (erase_idx (items s.mmaps)) (omega arith), alloc, calls)

-- The range of a mapping that was made can be unmapped.
unmap-mapped :
    (s s' : Space) (ms : Memories) (object offset size flags : ℕ) (r : VmmRange)
    → IsMapped s ms object offset size flags r s'
    → unmap_range s'.vmm r ≡ some (vmm_unmap r ∷ s'.vmm)
unfolding is_present
unmap-mapped s s' ms object offset size flags r mapped =
    unmap_range-present s'.vmm r mapped.pages (λ a h. rw (mapped.page_tables, h))

-- After a mapping of an object that is not null was made in a space whose mappings all have other
-- ranges: `space_unmap` of the range returns, lists the mappings from before, takes every count
-- back to what it was before the mapping, and removes the range from the page tables; the free
-- ranges stay without it.
pub space_unmap-IsMapped :
    (s s' : Space) (ms : Memories) (w : Objects) (object offset size flags : ℕ) (r : VmmRange)
    → 0 < object
    → s.mmaps.len ≤ capacity s.mmaps
    → IsMapped s ms object offset size flags r s'
    → All (λ m. range_eq m.range r ≡ false) (items s.mmaps)
    → (s'' : Space) × (w'' : Objects) × (space_unmap s' (object_ref w object) r
        ≡ some (ok r, s'', w''))
      × (items s''.mmaps ≡ items s.mmaps)
      × ((j : ℕ) → w''.refs j ≡ w.refs j)
      × (s''.alloc ≡ s'.alloc)
      × (s''.vmm ≡ vmm_flush r ∷ vmm_unmap r ∷ s'.vmm)
unfolding space_unmap
space_unmap-IsMapped s s' ms w object offset size flags r pos fits mapped others =
    let old : length (items s.mmaps) ≡ s.mmaps.len = length-take s.mmaps.cells s.mmaps.len fits in
    let m : Mmap = record { range = r; object = object; offset = offset } in
    let n : s'.mmaps.len ≡ suc s.mmaps.len =
      sym (length-take s'.mmaps.cells s'.mmaps.len mapped.fits)
      ∙ ap length mapped.listed
      ∙ length_snoc (items s.mmaps) m
      ∙ ap suc old in
    let cell : (j : ℕ)
        → j ≤ s.mmaps.len
        → get_elem? s'.mmaps.cells j ≡ get_elem? (items s.mmaps ++ m ∷ []) j =
      λ j le.
        sym (get_elem?-take s'.mmaps.cells s'.mmaps.len j (omega arith))
        ∙ ap (λ xs. get_elem? xs j) mapped.listed in
    let here : get_elem? s'.mmaps.cells (0 + s.mmaps.len) ≡ some m = ground (
      arith,
      cell s.mmaps.len,
      ap (get_elem? (items s.mmaps ++ m ∷ [])) old,
      get_elem?_snoc (items s.mmaps) m,
    ) in
    let (s'', ran, list, alloc, calls) =
      unmap_loop-Removed s.mmaps.len 0 0 s' (object_ref w object) m mapped.fits (omega arith)
        (λ j x le lt e.
          All-get_elem? (λ q. range_eq q.range r ≡ false) (items s.mmaps) j others
            (sym (get_elem?_front (items s.mmaps) m j (omega arith))
              ∙ sym (cell j (omega arith))
              ∙ e))
        here (unmap-mapped s s' ms object offset size flags r mapped) in
    (
      s'',
      object_deref (object_ref w object) object,
      ap (λ k. unmap_loop k 0 s' (object_ref w object) r) (omega arith) ∙ ran,
      list
          ∙ ap (λ xs. erase_idx xs (0 + s.mmaps.len)) mapped.listed
          ∙ ap (erase_idx (items s.mmaps ++ m ∷ [])) (omega arith)
          ∙ erase_idx_snoc (items s.mmaps) m,
      λ j. deref-ref w object j pos,
      alloc,
      calls,
    )
