-- ===== src/Kernel/Syscalls/Copies.antt =====
-- The reference counts after `sys_dup` and `sys_inspect` of sources/kernel/syscalls.c.
use brutal.Base.{
  ℕ, ◌^◌, ◌<◌, true, false, get_elem?, Option, none, some, ◌==◌, if◌then◌else◌, ◌>>=◌, ◌≡◌, ◌⊎◌,
  inl, inr, refl, ap, ◌∙◌, arith,
}
use brutal.Ds.Slot.Laws.{IsSlot}
use brutal.Kernel.Abi.{
  BrResult, success, bad_handle, BrType, memory, domain, task, none_, space, any_,
}
use brutal.Kernel.Object.{Objects, object_ref, update}
use brutal.Kernel.System.{System, ref, deref, domain_at, add_handle}
use brutal.Kernel.System.Counts.{refs-ref, refs-deref, Holds, lookup-Found}
use brutal.Kernel.Domain.Laws.{Added, domain_add-Added}
use brutal.Kernel.Domain.{Domain}
use brutal.Ds.Slot.{used_at}
use brutal.Kernel.Syscalls.Calls.{
  Inspected, Infos, stat, dup_found, inspect_found, sys_dup, inspected, sys_inspect,
}
use brutal.Kernel.Syscalls.Balance.{OneMore}

abbrev put_domain_at : System → ℕ → Domain → Objects → System
put_domain_at s me d w = record s {
  world = record (s.world) { domains = update s.world.domains (s.world.domain_of me) d };
  objects = w;
}

add_handle-Added :
    (s : System) (me o : ℕ)
    → IsSlot (domain_at s me)
    → (h : ℕ) × (d : Domain) × (w : Objects) × (add_handle s me o
        ≡ some (h, put_domain_at s me d w))
      × Added (domain_at s me) s.objects o h d w
unfolding add_handle
add_handle-Added s me o table =
    let (h, d, w, ran, added) = domain_add-Added (domain_at s me) s.objects o table in
    (h, d, w, ground (arith, ran), added)

-- The copy is a new handle of the object.
abbrev pub DupEnds : System → ℕ → ℕ → Option ℕ → System → Type 0
DupEnds s me handle copy s' =
    (o : ℕ) × (h : ℕ) × (copy ≡ some h)
    × Holds s me handle any_ o
    × OneMore s o s'
    × (get_elem? (domain_at s' me).data_ h ≡ some o)
    × (used_at (domain_at s me) h ≡ false)
    × ((j : ℕ)
        → used_at (domain_at s' me) j ≡ (if j == h then true else used_at (domain_at s me) j))

-- With a well-formed table of handles and a handle below 2 ^ 31: `sys_dup` returns; the handle is
-- bad and nothing changed, or the call succeeds, the copy is a handle that was not in use and now
-- stands for the object of the handle, the other handles are in use as before, and the object has
-- one reference more and no other has.
pub sys_dup-DupEnds :
    (s : System) (me handle : ℕ)
    → IsSlot (domain_at s me)
    → handle < 2 ^ 31
    → (res : BrResult) × (copy : Option ℕ) × (s' : System) × (sys_dup s me handle
        ≡ some (res, copy, s'))
      × (((res ≡ bad_handle) × (s' ≡ s)) ⊎ ((res ≡ success) × DupEnds s me handle copy s'))
unfolding sys_dup dup_found
sys_dup-DupEnds s me handle table small =
    let (found, t, ran, cases) = lookup-Found s me handle any_ table small in
    elim cases [
      | inl (nothing, same) ↦ (bad_handle, none, s, ground arith, inl (refl, refl))
      | inr (o, is, same, holds) ↦
          let (h, d, w, ran', added) = add_handle-Added (ref s o) me o table in
          let u = put_domain_at (ref s o) me d w in
          let now : domain_at u me ≡ d = ground arith in
          (
            success,
            some h,
            deref u o,
            ap (λ x. x >>= λ r. dup_found r.1 me r.0) ran
                ∙ ap (λ x. dup_found t me x) is
                ∙ ap (λ x. dup_found x me (some o)) same
                ∙ ap (λ x. x >>= λ r. some (success, some r.0, deref r.1 o)) ran',
            inr (
              refl,
              (
                o,
                h,
                refl,
                holds,
                (λ j pos. omega (
                  arith,
                  refs-deref u o j pos,
                  ap (λ (x : Objects). x.refs j) added.counted,
                  refs-ref (ref s o) o j,
                  refs-ref s o j,
                )),
                (ap (λ (x : Domain). get_elem? x.data_ h) now ∙ added.cell),
                added.was_unused,
                (λ j. ap (λ x. used_at x j) now ∙ added.marks j),
              ),
            ),
          )
    ]

-- Each object is of a type that `sys_inspect` handles.
abbrev pub IsTyped : System → Type 0
IsTyped s = (o : ℕ) → (i : Infos) × (stat s o (s.objects.types o) ≡ some i)

stat-ref : (s : System) (o p : ℕ) (t : BrType) → stat (ref s o) p t ≡ stat s p t
unfolding stat
stat-ref s o p memory = refl
stat-ref s o p domain = refl
stat-ref s o p space = refl
stat-ref s o p task = refl
stat-ref s o p none_ = refl
stat-ref s o p any_ = refl

-- With a well-formed table of handles, objects of types that can be inspected, and a handle below
-- 2 ^ 31: `sys_inspect` returns; the handle is bad and nothing changed, or the call succeeds and
-- leaves the object of the handle with one reference more.
pub sys_inspect-OneMore :
    (s : System) (me handle : ℕ)
    → IsSlot (domain_at s me)
    → IsTyped s
    → handle < 2 ^ 31
    → (res : BrResult) × (out : Option Inspected) × (s' : System) × (sys_inspect s me handle
        ≡ some (res, out, s'))
      × (((res ≡ bad_handle) × (s' ≡ s))
          ⊎ ((res ≡ success) × ((o : ℕ) × Holds s me handle any_ o × OneMore s o s')))
unfolding sys_inspect inspected inspect_found object_ref
sys_inspect-OneMore s me handle table typed small =
    let (found, t, ran, cases) = lookup-Found s me handle any_ table small in
    let looked : inspected s me handle ≡ some (found, t) = ground (arith, ran) in
    elim cases [
      | inl (nothing, same) ↦ (bad_handle, none, s, ground arith, inl (refl, refl))
      | inr (o, is, same, holds) ↦
          let (i, got) = typed o in
          (
            success,
            some (record { type_ = s.objects.types o; id = s.objects.ids o; infos = i }),
            ref s o,
            ap (λ x. x >>= λ r. inspect_found r.1 r.0) looked
                ∙ ap (λ x. inspect_found t x) is
                ∙ ap (λ x. inspect_found x (some o)) same
                ∙ ap
                    (λ x. x >>= λ i. some (
                      success,
                      some (record { type_ = s.objects.types o; id = s.objects.ids o; infos = i }),
                      ref s o,
                    ))
                    (stat-ref s o o (s.objects.types o) ∙ got),
            inr (refl, (o, holds, λ j pos. refs-ref s o j)),
          )
    ]
