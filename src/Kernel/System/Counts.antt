-- ===== src/Kernel/System/Counts.antt =====
-- The reference counts that the steps of a system call change: the lookups of sources/kernel/domain.c in the
-- domain of the current task, and the counts of sources/kernel/object.c.
use brutal.Base.{
  ℕ, ◌+◌, ◌-◌, ◌^◌, ◌<◌, Bool-cases, true, ◌||◌, Option, none, some, get_elem?, ◌==◌, if◌then◌else◌,
  ◌>>=◌, ◌≡◌, ◌⊎◌, inl, inr, refl, ap, ◌∙◌, arith,
}
use brutal.Ds.Slot.Laws.{IsSlot}
use brutal.Kernel.Abi.{BrType, type_eq, any_}
use brutal.Kernel.Object.{object_ref, object_deref}
use brutal.Kernel.Domain.Laws.{domain_lookup_cases}
use brutal.Kernel.System.{System, with_objects, ref, deref, domain_at, lookup}

-- What one reference to `o` adds to the count of `j`.
abbrev pub one : ℕ → ℕ → ℕ
one o j = if j == o then 1 else 0

pub refs-ref : (s : System) (o j : ℕ) → (ref s o).objects.refs j ≡ s.objects.refs j + one o j
unfolding object_ref
refs-ref s o j = ground (arith, at)
  where
    at : j ≡ o → s.objects.refs j ≡ s.objects.refs o
    at e = ap s.objects.refs e

pub refs-deref :
    (s : System) (o j : ℕ) → 0 < j → (deref s o).objects.refs j ≡ s.objects.refs j - one o j
unfolding object_deref
refs-deref s o j pos = ground (arith, at)
  where
    at : j ≡ o → s.objects.refs j ≡ s.objects.refs o
    at e = ap s.objects.refs e

-- The handle stands for the object `o`, which is of the type.
abbrev pub Holds : System → ℕ → ℕ → BrType → ℕ → Type 0
Holds s me h t o =
    (get_elem? (domain_at s me).data_ h ≡ some o)
    × (type_eq (s.objects.types o) t || type_eq t any_ ≡ true)

-- A lookup that finds an object of the type takes one reference, and any other changes nothing.
abbrev pub Found : System → ℕ → ℕ → BrType → Option ℕ → System → Type 0
Found s me h t found s' =
    ((found ≡ none) × (s' ≡ s)) ⊎ ((o : ℕ) × (found ≡ some o) × (s' ≡ ref s o) × Holds s me h t o)

pub lookup-Found :
    (s : System) (me h : ℕ) (t : BrType)
    → IsSlot (domain_at s me)
    → h < 2 ^ 31
    → (found : Option ℕ) × (s' : System) × (lookup s me h t ≡ some (found, s'))
      × Found s me h t found s'
unfolding lookup
lookup-Found s me h t table small =
    elim (domain_lookup_cases (domain_at s me) s.objects h t table small) [
      | inr (bad, ran) ↦
          (none, s, ap (λ x. x >>= λ r. some (r.0, with_objects s r.1)) ran, inl (refl, refl))
      | inl (valid, (o, cell, ran)) ↦
          elim (Bool-cases (type_eq (s.objects.types o) t || type_eq t any_)) [
            | inl typed ↦ (
              some o,
              ref s o,
              ap (λ x. x >>= λ r. some (r.0, with_objects s r.1)) ran ∙ ground (arith, typed),
              inr (o, refl, refl, (cell, typed)),
            )
            | inr other ↦ (
              none,
              s,
              ap (λ x. x >>= λ r. some (r.0, with_objects s r.1)) ran ∙ ground (arith, other),
              inl (refl, refl),
            )
          ]
    ]
