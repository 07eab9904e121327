-- ===== src/Kernel/Event/Bindings.antt =====
-- The operations of sources/kernel/event.c on the table of bindings, by the number of bindings of
-- each task to each interrupt.
use brutal.Base.{
  ℕ, zero, suc, ◌+◌, ◌<◌, Bool, Bool-cases, true, false, ◌&&◌, none, some, List, [], ◌∷◌, ◌++◌,
  get_elem?, set, erase_idx, ◌==◌, if◌then◌else◌, ◌≡◌, ◌⊎◌, inl, inr, refl, arith,
}
use brutal.Kernel.Abi.{BrResult, success, already_binded, not_binded}
use brutal.Kernel.Event.{
  BrEventType, BrEvent, EventBinding, invalid, irq_, event_eq_of, br_event_eq, binds,
  event_binding_get, new_binding, event_bind, event_unbind, unbind_loop, event_unbind_all, acked,
  event_ack,
}

abbrev pub is_irq : BrEventType → Bool
is_irq irq_ = true
is_irq invalid = false

abbrev pub irq_event : ℕ → BrEvent
irq_event i = record { type_ = irq_; irq = i }

-- A binding of the task to the interrupt.
abbrev pub matches : ℕ → ℕ → EventBinding → Bool
matches t i b = (b.task == t) && (is_irq b.event.type_ && (b.event.irq == i))

-- How many bindings of a task to an interrupt the table has.
abbrev pub count : ℕ → ℕ → List EventBinding → ℕ
count t i [] = 0
count t i (b ∷ bs) = (if matches t i b then 1 else 0) + count t i bs

pub event_eq-irq :
    (ty : BrEventType) (a i : ℕ) → event_eq_of ty irq_ a i ≡ some (is_irq ty && (a == i))
event_eq-irq irq_ a i = refl
event_eq-irq invalid a i = refl

binds-matches : (t i : ℕ) (b : EventBinding) → binds t (irq_event i) b ≡ some (matches t i b)
unfolding binds br_event_eq
binds-matches t i b = ground (arith, event_eq-irq b.event.type_ b.event.irq i)

count-append :
    (t i : ℕ) (xs ys : List EventBinding) → count t i (xs ++ ys) ≡ count t i xs + count t i ys
count-append t i [] ys = omega arith
count-append t i (x ∷ xs) ys = omega (arith, count-append t i xs ys)

-- The search finds a binding if there is one, and its place.
get-cases :
    (bs : List EventBinding) (k t i : ℕ)
    → ((count t i bs ≡ 0) × (event_binding_get bs k t (irq_event i) ≡ some none))
      ⊎ ((j : ℕ) × (b : EventBinding) × (event_binding_get bs k t (irq_event i)
            ≡ some (some (k + j)))
          × (get_elem? bs j ≡ some b)
          × (matches t i b ≡ true))
unfolding event_binding_get
get-cases [] k t i = inl (refl, refl)
get-cases (b ∷ bs) k t i = elim (Bool-cases (matches t i b)) [
  | inl hit ↦ inr (0, b, ground (arith, binds-matches t i b), refl, hit)
  | inr miss ↦ elim (get-cases bs (k + 1) t i) [
    | inl (none_left, e) ↦ inl (ground arith, ground (arith, binds-matches t i b))
    | inr (j, c, e, at, hit) ↦ inr (suc j, c, ground (arith, binds-matches t i b), at, hit)
  ]
]

count-found :
    (bs : List EventBinding) (j t i : ℕ) (b : EventBinding)
    → get_elem? bs j ≡ some b
    → (t' i' : ℕ)
    → count t' i' bs ≡ (if matches t' i' b then 1 else 0) + count t' i' (erase_idx bs j)
count-found [] j t i b e t' i' = absurd (ground arith)
count-found (x ∷ xs) zero t i b e t' i' = let same : x ≡ b = ground arith in rw same refl
count-found (x ∷ xs) (suc j) t i b e t' i' = omega (arith, count-found xs j t i b e t' i')

-- A bind to an interrupt either finds a binding and changes nothing, or there was none, and the
-- table then has one more binding of that task to that interrupt and as many as before of every
-- other.
pub event_bind-count :
    (bs : List EventBinding) (t i : ℕ) {res : BrResult} {bs' : List EventBinding}
    → event_bind bs t (irq_event i) ≡ some (res, bs')
    → ((res ≡ already_binded) × (bs' ≡ bs) × (0 < count t i bs))
      ⊎ ((res ≡ success)
          × (count t i bs ≡ 0)
          × ((t' i' : ℕ)
              → count t' i' bs' ≡ count t' i' bs + (if (t == t') && (i == i') then 1 else 0)))
unfolding event_bind
event_bind-count bs t i {res} {bs'} e = elim (get-cases bs 0 t i) [
  | inl (zero_count, got) ↦
      let appended : bs ++ (new_binding t (irq_event i) ∷ []) ≡ bs' = ground arith in
      inr (
        ground arith,
        zero_count,
        λ t' i'.
            rw (← appended)
              (omega (arith, count-append t' i' bs (new_binding t (irq_event i) ∷ []))),
      )
  | inr (j, b, got, at, hit) ↦
      inl (ground arith, ground arith, ground (arith, count-found bs j t i b at t i))
]

matches-same :
    (t i t' i' : ℕ) (b : EventBinding)
    → matches t i b ≡ true
    → matches t' i' b ≡ ((t == t') && (i == i'))
matches-same t i t' i' b h = ground arith

-- An unbind from an interrupt either finds no binding and changes nothing, or takes one binding of
-- that task to that interrupt away and none other.
pub event_unbind-count :
    (bs : List EventBinding) (t i : ℕ) {res : BrResult} {bs' : List EventBinding}
    → event_unbind bs t (irq_event i) ≡ some (res, bs')
    → ((res ≡ not_binded) × (bs' ≡ bs) × (count t i bs ≡ 0))
      ⊎ ((res ≡ success)
          × ((t' i' : ℕ)
              → count t' i' bs ≡ count t' i' bs' + (if (t == t') && (i == i') then 1 else 0)))
unfolding event_unbind
event_unbind-count bs t i {res} {bs'} e = elim (get-cases bs 0 t i) [
  | inl (zero_count, got) ↦ inl (ground arith, ground arith, zero_count)
  | inr (j, b, got, at, hit) ↦
      let erased : erase_idx bs j ≡ bs' = ground arith in
      inr (
        ground arith,
        λ t' i'.
            rw (← erased)
              (ground (arith, count-found bs j t i b at t' i', matches-same t i t' i' b hit)),
      )
]

-- Of a table of two bindings of which the first is the task's, `event_unbind_all` leaves the
-- second, whichever task it belongs to.
event_unbind_all-skips :
    (a b : EventBinding) (task : ℕ)
    → a.task ≡ task
    → event_unbind_all (a ∷ b ∷ []) task ≡ (success, b ∷ [])
unfolding event_unbind_all unbind_loop
event_unbind_all-skips a b task h = ground arith

-- An acknowledgement of an interrupt either finds no binding and changes nothing, or arms one
-- binding of that task to that interrupt and changes nothing else.
pub event_ack-set :
    (bs : List EventBinding) (t i : ℕ) {res : BrResult} {bs' : List EventBinding}
    → event_ack bs t (irq_event i) ≡ some (res, bs')
    → ((res ≡ not_binded) × (bs' ≡ bs) × (count t i bs ≡ 0))
      ⊎ ((j : ℕ) × (b : EventBinding) × (res ≡ success)
          × (get_elem? bs j ≡ some b)
          × (matches t i b ≡ true)
          × (bs' ≡ set bs j (acked b)))
unfolding event_ack
event_ack-set bs t i {res} {bs'} e = elim (get-cases bs 0 t i) [
  | inl (zero_count, got) ↦ inl (ground arith, ground arith, zero_count)
  | inr (j, b, got, at, hit) ↦ inr (j, b, ground arith, at, hit, ground arith)
]
