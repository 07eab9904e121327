-- ===== src/Kernel/Event/Reach.antt =====
-- The tables of bindings that the operations of sources/kernel/event.c lead to.
use brutal.Base.{
  ℕ, zero, suc, ◌+◌, ◌≤◌, Bool-cases, ◌&&◌, Option-cases, some, List, [], ◌∷◌, map, length,
  get_elem?, set, erase_idx, ◌==◌, ◌≡◌, inl, inr, refl, sym, subst, arith,
}
use brutal.Kernel.Abi.{BrResult}
use brutal.Kernel.Object.{Objects}
use brutal.Kernel.Channel.{Channel}
use brutal.Kernel.Event.{
  EventBinding, event_bind, event_unbind, unbind_loop, event_unbind_all, acked, event_ack,
  event_trigger,
}
use brutal.Kernel.Event.Bindings.{
  is_irq, irq_event, count, matches, event_bind-count, event_unbind-count, event_ack-set,
}
use brutal.Kernel.Event.Trigger.{after_irq, event_trigger-after_irq}

-- One operation on the table, with events that are interrupts.
pub data Step (bs bs' : List EventBinding) : Type 0 where
  bind : (t i : ℕ) (res : BrResult) → event_bind bs t (irq_event i) ≡ some (res, bs') → Step bs bs'
  unbind :
      (t i : ℕ) (res : BrResult) → event_unbind bs t (irq_event i) ≡ some (res, bs') → Step bs bs'
  unbind_all : (t : ℕ) → (event_unbind_all bs t).1 ≡ bs' → Step bs bs'
  ack : (t i : ℕ) (res : BrResult) → event_ack bs t (irq_event i) ≡ some (res, bs') → Step bs bs'
  trigger :
      (i : ℕ) (chans chans' : ℕ → Channel) (w w' : Objects)
      → event_trigger bs (irq_event i) chans w ≡ some (bs', chans', w')
      → Step bs bs'

-- The tables that operations lead to from the empty one.
pub data Reachable : List EventBinding → Type 0 where
  start : Reachable []
  next : (bs bs' : List EventBinding) → Reachable bs → Step bs bs' → Reachable bs'

-- A task is bound to an interrupt at most once.
abbrev pub IsBoundOnce : List EventBinding → Type 0
IsBoundOnce bs = (t i : ℕ) → count t i bs ≤ 1

count-erase_idx :
    (t i : ℕ) (bs : List EventBinding) (k : ℕ) → count t i (erase_idx bs k) ≤ count t i bs
count-erase_idx t i [] k = omega arith
count-erase_idx t i (b ∷ bs) zero = omega arith
count-erase_idx t i (b ∷ bs) (suc k) = omega (arith, count-erase_idx t i bs k)

count-unbind_loop :
    (t i left k : ℕ) (bs : List EventBinding) (task : ℕ)
    → count t i (unbind_loop left k bs task) ≤ count t i bs
unfolding unbind_loop
count-unbind_loop t i zero k bs task = omega arith
count-unbind_loop t i (suc left) k bs task = elim (Option-cases (get_elem? bs k)) [
  | inl past ↦
      let done : unbind_loop (suc left) k bs task ≡ bs = ground arith in
      subst (λ x. count t i x ≤ count t i bs) (sym done) (omega arith)
  | inr (b, at) ↦ elim (Bool-cases (b.task == task)) [
    | inl hit ↦
        let goes_on : unbind_loop (suc left) k bs task
            ≡ unbind_loop left (k + 1) (erase_idx bs k) task =
          ground arith in
        let fewer = count-unbind_loop t i left (k + 1) (erase_idx bs k) task in
        subst (λ x. count t i x ≤ count t i bs) (sym goes_on)
          (omega (arith, fewer, count-erase_idx t i bs k))
    | inr miss ↦
        let goes_on : unbind_loop (suc left) k bs task ≡ unbind_loop left (k + 1) bs task =
          ground arith in
        subst (λ x. count t i x ≤ count t i bs) (sym goes_on)
          (count-unbind_loop t i left (k + 1) bs task)
  ]
]

count-set-acked :
    (t i : ℕ) (bs : List EventBinding) (j : ℕ) (b : EventBinding)
    → get_elem? bs j ≡ some b
    → count t i (set bs j (acked b)) ≡ count t i bs
count-set-acked t i [] j b e = absurd (ground arith)
count-set-acked t i (x ∷ xs) zero b e = let same : x ≡ b = ground arith in rw same refl
count-set-acked t i (x ∷ xs) (suc j) b e = omega (arith, count-set-acked t i xs j b e)

matches-after_irq : (t i k : ℕ) (b : EventBinding) → matches t i (after_irq k b) ≡ matches t i b
matches-after_irq t i k b = elim (Bool-cases (is_irq b.event.type_ && (b.event.irq == k))) [
  | inl hit ↦ rw hit refl
  | inr miss ↦ rw miss refl
]

count-map-after_irq :
    (t i k : ℕ) (bs : List EventBinding) → count t i (map (after_irq k) bs) ≡ count t i bs
count-map-after_irq t i k [] = refl
count-map-after_irq t i k (b ∷ bs) =
    rw (matches-after_irq t i k b, count-map-after_irq t i k bs) refl

Step-IsBoundOnce : (bs bs' : List EventBinding) → IsBoundOnce bs → Step bs bs' → IsBoundOnce bs'
unfolding event_unbind_all
Step-IsBoundOnce bs bs' once (bind t i res e) t' i' = elim (event_bind-count bs t i e) [
  | inl (_, same, _) ↦ subst (λ k. count t' i' k ≤ 1) (sym same) (once t' i')
  | inr (_, fresh, counts) ↦ ground (arith, once t' i', counts t' i', fresh, at)
]
  where
    at : t ≡ t' → i ≡ i' → count t i bs ≡ count t' i' bs
    at p q = rw (p, q) refl
Step-IsBoundOnce bs bs' once (unbind t i res e) t' i' = elim (event_unbind-count bs t i e) [
  | inl (_, same, _) ↦ subst (λ k. count t' i' k ≤ 1) (sym same) (once t' i')
  | inr (_, counts) ↦ omega (arith, once t' i', counts t' i')
]
Step-IsBoundOnce bs bs' once (unbind_all t e) t' i' =
    let fewer = count-unbind_loop t' i' (length bs) 0 bs t in
    subst (λ k. count t' i' k ≤ 1) e (omega (arith, fewer, once t' i'))
Step-IsBoundOnce bs bs' once (ack t i res e) t' i' = elim (event_ack-set bs t i e) [
  | inl (_, same, _) ↦ subst (λ k. count t' i' k ≤ 1) (sym same) (once t' i')
  | inr (j, b, _, at, _, same) ↦ rw (same, count-set-acked t' i' bs j b at) (once t' i')
]
Step-IsBoundOnce bs bs' once (trigger i chans chans' w w' e) t' i' =
    let (chans'', ran) = event_trigger-after_irq bs i chans w in
    let same : map (after_irq i) bs ≡ bs' = ground arith in
    subst (λ k. count t' i' k ≤ 1) same (rw (count-map-after_irq t' i' i bs) (once t' i'))

-- In every table that binds, unbinds, acknowledgements and triggers of interrupts lead to from the
-- empty one, in any order, a task is bound to an interrupt at most once.
pub Reachable-IsBoundOnce : (bs : List EventBinding) → Reachable bs → IsBoundOnce bs
Reachable-IsBoundOnce bs start = λ t i. omega arith
Reachable-IsBoundOnce bs (next bs₀ _ r s) = Step-IsBoundOnce bs₀ bs (Reachable-IsBoundOnce bs₀ r) s
