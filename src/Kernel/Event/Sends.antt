-- ===== src/Kernel/Event/Sends.antt =====
-- What the tasks are sent by `event_trigger` of sources/kernel/event.c.
use brutal.Base.{
  ℕ, zero, suc, ◌≤◌, Bool-cases, true, false, ◌&&◌, some, List, [], ◌∷◌, ◌++◌, length, take,
  replicate, ◌==◌, if◌then◌else◌, ◌≡◌, inl, inr, refl, sym, ap, ◌∙◌, subst, arith, map,
  length-append,
}
use mathlib.Core.List.{append_assoc, append-nil}
use brutal.Ds.Ring.{Ring, ring_push, ring_full}
use brutal.Ds.Ring.Fifo.{ring_push-IsRingOf, ring_len-IsRingOf}
use brutal.Kernel.Abi.{BrResult, success, channel_full}
use brutal.Kernel.Object.{Objects, update}
use brutal.Kernel.Channel.{Channel, send_packed, channel_send_unlock}
use brutal.Kernel.Channel.Laws.{IsQueueOf}
use brutal.Kernel.Parcel.{Parcel, no_objs, parcel_pack}
use brutal.Kernel.Event.{EventBinding, event_dispatch, trigger_one, event_trigger, event_msg}
use brutal.Kernel.Event.Bindings.{is_irq, irq_event}
use brutal.Kernel.Event.Trigger.{after_irq, after_send-disarmed, disarmed_self, event_eq-binding}

-- The message of the interrupt, as it stands in a channel.
abbrev pub irq_parcel : ℕ → Parcel
irq_parcel i = record { msg = event_msg (irq_event i); objs = no_objs }

-- How many armed bindings of the task to the interrupt there are.
abbrev pub armed_count : ℕ → ℕ → List EventBinding → ℕ
armed_count i t [] = 0
armed_count i t (b ∷ bs) =
    let rest = armed_count i t bs in
    if is_irq b.event.type_ && (b.event.irq == i) && b.ack && (t == b.task) then suc rest else rest

-- The channel of each task holds its queue, and has its capacity.
pub record Queues (qs : ℕ → List Parcel) (caps : ℕ → ℕ) (chans : ℕ → Channel) : Type 0 where
  pub held : (t : ℕ) → IsQueueOf (qs t) (chans t)
  pub sizes : (t : ℕ) → (chans t).msgs.capacity ≡ caps t

-- A parcel more, if there is room.
abbrev grown : ℕ → List Parcel → Parcel → List Parcel
grown cap q p = take cap (q ++ p ∷ [])

take-long : (q : List Parcel) (n : ℕ) → length q ≤ n → take n q ≡ q
take-long [] zero h = refl
take-long [] (suc n) h = refl
take-long (x ∷ q) zero h = absurd (omega arith)
take-long (x ∷ q) (suc n) h = ap (◌∷◌ x) (take-long q n (omega arith))

take-front : (q r : List Parcel) → take (length q) (q ++ r) ≡ q
take-front [] r = refl
take-front (x ∷ q) r = ap (◌∷◌ x) (take-front q r)

take-grown : (n : ℕ) (ys xs : List Parcel) → take n (take n ys ++ xs) ≡ take n (ys ++ xs)
take-grown zero ys xs = refl
take-grown (suc n) [] xs = refl
take-grown (suc n) (y ∷ ys) xs = ap (◌∷◌ y) (take-grown n ys xs)

update-Queues :
    (qs : ℕ → List Parcel) (caps : ℕ → ℕ) (chans : ℕ → Channel) (task : ℕ) (q : List Parcel)
    (c : Channel)
    → Queues qs caps chans
    → IsQueueOf q c
    → c.msgs.capacity ≡ caps task
    → Queues (update qs task q) caps (update chans task c)
update-Queues qs caps chans task q c all ok cap = record {
  held =
      λ t. elim (Bool-cases (t == task)) [ inl at ↦ rw at ok | inr apart ↦ rw apart (all.held t) ];
  sizes = λ t. elim (Bool-cases (t == task)) [
    | inl at ↦ let same : t ≡ task = ground arith in rw at (cap ∙ ap caps (sym same))
    | inr apart ↦ rw apart (all.sizes t)
  ];
}

ring_push-capacity : (r : Ring Parcel) (p : Parcel) → (ring_push r p).1.capacity ≡ r.capacity
unfolding ring_push
ring_push-capacity r p = elim (Bool-cases (r.used == r.capacity)) [
  | inl at ↦ rw at refl
  | inr room ↦ rw room refl
]

-- A send of an event is never refused for its handles, and takes no references.
dispatch-Queues :
    (qs : ℕ → List Parcel) (caps : ℕ → ℕ) (chans : ℕ → Channel) (task i : ℕ) (w : Objects)
    → Queues qs caps chans
    → (res : BrResult) × (chans' : ℕ → Channel) × (event_dispatch chans task (irq_event i) w
        ≡ some (res, chans', w))
      × Queues (update qs task (grown (caps task) (qs task) (irq_parcel i))) caps chans'
unfolding event_dispatch channel_send_unlock parcel_pack send_packed
dispatch-Queues qs caps chans task i w all =
    let p = irq_parcel i in
    let size = all.sizes task in
    elim (ring_push-IsRingOf p (all.held task)) [
      | inl (at_end, _, _) ↦
          let full : ring_full (chans task).msgs ≡ true =
            (ring_len-IsRingOf (all.held task)).1.1 at_end in
          let same : grown (caps task) (qs task) p ≡ qs task =
            ap (λ n. take n (qs task ++ p ∷ [])) (sym (at_end ∙ size))
            ∙ take-front (qs task) (p ∷ []) in
          (
            channel_full,
            update chans task (chans task),
            rw full refl,
            update-Queues qs caps chans task _ (chans task) all
                (subst (λ q. IsQueueOf q (chans task)) (sym same) (all.held task)) size,
          )
      | inr (short, _, ok) ↦
          let room : ring_full (chans task).msgs ≡ false =
            elim (Bool-cases (ring_full (chans task).msgs)) [
              | inl is_full ↦
                  let at_end = (ring_len-IsRingOf (all.held task)).1.0 is_full in
                  absurd (omega (arith, at_end, short))
              | inr room ↦ room
            ] in
          let c : Channel = record (chans task) { msgs = (ring_push (chans task).msgs p).1 } in
          let same : grown (caps task) (qs task) p ≡ qs task ++ p ∷ [] =
            take-long (qs task ++ p ∷ []) (caps task)
              (omega (arith, length-append (qs task) (p ∷ []), size, short)) in
          (
            success,
            update chans task c,
            rw room refl,
            update-Queues qs caps chans task _ c all (subst (λ q. IsQueueOf q c) (sym same) ok)
                (ring_push-capacity (chans task).msgs p ∙ size),
          )
    ]

-- The queues after one binding
abbrev after_one : (ℕ → ℕ) → ℕ → EventBinding → (ℕ → List Parcel) → (ℕ → List Parcel)
after_one caps i b qs =
    if is_irq b.event.type_ && (b.event.irq == i) && b.ack
    then update qs b.task (grown (caps b.task) (qs b.task) (irq_parcel i))
    else qs

-- One round of the loop leaves the binding as an interrupt does, if it was not armed too.
trigger_one-Queues :
    (b : EventBinding) (i : ℕ) (qs : ℕ → List Parcel) (caps : ℕ → ℕ) (chans : ℕ → Channel)
    (w : Objects)
    → Queues qs caps chans
    → (chans' : ℕ → Channel) × (trigger_one b (irq_event i) chans w
        ≡ some (after_irq i b, chans', w))
      × Queues (after_one caps i b qs) caps chans'
unfolding trigger_one
trigger_one-Queues b i qs caps chans w all =
    let (res, chans', sent, ok) = dispatch-Queues qs caps chans b.task i w all in
    elim (Bool-cases (is_irq b.event.type_ && (b.event.irq == i))) [
      | inr other ↦ (chans, ground (arith, event_eq-binding b i), rw other all)
      | inl hit ↦ elim (Bool-cases b.ack) [
        | inl armed ↦ (
          chans',
          ground (arith, event_eq-binding b i, after_send-disarmed res b),
          rw (hit, armed) ok,
        )
        | inr waiting ↦ (
          chans,
          ground (arith, event_eq-binding b i, disarmed_self b waiting),
          rw (hit, waiting) all,
        )
      ]
    ]

-- The queue that a task has after the bindings
abbrev pub filled : (ℕ → List Parcel) → (ℕ → ℕ) → ℕ → List EventBinding → ℕ → List Parcel
filled qs caps i bs t = take (caps t) (qs t ++ replicate (armed_count i t bs) (irq_parcel i))

filled-after_one :
    (qs : ℕ → List Parcel) (caps : ℕ → ℕ) (i : ℕ) (b : EventBinding) (bs : List EventBinding)
    (t : ℕ)
    → filled (after_one caps i b qs) caps i bs t ≡ filled qs caps i (b ∷ bs) t
filled-after_one qs caps i b bs t =
    elim (Bool-cases (is_irq b.event.type_ && (b.event.irq == i) && b.ack)) [
      | inr quiet ↦ rw quiet refl
      | inl sends ↦ elim (Bool-cases (t == b.task)) [
        | inr apart ↦ rw (sends, apart) refl
        | inl at ↦
            let same : b.task ≡ t = ground arith in
            let p = irq_parcel i in
            let xs = replicate (armed_count i t bs) p in
            rw (sends, at)
              (ap (λ k. take (caps t) (take (caps k) (qs k ++ p ∷ []) ++ xs)) same
                ∙ take-grown (caps t) (qs t ++ p ∷ []) xs
                ∙ ap (take (caps t)) (append_assoc (qs t) (p ∷ []) xs))
      ]
    ]

filled_nil :
    (qs : ℕ → List Parcel) (caps : ℕ → ℕ) (chans : ℕ → Channel) (i t : ℕ)
    → Queues qs caps chans
    → filled qs caps i [] t ≡ qs t
filled_nil qs caps chans i t all =
    let v = all.held t in
    ap (take (caps t)) (append-nil (qs t))
    ∙ take-long (qs t) (caps t) (omega (arith, v.count, v.fits, all.sizes t))

-- When the channel of every task holds a queue of parcels: the loop over the bindings at an
-- interrupt returns, the bindings to the interrupt are disarmed, the other bindings and the
-- objects are as before, and the queue of each task has, behind what it held, one message of the
-- interrupt for each armed binding of the task to it, as many as its capacity has room for.
pub event_trigger-Queues :
    (bs : List EventBinding) (i : ℕ) (qs : ℕ → List Parcel) (caps : ℕ → ℕ) (chans : ℕ → Channel)
    (w : Objects)
    → Queues qs caps chans
    → (chans' : ℕ → Channel) × (event_trigger bs (irq_event i) chans w
        ≡ some (map (after_irq i) bs, chans', w))
      × Queues (filled qs caps i bs) caps chans'
unfolding event_trigger
event_trigger-Queues [] i qs caps chans w all = (
  chans,
  refl,
  record {
    held = λ t.
        subst (λ q. IsQueueOf q (chans t)) (sym (filled_nil qs caps chans i t all)) (all.held t);
    sizes = all.sizes;
  },
)
event_trigger-Queues (b ∷ bs) i qs caps chans w all =
    let (chans', first, ok) = trigger_one-Queues b i qs caps chans w all in
    let (chans'', others, ended) =
      event_trigger-Queues bs i (after_one caps i b qs) caps chans' w ok in
    (
      chans'',
      rw (first, others) refl,
      record {
        held = λ t.
            subst (λ q. IsQueueOf q (chans'' t)) (filled-after_one qs caps i b bs t) (ended.held t);
        sizes = ended.sizes;
      },
    )
