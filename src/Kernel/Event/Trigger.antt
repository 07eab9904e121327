-- ===== src/Kernel/Event/Trigger.antt =====
-- The bindings in `event_trigger` of sources/kernel/event.c.
use brutal.Base.{
  ℕ, Bool-cases, false, ◌&&◌, some, List, [], ◌∷◌, ◌==◌, if◌then◌else◌, ◌≡◌, inl, inr, refl, sym,
  ap, arith, map,
}
use brutal.Kernel.Abi.{BrResult, success, channel_full}
use brutal.Kernel.Object.{Objects, update}
use brutal.Kernel.Channel.{Channel, send_packed, channel_send_unlock}
use brutal.Ds.Ring.{ring_push, ring_full}
use brutal.Kernel.Parcel.{Parcel, no_objs, parcel_pack}
use brutal.Kernel.Event.{
  BrEvent, EventBinding, br_event_eq, event_dispatch, after_send, trigger_one, event_trigger,
  disarmed, event_msg,
}
use brutal.Kernel.Event.Bindings.{is_irq, irq_event, event_eq-irq}

-- The binding after an interrupt: one to that interrupt is disarmed.
abbrev pub after_irq : ℕ → EventBinding → EventBinding
after_irq i b = if is_irq b.event.type_ && (b.event.irq == i) then disarmed b else b

-- A send of an event is never refused for its handles, and takes no references.
dispatch-total :
    (chans : ℕ → Channel) (task : ℕ) (event : BrEvent) (w : Objects)
    → (res : BrResult) × (chans' : ℕ → Channel) × (event_dispatch chans task event w
        ≡ some (res, chans', w))
unfolding event_dispatch channel_send_unlock parcel_pack send_packed
dispatch-total chans task event w = elim (Bool-cases (ring_full (chans task).msgs)) [
  | inl full ↦ (channel_full, update chans task (chans task), ground arith)
  | inr room ↦
      let p : Parcel = record { msg = event_msg event; objs = no_objs } in
      let c = record (chans task) { msgs = (ring_push (chans task).msgs p).1 } in
      (success, update chans task c, ground arith)
]

pub after_send-disarmed :
    (res : BrResult) (b : EventBinding) → after_send res (disarmed b) ≡ disarmed b
unfolding after_send
after_send-disarmed channel_full b = refl
after_send-disarmed res b = refl

pub disarmed_self : (b : EventBinding) → b.ack ≡ false → disarmed b ≡ b
disarmed_self b h = ap (λ k. record b { ack = k }) (sym h)

pub event_eq-binding :
    (b : EventBinding) (i : ℕ)
    → br_event_eq b.event (irq_event i) ≡ some (is_irq b.event.type_ && (b.event.irq == i))
unfolding br_event_eq
event_eq-binding b i = event_eq-irq b.event.type_ b.event.irq i

-- One round of the loop leaves the binding as an interrupt does, if it was not armed too.
trigger_one-after_irq :
    (b : EventBinding) (i : ℕ) (chans : ℕ → Channel) (w : Objects)
    → (chans' : ℕ → Channel) × (trigger_one b (irq_event i) chans w
        ≡ some (after_irq i b, chans', w))
unfolding trigger_one
trigger_one-after_irq b i chans w =
    let (res, chans', sent) = dispatch-total chans b.task (irq_event i) w in
    elim (Bool-cases (is_irq b.event.type_ && (b.event.irq == i))) [
      | inr other ↦ (chans, ground (arith, event_eq-binding b i))
      | inl hit ↦ elim (Bool-cases b.ack) [
        | inl armed ↦ (chans', ground (arith, event_eq-binding b i, after_send-disarmed res b))
        | inr waiting ↦ (chans, ground (arith, event_eq-binding b i, disarmed_self b waiting))
      ]
    ]

-- The loop over the bindings at an interrupt ends without a fault, whatever the channels hold: the
-- bindings to the interrupt are disarmed, and the other bindings and the objects are as before.
pub event_trigger-after_irq :
    (bs : List EventBinding) (i : ℕ) (chans : ℕ → Channel) (w : Objects)
    → (chans' : ℕ → Channel) × (event_trigger bs (irq_event i) chans w
        ≡ some (map (after_irq i) bs, chans', w))
unfolding event_trigger
event_trigger-after_irq [] i chans w = (chans, refl)
event_trigger-after_irq (b ∷ bs) i chans w =
    let (chans', first) = trigger_one-after_irq b i chans w in
    let (chans'', others) = event_trigger-after_irq bs i chans' w in
    (chans'', rw (first, others) refl)

-- A second interrupt before any acknowledgement changes no binding, no channel and no object.
event_trigger-quiet :
    (bs : List EventBinding) (i : ℕ) (chans : ℕ → Channel) (w : Objects)
    → event_trigger (map (after_irq i) bs) (irq_event i) chans w
      ≡ some (map (after_irq i) bs, chans, w)
unfolding event_trigger trigger_one
event_trigger-quiet [] i chans w = refl
event_trigger-quiet (b ∷ bs) i chans w =
    elim (Bool-cases (is_irq b.event.type_ && (b.event.irq == i))) [
      | inr other ↦ ground (arith, event_eq-binding b i, event_trigger-quiet bs i chans w)
      | inl hit ↦ ground (arith, event_eq-binding b i, event_trigger-quiet bs i chans w)
    ]
