-- ===== src/Kernel/Event.antt =====
-- sources/kernel/event.c: which task is told of which event, and `br_event_eq` of
-- sources/libs/bal/abi/helpers.c. Each operation runs under the lock, so it is one step.
pub mod Bindings
pub mod Trigger
pub mod Sends
pub mod Reach
use brutal.Base.{
  ℕ, zero, suc, ◌+◌, ◌-◌, ◌*◌, ◌^◌, Bool, true, false, not, ◌&&◌, Option, none, some, List, [], ◌∷◌,
  ◌++◌, length, get_elem?, set, erase_idx, ltb, ◌==◌, if◌then◌else◌, ◌>>=◌, replicate,
}
use brutal.Kernel.Abi.{BrResult, success, already_binded, not_binded, channel_full}
use brutal.Kernel.Object.{Objects, update}
use brutal.Kernel.Parcel.{BrAddr, BrMsg}
use brutal.Kernel.Channel.{Channel, zero_addr, channel_send_unlock}

-- `BrEvent`; an `irq` is the 32 bits of an `int`
pub data BrEventType : Type 0 where
  invalid irq_ : BrEventType

pub record BrEvent : Type 0 where
  pub type_ : BrEventType
  pub irq : ℕ

-- A task is its address.
pub record EventBinding : Type 0 where
  pub task : ℕ
  pub event : BrEvent
  pub ack : Bool

abbrev pub event_eq_of : BrEventType → BrEventType → ℕ → ℕ → Option Bool
event_eq_of irq_ irq_ a b = some (a == b)
event_eq_of invalid invalid a b = none
event_eq_of _ _ a b = some false

-- Two events of a type that is not handled are a panic.
unfoldable pub br_event_eq : BrEvent → BrEvent → Option Bool
br_event_eq a b = event_eq_of a.type_ b.type_ a.irq b.irq

-- The test of a binding, `task == task && br_event_eq(...)`.
unfoldable pub binds : ℕ → BrEvent → EventBinding → Option Bool
binds task event b = if b.task == task then br_event_eq b.event event else some false

-- The index of the first binding, counted from `i`.
unfoldable pub event_binding_get : List EventBinding → ℕ → ℕ → BrEvent → Option (Option ℕ)
event_binding_get [] i task event = some none
event_binding_get (b ∷ bs) i task event =
    let rest = event_binding_get bs (i + 1) task event in
    (binds task event b >>= λ hit. if hit then some (some i) else rest)

abbrev pub new_binding : ℕ → BrEvent → EventBinding
new_binding task event = record { task = task; event = event; ack = true }

unfoldable pub event_bind : List EventBinding → ℕ → BrEvent → Option (BrResult × List EventBinding)
event_bind bs task event = do
  existing ← event_binding_get bs 0 task event
  some (elim existing [
    | none ↦ (success, bs ++ (new_binding task event ∷ []))
    | some i ↦ (already_binded, bs)
  ])

unfoldable pub event_unbind :
    List EventBinding → ℕ → BrEvent → Option (BrResult × List EventBinding)
event_unbind bs task event = do
  existing ← event_binding_get bs 0 task event
  some (elim existing [ none ↦ (not_binded, bs) | some i ↦ (success, erase_idx bs i) ])

-- The loop of `event_unbind_all`: after a splice at `i` the next round looks at `i + 1`. There
-- are at most as many rounds as bindings.
unfoldable pub unbind_loop : ℕ → ℕ → List EventBinding → ℕ → List EventBinding
unbind_loop zero i bs task = bs
unbind_loop (suc left) i bs task = elim (get_elem? bs i) [
  | none ↦ bs
  | some b ↦ unbind_loop left (i + 1) (if b.task == task then erase_idx bs i else bs) task
]

unfoldable pub event_unbind_all : List EventBinding → ℕ → BrResult × List EventBinding
event_unbind_all bs task = (success, unbind_loop (length bs) 0 bs task)

-- `BR_ADDR_EVENT` and the message of an event, which shares the bytes of the arguments.
abbrev pub event_type_id : BrEventType → ℕ
event_type_id invalid = 0
event_type_id irq_ = 1

abbrev pub event_msg : BrEvent → BrMsg
event_msg event = record {
  flags = 0;
  from = record { id = 2 ^ 64 - 4; port = 2 ^ 64 - 1 };
  to = zero_addr;
  prot = 0;
  type_ = 0;
  seq = 0;
  args = (event_type_id event.type_ + event.irq * 2 ^ 32) ∷ replicate 4 0;
}

-- The send without blocking to the channel of the task.
unfoldable pub event_dispatch :
    (ℕ → Channel) → ℕ → BrEvent → Objects → Option (BrResult × (ℕ → Channel) × Objects)
event_dispatch chans task event w = do
  (res, c, w') ← channel_send_unlock (chans task) none (event_msg event) w
  some (res, update chans task c, w')

abbrev pub disarmed : EventBinding → EventBinding
disarmed b = record b { ack = false }

-- The dropped event of a full channel
unfoldable pub after_send : BrResult → EventBinding → EventBinding
after_send channel_full b = disarmed b
after_send res b = b

-- One binding in the loop of `event_trigger`: an armed binding of the event is disarmed, by the
-- exchange of its flag, and its task is sent the event. After a full channel the flag is cleared
-- once more.
unfoldable pub trigger_one :
    EventBinding
    → BrEvent
    → (ℕ → Channel)
    → Objects
    → Option (EventBinding × (ℕ → Channel) × Objects)
trigger_one b event chans w = do
  hit ← br_event_eq b.event event
  let sent = (do
    (res, chans', w') ← event_dispatch chans b.task event w
    some (after_send res (disarmed b), chans', w'))
  if hit && b.ack then sent else some (b, chans, w)

unfoldable pub event_trigger :
    List EventBinding
    → BrEvent
    → (ℕ → Channel)
    → Objects
    → Option (List EventBinding × (ℕ → Channel) × Objects)
event_trigger [] event chans w = some ([], chans, w)
event_trigger (b ∷ bs) event chans w = do
  (b', chans', w') ← trigger_one b event chans w
  (bs', chans'', w'') ← event_trigger bs event chans' w'
  some (b' ∷ bs', chans'', w'')

abbrev pub acked : EventBinding → EventBinding
acked b = record b { ack = true }

unfoldable pub event_ack : List EventBinding → ℕ → BrEvent → Option (BrResult × List EventBinding)
event_ack bs task event = do
  existing ← event_binding_get bs 0 task event
  elim existing [
    | none ↦ some (not_binded, bs)
    | some i ↦ (get_elem? bs i >>= λ b. some (success, set bs i (acked b)))
  ]
