-- ===== src/Kernel/Tests.antt =====
-- The theorems on sources/kernel at concrete inputs.
use brutal.Base.{
  ℕ, ◌+◌, ◌≤◌, ◌<◌, true, false, none, some, List, [], ◌∷◌, ◌++◌, map, ◌*◌, ◌^◌, ◌⊎◌, inr, ◌≡◌,
  refl, arith,
}
use brutal.Ds.Bits.{
  bits_get, bits_set_range, bits_find_free, set_loop, test_bit, change_bit, bits_set, extend_run,
  find_loop,
}
use native.Mathlib.Decide.{ℕ_discrete}
use brutal.Kernel.Pmm.{
  Pmm, PmmRange, ok, pmm_alloc, pmm_unused, search_again, take_pages, account, pages2addr,
}
use brutal.Kernel.Pmm.Alloc.{IsPmm, Allocated, pmm_alloc-Allocated}
use brutal.Kernel.Pmm.Free.{pmm_alloc_disjoint, pmm_unused-pmm_alloc}
use brutal.Ds.Slot.{slot_alloc, slot_find, slot_capacity, retry, first_unused, slot_valid, used_at}
use brutal.Ds.Slot.Laws.{IsSlot}
use brutal.Ds.Ring.{ring_full}
use brutal.Kernel.Abi.{task, any_, success, bad_handle}
use brutal.Kernel.Object.{Objects, object_ref}
use brutal.Kernel.Domain.{Domain, domain_add, domain_lookup, to_slot_index}
use brutal.Kernel.Domain.Laws.{
  Added, domain_add-Added, domain_lookup-domain_add, domain_lookup_high_handle,
}
use brutal.Kernel.Parcel.{
  BrMsg, Parcel, no_objs, has_handle, parcel_deinit, pack_loop, parcel_pack, parcel_unpack,
}
use brutal.Kernel.Parcel.Laws.{Packed, parcel_pack-Packed}
use brutal.Kernel.Channel.{
  Channel, zero_addr, zero_parcel, send_packed, channel_send_unlock, channel_recv_unlock,
}
use brutal.Kernel.Channel.Laws.{IsQueueOf, Sent, channel_send-Sent, channel_recv-oldest}
use brutal.Kernel.Event.Reach.{start, next, bind, IsBoundOnce, Reachable-IsBoundOnce}
use brutal.Kernel.Channel.Total.{IsSmall}
use brutal.Kernel.Event.{
  EventBinding, br_event_eq, binds, event_binding_get, new_binding, event_bind, event_unbind,
  event_trigger, acked, event_ack,
}
use brutal.Kernel.Event.Bindings.{irq_event}
use brutal.Kernel.Event.Trigger.{after_irq}
use brutal.Kernel.Event.Sends.{Queues, irq_parcel, filled, event_trigger-Queues}
use brutal.Kernel.Pmm.Total.{pmm_alloc-total}

-- Sixteen pages from address 0x1000 on; the pages 0, 3 and 12 are in use.
abbrev sixteen_pages : Pmm
sixteen_pages = record {
  bitmap = record { data_ = 9 ∷ 16 ∷ []; size = 2 };
  bitmap_addr = 4096;
  bestbet_upper = 15;
  bestbet_lower = 0;
  available_memory = 65536;
  used_memory = 12288;
  usable_range = record { base = 4096; size = 65536 };
}

sixteen_pages-IsPmm : IsPmm sixteen_pages
sixteen_pages-IsPmm = record {
  bitmap = record { bytes = (omega arith, (omega arith, tt)); sized = refl };
  some_pages = omega arith;
  fits = omega arith;
}

abbrev first_range : PmmRange
first_range = record { base = 8192; size = 8192 }

abbrev one_taken : Pmm
one_taken = record sixteen_pages {
  bitmap = record { data_ = 15 ∷ 16 ∷ []; size = 2 };
  bestbet_lower = 3;
  used_memory = 20480;
}

first_alloc : pmm_alloc sixteen_pages 8192 false ≡ some (ok first_range, one_taken)
unfolding pmm_alloc search_again take_pages account pages2addr bits_find_free find_loop extend_run
    bits_get bits_set test_bit change_bit bits_set_range set_loop
first_alloc = refl

abbrev second_range : PmmRange
second_range = record { base = 61440; size = 8192 }

abbrev two_taken : Pmm
two_taken = record one_taken {
  bitmap = record { data_ = 15 ∷ 208 ∷ []; size = 2 };
  bestbet_upper = 14;
  used_memory = 28672;
}

second_alloc : pmm_alloc one_taken 8192 true ≡ some (ok second_range, two_taken)
unfolding pmm_alloc search_again take_pages account pages2addr bits_find_free find_loop extend_run
    bits_get bits_set test_bit change_bit bits_set_range set_loop
second_alloc = refl

pmm_alloc_example :
    (r : PmmRange) × (ok first_range ≡ ok r) × Allocated sixteen_pages 8192 r one_taken
pmm_alloc_example =
    pmm_alloc-Allocated sixteen_pages 8192 false sixteen_pages-IsPmm (omega arith) first_alloc

pmm_alloc_disjoint_example : (16384 ≤ 61440) ⊎ (69632 ≤ 8192)
pmm_alloc_disjoint_example =
    pmm_alloc_disjoint sixteen_pages 8192 8192 false true sixteen_pages-IsPmm (omega arith)
      (omega arith) first_alloc second_alloc

pmm_unused_example :
    (q : Pmm) × (pmm_unused one_taken first_range ≡ some (ok first_range, q))
    × ((j : ℕ) → bits_get q.bitmap j ≡ bits_get sixteen_pages.bitmap j)
    × (q.used_memory ≡ sixteen_pages.used_memory)
pmm_unused_example =
    pmm_unused-pmm_alloc sixteen_pages 8192 false sixteen_pages-IsPmm (omega arith) refl
      (omega arith) (omega arith) first_alloc

-- The pages 4 and 5 are free.
free_pages : (j : ℕ) → 4 ≤ j → j < 6 → bits_get sixteen_pages.bitmap j ≡ some false
unfolding bits_get test_bit
free_pages j p q = elim (ℕ_discrete j 4) [
  | yes four ↦ rw four refl
  | no other ↦ let five : j ≡ 5 = omega arith in rw five refl
]

pmm_alloc_total_example :
    (r : PmmRange) × (q : Pmm) × (pmm_alloc sixteen_pages 8192 false ≡ some (ok r, q))
pmm_alloc_total_example =
    pmm_alloc-total sixteen_pages 8192 4 sixteen_pages-IsPmm (omega arith) refl (omega arith)
      free_pages

abbrev eight_pages : PmmRange
eight_pages = record { base = 0; size = 65536 }

-- One page more than a multiple of 32768.
abbrev odd_pages : PmmRange
odd_pages = record { base = 0; size = 134221824 }

-- A domain with one object under the handle 0.
abbrev table : Domain
table = record { data_ = 5 ∷ 0 ∷ []; used = true ∷ false ∷ []; capacity = 2 }

abbrev objects : Objects
objects = record {
  refs = λ j. 3;
  ids = λ j. j;
  types = λ j. task;
  global = 5 ∷ 6 ∷ [];
  next_id = 7;
  destroyed = [];
}

table-IsSlot : IsSlot table
table-IsSlot = record { cells = refl; marks = refl }

abbrev added :
    (h : ℕ) × (d : Domain) × (w : Objects) × (domain_add table objects 6 ≡ some (h, d, w))
    × Added table objects 6 h d w
added = domain_add-Added table objects 6 table-IsSlot

domain_add_example :
    (h : ℕ) × (d : Domain) × (w : Objects) × (domain_add table objects 6 ≡ some (h, d, w))
    × Added table objects 6 h d w
domain_add_example = domain_add-Added table objects 6 table-IsSlot

added_handle : added.0 ≡ 1
unfolding domain_add slot_alloc slot_find slot_capacity retry first_unused
added_handle = ground (arith, added.3)

added_small : added.0 < 2 ^ 31
added_small = omega (arith, added_handle)

domain_lookup_example :
    domain_lookup added.1 added.2 added.0 any_ ≡ some (some 6, object_ref added.2 6)
domain_lookup_example =
    domain_lookup-domain_add table objects 6 any_ table-IsSlot added.3 added_small (inr refl)

table_valid : slot_valid table (some 0) ≡ true
unfolding slot_valid used_at
table_valid = refl

domain_lookup_high_example : domain_lookup table objects (0 + 1 * 2 ^ 32) task ≡ none
domain_lookup_high_example =
    domain_lookup_high_handle table objects 0 1 task table-IsSlot (omega arith) (omega arith)
      table_valid (omega arith)

-- Two handles, of which the second is bad.
abbrev two_handles : BrMsg
two_handles = record {
  flags = 3;
  from = zero_addr;
  to = zero_addr;
  prot = 0;
  type_ = 0;
  seq = 0;
  args = 0 ∷ 7 ∷ 0 ∷ 0 ∷ 0 ∷ [];
}

abbrev first_object : List ℕ
first_object = 5 ∷ 0 ∷ 0 ∷ 0 ∷ 0 ∷ []

abbrev half_packed : Parcel
half_packed = record { msg = two_handles; objs = first_object }

bad_pack :
    parcel_pack two_handles (some table) objects
    ≡ some (bad_handle, half_packed, parcel_deinit first_object (object_ref objects 5))
unfolding parcel_pack pack_loop has_handle domain_lookup slot_valid to_slot_index used_at
bad_pack = refl

parcel_pack_example :
    Packed objects.refs bad_handle first_object (parcel_deinit first_object (object_ref objects 5))
parcel_pack_example = parcel_pack-Packed two_handles (some table) objects bad_pack

abbrev two_parcels : Channel
two_parcels = record {
  locked = false;
  msgs = record {
    data_ = zero_parcel ∷ zero_parcel ∷ [];
    head = 1;
    tail = 0;
    used = 1;
    capacity = 2;
  };
}

two_handles-IsSmall : IsSmall two_handles
two_handles-IsSmall = record {
  five = refl;
  small = (omega arith, (omega arith, (omega arith, (omega arith, (omega arith, tt)))));
}

two_parcels-IsQueueOf : IsQueueOf (zero_parcel ∷ []) two_parcels
two_parcels-IsQueueOf = record {
  cells = refl;
  tail_in = omega arith;
  fits = omega arith;
  head_at = refl;
  count = refl;
  holds = (refl, tt);
}

refused_send :
    channel_send_unlock two_parcels (some table) two_handles objects
    ≡ some (bad_handle, two_parcels, parcel_deinit first_object (object_ref objects 5))
unfolding channel_send_unlock ring_full send_packed parcel_pack pack_loop has_handle domain_lookup
    slot_valid to_slot_index used_at
refused_send = refl

channel_send_example :
    Sent
      (zero_parcel ∷ [])
      two_parcels
      (some table)
      two_handles
      objects
      bad_handle
      two_parcels
      (parcel_deinit first_object (object_ref objects 5))
channel_send_example =
    channel_send-Sent (zero_parcel ∷ []) two_parcels (some table) two_handles objects
      two_parcels-IsQueueOf refused_send

null_unpack :
    parcel_unpack zero_parcel none objects
    ≡ some (success, zero_parcel.msg, none, parcel_deinit no_objs objects)
unfolding parcel_unpack
null_unpack = refl

channel_recv_example :
    (c : Channel) × (channel_recv_unlock two_parcels none objects
      ≡ some (record {
        result = success;
        msg = some zero_parcel.msg;
        channel = c;
        domain = none;
        objects = parcel_deinit no_objs objects;
      }))
    × IsQueueOf [] c
channel_recv_example =
    channel_recv-oldest zero_parcel [] two_parcels none objects two_parcels-IsQueueOf null_unpack

-- Tasks 5 and 6 bound to interrupts; the binding to interrupt 2 waits for its acknowledgement.
abbrev armed_binding : EventBinding
armed_binding = record { task = 5; event = irq_event 1; ack = true }

abbrev waiting_binding : EventBinding
waiting_binding = record { task = 6; event = irq_event 2; ack = false }

abbrev bindings : List EventBinding
bindings = armed_binding ∷ waiting_binding ∷ []

bind_ran :
    event_bind bindings 6 (irq_event 1)
    ≡ some (success, bindings ++ (new_binding 6 (irq_event 1) ∷ []))
unfolding event_bind event_binding_get binds br_event_eq
bind_ran = refl

unbind_ran : event_unbind bindings 5 (irq_event 1) ≡ some (success, waiting_binding ∷ [])
unfolding event_unbind event_binding_get binds br_event_eq
unbind_ran = refl

ack_ran :
    event_ack bindings 6 (irq_event 2) ≡ some (success, armed_binding ∷ acked waiting_binding ∷ [])
unfolding event_ack event_binding_get binds br_event_eq
ack_ran = refl

abbrev channels : ℕ → Channel
channels t = two_parcels

abbrev waiting : ℕ → List Parcel
waiting t = zero_parcel ∷ []

waiting-Queues : Queues waiting (λ t. 2) channels
waiting-Queues = record { held = λ t. two_parcels-IsQueueOf; sizes = λ t. refl }

event_trigger_example :
    (chans : ℕ → Channel) × (event_trigger bindings (irq_event 1) channels objects
      ≡ some (map (after_irq 1) bindings, chans, objects))
    × Queues (filled waiting (λ t. 2) 1 bindings) (λ t. 2) chans
event_trigger_example =
    event_trigger-Queues bindings 1 waiting (λ t. 2) channels objects waiting-Queues

-- The task 5 has the message behind the one that it had, and the task 6 nothing new.
filled_ran :
    (filled waiting (λ t. 2) 1 bindings 5 ≡ zero_parcel ∷ irq_parcel 1 ∷ [])
    × (filled waiting (λ t. 2) 1 bindings 6 ≡ zero_parcel ∷ [])
filled_ran = (refl, refl)

abbrev one_binding : List EventBinding
one_binding = new_binding 6 (irq_event 1) ∷ []

first_bind : event_bind [] 6 (irq_event 1) ≡ some (success, one_binding)
unfolding event_bind event_binding_get
first_bind = refl

reachable_bindings_example : IsBoundOnce one_binding
reachable_bindings_example =
    Reachable-IsBoundOnce one_binding (next [] one_binding start (bind 6 1 success first_bind))
