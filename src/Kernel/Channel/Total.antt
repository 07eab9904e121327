-- ===== src/Kernel/Channel/Total.antt =====
-- When the sends of sources/kernel/channel.c return, and the packing that they start with.
use brutal.Base.{
  ℕ, zero, suc, ◌+◌, ◌<◌, ◌^◌, Bool-cases, Option, none, some, List, length, get_elem?-lt, All,
  All-get_elem?, set, ◌||◌, ◌==◌, ◌≡◌, inl, inr, arith,
}
use brutal.Ds.Slot.Laws.{IsSlot}
use brutal.Ds.Ring.{ring_full}
use brutal.Kernel.Abi.{BrResult, BrType, any_, type_eq, success, bad_handle, channel_full}
use brutal.Kernel.Object.{Objects, object_ref}
use brutal.Kernel.Domain.{Domain, domain_lookup}
use brutal.Kernel.Domain.Laws.{domain_lookup_cases}
use brutal.Kernel.Parcel.{
  BrMsg, Parcel, arg_count, no_objs, has_handle, pointer, parcel_deinit, pack_loop, parcel_pack,
}
use brutal.Kernel.Channel.{Channel, send_packed, channel_send_unlock}

-- The handles that a message may carry: all five arguments are below 2 ^ 31.
pub record IsSmall (m : BrMsg) : Type 0 where
  pub five : length m.args ≡ arg_count
  pub small : All (λ a. a < 2 ^ 31) m.args

lookup-total :
    (d : Domain) (w : Objects) (h : ℕ) (t : BrType)
    → IsSlot d
    → h < 2 ^ 31
    → (found : Option ℕ) × (w' : Objects) × (domain_lookup d w h t ≡ some (found, w'))
lookup-total d w h t v small = elim (domain_lookup_cases d w h t v small) [
  | inr (_, e) ↦ (none, w, e)
  | inl (_, (o, _, e)) ↦ elim (Bool-cases (type_eq (w.types o) t || type_eq t any_)) [
    | inl right ↦ (some o, object_ref w o, ground arith)
    | inr wrong ↦ (none, w, ground arith)
  ]
]

module _ (m : BrMsg) (d : Domain) (v : IsSlot d) (ok : IsSmall m) where
  pack_loop-total :
      (left i : ℕ) (objs : List ℕ) (w : Objects)
      → i + left ≡ arg_count
      → (res : BrResult) × (objs' : List ℕ) × (w' : Objects) × (pack_loop left i m d objs w
          ≡ some (res, objs', w'))
  unfolding pack_loop
  pack_loop-total zero i objs w e = (success, objs, w, ground arith)
  pack_loop-total (suc left) i objs w e =
      let (handle, at) = get_elem?-lt m.args i (omega (arith, ok.five)) in
      let small = All-get_elem? (λ a. a < 2 ^ 31) m.args i ok.small at in
      let (found, w₁, got) = lookup-total d w handle any_ v small in
      let (skip_res, skip_objs, skip_w, skipped) =
        pack_loop-total left (i + 1) objs w (omega arith) in
      let (res, objs', w', rest) =
        pack_loop-total left (i + 1) (set objs i (pointer found)) w₁ (omega arith) in
      elim (Bool-cases (has_handle m i)) [
        | inr skip ↦ (skip_res, skip_objs, skip_w, ground arith)
        | inl taken ↦ elim (Bool-cases (pointer found == 0)) [
          | inl null ↦ (
            bad_handle,
            set objs i (pointer found),
            parcel_deinit (set objs i (pointer found)) w₁,
            ground arith,
          )
          | inr live ↦ (res, objs', w', ground arith)
        ]
      ]

-- With a well-formed table of handles, and a message of five arguments below 2 ^ 31, a send to any
-- channel returns a result: it never faults.
channel_send-total :
    (c : Channel) (d : Domain) (m : BrMsg) (w : Objects)
    → IsSlot d
    → IsSmall m
    → (res : BrResult) × (c' : Channel) × (w' : Objects) × (channel_send_unlock c (some d) m w
        ≡ some (res, c', w'))
unfolding channel_send_unlock parcel_pack
channel_send-total c d m w v ok =
    let (res, objs, w₁, packed) = pack_loop-total m d v ok arg_count 0 no_objs w (omega arith) in
    let p : Parcel = record { msg = m; objs = objs } in
    elim (Bool-cases (ring_full c.msgs)) [
      | inl full ↦ (channel_full, c, w, ground arith)
      | inr room ↦ (
        (send_packed c (res, p, w₁)).0,
        (send_packed c (res, p, w₁)).1,
        (send_packed c (res, p, w₁)).2,
        ground arith,
      )
    ]
