-- ===== src/Kernel/Channel/Laws.antt =====
-- A channel of sources/kernel/channel.c as a queue of parcels.
use brutal.Base.{
  ℕ, ◌<◌, Bool-cases, true, false, Option, Option-cases, some, ◌≡◌, ◌≢◌, inl, inr, arith, List, [],
  ◌∷◌, ◌++◌, length, sym, subst,
}
use brutal.Ds.Ring.{Ring, ring_push, ring_full, ring_any}
use brutal.Ds.Ring.Fifo.{IsRingOf, ring_push-IsRingOf, ring_pop-IsRingOf, ring_len-IsRingOf}
use brutal.Kernel.Abi.{BrResult, success, bad_handle, channel_full}
use brutal.Kernel.Object.{Objects}
use brutal.Kernel.Domain.{Domain}
use brutal.Kernel.Parcel.{BrMsg, Parcel, parcel_pack, parcel_unpack}
use brutal.Kernel.Parcel.Laws.{Packed, parcel_pack-Packed}
use brutal.Kernel.Channel.{Channel, send_packed, channel_send_unlock, channel_recv_unlock}

-- The channel holds the parcels of `q`, oldest first.
abbrev pub IsQueueOf : List Parcel → Channel → Type 0
IsQueueOf q c = IsRingOf q c.msgs

-- The three outcomes of a send.
pub data Sent (q : List Parcel) (c : Channel) (d : Option Domain) (m : BrMsg) (w : Objects)
    (res : BrResult) (c' : Channel) (w' : Objects) : Type 0 where
  full :
      length q ≡ c.msgs.capacity → res ≡ channel_full → c' ≡ c → w' ≡ w → Sent q c d m w res c' w'
  queued :
      (p : Parcel)
      → parcel_pack m d w ≡ some (success, p, w')
      → res ≡ success
      → IsQueueOf (q ++ p ∷ []) c'
      → Sent q c d m w res c' w'
  refused :
      res ≡ bad_handle
      → c' ≡ c
      → ((j : ℕ) → 0 < j → w'.refs j ≡ w.refs j)
      → Sent q c d m w res c' w'

Packed-cases :
    (q : List Parcel) (c : Channel) (d : Option Domain) (m : BrMsg) (w : Objects) {r : BrResult}
    {p : Parcel} {w₁ : Objects} {res : BrResult} {c' : Channel} {w' : Objects}
    → IsQueueOf q c
    → length q ≢ c.msgs.capacity
    → parcel_pack m d w ≡ some (r, p, w₁)
    → send_packed c (r, p, w₁) ≡ (res, c', w')
    → Packed w.refs r p.objs w₁
    → Sent q c d m w res c' w'
unfolding send_packed
Packed-cases q c d m w {r} {p} {w₁} {res} {c'} {w'} v room got sent (inl (good, counts)) =
    let sent' : send_packed c (success, p, w₁) ≡ (res, c', w') =
      subst (λ k. send_packed c (k, p, w₁) ≡ (res, c', w')) good sent in
    let same_w : w₁ ≡ w' = ground arith in
    let same_c : record c { msgs = (ring_push c.msgs p).1 } ≡ c' = ground arith in
    queued p (rw (← same_w, ← good) got) (ground arith) (elim (ring_push-IsRingOf p v) [
      | inl (at_end, _, _) ↦ absurd (room at_end)
      | inr (_, _, ok) ↦ subst (λ k. IsQueueOf (q ++ p ∷ []) k) same_c ok
    ])
Packed-cases q c d m w {r} {p} {w₁} {res} {c'} {w'} v room got sent (inr (bad, counts)) =
    let sent' : send_packed c (bad_handle, p, w₁) ≡ (res, c', w') =
      subst (λ k. send_packed c (k, p, w₁) ≡ (res, c', w')) bad sent in
    let same_w : w₁ ≡ w' = ground arith in
    refused (ground arith) (ground arith) (λ j h. rw (← same_w) (counts j h))

full_absurd :
    {q : List Parcel} {r : Ring Parcel}
    → IsRingOf q r
    → ring_full r ≡ false
    → length q ≡ r.capacity
    → ⊥
full_absurd v room e = ground (arith, (ring_len-IsRingOf v).1.1 e)

any_cons : {x : Parcel} {q : List Parcel} {r : Ring Parcel} → IsRingOf (x ∷ q) r → ring_any r ≡ true
any_cons v = (ring_len-IsRingOf v).2.1 (λ e. ground arith)

-- When a send to a channel that holds a queue of parcels returns: the queue was full and nothing
-- changed, or the packed message was appended to the queue, or a handle was bad, the channel is
-- unchanged and no reference was kept.
pub channel_send-Sent :
    (q : List Parcel) (c : Channel) (d : Option Domain) (m : BrMsg) (w : Objects) {res : BrResult}
    {c' : Channel} {w' : Objects}
    → IsQueueOf q c
    → channel_send_unlock c d m w ≡ some (res, c', w')
    → Sent q c d m w res c' w'
unfolding channel_send_unlock
channel_send-Sent q c d m w {res} {c'} {w'} v e = elim (Bool-cases (ring_full c.msgs)) [
  | inl is_full ↦
      full ((ring_len-IsRingOf v).1.0 is_full) (ground arith) (ground arith) (ground arith)
  | inr room ↦ elim (Option-cases (parcel_pack m d w)) [
    | inl fault ↦ absurd (ground arith)
    | inr ((r, p, w₁), got) ↦
        Packed-cases q c d m w v (λ x. full_absurd v room x) got (ground arith)
          (parcel_pack-Packed m d w got)
  ]
]

-- A receive from a channel that holds parcels, of which the oldest unpacks without a fault,
-- returns what unpacking it returns, and the channel holds the others.
pub channel_recv-oldest :
    (p : Parcel) (q : List Parcel) (c : Channel) (d : Option Domain) (w : Objects) {res : BrResult}
    {m : BrMsg} {d' : Option Domain} {w' : Objects}
    → IsQueueOf (p ∷ q) c
    → parcel_unpack p d w ≡ some (res, m, d', w')
    → (c' : Channel) × (channel_recv_unlock c d w
        ≡ some (record { result = res; msg = some m; channel = c'; domain = d'; objects = w' }))
      × IsQueueOf q c'
unfolding channel_recv_unlock
channel_recv-oldest p q c d w {res} {m} {d'} {w'} v e = elim (ring_pop-IsRingOf v) [
  | inl (nothing, _) ↦ absurd (ground arith)
  | inr (x, xs, r, same, pop, ok) ↦
      let first : p ≡ x = ground arith in
      let rest : q ≡ xs = ground arith in
      (record c { msgs = r }, ground (arith, any_cons v), subst (λ k. IsRingOf k r) (sym rest) ok)
]
