-- ===== src/Kernel/Channel.antt =====
-- sources/kernel/channel.c: a bounded queue of parcels behind a lock.
pub mod Laws
pub mod Total
use brutal.Base.{
  ℕ, Bool, true, false, not, Option, none, some, List, [], ◌∷◌, ◌==◌, if◌then◌else◌, ◌>>=◌,
}
use brutal.Ds.Ring.{Ring, ring_init, ring_push, ring_pop, ring_full, ring_any}
use brutal.Kernel.Abi.{BrResult, success, channel_full, channel_empty}
use brutal.Kernel.Object.{Objects}
use brutal.Kernel.Domain.{Domain}
use brutal.Kernel.Parcel.{BrAddr, BrMsg, Parcel, no_objs, parcel_pack, parcel_unpack}

pub record Channel : Type 0 where
  pub locked : Bool
  pub msgs : Ring Parcel

-- `IPC_CHANNEL_SIZE`
abbrev pub channel_size : ℕ
channel_size = 256

abbrev pub zero_addr : BrAddr
zero_addr = record { id = 0; port = 0 }

-- `Parcel parcel = {}`
abbrev pub zero_parcel : Parcel
zero_parcel = record {
  msg = record {
    flags = 0;
    from = zero_addr;
    to = zero_addr;
    prot = 0;
    type_ = 0;
    seq = 0;
    args = no_objs;
  };
  objs = no_objs;
}

unfoldable pub channel_create : Channel
channel_create = record { locked = false; msgs = ring_init zero_parcel channel_size }

-- A send returns its result, and the new channel and objects.
unfoldable pub send_packed : Channel → BrResult × Parcel × Objects → BrResult × Channel × Objects
send_packed c (success, p, w) = (success, record c { msgs = (ring_push c.msgs p).1 }, w)
send_packed c (res, p, w) = (res, c, w)

unfoldable pub channel_send_unlock :
    Channel → Option Domain → BrMsg → Objects → Option (BrResult × Channel × Objects)
channel_send_unlock c d m w =
    if ring_full c.msgs
    then some (channel_full, c, w)
    else (parcel_pack m d w >>= λ r. some (send_packed c r))

-- What a receive returns: the result, the message if there is one, and the new state.
pub record Received : Type 0 where
  pub result : BrResult
  pub msg : Option BrMsg
  pub channel : Channel
  pub domain : Option Domain
  pub objects : Objects

unfoldable pub channel_recv_unlock : Channel → Option Domain → Objects → Option Received
channel_recv_unlock c d w =
    if not (ring_any c.msgs)
    then some (record { result = channel_empty; msg = none; channel = c; domain = d; objects = w })
    else (do
      (out, r) ← ring_pop c.msgs
      (res, m, d', w') ← parcel_unpack (elim out [ none ↦ zero_parcel | some p ↦ p ]) d w
      some (record {
        result = res;
        msg = some m;
        channel = record c { msgs = r };
        domain = d';
        objects = w';
      }))

-- The test that the scheduler runs for a task that waits to send: whether it can go on, and the
-- result of the attempt. `none` inside is an attempt that did not get the lock.
unfoldable pub channel_wait_send :
    Channel → Option Domain → BrMsg → Objects → Option (Bool × Option BrResult × Channel × Objects)
channel_wait_send c d m w = if c.locked then some (false, none, c, w) else (do
  (res, c', w') ← channel_send_unlock c d m w
  some (elim res [ channel_full ↦ false | _ ↦ true ], some res, c', w'))

unfoldable pub channel_wait_recv :
    Channel → Option Domain → Objects → Option (Bool × Option Received)
channel_wait_recv c d w = if c.locked then some (false, none) else (do
  r ← channel_recv_unlock c d w
  some (elim r.result [ channel_empty ↦ false | _ ↦ true ], some r))
