-- ===== src/Kernel/Parcel.antt =====
-- sources/kernel/parcel.c: a message on its way, with references to the objects that its handles
-- stand for. A domain that is `none` is the null pointer.
pub mod Laws
use brutal.Base.{
  ℕ, zero, suc, ◌+◌, ◌^◌, Bool, true, false, not, Option, none, some, List, [], ◌∷◌, get_elem?, set,
  replicate, bit_and, ◌==◌, if◌then◌else◌, ◌>>=◌,
}
use brutal.Kernel.Abi.{BrResult, success, bad_handle, any_}
use brutal.Kernel.Object.{Objects, object_deref}
use brutal.Kernel.Domain.{Domain, domain_lookup, domain_add}

-- `BrAddr`
pub record BrAddr : Type 0 where
  pub id : ℕ
  pub port : ℕ

-- `BrMsg`, with the `BR_MSG_ARG_COUNT` arguments of its union
pub record BrMsg : Type 0 where
  pub flags : ℕ
  pub from : BrAddr
  pub to : BrAddr
  pub prot : ℕ
  pub type_ : ℕ
  pub seq : ℕ
  pub args : List ℕ

abbrev pub arg_count : ℕ
arg_count = 5

pub record Parcel : Type 0 where
  pub msg : BrMsg
  pub objs : List ℕ

abbrev pub no_objs : List ℕ
no_objs = replicate arg_count 0

-- `flags & BR_MSG_HND(i)`
unfoldable pub has_handle : BrMsg → ℕ → Bool
has_handle m i = not (bit_and m.flags (2 ^ i) == 0)

-- The loop of `parcel_deinit`; dropping a null pointer does nothing.
unfoldable pub parcel_deinit : List ℕ → Objects → Objects
parcel_deinit [] w = w
parcel_deinit (o ∷ os) w = parcel_deinit os (if o == 0 then w else object_deref w o)

-- What a lookup stores: the object, or the null pointer.
abbrev pub pointer : Option ℕ → ℕ
pointer none = 0
pointer (some o) = o

-- The loop of `parcel_pack`, with `left` arguments to go at argument `i`.
unfoldable pub pack_loop :
    ℕ → ℕ → BrMsg → Domain → List ℕ → Objects → Option (BrResult × List ℕ × Objects)
pack_loop zero i m d objs w = some (success, objs, w)
pack_loop (suc left) i m d objs w =
    let skip = pack_loop left (i + 1) m d objs w in
    let take_ref = (do
      handle ← get_elem? m.args i
      (found, w') ← domain_lookup d w handle any_
      let objs' = set objs i (pointer found)
      let rest = pack_loop left (i + 1) m d objs' w'
      if pointer found == 0 then some (bad_handle, objs', parcel_deinit objs' w') else rest) in
    if has_handle m i then take_ref else skip

unfoldable pub parcel_pack : BrMsg → Option Domain → Objects → Option (BrResult × Parcel × Objects)
parcel_pack m none w = some (success, record { msg = m; objs = no_objs }, w)
parcel_pack m (some d) w = do
  (res, objs, w') ← pack_loop arg_count 0 m d no_objs w
  some (res, record { msg = m; objs = objs }, w')

-- The loop of `parcel_unpack`: each object gets a handle in the receiving domain.
unfoldable pub unpack_loop :
    List ℕ → ℕ → BrMsg → Domain → Objects → Option (BrMsg × Domain × Objects)
unpack_loop [] i m d w = some (m, d, w)
unpack_loop (o ∷ os) i m d w =
    let skip = unpack_loop os (i + 1) m d w in
    let add_handle = (do
      (handle, d', w') ← domain_add d w o
      unpack_loop os (i + 1) (record m { args = set m.args i handle }) d' w') in
    if o == 0 then skip else add_handle

unfoldable pub parcel_unpack :
    Parcel → Option Domain → Objects → Option (BrResult × BrMsg × Option Domain × Objects)
parcel_unpack p none w = some (success, p.msg, none, parcel_deinit p.objs w)
parcel_unpack p (some d) w = do
  (m, d', w') ← unpack_loop p.objs 0 p.msg d w
  some (success, m, some d', parcel_deinit p.objs w')
