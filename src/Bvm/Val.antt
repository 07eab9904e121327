-- ===== src/Bvm/Val.antt =====
-- sources/libs/bvm/obj/val.c and val.h: the values. The union of a value is its 64 bits; a
-- pointer is an address, and 0 the null pointer.
use brutal.Base.{ℕ, Bool, true, false, not, ◌==◌, if◌then◌else◌}

pub data BvmType : Type 0 where
  bvm_undef bvm_nil bvm_int bvm_uint bvm_num bvm_obj bvm_func : BvmType

-- `==` on types
abbrev pub bvm_type_eq : BvmType → BvmType → Bool
bvm_type_eq bvm_undef bvm_undef = true
bvm_type_eq bvm_nil bvm_nil = true
bvm_type_eq bvm_int bvm_int = true
bvm_type_eq bvm_uint bvm_uint = true
bvm_type_eq bvm_num bvm_num = true
bvm_type_eq bvm_obj bvm_obj = true
bvm_type_eq bvm_func bvm_func = true
bvm_type_eq _ _ = false

pub record BvmVal : Type 0 where
  pub type_ : BvmType
  pub bits : ℕ

-- The arithmetic of `double` on the bits of its values, which the compiler and the processor
-- provide.
pub record Doubles : Type 0 where
  pub add_n : ℕ → ℕ → ℕ
  pub sub_n : ℕ → ℕ → ℕ
  pub div_n : ℕ → ℕ → ℕ
  pub mul_n : ℕ → ℕ → ℕ
  pub fmod : ℕ → ℕ → ℕ
  pub neg_n : ℕ → ℕ
  pub gt_n : ℕ → ℕ → Bool
  pub gteq_n : ℕ → ℕ → Bool
  pub nonzero : ℕ → Bool
  pub int_to_num : ℕ → ℕ
  pub uint_to_num : ℕ → ℕ
  pub num_to_int : ℕ → ℕ
  pub num_to_uint : ℕ → ℕ

unfoldable pub bvm_val_nil : BvmVal
bvm_val_nil = record { type_ = bvm_nil; bits = 0 }

unfoldable pub bvm_val_undef : BvmVal
bvm_val_undef = record { type_ = bvm_undef; bits = 0 }

unfoldable pub bvm_val_int : ℕ → BvmVal
bvm_val_int val = record { type_ = bvm_int; bits = val }

unfoldable pub bvm_val_uint : ℕ → BvmVal
bvm_val_uint val = record { type_ = bvm_int; bits = val }

unfoldable pub bvm_val_num : ℕ → BvmVal
bvm_val_num val = record { type_ = bvm_int; bits = val }

unfoldable pub bvm_val_obj : ℕ → BvmVal
bvm_val_obj obj = if obj == 0 then bvm_val_nil else record { type_ = bvm_obj; bits = obj }

unfoldable pub bvm_val_func : ℕ → BvmVal
bvm_val_func func = if func == 0 then bvm_val_nil else record { type_ = bvm_func; bits = func }

-- A result of `int` from a C condition.
abbrev pub bvm_val_bool : Bool → BvmVal
bvm_val_bool b = bvm_val_int (if b then 1 else 0)

abbrev pub truthy_bits : Doubles → BvmType → ℕ → Bool
truthy_bits fl bvm_nil b = false
truthy_bits fl bvm_undef b = false
truthy_bits fl bvm_int b = not (b == 0)
truthy_bits fl bvm_uint b = not (b == 0)
truthy_bits fl bvm_num b = fl.nonzero b
truthy_bits fl bvm_obj b = true
truthy_bits fl bvm_func b = true

unfoldable pub bvm_val_truthy : Doubles → BvmVal → Bool
bvm_val_truthy fl val = truthy_bits fl val.type_ val.bits
