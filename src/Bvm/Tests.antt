-- ===== src/Bvm/Tests.antt =====
-- The theorems on sources/libs/bvm at concrete inputs.
use brutal.Base.{
  ℕ, ◌+◌, ◌-◌, ◌≤◌, true, false, Option, none, some, List, [], ◌∷◌, length, get_elem?, replicate,
  ◌≡◌, refl, arith, suc, zero, word,
}
use brutal.Bvm.Int64.{to_int, from_int, ◌+ℤ◌}
use brutal.Bvm.Int64.Laws.{from_int-to_int}
use brutal.Bvm.Val.{BvmVal, Doubles, bvm_undef, bvm_int, bvm_val_int}
use brutal.Bvm.Func.{addi}
use brutal.Bvm.Obj.{BvmObj, bvm_obj_loadv, bvm_obj_storev, store_val}
use brutal.Bvm.Obj.Chain.{IsHeap}
use brutal.Bvm.Local.{BvmLocal, res_run, zero_frame, bvm_local_push, bvm_local_pop}
use brutal.Bvm.Local.Stack.{IsStackOf, bvm_local_pop-IsStackOf}
use brutal.Bvm.Eval.{Vm, Host, binary, eval_int}

abbrev int_val : ℕ → BvmVal
int_val n = record { type_ = bvm_int; bits = n }

-- A stack of four cells, of which two are in use, in a call from a call.
abbrev two_values : BvmLocal
two_values = record {
  stack = int_val 3 ∷ int_val 4 ∷ int_val 0 ∷ int_val 0 ∷ [];
  stack_top = 2;
  frame = zero_frame ∷ record zero_frame { args = 1; argc = 1 } ∷ [];
  frame_curr = some 1;
}

two_values-IsStackOf : IsStackOf (int_val 4 ∷ int_val 3 ∷ []) two_values
two_values-IsStackOf = (omega arith, refl, (omega arith, refl, refl))

bvm_local_pop_example :
    (bvm_local_pop two_values ≡ some (int_val 4, record two_values { stack_top = 1 }))
    × IsStackOf (int_val 3 ∷ []) (record two_values { stack_top = 1 })
bvm_local_pop_example =
    bvm_local_pop-IsStackOf (int_val 4) (int_val 3 ∷ []) two_values two_values-IsStackOf

abbrev no_doubles : Doubles
no_doubles = record {
  add_n = λ a b. 0;
  sub_n = λ a b. 0;
  div_n = λ a b. 0;
  mul_n = λ a b. 0;
  fmod = λ a b. 0;
  neg_n = λ a. a;
  gt_n = λ a b. false;
  gteq_n = λ a b. true;
  nonzero = λ a. true;
  int_to_num = λ a. a;
  uint_to_num = λ a. a;
  num_to_int = λ a. a;
  num_to_uint = λ a. a;
}

abbrev host : Host
host = record {
  doubles = no_doubles;
  funcs = λ i. none;
  native_ = λ i s. none;
  fresh = λ n. replicate n (int_val 0);
}

abbrev vm : Vm
vm = record { local_ = two_values; global = []; objs = [] }

abbrev seven : Vm
seven = record vm {
  local_ = record two_values {
    stack = int_val 7 ∷ int_val 4 ∷ int_val 0 ∷ int_val 0 ∷ [];
    stack_top = 1;
  };
}

addi_ran : eval_int host addi 0 vm ≡ some (res_run, seven)
unfolding eval_int binary bvm_local_push bvm_local_pop to_int from_int ◌+ℤ◌ bvm_val_int
addi_ran = refl

abbrev sum : ℕ → ℕ → Option BvmVal
sum lhs rhs = some (int_val (lhs + rhs))

from_int_example : from_int (to_int (word - 5)) ≡ some (word - 5)
from_int_example = from_int-to_int (word - 5) (omega arith)

-- An object without a prototype, and one whose prototype it is.
abbrev undef_val : BvmVal
undef_val = record { type_ = bvm_undef; bits = 0 }

abbrev base_obj : BvmObj
base_obj = record { proto = 0; len = 1; vals = int_val 3 ∷ [] }

abbrev derived_obj : BvmObj
derived_obj = record { proto = 1; len = 1; vals = undef_val ∷ [] }

abbrev two_objs : List BvmObj
two_objs = base_obj ∷ derived_obj ∷ []

two_objs-older : (i : ℕ) (o : BvmObj) → get_elem? two_objs i ≡ some o → o.proto ≤ i
two_objs-older zero o e = ground arith
two_objs-older (suc zero) o e = ground arith
two_objs-older (suc (suc i)) o e = absurd (ground arith)

two_objs-filled : (i : ℕ) (o : BvmObj) → get_elem? two_objs i ≡ some o → o.len ≤ length o.vals
two_objs-filled zero o e = ground arith
two_objs-filled (suc zero) o e = ground arith
two_objs-filled (suc (suc i)) o e = absurd (ground arith)

two_objs-IsHeap : IsHeap two_objs
two_objs-IsHeap = record { older = two_objs-older; filled = two_objs-filled }

abbrev base_written : List BvmObj
base_written = record { proto = 0; len = 1; vals = int_val 9 ∷ [] } ∷ derived_obj ∷ []

load_ran : bvm_obj_loadv 3 two_objs 2 0 ≡ some (int_val 3)
unfolding bvm_obj_loadv
load_ran = refl

store_ran : bvm_obj_storev 3 two_objs 2 0 (int_val 9) ≡ some base_written
unfolding bvm_obj_storev store_val
store_ran = refl
