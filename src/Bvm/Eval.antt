-- ===== src/Bvm/Eval.antt =====
-- sources/libs/bvm/eval/eval.c: the instructions. The handler is split into groups, in the order
-- of the source; an opcode that a group does not have goes on to the next.
pub mod Binary
use brutal.Base.{
  ℕ, zero, suc, ◌+◌, ◌-◌, ◌*◌, ◌/◌, ◌%◌, ◌^◌, ltb, leb, not, ◌&&◌, ◌||◌, Bool, true, false, Option,
  none, some, List, [], ◌∷◌, length, get_elem?, ◌==◌, if◌then◌else◌, ◌>>=◌, word, add64, sub64,
  mul64, ◌<<<◌, ◌>>>◌, bit_and, bit_or, bit_xor,
}
use brutal.Bvm.Int64.{to_int, from_int, negℤ, ◌+ℤ◌, ◌-ℤ◌, mulℤ, divℤ, modℤ, gtℤ}
use brutal.Bvm.Val.{
  BvmType, bvm_undef, bvm_nil, bvm_int, bvm_uint, bvm_num, bvm_obj, bvm_func, bvm_type_eq, BvmVal,
  Doubles, bvm_val_nil, bvm_val_undef, bvm_val_int, bvm_val_uint, bvm_val_num, bvm_val_obj,
  bvm_val_bool, bvm_val_truthy,
}
use brutal.Bvm.Func.{
  BvmOp, BvmInstr, BvmFunc, nop, loadg, loadl, loada, loado, loadv, storeg, storel, storea, storeo,
  storev, pushi, pushu, pushf, pushn, dup, pop, call_, ret, argc_, new, halt, jmp, jmpf, eq, addi,
  subi, divi, muli, modi, negi, gti, gteqi, addu, subu, divu, mulu, modu, negu, gtu, gtequ, addn,
  subn, divn, muln, modn, negn, gtn, gteqn, i2u, i2n, u2i, u2n, n2i, n2u, super, isnil, isundef,
  isint, isuint, isnum, isobj, isfunc, istype, isa, and_, or_, not_, lshift, rshift, band, bor,
  bxor, bnot,
}
use brutal.Bvm.Obj.{
  BvmObj, obj_at, bvm_obj_create, bvm_obj_load, bvm_obj_loadv, bvm_obj_store, bvm_obj_storev,
}
use brutal.Bvm.Local.{
  BvmRes, res_run, res_halt, res_ret, res_error, BvmFrame, BvmLocal, BvmSym, current,
  bvm_local_push, bvm_local_pop, bvm_local_call, bvm_local_ret, bvm_local_load_var,
  bvm_local_store_var, bvm_local_load_arg, bvm_local_store_arg, bvm_local_jump, bvm_local_ifetch,
  bvm_global_load, bvm_global_store,
}

-- The state of a run: the stack and frames, the globals, and the objects.
pub record Vm : Type 0 where
  pub local_ : BvmLocal
  pub global : List BvmSym
  pub objs : List BvmObj

-- What the machine runs on: the arithmetic of doubles, the functions, the native functions, and
-- what fresh memory holds.
pub record Host : Type 0 where
  pub doubles : Doubles
  pub funcs : ℕ → Option BvmFunc
  pub native_ : ℕ → Vm → Option (BvmVal × Vm)
  pub fresh : ℕ → List BvmVal

-- A result of a handler; `none` is a fault.
abbrev pub Step : Type 0
Step = Option (BvmRes × Vm)

abbrev pub push_val : Vm → BvmVal → Option Vm
push_val s v = bvm_local_push s.local_ v >>= λ l. some (record s { local_ = l })

abbrev pub pop_val : Vm → Option (BvmVal × Vm)
pop_val s = bvm_local_pop s.local_ >>= λ (v, l). some (v, record s { local_ = l })

abbrev pub go : Option Vm → Step
go m = m >>= λ s. some (res_run, s)

-- Pop an operand and push the result.
unfoldable pub unary : Vm → (BvmVal → Option BvmVal) → Step
unary s f = do (val, s₁) ← pop_val s; r ← f val; go (push_val s₁ r)

-- Pop the right operand, then the left one, and push the result.
unfoldable pub binary : Vm → (ℕ → ℕ → Option BvmVal) → Step
binary s f = do
  (rhs, s₁) ← pop_val s
  (lhs, s₂) ← pop_val s₁
  r ← f lhs.bits rhs.bits
  go (push_val s₂ r)

-- Operations on `int64_t` that give one, which must fit.
abbrev pub int_result : Option ℕ → Option BvmVal
int_result w = w >>= λ n. some (bvm_val_int n)

-- A shift by the width or more is undefined.
abbrev pub shift_by : ℕ → ℕ → Option BvmVal
shift_by rhs r = if ltb rhs 64 then some (bvm_val_uint r) else none

-- How many objects a chain of prototypes may have.
abbrev pub chain_fuel : Vm → ℕ
chain_fuel s = length s.objs + 1

module _ (host : Host) where
  -- AND to BNOT, and opcodes without a handler
  unfoldable pub eval_logic : BvmOp → ℕ → Vm → Step
  eval_logic and_ arg s = do
    (rhs, s₁) ← pop_val s
    (lhs, s₂) ← pop_val s₁
    go (
        push_val s₂
          (bvm_val_bool (bvm_val_truthy host.doubles lhs && bvm_val_truthy host.doubles rhs)))
  eval_logic or_ arg s = do
    (rhs, s₁) ← pop_val s
    (lhs, s₂) ← pop_val s₁
    go (
        push_val s₂
          (bvm_val_bool (bvm_val_truthy host.doubles lhs || bvm_val_truthy host.doubles rhs)))
  eval_logic not_ arg s = unary s (λ v. some (bvm_val_bool (not (bvm_val_truthy host.doubles v))))
  eval_logic lshift arg s = binary s (λ lhs rhs. shift_by rhs ((lhs <<< rhs) % word))
  eval_logic rshift arg s = binary s (λ lhs rhs. shift_by rhs (lhs >>> rhs))
  eval_logic band arg s = binary s (λ lhs rhs. some (bvm_val_uint (bit_and lhs rhs)))
  eval_logic bor arg s = binary s (λ lhs rhs. some (bvm_val_uint (bit_or lhs rhs)))
  eval_logic bxor arg s = binary s (λ lhs rhs. some (bvm_val_uint (bit_xor lhs rhs)))
  eval_logic bnot arg s = unary s (λ v. some (bvm_val_uint (word - 1 - v.bits)))
  eval_logic op arg s = some (res_error, s)

  abbrev is_type : BvmType → Vm → Step
  is_type t s = unary s (λ v. some (bvm_val_bool (bvm_type_eq v.type_ t)))

  -- I2U to ISFUNC
  unfoldable pub eval_types : BvmOp → ℕ → Vm → Step
  eval_types i2u arg s = unary s (λ v. some (bvm_val_uint v.bits))
  eval_types i2n arg s = unary s (λ v. some (bvm_val_num (host.doubles.int_to_num v.bits)))
  eval_types u2i arg s = unary s (λ v. some (bvm_val_int v.bits))
  eval_types u2n arg s = unary s (λ v. some (bvm_val_num (host.doubles.uint_to_num v.bits)))
  eval_types n2i arg s = unary s (λ v. some (bvm_val_int (host.doubles.num_to_int v.bits)))
  eval_types n2u arg s = unary s (λ v. some (bvm_val_uint (host.doubles.num_to_uint v.bits)))
  eval_types super arg s = unary s (λ v.
      if bvm_type_eq v.type_ bvm_obj && not (v.bits == 0)
      then (obj_at s.objs v.bits >>= λ o. some (bvm_val_obj o.proto))
      else some bvm_val_undef)
  eval_types isnil arg s = is_type bvm_nil s
  eval_types isundef arg s = is_type bvm_undef s
  eval_types isint arg s = is_type bvm_int s
  eval_types isuint arg s = is_type bvm_uint s
  eval_types isnum arg s = is_type bvm_num s
  eval_types isobj arg s = is_type bvm_obj s
  eval_types isfunc arg s = is_type bvm_func s
  eval_types op arg s = eval_logic op arg s

  -- ADDN to GTEQN
  unfoldable pub eval_num : BvmOp → ℕ → Vm → Step
  eval_num addn arg s = binary s (λ lhs rhs. some (bvm_val_num (host.doubles.add_n lhs rhs)))
  eval_num subn arg s = binary s (λ lhs rhs. some (bvm_val_num (host.doubles.sub_n lhs rhs)))
  eval_num divn arg s = binary s (λ lhs rhs. some (bvm_val_num (host.doubles.div_n lhs rhs)))
  eval_num muln arg s = binary s (λ lhs rhs. some (bvm_val_num (host.doubles.mul_n lhs rhs)))
  eval_num modn arg s = binary s (λ lhs rhs. some (bvm_val_num (host.doubles.fmod lhs rhs)))
  eval_num negn arg s = unary s (λ v. some (bvm_val_num (host.doubles.neg_n v.bits)))
  eval_num gtn arg s = binary s (λ lhs rhs. some (bvm_val_bool (host.doubles.gt_n lhs rhs)))
  eval_num gteqn arg s = binary s (λ lhs rhs. some (bvm_val_bool (host.doubles.gteq_n lhs rhs)))
  eval_num op arg s = eval_types op arg s

  -- ADDU to GTEQU
  unfoldable pub eval_uint : BvmOp → ℕ → Vm → Step
  eval_uint addu arg s = binary s (λ lhs rhs. some (bvm_val_uint (add64 lhs rhs)))
  eval_uint subu arg s = binary s (λ lhs rhs. some (bvm_val_uint (sub64 lhs rhs)))
  eval_uint divu arg s =
      binary s (λ lhs rhs. if rhs == 0 then none else some (bvm_val_uint (lhs / rhs)))
  eval_uint mulu arg s = binary s (λ lhs rhs. some (bvm_val_uint (mul64 lhs rhs)))
  eval_uint modu arg s =
      binary s (λ lhs rhs. if rhs == 0 then none else some (bvm_val_uint (lhs % rhs)))
  eval_uint negu arg s = unary s (λ v. some (bvm_val_uint (sub64 0 v.bits)))
  eval_uint gtu arg s = binary s (λ lhs rhs. some (bvm_val_bool (ltb rhs lhs)))
  eval_uint gtequ arg s = binary s (λ lhs rhs. some (bvm_val_bool (leb rhs lhs)))
  eval_uint op arg s = eval_num op arg s

  -- EQ to GTEQI
  unfoldable pub eval_int : BvmOp → ℕ → Vm → Step
  eval_int eq arg s = binary s (λ lhs rhs. some (bvm_val_bool (lhs == rhs)))
  eval_int addi arg s = binary s (λ lhs rhs. int_result (from_int (to_int lhs +ℤ to_int rhs)))
  eval_int subi arg s = binary s (λ lhs rhs. int_result (from_int (to_int lhs -ℤ to_int rhs)))
  eval_int divi arg s =
      binary s (λ lhs rhs. int_result (divℤ (to_int lhs) (to_int rhs) >>= from_int))
  eval_int muli arg s = binary s (λ lhs rhs. int_result (from_int (mulℤ (to_int lhs) (to_int rhs))))
  eval_int modi arg s =
      binary s (λ lhs rhs. int_result (modℤ (to_int lhs) (to_int rhs) >>= from_int))
  eval_int negi arg s = unary s (λ v. int_result (from_int (negℤ (to_int v.bits))))
  eval_int gti arg s = binary s (λ lhs rhs. some (bvm_val_bool (gtℤ (to_int lhs) (to_int rhs))))
  eval_int gteqi arg s =
      binary s (λ lhs rhs. some (bvm_val_bool (not (gtℤ (to_int rhs) (to_int lhs)))))
  eval_int op arg s = eval_uint op arg s

  -- The call of a value that is not a function reads its bits as a function's address: a fault.
  abbrev callee : BvmVal → Option BvmFunc
  callee v = if bvm_type_eq v.type_ bvm_func then host.funcs v.bits else none

  abbrev call_native : ℕ → Vm → Step
  call_native addr s = do
    (v, s₁) ← host.native_ addr s
    (_, l) ← bvm_local_ret s₁.local_ v
    some (res_run, record s₁ { local_ = l })

  -- CALL to JMPF
  unfoldable pub eval_control : BvmOp → ℕ → Vm → Step
  eval_control call_ arg s = do
    (val, s₁) ← pop_val s
    func ← callee val
    l ← bvm_local_call s₁.local_ val.bits func arg
    let s₂ = record s₁ { local_ = l }
    let native_call = call_native val.bits s₂
    if func.native then native_call else some (res_run, s₂)
  eval_control new arg s = do
    (val, s₁) ← pop_val s
    let created = (do
      (o, h) ← bvm_obj_create (host.fresh arg) val.bits s₁.objs
      go (push_val (record s₁ { objs = h }) (bvm_val_obj o)))
    if bvm_type_eq val.type_ bvm_obj then created else go (push_val s₁ bvm_val_nil)
  eval_control ret arg s = do
    (val, s₁) ← pop_val s
    (res, l) ← bvm_local_ret s₁.local_ val
    some (res, record s₁ { local_ = l })
  eval_control argc_ arg s = do f ← current s.local_; go (push_val s (bvm_val_int f.argc))
  eval_control halt arg s = some (res_halt, s)
  eval_control jmp arg s = do
    l ← bvm_local_jump s.local_ arg
    some (res_run, record s { local_ = l })
  eval_control jmpf arg s = do
    (val, s₁) ← pop_val s
    let jumped = (bvm_local_jump s₁.local_ arg >>= λ l. some (res_run, record s₁ { local_ = l }))
    if not (bvm_val_truthy host.doubles val) then jumped else some (res_run, s₁)
  eval_control op arg s = eval_int op arg s

  -- NOP to STOREV
  unfoldable pub eval_memory : BvmOp → ℕ → Vm → Step
  eval_memory nop arg s = some (res_run, s)
  eval_memory loadg arg s = do v ← bvm_global_load s.global arg; go (push_val s v)
  eval_memory loadl arg s = do v ← bvm_local_load_var s.local_ arg; go (push_val s v)
  eval_memory loada arg s = do v ← bvm_local_load_arg s.local_ arg; go (push_val s v)
  eval_memory loado arg s = unary s (λ v.
      if bvm_type_eq v.type_ bvm_obj then bvm_obj_load s.objs v.bits arg else some bvm_val_undef)
  eval_memory loadv arg s = unary s (λ v.
      if bvm_type_eq v.type_ bvm_obj
      then bvm_obj_loadv (chain_fuel s) s.objs v.bits arg
      else some bvm_val_undef)
  eval_memory storeg arg s = do
    (v, s₁) ← pop_val s
    g ← bvm_global_store s₁.global arg v
    some (res_run, record s₁ { global = g })
  eval_memory storel arg s = do
    (v, s₁) ← pop_val s
    l ← bvm_local_store_var s₁.local_ arg v
    some (res_run, record s₁ { local_ = l })
  eval_memory storea arg s = do
    (v, s₁) ← pop_val s
    l ← bvm_local_store_arg s₁.local_ arg v
    some (res_run, record s₁ { local_ = l })
  eval_memory storeo arg s = do
    (obj, s₁) ← pop_val s
    (v, s₂) ← pop_val s₁
    let stored =
        (bvm_obj_store s₂.objs obj.bits arg v >>= λ h. some (res_run, record s₂ { objs = h }))
    if bvm_type_eq obj.type_ bvm_obj then stored else some (res_run, s₂)
  eval_memory storev arg s = do
    (obj, s₁) ← pop_val s
    (v, s₂) ← pop_val s₁
    let stored =
        (bvm_obj_storev (chain_fuel s₂) s₂.objs obj.bits arg v >>= λ h.
        some (res_run, record s₂ { objs = h }))
    if bvm_type_eq obj.type_ bvm_obj then stored else some (res_run, s₂)
  eval_memory op arg s = eval_control op arg s

  -- PUSHI to POP, and then the other groups
  unfoldable pub eval_push : BvmOp → ℕ → Vm → Step
  eval_push pushi arg s = go (push_val s (bvm_val_int arg))
  eval_push pushu arg s = go (push_val s (bvm_val_uint arg))
  eval_push pushf arg s = go (push_val s (bvm_val_uint (host.doubles.num_to_uint arg)))
  eval_push pushn arg s = go (push_val s bvm_val_nil)
  eval_push dup arg s = do (v, s₁) ← pop_val s; s₂ ← push_val s₁ v; go (push_val s₂ v)
  eval_push pop arg s = do (_, s₁) ← pop_val s; some (res_run, s₁)
  eval_push op arg s = eval_memory op arg s

  unfoldable pub bvm_eval : Vm → Step
  bvm_eval s = do
    (instr, l) ← bvm_local_ifetch host.funcs s.local_
    eval_push instr.opcode instr.arg (record s { local_ = l })

  abbrev is_run : BvmRes → Bool
  is_run res_run = true
  is_run res = false

  -- The loop of `bvm_call`, on fuel.
  unfoldable pub eval_loop : ℕ → Vm → Option Vm
  eval_loop zero s = none
  eval_loop (suc fuel) s = do
    (res, s₁) ← bvm_eval s
    let rest = eval_loop fuel s₁
    if is_run res then rest else some s₁

  unfoldable pub bvm_call : ℕ → Vm → ℕ → ℕ → Option (BvmVal × Vm)
  bvm_call fuel s addr argc = do
    func ← host.funcs addr
    l ← bvm_local_call s.local_ addr func argc
    s₁ ← eval_loop fuel (record s { local_ = l })
    pop_val s₁
