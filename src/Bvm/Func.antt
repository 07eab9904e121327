-- ===== src/Bvm/Func.antt =====
-- sources/libs/bvm/obj/func.c and eval/instr.h: the instructions, and the building of a
-- function. A function is its number from 1, and 0 the null pointer.
use brutal.Base.{
  ℕ, ◌+◌, Bool, false, Option, some, List, [], ◌∷◌, ◌++◌, length, get_elem?, set, ◌>>=◌,
}

-- `BvmOp`
pub data BvmOp : Type 0 where
  nop loadg loadl loada loado loadv : BvmOp
  storeg storel storea storeo storev : BvmOp
  pushi pushu pushf pushn dup pop : BvmOp
  call_ ret argc_ new halt jmp jmpf eq : BvmOp
  addi subi divi muli modi negi gti gteqi : BvmOp
  addu subu divu mulu modu negu gtu gtequ : BvmOp
  addn subn divn muln modn negn gtn gteqn : BvmOp
  i2u i2n u2i u2n n2i n2u super : BvmOp
  isnil isundef isint isuint isnum isobj isfunc istype isa : BvmOp
  and_ or_ not_ lshift rshift band bor bxor bnot : BvmOp

-- `BvmInstr`; the union of its argument is the 64 bits
pub record BvmInstr : Type 0 where
  pub opcode : BvmOp
  pub arg : ℕ

-- `BvmFunc`
pub record BvmFunc : Type 0 where
  pub native : Bool
  pub locals : ℕ
  pub code : List BvmInstr

unfoldable pub bvm_func_create : BvmFunc
bvm_func_create = record { native = false; locals = 0; code = [] }

unfoldable pub bvm_func_local : BvmFunc → ℕ × BvmFunc
bvm_func_local self = (self.locals, record self { locals = self.locals + 1 })

-- `bvm_func_emitu`, `bvm_func_emiti` and `bvm_func_emitn` differ in the type of the argument.
unfoldable pub bvm_func_emitu : BvmFunc → BvmOp → ℕ → ℕ × BvmFunc
bvm_func_emitu self op u =
    (length self.code, record self { code = self.code ++ (record { opcode = op; arg = u } ∷ []) })

unfoldable pub bvm_func_emit : BvmFunc → BvmOp → ℕ × BvmFunc
bvm_func_emit self op = bvm_func_emitu self op 0

abbrev pub with_arg : ℕ → BvmInstr → BvmInstr
with_arg dest i = record i { arg = dest }

unfoldable pub bvm_func_jump : BvmFunc → ℕ → ℕ → Option BvmFunc
bvm_func_jump self addr dest = do
  i ← get_elem? self.code addr
  some (record self { code = set self.code addr (with_arg dest i) })
