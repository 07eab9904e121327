-- ===== src/Bvm/Local.antt =====
-- sources/libs/bvm/ctx: the stack of values, the frames of the calls, and the globals. A pointer
-- into the stack or the frames is the index of its cell; an access outside them is a fault.
pub mod Stack
use brutal.Base.{
  ℕ, zero, suc, ◌+◌, ◌-◌, ◌%◌, ◌^◌, ltb, leb, Bool, true, false, Option, none, some, List, [], ◌∷◌,
  ◌++◌, length, get_elem?, set, replicate, ◌==◌, if◌then◌else◌, ◌>>=◌, word,
}
use brutal.Bvm.Val.{BvmVal, bvm_val_nil, bvm_val_undef}
use brutal.Bvm.Func.{BvmInstr, BvmFunc}

-- What `bvm_eval` returns, `BvmRes`.
pub data BvmRes : Type 0 where
  res_run res_halt res_ret res_error : BvmRes

pub record BvmFrame : Type 0 where
  pub ip : ℕ
  pub args : ℕ
  pub argc : ℕ
  pub vars : ℕ
  pub varc : ℕ
  pub func : ℕ

abbrev pub bvm_max_stack : ℕ
bvm_max_stack = 4096

abbrev pub bvm_max_frame : ℕ
bvm_max_frame = 128

pub record BvmLocal : Type 0 where
  pub stack : List BvmVal
  pub stack_top : ℕ
  pub frame : List BvmFrame
  pub frame_curr : Option ℕ

abbrev pub zero_frame : BvmFrame
zero_frame = record { ip = 0; args = 0; argc = 0; vars = 0; varc = 0; func = 0 }

-- A zeroed value has the type 0, which is `BVM_UNDEF`.
unfoldable pub bvm_local_init : BvmLocal
bvm_local_init = record {
  stack = replicate bvm_max_stack bvm_val_undef;
  stack_top = 0;
  frame = replicate bvm_max_frame zero_frame;
  frame_curr = none;
}

-- A write to a cell of an array.
abbrev pub put {ℓ} : {A : Type ℓ} → List A → ℕ → A → Option (List A)
put xs i v = if ltb i (length xs) then some (set xs i v) else none

unfoldable pub bvm_local_push : BvmLocal → BvmVal → Option BvmLocal
bvm_local_push self val = do
  stack' ← put self.stack self.stack_top val
  some (record self { stack = stack'; stack_top = self.stack_top + 1 })

unfoldable pub bvm_local_pop : BvmLocal → Option (BvmVal × BvmLocal)
bvm_local_pop self =
    if self.stack_top == 0
    then none
    else (get_elem? self.stack (self.stack_top - 1) >>= λ v.
        some (v, record self { stack_top = self.stack_top - 1 }))

-- The loop that sets the variables of a frame to nil.
unfoldable pub clear_vars : ℕ → ℕ → List BvmVal → Option (List BvmVal)
clear_vars zero at stack = some stack
clear_vars (suc left) at stack = put stack at bvm_val_nil >>= clear_vars left (at + 1)

abbrev pub next_frame : Option ℕ → ℕ
next_frame none = 0
next_frame (some i) = i + 1

abbrev pub enter : BvmLocal → ℕ → BvmFrame → List BvmVal → Option BvmLocal
enter self i f stack' = do
  frames ← put self.frame i f
  some (record self { stack = stack'; frame = frames; frame_curr = some i })

-- A pointer minus an `int`, which is given by its 32 bits, and that `int` as a `size_t`.
unfoldable pub back_from : ℕ → ℕ → Option ℕ
back_from top argc =
    if ltb argc (2 ^ 31)
    then (if ltb top argc then none else some (top - argc))
    else some (top + 2 ^ 32 - argc)

abbrev pub extend : ℕ → ℕ
extend argc = if ltb argc (2 ^ 31) then argc else argc + word - 2 ^ 32

-- `addr` is the address of the function, and `uarg` is truncated to the `int` argument `argc`.
unfoldable pub bvm_local_call : BvmLocal → ℕ → BvmFunc → ℕ → Option BvmLocal
bvm_local_call self addr func uarg =
    let argc = extend (uarg % 2 ^ 32) in
    let varc = func.locals in
    let vars = self.stack_top + func.locals in
    let native_frame = (λ (args : ℕ).
      enter self (next_frame self.frame_curr)
        (record { ip = 0; args = args; argc = argc; vars = self.stack_top; varc = 0; func = addr })
        self.stack) in
    let managed_frame = (λ (args : ℕ).
      clear_vars varc vars self.stack
      >>= enter self (next_frame self.frame_curr)
          (record { ip = 0; args = args; argc = argc; vars = vars; varc = varc; func = addr })) in
    back_from self.stack_top (uarg % 2 ^ 32)
    >>= (if func.native then native_frame else managed_frame)

-- The frame pointer `frame` without an index is the first frame.
unfoldable pub bvm_local_ret : BvmLocal → BvmVal → Option (BvmRes × BvmLocal)
bvm_local_ret self val = do
  first ← get_elem? self.frame 0
  pushed ← bvm_local_push (record self { stack_top = first.args }) val
  i ← self.frame_curr
  some (
      if i == 0
      then (res_ret, record pushed { frame_curr = none })
      else (res_run, record pushed { frame_curr = some (i - 1) }))

abbrev pub current : BvmLocal → Option BvmFrame
current self = self.frame_curr >>= get_elem? self.frame

-- The cell at an `int` index from a base pointer; the argument is truncated to 32 bits, signed.
unfoldable pub cell_at : ℕ → ℕ → Option ℕ
cell_at base index =
    let i = index % 2 ^ 32 in
    if ltb i (2 ^ 31)
    then some (base + i)
    else (if ltb (base + i) (2 ^ 32) then none else some (base + i - 2 ^ 32))

unfoldable pub bvm_local_load_var : BvmLocal → ℕ → Option BvmVal
bvm_local_load_var self index = do
  f ← current self
  i ← cell_at f.vars index
  get_elem? self.stack i

unfoldable pub bvm_local_store_var : BvmLocal → ℕ → BvmVal → Option BvmLocal
bvm_local_store_var self index val = do
  f ← current self
  i ← cell_at f.vars index
  stack' ← put self.stack i val
  some (record self { stack = stack' })

unfoldable pub bvm_local_load_arg : BvmLocal → ℕ → Option BvmVal
bvm_local_load_arg self index = do
  f ← current self
  i ← cell_at f.args index
  get_elem? self.stack i

unfoldable pub bvm_local_store_arg : BvmLocal → ℕ → BvmVal → Option BvmLocal
bvm_local_store_arg self index val = do
  f ← current self
  i ← cell_at f.args index
  stack' ← put self.stack i val
  some (record self { stack = stack' })

-- A new instruction pointer for the current frame.
unfoldable pub bvm_local_jump : BvmLocal → ℕ → Option BvmLocal
bvm_local_jump self addr = do
  i ← self.frame_curr
  f ← get_elem? self.frame i
  some (record self { frame = set self.frame i (record f { ip = addr }) })

-- The instruction is fetched from the code of the frame's function, which `funcs` gives.
unfoldable pub bvm_local_ifetch : (ℕ → Option BvmFunc) → BvmLocal → Option (BvmInstr × BvmLocal)
bvm_local_ifetch funcs self = do
  f ← current self
  func ← funcs f.func
  instr ← get_elem? func.code f.ip
  self' ← bvm_local_jump self (f.ip + 1)
  some (instr, self')

-- `BvmGlobal`, with the bytes of the names as numbers.
pub record BvmSym : Type 0 where
  pub name : List ℕ
  pub val : BvmVal

unfoldable pub bvm_global_load : List BvmSym → ℕ → Option BvmVal
bvm_global_load self index = do i ← cell_at 0 index; sym ← get_elem? self i; some sym.val

abbrev pub with_val : BvmVal → BvmSym → BvmSym
with_val v s = record s { val = v }

unfoldable pub bvm_global_store : List BvmSym → ℕ → BvmVal → Option (List BvmSym)
bvm_global_store self index val = do
  i ← cell_at 0 index
  sym ← get_elem? self i
  put self i (with_val val sym)

unfoldable pub bvm_global_add : List BvmSym → List ℕ → BvmVal → ℕ × List BvmSym
bvm_global_add self name val = (length self, self ++ (record { name = name; val = val } ∷ []))
