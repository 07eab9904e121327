-- ===== src/Bvm/Local/Stack.antt =====
-- The stack of sources/libs/bvm/ctx/local.c, as the list of its live values.
use brutal.Base.{
  ℕ, ◌+◌, ◌-◌, ◌≤◌, ◌<◌, none, some, List, [], ◌∷◌, length, get_elem?, set, get_elem?-set_self,
  get_elem?-set_ne, length-set, ◌==◌, if◌then◌else◌, ◌≡◌, refl, ◌∙◌, arith,
}
use brutal.Bvm.Val.{BvmVal}
use brutal.Bvm.Local.{
  BvmLocal, BvmFrame, res_run, res_ret, bvm_local_push, bvm_local_pop, bvm_local_ret,
}

-- The `top` cells from the bottom hold the values, the top of the stack first.
abbrev pub Live : List BvmVal → ℕ → List BvmVal → Type 0
Live cells top [] = top ≡ 0
Live cells top (x ∷ xs) = (0 < top) × (get_elem? cells (top - 1) ≡ some x) × Live cells (top - 1) xs

-- `l` is a stack that holds `xs`, the top first.
abbrev pub IsStackOf : List BvmVal → BvmLocal → Type 0
IsStackOf xs l = Live l.stack l.stack_top xs

-- A write at or above the top leaves what the stack holds.
pub Live-set :
    (cells : List BvmVal) (i : ℕ) (v : BvmVal) (top : ℕ) (xs : List BvmVal)
    → top ≤ i
    → Live cells top xs
    → Live (set cells i v) top xs
Live-set cells i v top [] h e = e
Live-set cells i v top (x ∷ xs) h (pos, at, rest) = (
  pos,
  get_elem?-set_ne cells i (top - 1) v (omega arith) ∙ at,
  Live-set cells i v (top - 1) xs (omega arith) rest,
)

back : (n : ℕ) → n + 1 - 1 ≡ n
back n = omega arith

-- A push onto a stack with a free cell puts the value on top, and changes neither the frames nor
-- the number of cells.
pub bvm_local_push-IsStackOf :
    (xs : List BvmVal) (l : BvmLocal) (v : BvmVal)
    → IsStackOf xs l
    → l.stack_top < length l.stack
    → (l' : BvmLocal) × (bvm_local_push l v ≡ some l')
      × IsStackOf (v ∷ xs) l'
      × (length l'.stack ≡ length l.stack)
      × (l'.frame ≡ l.frame)
      × (l'.frame_curr ≡ l.frame_curr)
unfolding bvm_local_push
bvm_local_push-IsStackOf xs l v live room = (
  record l { stack = set l.stack l.stack_top v; stack_top = l.stack_top + 1 },
  ground arith,
  (
    omega arith,
    rw (back l.stack_top) (get_elem?-set_self l.stack l.stack_top v room),
    rw (back l.stack_top) (Live-set l.stack l.stack_top v l.stack_top xs (omega arith) live),
  ),
  length-set l.stack l.stack_top v,
  refl,
  refl,
)

-- A pop takes the top value off.
pub bvm_local_pop-IsStackOf :
    (x : BvmVal) (xs : List BvmVal) (l : BvmLocal)
    → IsStackOf (x ∷ xs) l
    → (bvm_local_pop l ≡ some (x, record l { stack_top = l.stack_top - 1 }))
      × IsStackOf xs (record l { stack_top = l.stack_top - 1 })
unfolding bvm_local_pop
bvm_local_pop-IsStackOf x xs l (pos, at, rest) = (ground arith, rest)

-- A return from any frame, if the arguments of the first frame lie in the stack, leaves the top of
-- the stack one above the arguments of the first frame; it goes on running unless the current
-- frame is the first.
bvm_local_ret-first_frame :
    (l : BvmLocal) (v : BvmVal) (f : BvmFrame) (i : ℕ)
    → l.frame_curr ≡ some i
    → get_elem? l.frame 0 ≡ some f
    → f.args < length l.stack
    → (l' : BvmLocal) × (bvm_local_ret l v ≡ some (if i == 0 then res_ret else res_run, l'))
      × (l'.stack_top ≡ f.args + 1)
unfolding bvm_local_ret bvm_local_push
bvm_local_ret-first_frame l v f i curr first room = (
  record l {
    stack = set l.stack f.args v;
    stack_top = f.args + 1;
    frame_curr = if i == 0 then none else some (i - 1);
  },
  ground arith,
  refl,
)
