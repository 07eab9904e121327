-- ===== src/Bvm/Eval/Binary.antt =====
-- The instructions of sources/libs/bvm/eval/eval.c on two operands, against the stack.
use brutal.Base.{
  ℕ, ◌-◌, ◌≤◌, ◌<◌, Option, Option-cases, none, some, List, ◌∷◌, length, ◌>>=◌, ◌≡◌, refl, sym,
  subst, ◌∙◌, inl, inr, arith, word, add64,
}
use brutal.Bvm.Int64.{to_int, from_int, ◌+ℤ◌}
use brutal.Bvm.Int64.Laws.{from_int-add}
use brutal.Bvm.Val.{BvmVal, bvm_val_int, bvm_val_uint}
use brutal.Bvm.Func.{addi, addu}
use brutal.Bvm.Local.{BvmRes, res_run}
use brutal.Bvm.Local.Stack.{IsStackOf, bvm_local_push-IsStackOf, bvm_local_pop-IsStackOf}
use brutal.Bvm.Eval.{Vm, Host, Step, push_val, go, binary, int_result, eval_int, eval_uint}

-- The machine after two values were popped.
abbrev popped : Vm → Vm
popped s = record s { local_ = record s.local_ { stack_top = s.local_.stack_top - 1 - 1 } }

-- What an operation on the two top values computes.
binary-eq :
    (x y : BvmVal) (xs : List BvmVal) (s : Vm) (f : ℕ → ℕ → Option BvmVal)
    → IsStackOf (y ∷ x ∷ xs) s.local_
    → binary s f ≡ (f x.bits y.bits >>= λ r. go (push_val (popped s) r))
unfolding binary
binary-eq x y xs s f live =
    let (first, live₁) = bvm_local_pop-IsStackOf y (x ∷ xs) s.local_ live in
    let (second, live₂) =
      bvm_local_pop-IsStackOf x xs (record s.local_ { stack_top = s.local_.stack_top - 1 }) live₁ in
    rw (first, second) refl

-- With two operands on a stack within its cells, an operation that is defined on them pops both,
-- the right one first, and pushes its result; the globals and the objects stay.
pub binary-IsStackOf :
    (x y : BvmVal) (xs : List BvmVal) (s : Vm) (f : ℕ → ℕ → Option BvmVal) (r : BvmVal)
    → IsStackOf (y ∷ x ∷ xs) s.local_
    → s.local_.stack_top ≤ length s.local_.stack
    → f x.bits y.bits ≡ some r
    → (s' : Vm) × (binary s f ≡ some (res_run, s'))
      × IsStackOf (r ∷ xs) s'.local_
      × (s'.global ≡ s.global)
      × (s'.objs ≡ s.objs)
binary-IsStackOf x y xs s f r live bound e =
    let (pos₁, _, live₁) = live in
    let (pos₂, _, live₂) = live₁ in
    let (l, pushed, live', _, _, _) =
      bvm_local_push-IsStackOf xs (popped s).local_ r live₂ (omega arith) in
    (record s { local_ = l }, binary-eq x y xs s f live ∙ (rw (e, pushed) refl), live', refl, refl)

-- With two words on top of the stack: wherever ADDI does not fault, it returns exactly the result
-- and state that ADDU returns.
eval_addi-addu :
    (host : Host) (x y : BvmVal) (xs : List BvmVal) (s : Vm) (arg : ℕ) (r : BvmRes × Vm)
    → IsStackOf (y ∷ x ∷ xs) s.local_
    → x.bits < word
    → y.bits < word
    → eval_int host addi arg s ≡ some r
    → eval_uint host addu arg s ≡ some r
unfolding eval_int eval_uint bvm_val_int bvm_val_uint
eval_addi-addu host x y xs s arg r live p q e =
    let after : Option BvmVal → Step = λ o. o >>= λ v. go (push_val (popped s) v) in
    let ran : after (int_result (from_int (to_int x.bits +ℤ to_int y.bits))) ≡ some r =
      sym (binary-eq x y xs s (λ a b. int_result (from_int (to_int a +ℤ to_int b))) live) ∙ e in
    elim (Option-cases (from_int (to_int x.bits +ℤ to_int y.bits))) [
      | inl out ↦
          let fault : none ≡ some r = subst (λ k. after (int_result k) ≡ some r) out ran in
          absurd (ground arith)
      | inr (c, fits) ↦
          let same = from_int-add x.bits y.bits c p q fits in
          binary-eq x y xs s (λ a b. some (bvm_val_uint (add64 a b))) live
          ∙ (rw (← same) (subst (λ k. after (int_result k) ≡ some r) fits ran))
    ]
