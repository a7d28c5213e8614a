-- ===== src/Runtime/Sequences.antt =====
-- internal/evaluator/runtime.go: calls that are entered and left.
use jsonata_go.Prelude.{suc, ◌+◌, ◌≡◌, refl, sym, ◌∙◌, false, none, some, arith}
use jsonata_go.Runtime.{
  Env, EvalRuntime, Outcome, check, enter_call, enter_stack_call, enter_eval, leave_eval,
  leave_call,
}

-- What an expression does to the runtime: calls and evaluations within one another, each entered and
-- left again if it could be entered, and single checks.
pub data Nesting : Type 0 where
  end : Nesting
  checked : Env → Nesting → Nesting
  called : Env → Nesting → Nesting → Nesting
  stack_called : Env → Nesting → Nesting → Nesting
  evaluated : Nesting → Nesting → Nesting

abbrev inside : (EvalRuntime → EvalRuntime) → (EvalRuntime → EvalRuntime) → Outcome → EvalRuntime
inside body leave (none, r) = leave (body r)
inside body leave (some e, r) = r

unfoldable pub walk : Nesting → EvalRuntime → EvalRuntime
unfolding check enter_call enter_stack_call enter_eval leave_eval leave_call
walk end r = r
walk (checked e rest) r = walk rest (check e r).1
walk (called e body rest) r = walk rest (inside (walk body) leave_call (enter_call e r))
walk (stack_called e body rest) r = walk rest (inside (walk body) leave_call (enter_stack_call e r))
walk (evaluated body rest) r = walk rest (inside (walk body) leave_eval (enter_eval r))

-- Without the stack guard evaluations are not counted.
abbrev pub IsCounted : EvalRuntime → Type 0
IsCounted r = r.stack_guard ≡ false → r.eval_depth ≡ 0

pub record Restored (r r' : EvalRuntime) : Type 0 where
  pub calls : r'.depth ≡ r.depth
  pub evals : r'.eval_depth ≡ r.eval_depth
  pub guard : r'.stack_guard ≡ r.stack_guard

Restored-IsCounted : (r r' : EvalRuntime) → Restored r r' → IsCounted r → IsCounted r'
Restored-IsCounted r r' s c h = s.evals ∙ c (sym s.guard ∙ h)

Restored-trans : (a b c : EvalRuntime) → Restored a b → Restored b c → Restored a c
Restored-trans a b c r s = record {
  calls = s.calls ∙ r.calls;
  evals = s.evals ∙ r.evals;
  guard = s.guard ∙ r.guard;
}

-- A body that restores the runtime, whatever it begins with.
abbrev Restores : (EvalRuntime → EvalRuntime) → Type 0
Restores body = (r : EvalRuntime) → IsCounted r → Restored r (body r)

-- The runtime within a call that could be entered.
record Deeper (r r' : EvalRuntime) : Type 0 where
  calls : r'.depth ≡ suc r.depth
  evals : r'.eval_depth ≡ r.eval_depth
  guard : r'.stack_guard ≡ r.stack_guard

abbrev Entered : EvalRuntime → Outcome → Type 0
Entered r (none, r') = Deeper r r'
Entered r (some e, r') = Restored r r'

called-Restored :
    (body : EvalRuntime → EvalRuntime) (r : EvalRuntime) (o : Outcome)
    → Restores body
    → IsCounted r
    → Entered r o
    → Restored r (inside body leave_call o)
unfolding leave_call
called-Restored body r (some e, r') b c h = h
called-Restored body r (none, r') b c h =
    let s = b r' (λ g. h.evals ∙ c (sym h.guard ∙ g)) in
    ground (arith, s.calls, s.evals, s.guard, h.calls, h.evals, h.guard)

enter_call-Entered : (e : Env) (r : EvalRuntime) → Entered r (enter_call e r)
unfolding enter_call
enter_call-Entered e r = ground arith

enter_stack_call-Entered : (e : Env) (r : EvalRuntime) → Entered r (enter_stack_call e r)
unfolding enter_stack_call
enter_stack_call-Entered e r = ground arith

evaluated-Restored :
    (body : EvalRuntime → EvalRuntime) (r : EvalRuntime)
    → Restores body
    → IsCounted r
    → Restored r (inside body leave_eval (enter_eval r))
unfolding enter_eval leave_eval
evaluated-Restored body r b c =
    ground (arith, c, b r c, (b (record r { eval_depth = r.eval_depth + 1 })))

check-Restored : (e : Env) (r : EvalRuntime) → Restored r (check e r).1
unfolding check
check-Restored e r = ground arith

-- The runtime counts no evaluations if it has no stack guard. However calls and evaluations are
-- nested and whichever of them are refused, behind them the depth
-- of calls and that of evaluations are what they were before.
pub walk-Restored : (n : Nesting) (r : EvalRuntime) → IsCounted r → Restored r (walk n r)
unfolding walk
walk-Restored end r c = record { calls = refl; evals = refl; guard = refl }
walk-Restored (checked e rest) r c =
    let s = check-Restored e r in
    Restored-trans r _ _ s (walk-Restored rest _ (Restored-IsCounted r _ s c))
walk-Restored (called e body rest) r c =
    let s =
      called-Restored (walk body) r (enter_call e r) (walk-Restored body) c
        (enter_call-Entered e r) in
    Restored-trans r _ _ s (walk-Restored rest _ (Restored-IsCounted r _ s c))
walk-Restored (stack_called e body rest) r c =
    let s =
      called-Restored (walk body) r (enter_stack_call e r) (walk-Restored body) c
        (enter_stack_call-Entered e r) in
    Restored-trans r _ _ s (walk-Restored rest _ (Restored-IsCounted r _ s c))
walk-Restored (evaluated body rest) r c =
    let s = evaluated-Restored (walk body) r (walk-Restored body) c in
    Restored-trans r _ _ s (walk-Restored rest _ (Restored-IsCounted r _ s c))
