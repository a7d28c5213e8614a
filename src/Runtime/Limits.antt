-- ===== src/Runtime/Limits.antt =====
-- internal/evaluator/runtime.go: every sequence of operations stays within the limits.
use jsonata_go.Prelude.{
  ℕ, ◌+◌, ◌≤◌, ◌≡◌, refl, ◌∙◌, Bool, true, false, List, [], ◌∷◌, Option, none, some, if◌then◌else◌,
  arith,
}
use jsonata_go.Runtime.{
  Env, EvalRuntime, Outcome, RuntimeError, check, enter_call, enter_stack_call, enter_eval,
  leave_eval, leave_call,
}

-- An operation of the evaluator on its runtime, in the environment of its moment.
pub data Op : Type 0 where
  a_check a_call a_stack_call : Env → Op
  an_eval end_eval end_call : Op

unfoldable pub perform : Op → EvalRuntime → Outcome
unfolding check enter_call enter_stack_call enter_eval leave_eval leave_call
perform (a_check e) r = check e r
perform (a_call e) r = enter_call e r
perform (a_stack_call e) r = enter_stack_call e r
perform an_eval r = enter_eval r
perform end_eval r = (none, leave_eval r)
perform end_call r = (none, leave_call r)

-- Whether the operation is one that a check stands before.
abbrev is_checked : Op → Bool
is_checked (a_check e) = true
is_checked (a_call e) = true
is_checked (a_stack_call e) = true
is_checked _ = false

abbrev succeeded : Option RuntimeError → Bool
succeeded none = true
succeeded (some e) = false

-- The runtime behind a sequence of operations, and how many checked ones went through. The
-- evaluator may stop at an error; here it may also go on.
unfoldable pub perform_all : List Op → EvalRuntime → EvalRuntime × ℕ
perform_all [] r = (r, 0)
perform_all (o ∷ os) r =
    let step = perform o r in
    let rest = perform_all os step.1 in
    (rest.0, (if is_checked o then (if succeeded step.0 then 1 else 0) else 0) + rest.1)

-- Within the limits that the runtime was made with.
pub record IsWithin (r : EvalRuntime) : Type 0 where
  pub calls : r.depth ≤ r.max_depth
  pub evals : r.eval_depth ≤ r.max_depth

-- What one operation keeps.
record Kept (r r' : EvalRuntime) (used : ℕ) : Type 0 where
  max_depth_same : r'.max_depth ≡ r.max_depth
  spent : used + r'.budget ≤ r.budget
  calls : r'.depth ≤ r'.max_depth
  evals : r'.eval_depth ≤ r'.max_depth

perform-Kept :
    (o : Op) (r : EvalRuntime)
    → IsWithin r
    → Kept r
        (perform o r).1
        (if is_checked o then (if succeeded (perform o r).0 then 1 else 0) else 0)
unfolding perform
perform-Kept (a_check e) r w = ground arith
perform-Kept _ r w = ground arith

-- From a runtime within its limits, whatever the order of operations and whatever the clock says,
-- the nesting of calls and of evaluations never exceeds the maximal depth, which stays the same, and the checks that pass are no
-- more than the operations that the budget has lost.
pub perform_all-IsWithin :
    (os : List Op) (r : EvalRuntime)
    → IsWithin r
    → IsWithin (perform_all os r).0
      × ((perform_all os r).0.max_depth ≡ r.max_depth)
      × ((perform_all os r).1 + (perform_all os r).0.budget ≤ r.budget)
unfolding perform_all
perform_all-IsWithin [] r w = (w, refl, omega arith)
perform_all-IsWithin (o ∷ os) r w =
    let k = perform-Kept o r w in
    let (w', m, b) =
      perform_all-IsWithin os (perform o r).1 (record { calls = k.calls; evals = k.evals }) in
    (w', m ∙ k.max_depth_same, omega (arith, k.spent, b))
