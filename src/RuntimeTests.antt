-- ===== src/RuntimeTests.antt =====
-- The theorems on the limits of an evaluation at concrete runtimes.
use jsonata_go.Prelude.{
  ◌+◌, ◌-◌, ◌≤◌, ◌≡◌, refl, true, false, not, ◌&&◌, List, [], ◌∷◌, none, some, ltb, if◌then◌else◌,
  arith,
}
use jsonata_go.Prelude.Int.{pos}
use jsonata_go.Runtime.{
  Env, EvalRuntime, Options, RuntimeError, check, new_eval_runtime, check_sequence_length,
  check_sequence_length_attempted, sequence_allocation_capacity,
}
use jsonata_go.Runtime.Limits.{Op, perform_all, IsWithin, perform_all-IsWithin}
use jsonata_go.Runtime.Start.{check_lem, time_is_up, is_error}
use jsonata_go.Runtime.Sequences.{Nesting, walk, Restored, walk-Restored}

abbrev calm : Env
calm = record { context_done = false; now = 7 }

abbrev options : Options
options = record {
  timeout = pos 5;
  deadline = some 40;
  max_call_depth = pos 1;
  max_operations = pos 3;
  max_sequence_length = pos 2;
  timestamp = none;
}

abbrev runtime : EvalRuntime
runtime = record {
  deadline = some 10;
  started_at = 5;
  timeout = pos 5;
  timeout_deadline = true;
  max_depth = 1;
  stack_guard = true;
  depth = 0;
  eval_depth = 0;
  budget = 3;
  max_sequence = 2;
  timestamp = 5;
}

runtime_new : new_eval_runtime 5 options ≡ runtime
unfolding new_eval_runtime
runtime_new = refl

abbrev busy : List Op
busy = Op.a_call calm ∷ Op.a_call calm ∷ Op.an_eval ∷ Op.a_check calm ∷ Op.end_call ∷ []

perform_all-IsWithin_example :
    IsWithin (perform_all busy runtime).0
    × ((perform_all busy runtime).0.max_depth ≡ 1)
    × ((perform_all busy runtime).1 + (perform_all busy runtime).0.budget ≤ 3)
perform_all-IsWithin_example = perform_all-IsWithin busy runtime (omega arith)

check_lem_example :
    let r = record (new_eval_runtime 5 options) { budget = 2 } in
    let passes = not (time_is_up 5 options calm) && ltb 0 2 in
    (is_error (check calm r).0 ≡ not passes)
    × ((check calm r).1 ≡ (if passes then record r { budget = 2 - 1 } else r))
check_lem_example = check_lem 5 options calm 2

abbrev nested : Nesting
nested =
    Nesting.called calm
      (Nesting.evaluated (Nesting.called calm Nesting.end Nesting.end) Nesting.end) Nesting.end

walk-Restored_example : Restored runtime (walk nested runtime)
walk-Restored_example = walk-Restored nested runtime (λ h. refl)

-- With the limit of two a sequence of two passes; of three, the limit or the length is reported.
guardrail_runs :
    (check_sequence_length (some runtime) 2 ≡ none)
    × (check_sequence_length (some runtime) 3 ≡ some (RuntimeError.sequence_length 2))
    × (check_sequence_length_attempted (some runtime) 3 ≡ some (RuntimeError.sequence_length 3))
    × (sequence_allocation_capacity (pos 3) (some runtime) ≡ 2)
unfolding check_sequence_length check_sequence_length_attempted sequence_allocation_capacity
guardrail_runs = (refl, refl, refl, refl)
