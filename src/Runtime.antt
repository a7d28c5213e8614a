-- ===== src/Runtime.antt =====
-- internal/evaluator/runtime.go: the limits of one evaluation.
-- Times are ticks of a clock, and durations are nanoseconds of it. A call reads the clock and the
-- context from the environment of that moment. A method returns the error, if any, with the runtime
-- as it leaves it; a nil runtime is `none`. `budget`, `depth` and `evalDepth` never fall below 0 in
-- the source, so they are plain numbers; messages of errors are left out.
pub mod Limits
pub mod Sequences
pub mod Start
use jsonata_go.Prelude.{
  ℕ, zero, suc, ◌+◌, ◌-◌, ◌/◌, ◌%◌, Bool, true, false, not, ◌&&◌, ◌||◌, List, [], ◌∷◌, Option, none,
  some, ltb, leb, ◌==◌, if◌then◌else◌,
}
use jsonata_go.Prelude.Int.{ℤ, pos, negsuc, pos_part, leb_ℤ, ltb_ℤ}

-- The errors of this file: U1001 with its three causes and the depth of calls, D1012, D1011, D2015.
-- A time limit is in milliseconds and the nanoseconds beyond.
pub data RuntimeError : Type 0 where
  cancelled deadline_exceeded budget_exceeded : RuntimeError
  call_depth : ℕ → RuntimeError
  timed_out : ℕ → ℕ → RuntimeError
  stack_overflow : ℕ → RuntimeError
  sequence_length : ℕ → RuntimeError

abbrev pub default_max_call_depth : ℕ
default_max_call_depth = 100

abbrev pub default_max_operations : ℕ
default_max_operations = 100000

-- The fields that the limits depend on. A deadline or a timestamp of `none` is the zero time.
pub record Options : Type 0 where
  pub timeout : ℤ
  pub deadline : Option ℕ
  pub max_call_depth : ℤ
  pub max_operations : ℤ
  pub max_sequence_length : ℤ
  pub timestamp : Option ℕ

pub record EvalRuntime : Type 0 where
  pub deadline : Option ℕ
  pub started_at : ℕ
  pub timeout : ℤ
  pub timeout_deadline : Bool
  pub max_depth : ℕ
  pub stack_guard : Bool
  pub depth : ℕ
  pub eval_depth : ℕ
  pub budget : ℕ
  pub max_sequence : ℕ
  pub timestamp : ℕ

pub record Env : Type 0 where
  pub context_done : Bool
  pub now : ℕ

abbrev pub or_default : ℤ → ℕ → ℕ
or_default z d = if leb_ℤ z (pos 0) then d else pos_part z

-- Whether the timeout comes first: there is no deadline, or it is later.
abbrev pub timeout_first : ℕ → Option ℕ → Bool
timeout_first timeout_at none = true
timeout_first timeout_at (some deadline) = ltb timeout_at deadline

abbrev pub time_or : Option ℕ → ℕ → ℕ
time_or none t = t
time_or (some s) t = s

unfoldable pub new_eval_runtime : ℕ → Options → EvalRuntime
new_eval_runtime started_at o =
    let timeout_at = started_at + pos_part o.timeout in
    let is_timeout = ltb_ℤ (pos 0) o.timeout && timeout_first timeout_at o.deadline in
    record {
      deadline = if is_timeout then some timeout_at else o.deadline;
      started_at = started_at;
      timeout = o.timeout;
      timeout_deadline = is_timeout;
      max_depth = or_default o.max_call_depth default_max_call_depth;
      stack_guard = ltb_ℤ (pos 0) o.max_call_depth;
      depth = 0;
      eval_depth = 0;
      budget = or_default o.max_operations default_max_operations;
      max_sequence = pos_part o.max_sequence_length;
      timestamp = time_or o.timestamp started_at;
    }

abbrev pub Runtime : Type 0
Runtime = Option EvalRuntime

unfoldable pub check_sequence_length : Runtime → ℕ → Option RuntimeError
check_sequence_length none n = none
check_sequence_length (some r) n =
    if r.max_sequence == 0 || leb n r.max_sequence
    then none
    else some (sequence_length r.max_sequence)

unfoldable pub check_sequence_length_attempted : Runtime → ℕ → Option RuntimeError
check_sequence_length_attempted none n = none
check_sequence_length_attempted (some r) n =
    if r.max_sequence == 0 || leb n r.max_sequence then none else some (sequence_length n)

unfoldable pub sequence_allocation_capacity : ℤ → Runtime → ℕ
sequence_allocation_capacity (negsuc n) r = 0
sequence_allocation_capacity (pos n) none = n
sequence_allocation_capacity (pos n) (some r) =
    if ltb 0 r.max_sequence && ltb r.max_sequence n then r.max_sequence else n

abbrev pub Outcome : Type 0
Outcome = Option RuntimeError × EvalRuntime

abbrev pub is_past : ℕ → Option ℕ → Bool
is_past now none = false
is_past now (some deadline) = leb deadline now

unfoldable pub check : Env → EvalRuntime → Outcome
check e r =
    if e.context_done
    then (some cancelled, r)
    else if ltb_ℤ (pos 0) r.timeout && leb (pos_part r.timeout) (e.now - r.started_at)
    then (some (timed_out (pos_part r.timeout / 1_000_000) (pos_part r.timeout % 1_000_000)), r)
    else if not r.timeout_deadline && is_past e.now r.deadline
    then (some deadline_exceeded, r)
    else if r.budget == 0
    then (some budget_exceeded, r)
    else (none, record r { budget = r.budget - 1 })

-- What `enterCallWithError` does behind a check that passes.
abbrev deepen : (ℕ → RuntimeError) → Outcome → Outcome
deepen error (some e, r) = (some e, r)
deepen error (none, r) =
    if ltb r.max_depth (r.depth + 1)
    then (some (error r.max_depth), r)
    else (none, record r { depth = r.depth + 1 })

unfoldable pub enter_call_with_error : (ℕ → RuntimeError) → Env → EvalRuntime → Outcome
unfolding check
enter_call_with_error error e r = deepen error (check e r)

unfoldable pub enter_call : Env → EvalRuntime → Outcome
unfolding enter_call_with_error
enter_call = enter_call_with_error call_depth

unfoldable pub enter_stack_call : Env → EvalRuntime → Outcome
unfolding enter_call enter_call_with_error
enter_stack_call e r =
    if r.stack_guard then enter_call_with_error stack_overflow e r else enter_call e r

unfoldable pub enter_eval : EvalRuntime → Outcome
enter_eval r =
    if not r.stack_guard
    then (none, r)
    else if ltb r.max_depth (r.eval_depth + 1)
    then (some (stack_overflow r.max_depth), r)
    else (none, record r { eval_depth = r.eval_depth + 1 })

unfoldable pub leave_eval : EvalRuntime → EvalRuntime
leave_eval r = if ltb 0 r.eval_depth then record r { eval_depth = r.eval_depth - 1 } else r

unfoldable pub leave_call : EvalRuntime → EvalRuntime
leave_call r = if ltb 0 r.depth then record r { depth = r.depth - 1 } else r
