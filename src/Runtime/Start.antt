-- ===== src/Runtime/Start.antt =====
-- internal/evaluator/runtime.go: the two time limits of a new runtime in one check.
use jsonata_go.Prelude.{
  ℕ, ◌+◌, ◌-◌, ◌≡◌, Bool, true, false, not, ◌&&◌, ◌||◌, Option, none, some, ltb, leb, if◌then◌else◌,
  arith,
}
use jsonata_go.Prelude.Int.{pos, pos_part, ltb_ℤ}
use jsonata_go.Runtime.{Env, Options, RuntimeError, check, new_eval_runtime, is_past}

-- The moment has come: the context is done, or the timeout is over since the start, or the deadline is reached.
abbrev pub time_is_up : ℕ → Options → Env → Bool
time_is_up started_at o e =
    e.context_done
    || (ltb_ℤ (pos 0) o.timeout && leb (started_at + pos_part o.timeout) e.now)
    || is_past e.now o.deadline

abbrev pub is_error : Option RuntimeError → Bool
is_error none = false
is_error (some e) = true

-- The runtime may have used up some of its budget since it was made. A check passes exactly if the
-- budget is not used up and the time is not, whichever of timeout and deadline comes first. It takes one
-- operation off the budget if it passes, and changes nothing if it does not.
pub check_lem :
    (started_at : ℕ) (o : Options) (e : Env) (budget : ℕ)
    → let r = record (new_eval_runtime started_at o) { budget = budget } in
      let passes = not (time_is_up started_at o e) && ltb 0 budget in
      (is_error (check e r).0 ≡ not passes)
      × ((check e r).1 ≡ (if passes then record r { budget = budget - 1 } else r))
unfolding check new_eval_runtime
check_lem started_at o e budget = (ground arith, ground arith)
