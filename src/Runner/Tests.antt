-- ===== src/Runner/Tests.antt =====
-- Runs of the runner's functions on concrete inputs, and instances of its theorems.
use soma_benchmark.Base.{
  ℕ, zero, suc, ◌<◌, String, ◌≡◌, refl, true, none, List, [], ◌∷◌, map, str_eq, if◌then◌else◌,
  arith,
}
use soma_benchmark.Base.Lists.{length}
use soma_benchmark.Base.Json.{pos, end}
use soma_benchmark.Base.{◌+◌, ◌≤◌, some}
use soma_benchmark.Base.Json.{Value, bool, str, obj, Fields, field}
use soma_benchmark.Runner.Dispatch
use soma_benchmark.Runner.Summary.{Summary, summarize_results}
use soma_benchmark.Runner.Summary.Totals.{total, summarize_results-Agrees}
use soma_benchmark.Runner.Execution.{
  Context, ExecutionResult, Attempt, Backend, returned, raised, execute_one,
  execute_runtime_contexts,
}
use soma_benchmark.Runner.Execution.Order.{is_in, execute_runtime_contexts-order}

abbrev context : String → Context
context id = record { benchmark_id = "b"; instance_id = id; backend_name = "copilot"; rest = end }

abbrev ok_result : Context → ExecutionResult
ok_result c = record {
  benchmark_id = c.benchmark_id;
  instance_id = c.instance_id;
  backend_name = c.backend_name;
  status = "completed";
  error = "";
  metadata = end;
}

abbrev run_one : Context → Attempt ExecutionResult
run_one c =
    if str_eq c.instance_id "2"
    then raised (record { text = "no image"; error_type = "RuntimeError" })
    else returned (ok_result c)

abbrev backend : Backend
backend = record { execute = run_one; execute_batch = none }

abbrev contexts : List Context
contexts = context "1" ∷ context "2" ∷ context "3" ∷ []

all_finish : (k : ℕ) → k < length contexts → is_in k (2 ∷ 0 ∷ 1 ∷ []) ≡ true
all_finish zero h = refl
all_finish (suc zero) h = refl
all_finish (suc (suc zero)) h = refl
all_finish (suc (suc (suc k))) h = absurd (omega arith)

execute_runtime_contexts-order_example :
    execute_runtime_contexts backend contexts (pos 2) (2 ∷ 0 ∷ 1 ∷ [])
    ≡ map (execute_one backend) contexts
execute_runtime_contexts-order_example =
    execute_runtime_contexts-order backend contexts (pos 2) (2 ∷ 0 ∷ 1 ∷ []) refl all_finish

abbrev row : Fields
row = field "status" (str "completed") (
    field "metadata"
      (obj (
        field "patch_evaluation"
          (obj (field "status" (str "completed") (field "resolved" (bool true) end))) end))
      end)

abbrev shown : Value → String
shown v = "completed"

abbrev one_row : Summary
one_row = record {
  row_count = 1;
  status_counts = ("completed", 1) ∷ [];
  with_changes = 0;
  without_changes = 0;
  eval_status_counts = ("completed", 1) ∷ [];
  resolved = 1;
  fail_success = pos 0;
  fail_total = pos 0;
  pass_success = pos 0;
  pass_total = pos 0;
}

summarized : summarize_results (λ _. none) shown (row ∷ []) ≡ some one_row
unfolding summarize_results
summarized = refl

summarize_results-Agrees_example :
    (one_row.row_count ≡ 1)
    × (total one_row.status_counts ≡ 1)
    × (one_row.with_changes + one_row.without_changes ≤ 1)
    × (total one_row.eval_status_counts ≤ 1)
    × (one_row.resolved ≤ total one_row.eval_status_counts)
summarize_results-Agrees_example =
    summarize_results-Agrees (λ _. none) shown (row ∷ []) one_row summarized

eval_is_called :
    Dispatch.main "benchmark-eval" ("--limit" ∷ [])
    ≡ Dispatch.called Dispatch.eval_infer ("--limit" ∷ [])
unfolding Dispatch.main
eval_is_called = refl

info_takes_no_arguments :
    Dispatch.main "benchmark-info" ("--limit" ∷ []) ≡ Dispatch.unrecognized ("--limit" ∷ [])
unfolding Dispatch.main
info_takes_no_arguments = refl
