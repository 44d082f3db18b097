-- ===== src/Runner/Execution.antt =====
-- `execute_runtime_contexts` of src/soma_bench/benchmark/execution.py.
pub mod Order
use soma_benchmark.Base.{
  ℕ, zero, suc, String, Option, none, some, List, [], ◌∷◌, map, max, min, ◌==◌, if◌then◌else◌,
}
use soma_benchmark.Base.Lists.{length}
use soma_benchmark.Base.Json.{ℤ, pos, negsuc, str, Fields, end, field}

-- What the runner reads of a context.
pub record Context : Type 0 where
  pub benchmark_id : String
  pub instance_id : String
  pub backend_name : String
  pub rest : Fields

pub record ExecutionResult : Type 0 where
  pub benchmark_id : String
  pub instance_id : String
  pub backend_name : String
  pub status : String
  pub error : String
  pub metadata : Fields

-- An exception: its text and the name of its type.
pub record Raised : Type 0 where
  pub text : String
  pub error_type : String

pub data Attempt (A : Type 0) : Type 0 where
  returned : A → Attempt A
  raised : Raised → Attempt A

pub record Backend : Type 0 where
  pub execute : Context → Attempt ExecutionResult
  pub execute_batch : Option (List Context → ℕ → Attempt (List ExecutionResult))

unfoldable pub runtime_error_result : Context → Raised → ExecutionResult
runtime_error_result c e = record {
  benchmark_id = c.benchmark_id;
  instance_id = c.instance_id;
  backend_name = c.backend_name;
  status = "runtime-error";
  error = e.text;
  metadata = field "error_type" (str e.error_type) end;
}

unfoldable pub or_error : Context → Attempt ExecutionResult → ExecutionResult
unfolding runtime_error_result
or_error c (returned r) = r
or_error c (raised e) = runtime_error_result c e

unfoldable pub execute_one : Backend → Context → ExecutionResult
unfolding or_error
execute_one b c = or_error c (b.execute c)

-- `max(1, min(concurrency, len(contexts)))`
unfoldable pub worker_count : ℤ → ℕ → ℕ
worker_count (pos c) n = max 1 (min c n)
worker_count (negsuc _) n = 1

-- `[None] * len(contexts)`
unfoldable pub unfinished : List Context → List (Option ExecutionResult)
unfinished [] = []
unfinished (_ ∷ cs) = none ∷ unfinished cs

-- `results[index] = future.result()`, for the future of the context with that index.
unfoldable pub record_result :
    Backend → ℕ → List Context → List (Option ExecutionResult) → List (Option ExecutionResult)
record_result b j [] rs = rs
record_result b j (c ∷ cs) [] = []
record_result b zero (c ∷ cs) (r ∷ rs) = some (execute_one b c) ∷ rs
record_result b (suc j) (c ∷ cs) (r ∷ rs) = r ∷ record_result b j cs rs

-- The loop over `as_completed`: the indices in the order in which the workers finish.
unfoldable pub collect_results :
    Backend → List Context → List ℕ → List (Option ExecutionResult) → List (Option ExecutionResult)
unfolding record_result
collect_results b cs [] rs = rs
collect_results b cs (j ∷ order) rs = collect_results b cs order (record_result b j cs rs)

unfoldable pub present : List (Option ExecutionResult) → List ExecutionResult
present [] = []
present (none ∷ rs) = present rs
present (some r ∷ rs) = r ∷ present rs

unfoldable pub batch_results : List Context → Attempt (List ExecutionResult) → List ExecutionResult
unfolding runtime_error_result
batch_results cs (returned rs) = rs
batch_results cs (raised e) = map (λ c. runtime_error_result c e) cs

unfoldable pub run_each : Backend → List Context → ℕ → List ℕ → List ExecutionResult
unfolding present collect_results unfinished execute_one
run_each b cs workers order =
    if workers == 1
    then map (execute_one b) cs
    else present (collect_results b cs order (unfinished cs))

unfoldable pub run_all : Backend → List Context → ℕ → List ℕ → List ExecutionResult
unfolding batch_results run_each
run_all b cs workers order = elim b.execute_batch [
  | some batch ↦ batch_results cs (batch cs workers)
  | none ↦ run_each b cs workers order
]

unfoldable pub execute_runtime_contexts : Backend → List Context → ℤ → List ℕ → List ExecutionResult
unfolding run_all worker_count
execute_runtime_contexts b [] concurrency order = []
execute_runtime_contexts b (c ∷ cs) concurrency order =
    run_all b (c ∷ cs) (worker_count concurrency (length (c ∷ cs))) order
