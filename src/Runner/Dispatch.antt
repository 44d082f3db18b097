-- ===== src/Runner/Dispatch.antt =====
-- The choice of a command: `main` of src/soma_bench/__main__.py after the parsing of its arguments.
use soma_benchmark.Base.{String, List, [], ◌∷◌, str_eq, if◌then◌else◌}

-- The `main` functions of the other modules.
pub data Entry : Type 0 where
  build_images : Entry
  run_infer : Entry
  solve : Entry
  eval_infer : Entry
  swebench_dind_prebake : Entry
  soma_tasks : Entry

-- How a command ends: a payload is printed, the parser's `error`, the call of another module with
-- the rest of the arguments, or the `ValueError`.
pub data Outcome : Type 0 where
  info : Outcome
  benchmark_info : Outcome
  unrecognized : List String → Outcome
  called : Entry → List String → Outcome
  unsupported : Outcome

abbrev without_extras : List String → Outcome → Outcome
without_extras [] outcome = outcome
without_extras (extra ∷ extras) outcome = unrecognized (extra ∷ extras)

abbrev benchmark : List String → String → List (String × Entry) → Outcome
benchmark extras command [] = unsupported
benchmark extras command ((name, entry) ∷ entries) =
    let rest = benchmark extras command entries in
    if str_eq command name then called entry extras else rest

abbrev entries : List (String × Entry)
entries =
    ("benchmark-build-images", build_images)
    ∷ ("benchmark-run-infer", run_infer)
    ∷ ("benchmark-solve", solve)
    ∷ ("benchmark-eval", eval_infer)
    ∷ ("benchmark-prebake-dind-images", swebench_dind_prebake)
    ∷ ("benchmark-load-tasks", soma_tasks)
    ∷ []

-- `main`, for `args.command` and the extras of `parse_known_args`.
unfoldable pub main : String → List String → Outcome
main command extras =
    if str_eq command "info"
    then without_extras extras info
    else if str_eq command "benchmark-info"
    then without_extras extras benchmark_info
    else benchmark extras command entries
