-- ===== src/Grading/Evaluation.antt =====
-- The flow of `maybe_run_soma_task_evaluation` and `_apply_patch_in_container` in
-- src/soma_bench/benchmark/soma_task_eval.py: which docker commands run, in which order, and what the
-- evaluation returns on each path.
pub mod Container
pub mod Resolved
use soma_benchmark.Base.{
  ℕ, zero, suc, Bool, true, false, not, Option, none, some, List, [], ◌∷◌, ◌++◌, ◌==◌,
  if◌then◌else◌,
}
use soma_benchmark.Base.Json.{Value}
use soma_benchmark.Base.Text.{Text, is_empty}
use soma_benchmark.Grading.Report.{normalize_test_ids, outcomes_from_report}
use soma_benchmark.Grading.Verdict.{Verdict, verdict, bucket}
use soma_benchmark.Grading.Diff.{sanitize_patch_for_soma_eval}

pub data Command : Type 0 where
  inspect : Command
  pull : Command
  run : Command
  copy_patch : Command
  apply : ℕ → Command
  run_tests : Command
  copy_report : Command
  remove : Command

-- The return codes of the commands, of `_run_command`, and the parsed report; `none` is a report that
-- cannot be read.
pub record Docker : Type 0 where
  pub inspect : ℕ
  pub pull : ℕ
  pub run : ℕ
  pub copy_patch : ℕ
  pub apply : ℕ → ℕ
  pub copy_report : ℕ
  pub report : Option Value

-- The arguments, after the options are resolved: whether evaluation is enabled, whether the instance is
-- a SOMA task, its test patch and test ids, and the agent's patch; no patch is a missing file.
pub record Instance : Type 0 where
  pub enabled : Bool
  pub is_soma_task : Bool
  pub has_changes : Bool
  pub test_patch : Text
  pub patch : Option Text
  pub fail_to_pass : List Value
  pub pass_to_pass : List Value

pub data Reason : Type 0 where
  missing_patch : Reason
  pull_failed : Reason
  start_failed : Reason
  copy_failed : Reason
  no_report : Reason
  unreadable_report : Reason

-- The `status` of the payload, with the summary of a completed evaluation: whether the patch was
-- applied, and the verdict.
pub data Result : Type 0 where
  disabled : Result
  unavailable : Result
  skipped_empty_patch : Result
  error : Reason → Result
  completed : Bool → Verdict → Result

abbrev pub Run : Type 0
Run = Result × List Command

unfoldable pub fail_ids : Instance → List Text
unfolding normalize_test_ids
fail_ids i = normalize_test_ids i.fail_to_pass

unfoldable pub pass_ids : Instance → List Text
unfolding normalize_test_ids
pass_ids i = normalize_test_ids i.pass_to_pass

-- The result for a patch that was not applied: not resolved, whatever the tests are.
unfoldable pub not_applied : Instance → Result
unfolding bucket fail_ids pass_ids
not_applied i = completed false (record {
  resolved = false;
  fail_to_pass = (bucket (fail_ids i) []).0;
  pass_to_pass = (bucket (pass_ids i) []).0;
  missing_tests = [];
})

abbrev pub after : Command → Run → Run
after c (r, commands) = (r, c ∷ commands)

-- `_apply_patch_in_container`: the appliers in turn, until one succeeds.
unfoldable pub apply_patch_in_container : (ℕ → ℕ) → ℕ → ℕ → Bool × List Command
apply_patch_in_container code zero k = (false, [])
apply_patch_in_container code (suc left) k =
    let (applied, commands) = apply_patch_in_container code left (suc k) in
    if code k == 0 then (true, apply k ∷ []) else (applied, apply k ∷ commands)

abbrev pub attempts : ℕ
attempts = 3

-- The end of the `try` block: an early result, or none.
unfoldable pub graded_run : Docker → Instance → Bool → Option Result
unfolding not_applied
graded_run d i false = some (not_applied i)
graded_run d i true = if d.copy_report == 0 then none else some (error no_report)

abbrev pub test_commands : Bool → List Command
test_commands false = []
test_commands true = run_tests ∷ copy_report ∷ []

-- The `try` block.
unfoldable pub in_container : Docker → Instance → Option Result × List Command
unfolding apply_patch_in_container graded_run
in_container d i =
    let (applied, commands) = apply_patch_in_container d.apply attempts 0 in
    if d.copy_patch == 0
    then (graded_run d i applied, copy_patch ∷ (commands ++ test_commands applied))
    else (some (error copy_failed), copy_patch ∷ [])

-- What follows the `finally` block.
unfoldable pub grade : Instance → Option Value → Result
unfolding outcomes_from_report verdict fail_ids pass_ids
grade i none = error unreadable_report
grade i (some report) =
    completed true (verdict (fail_ids i) (pass_ids i) (outcomes_from_report report))

abbrev pub result_or : Option Result → Result → Result
result_or none r = r
result_or (some early) r = early

-- `try` and `finally`: `docker rm` is run on every path out of the block. Its return code, which the
-- code does not read, is not modelled.
unfoldable pub with_container : Docker → Instance → Run
unfolding in_container grade
with_container d i =
    let (early, commands) = in_container d i in
    (result_or early (grade i d.report), commands ++ remove ∷ [])

-- From the effective patch on.
unfoldable pub start_container : Docker → Instance → Text → Run
unfolding with_container not_applied
start_container d i patch =
    if is_empty patch
    then (not_applied i, [])
    else if d.run == 0
    then after run (with_container d i)
    else (error start_failed, run ∷ [])

unfoldable pub fetch_image : Docker → Instance → Text → Run
unfolding start_container
fetch_image d i patch =
    if d.inspect == 0
    then after inspect (start_container d i patch)
    else if d.pull == 0
    then after inspect (after pull (start_container d i patch))
    else (error pull_failed, inspect ∷ pull ∷ [])

unfoldable pub with_patch : Docker → Instance → Option Text → Run
unfolding fetch_image sanitize_patch_for_soma_eval
with_patch d i none = (error missing_patch, [])
with_patch d i (some patch) = fetch_image d i (sanitize_patch_for_soma_eval i.test_patch patch)

-- `maybe_run_soma_task_evaluation`
unfoldable pub maybe_run_soma_task_evaluation : Docker → Instance → Run
unfolding with_patch
maybe_run_soma_task_evaluation d i =
    if not i.enabled
    then (disabled, [])
    else if not i.is_soma_task
    then (unavailable, [])
    else if not i.has_changes
    then (skipped_empty_patch, [])
    else with_patch d i i.patch
