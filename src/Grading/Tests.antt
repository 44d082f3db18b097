-- ===== src/Grading/Tests.antt =====
-- Runs of the grading on concrete inputs, and instances of its theorems.
use soma_benchmark.Base.{◌+◌, ◌≡◌, ◌↔◌, refl, true, false, none, [], ◌∷◌}
use soma_benchmark.Base.{ℕ, zero, some, not, List, ◌++◌}
use soma_benchmark.Grading.Diff.{sanitize_patch_for_soma_eval}
use soma_benchmark.Grading.Evaluation.{
  Docker, Instance, inspect, pull, run, copy_patch, apply, run_tests, copy_report, remove,
  maybe_run_soma_task_evaluation,
}
use soma_benchmark.Grading.Evaluation.Container.{replay_from, maybe_run_soma_task_evaluation-replay}
use soma_benchmark.Grading.Evaluation.Resolved.{
  is_resolved, Graded, maybe_run_soma_task_evaluation-resolved,
}
use soma_benchmark.Base.Lists.{length, keep_if}
use soma_benchmark.Base.Json.{Value, null, str, arr, obj, of_list, end, field}
use soma_benchmark.Base.Text.{Text, codes}
use soma_benchmark.Grading.Report.{Outcomes, outcome_of, normalize_test_ids, outcomes_from_report}
use soma_benchmark.Grading.Verdict.{bucket, verdict}
use soma_benchmark.Grading.Verdict.Sound.{
  AllPassed, In, has_passed, verdict-resolved, bucket_counts,
}

normalized :
    normalize_test_ids (str " ./a::t " ∷ null ∷ str "  " ∷ str "b::t" ∷ [])
    ≡ codes "a::t" ∷ codes "b::t" ∷ []
unfolding normalize_test_ids
normalized = refl

abbrev report : Value
report = obj (
    field "tests"
      (arr (
        of_list (
          obj (field "nodeid" (str "./a::t") (field "outcome" (str "passed") end))
          ∷ obj (field "nodeid" (str "b::t") (field "outcome" (str "skipped") end))
          ∷ [])))
      end)

abbrev outcomes : Outcomes
outcomes = (codes "a::t", codes "passed") ∷ (codes "b::t", codes "skipped") ∷ []

outcomes_read : outcomes_from_report report ≡ outcomes
unfolding outcomes_from_report
outcomes_read = refl

skipped_fails : (verdict (codes "a::t" ∷ []) (codes "b::t" ∷ []) outcomes).resolved ≡ false
unfolding verdict outcome_of
skipped_fails = refl

verdict-resolved_example :
    ((verdict (codes "a::t" ∷ []) (codes "b::t" ∷ []) outcomes).resolved ≡ true)
    ↔ (AllPassed (codes "a::t" ∷ []) outcomes × AllPassed (codes "b::t" ∷ []) outcomes)
verdict-resolved_example = verdict-resolved (codes "a::t" ∷ []) (codes "b::t" ∷ []) outcomes

bucket_counts_example :
    let tests = codes "a::t" ∷ codes "c::t" ∷ [] in
    let (b, missing) = bucket tests outcomes in
    (b.successful_tests ≡ keep_if (has_passed outcomes) tests)
    × (b.failed_tests ≡ keep_if (λ t. not (has_passed outcomes t)) tests)
    × (b.success ≡ length b.successful_tests)
    × (b.failure ≡ length b.failed_tests)
    × (b.success + b.failure ≡ b.total)
    × (b.total ≡ length tests)
    × ((t : Text) → In t missing → In t b.failed_tests × (outcome_of t outcomes ≡ none))
bucket_counts_example = bucket_counts (codes "a::t" ∷ codes "c::t" ∷ []) outcomes

abbrev agent_patch : Text
agent_patch = codes "diff --git a/src/x.py b/src/x.py" ++ 10 ∷ (codes "+1" ++ 10 ∷ [])

abbrev test_edit : Text
test_edit = codes "diff --git a/tests/test_x.py b/tests/test_x.py" ++ 10 ∷ (codes "+2" ++ 10 ∷ [])

sanitized : sanitize_patch_for_soma_eval [] (agent_patch ++ test_edit) ≡ agent_patch
unfolding sanitize_patch_for_soma_eval
sanitized = refl

-- A patch with "\r\n" at its ends of lines is graded as it is when nothing is left out.
crlf_patch : sanitize_patch_for_soma_eval [] (codes "a" ++ 13 ∷ 10 ∷ []) ≡ codes "a" ++ 13 ∷ 10 ∷ []
unfolding sanitize_patch_for_soma_eval
crlf_patch = refl

-- Git refuses the patch, and the second applier takes it.
abbrev second_applier : ℕ → ℕ
second_applier zero = 1
second_applier _ = 0

abbrev docker : Docker
docker = record {
  inspect = 1;
  pull = 0;
  run = 0;
  copy_patch = 0;
  apply = second_applier;
  copy_report = 0;
  report = some report;
}

abbrev instance_of : List Value → Instance
instance_of pass = record {
  enabled = true;
  is_soma_task = true;
  has_changes = true;
  test_patch = [];
  patch = some agent_patch;
  fail_to_pass = str "a::t" ∷ [];
  pass_to_pass = pass;
}

commands_run :
    (maybe_run_soma_task_evaluation docker (instance_of [])).1
    ≡ inspect ∷ pull ∷ run ∷ copy_patch ∷ apply 0 ∷ apply 1 ∷ run_tests ∷ copy_report ∷ remove ∷ []
unfolding maybe_run_soma_task_evaluation
commands_run = refl

reported_resolved : is_resolved (maybe_run_soma_task_evaluation docker (instance_of [])).0 ≡ true
unfolding maybe_run_soma_task_evaluation outcome_of
reported_resolved = refl

maybe_run_soma_task_evaluation-resolved_example : Graded docker (instance_of [])
maybe_run_soma_task_evaluation-resolved_example =
    maybe_run_soma_task_evaluation-resolved docker (instance_of []) reported_resolved

maybe_run_soma_task_evaluation-replay_example :
    replay_from docker
      (some false)
      (maybe_run_soma_task_evaluation docker (instance_of (str "b::t" ∷ []))).1
    ≡ some false
maybe_run_soma_task_evaluation-replay_example =
    maybe_run_soma_task_evaluation-replay docker (instance_of (str "b::t" ∷ []))
