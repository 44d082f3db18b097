-- ===== src/Grading/Verdict.antt =====
-- `_bucket` of soma_task_eval.py and the verdict that `maybe_run_soma_task_evaluation` draws from it.
pub mod Sound
use soma_benchmark.Base.{
  ℕ, ◌+◌, Bool, ◌&&◌, Option, none, some, List, [], ◌∷◌, ◌++◌, ◌==◌, if◌then◌else◌,
}
use soma_benchmark.Base.Lists.{length}
use soma_benchmark.Base.Text.{Text, codes, text_eq}
use soma_benchmark.Grading.Report.{Outcomes, outcome_of}

abbrev pub passing_outcome : Text
passing_outcome = codes "passed"

-- The three lists of the loop, in the order of the test ids.
pub record Sorted : Type 0 where
  pub successful : List Text
  pub failed : List Text
  pub missing : List Text

abbrev sort_one : Text → Option Text → Sorted → Sorted
sort_one t none s = record s { failed = t ∷ s.failed; missing = t ∷ s.missing }
sort_one t (some o) s =
    if text_eq o passing_outcome
    then record s { successful = t ∷ s.successful }
    else record s { failed = t ∷ s.failed }

unfoldable pub sort_tests : List Text → Outcomes → Sorted
sort_tests [] d = record { successful = []; failed = []; missing = [] }
sort_tests (t ∷ tests) d = sort_one t (outcome_of t d) (sort_tests tests d)

pub record Bucket : Type 0 where
  pub success : ℕ
  pub failure : ℕ
  pub total : ℕ
  pub successful_tests : List Text
  pub failed_tests : List Text

unfoldable pub bucket : List Text → Outcomes → Bucket × List Text
unfolding sort_tests
bucket tests d =
    let s = sort_tests tests d in
    (
      record {
        success = length s.successful;
        failure = length s.failed;
        total = length tests;
        successful_tests = s.successful;
        failed_tests = s.failed;
      },
      s.missing,
    )

pub record Verdict : Type 0 where
  pub resolved : Bool
  pub fail_to_pass : Bucket
  pub pass_to_pass : Bucket
  pub missing_tests : List Text

-- The last part of the evaluation, from the report on.
unfoldable pub verdict : List Text → List Text → Outcomes → Verdict
unfolding bucket
verdict fail_ids pass_ids d =
    let (f, fm) = bucket fail_ids d in
    let (p, pm) = bucket pass_ids d in
    record {
      resolved = f.failure == 0 && p.failure == 0;
      fail_to_pass = f;
      pass_to_pass = p;
      missing_tests = fm ++ pm;
    }
