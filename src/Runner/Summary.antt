-- ===== src/Runner/Summary.antt =====
-- `summarize_results` of src/soma_bench/benchmark/eval_infer.py.
pub mod Totals
use soma_benchmark.Base.{
  ℕ, ◌+◌, String, Bool, true, false, Option, none, some, List, [], ◌∷◌, str_eq, if◌then◌else◌,
}
use soma_benchmark.Base.Integers.{◌+ℤ◌}
use soma_benchmark.Base.Json.{ℤ, pos, Value, bool, Fields, get}
use soma_benchmark.Base.Values.{truthy, dict_at, int_or_zero}

-- A `Counter`, in the order in which its keys came.
abbrev pub Counter : Type 0
Counter = List (String × ℕ)

unfoldable pub bump : String → Counter → Counter
bump k [] = (k, 1) ∷ []
bump k ((j, n) ∷ c) = if str_eq j k then (j, n + 1) ∷ c else (j, n) ∷ bump k c

pub record Summary : Type 0 where
  pub row_count : ℕ
  pub status_counts : Counter
  pub with_changes : ℕ
  pub without_changes : ℕ
  pub eval_status_counts : Counter
  pub resolved : ℕ
  pub fail_success : ℤ
  pub fail_total : ℤ
  pub pass_success : ℤ
  pub pass_total : ℤ

unfoldable pub empty_summary : Summary
empty_summary = record {
  row_count = 0;
  status_counts = [];
  with_changes = 0;
  without_changes = 0;
  eval_status_counts = [];
  resolved = 0;
  fail_success = pos 0;
  fail_total = pos 0;
  pass_success = pos 0;
  pass_total = pos 0;
}

unfoldable pub is_truthy : Option Value → Bool
unfolding truthy
is_truthy none = false
is_truthy (some v) = truthy v

abbrev is_true : Option Value → Bool
is_true (some (bool b)) = b
is_true _ = false

unfoldable pub count_capture : Option Fields → Summary → Summary
unfolding is_truthy
count_capture none s = s
count_capture (some c) s =
    if is_truthy (get "has_changes" c)
    then record s { with_changes = s.with_changes + 1 }
    else record s { without_changes = s.without_changes + 1 }

unfoldable pub count_resolved : Fields → Summary → Summary
count_resolved e s =
    if is_true (get "resolved" e) then record s { resolved = s.resolved + 1 } else s

abbrev pub add_fail : Option ℤ → Option ℤ → Summary → Option Summary
add_fail (some n) (some m) s =
    some (record s { fail_success = s.fail_success +ℤ n; fail_total = s.fail_total +ℤ m })
add_fail _ _ s = none

abbrev pub add_pass : Option ℤ → Option ℤ → Summary → Option Summary
add_pass (some n) (some m) s =
    some (record s { pass_success = s.pass_success +ℤ n; pass_total = s.pass_total +ℤ m })
add_pass _ _ s = none

-- `int` of a string, and `str` of a status.
module _ (int_of : String → Option ℤ) (show : Value → String) where
  abbrev pub status_in : Fields → String
  status_in d = elim (get "status" d) [ some v ↦ show v | none ↦ "unknown" ]

  abbrev pub fail_bucket : Option Fields → Summary → Option Summary
  fail_bucket none s = some s
  fail_bucket (some b) s =
      add_fail (int_or_zero int_of (get "success" b)) (int_or_zero int_of (get "total" b)) s

  abbrev pub pass_bucket : Option Fields → Summary → Option Summary
  pass_bucket none s = some s
  pass_bucket (some b) s =
      add_pass (int_or_zero int_of (get "success" b)) (int_or_zero int_of (get "total" b)) s

  abbrev pub count_buckets : Option Fields → Summary → Option Summary
  count_buckets none s = some s
  count_buckets (some summary) s = elim (fail_bucket (dict_at "fail_to_pass" summary) s) [
    | none ↦ none
    | some s' ↦ pass_bucket (dict_at "pass_to_pass" summary) s'
  ]

  abbrev pub count_status : Fields → Summary → Summary
  count_status e s = record s { eval_status_counts = bump (status_in e) s.eval_status_counts }

  unfoldable pub count_evaluation : Option Fields → Summary → Option Summary
  unfolding bump count_resolved
  count_evaluation none s = some s
  count_evaluation (some e) s =
      count_buckets (dict_at "summary" e) (count_resolved e (count_status e s))

  unfoldable pub count_metadata : Option Fields → Summary → Option Summary
  unfolding count_evaluation count_capture
  count_metadata none s = some s
  count_metadata (some m) s =
      count_evaluation (dict_at "patch_evaluation" m) (count_capture (dict_at "patch_capture" m) s)

  abbrev pub count_row : Fields → Summary → Summary
  count_row row s = record s {
    row_count = s.row_count + 1;
    status_counts = bump (status_in row) s.status_counts;
  }

  -- The loop over the rows; `none` is an exception of `int`.
  unfoldable pub summarize_from : List Fields → Summary → Option Summary
  unfolding bump count_metadata
  summarize_from [] s = some s
  summarize_from (row ∷ rows) s = elim (count_metadata (dict_at "metadata" row) (count_row row s)) [
    | none ↦ none
    | some s' ↦ summarize_from rows s'
  ]

  unfoldable pub summarize_results : List Fields → Option Summary
  unfolding summarize_from empty_summary
  summarize_results rows = summarize_from rows empty_summary
