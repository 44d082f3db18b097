-- ===== src/Grading/Report.antt =====
-- `_normalize_test_ids` and `_outcomes_from_report` of soma_task_eval.py: the graded ids, and what
-- the test report says of each test.
use soma_benchmark.Base.{Option, none, some, List, [], ◌∷◌, if◌then◌else◌}
use soma_benchmark.Base.Lists.{drop}
use soma_benchmark.Base.Json.{Value, str, arr, obj, to_list, get}
use soma_benchmark.Base.Text.{Text, codes, text_eq, starts_with, strip, is_empty}

-- `s[2:] if s.startswith("./") else s`
abbrev pub without_dot : Text → Text
without_dot s = if starts_with s (codes "./") then drop 2 s else s

abbrev cons_unless_empty : Text → List Text → List Text
cons_unless_empty s ids = if is_empty s then ids else s ∷ ids

unfoldable pub normalize_test_ids : List Value → List Text
normalize_test_ids [] = []
normalize_test_ids (str s ∷ values) =
    cons_unless_empty (without_dot (strip (codes s))) (normalize_test_ids values)
normalize_test_ids (_ ∷ values) = normalize_test_ids values

-- A dict from node ids to outcomes.
abbrev pub Outcomes : Type 0
Outcomes = List (Text × Text)

unfoldable pub outcome_of : Text → Outcomes → Option Text
outcome_of t [] = none
outcome_of t ((u, o) ∷ d) = if text_eq u t then some o else outcome_of t d

unfoldable pub record_outcome : Text → Text → Outcomes → Outcomes
record_outcome t o [] = (t, o) ∷ []
record_outcome t o ((u, p) ∷ d) = if text_eq u t then (t, o) ∷ d else (u, p) ∷ record_outcome t o d

abbrev of_strings : Option Value → Option Value → Outcomes → Outcomes
of_strings (some (str node_id)) (some (str outcome)) d =
    record_outcome (without_dot (codes node_id)) (codes outcome) d
of_strings _ _ d = d

abbrev of_entry : Value → Outcomes → Outcomes
of_entry (obj e) d = of_strings (get "nodeid" e) (get "outcome" e) d
of_entry _ d = d

unfoldable pub of_entries : List Value → Outcomes → Outcomes
unfolding record_outcome
of_entries [] d = d
of_entries (e ∷ entries) d = of_entries entries (of_entry e d)

unfoldable pub outcomes_from_report : Value → Outcomes
unfolding of_entries
outcomes_from_report (obj report) = elim (get "tests" report) [
  | some (arr tests) ↦ of_entries (to_list tests) []
  | _ ↦ []
]
outcomes_from_report _ = []
