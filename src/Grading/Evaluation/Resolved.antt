-- ===== src/Grading/Evaluation/Resolved.antt =====
-- When an evaluation reports a task as resolved.
use soma_benchmark.Base.{
  ◌≡◌, refl, inl, inr, Bool, true, false, Option, none, some, ◌==◌, arith, Bool-cases,
}
use soma_benchmark.Base.Json.{Value}
use soma_benchmark.Base.Text.{Text, is_empty}
use soma_benchmark.Grading.Report.{outcomes_from_report}
use soma_benchmark.Grading.Verdict.Sound.{AllPassed, verdict-resolved}
use soma_benchmark.Grading.Evaluation.{
  Docker, Instance, Result, completed, apply_patch_in_container, attempts, graded_run, grade,
  result_or, fail_ids, pass_ids, not_applied, in_container, with_container, start_container,
  fetch_image, with_patch, maybe_run_soma_task_evaluation,
}

abbrev pub is_resolved : Result → Bool
is_resolved (completed applied v) = v.resolved
is_resolved _ = false

-- The patch went into the container, an applier took it, and the report that came out of the container
-- says of every graded test that it passed.
abbrev pub Graded : Docker → Instance → Type 0
Graded d i =
    (d.copy_patch ≡ 0)
    × ((apply_patch_in_container d.apply attempts 0).0 ≡ true)
    × (d.copy_report ≡ 0)
    × ((report : Value) × (d.report ≡ some report)
        × AllPassed (fail_ids i) (outcomes_from_report report)
        × AllPassed (pass_ids i) (outcomes_from_report report))

grade-resolved :
    (i : Instance) (o : Option Value)
    → is_resolved (grade i o) ≡ true
    → (report : Value) × (o ≡ some report)
      × AllPassed (fail_ids i) (outcomes_from_report report)
      × AllPassed (pass_ids i) (outcomes_from_report report)
unfolding grade
grade-resolved i none h = cc
grade-resolved i (some report) h =
    let (f, p) = (verdict-resolved (fail_ids i) (pass_ids i) (outcomes_from_report report)).0 h in
    (report, refl, f, p)

graded_run-resolved :
    (d : Docker) (i : Instance) (applied : Bool) (r : Result)
    → is_resolved (result_or (graded_run d i applied) r) ≡ true
    → (applied ≡ true) × (d.copy_report ≡ 0) × (is_resolved r ≡ true)
unfolding graded_run not_applied
graded_run-resolved d i false r h = cc
graded_run-resolved d i true r h = elim (Bool-cases (d.copy_report == 0)) [
  | inl e ↦ (refl, ground arith, rw e at h)
  | inr e ↦ let k : false ≡ true = rw e at h in cc
]

with_container-resolved :
    (d : Docker) (i : Instance) → is_resolved (with_container d i).0 ≡ true → Graded d i
unfolding with_container in_container
with_container-resolved d i h = elim (Bool-cases (d.copy_patch == 0)) [
  | inl e ↦
      let (a, c, k) =
        graded_run-resolved d i (apply_patch_in_container d.apply attempts 0).0 (grade i d.report)
          (rw e at h) in
      (ground arith, a, c, grade-resolved i d.report k)
  | inr e ↦ let k : false ≡ true = rw e at h in cc
]

start_container-resolved :
    (d : Docker) (i : Instance) (patch : Text)
    → is_resolved (start_container d i patch).0 ≡ true
    → Graded d i
unfolding start_container not_applied
start_container-resolved d i patch h = elim (Bool-cases (is_empty patch)) [
  | inl e ↦ let k : false ≡ true = rw e at h in cc
  | inr e ↦ elim (Bool-cases (d.run == 0)) [
    | inl f ↦ with_container-resolved d i (rw (e, f) at h)
    | inr f ↦ let k : false ≡ true = rw (e, f) at h in cc
  ]
]

fetch_image-resolved :
    (d : Docker) (i : Instance) (patch : Text)
    → is_resolved (fetch_image d i patch).0 ≡ true
    → Graded d i
unfolding fetch_image
fetch_image-resolved d i patch h = elim (Bool-cases (d.inspect == 0)) [
  | inl e ↦ start_container-resolved d i patch (rw e at h)
  | inr e ↦ elim (Bool-cases (d.pull == 0)) [
    | inl f ↦ start_container-resolved d i patch (rw (e, f) at h)
    | inr f ↦ let k : false ≡ true = rw (e, f) at h in cc
  ]
]

with_patch-resolved :
    (d : Docker) (i : Instance) (o : Option Text)
    → is_resolved (with_patch d i o).0 ≡ true
    → Graded d i
unfolding with_patch
with_patch-resolved d i none h = cc
with_patch-resolved d i (some patch) h = fetch_image-resolved d i _ h

-- An evaluation that reports the task as resolved has applied the patch and read a report in which every
-- graded test passed.
pub maybe_run_soma_task_evaluation-resolved :
    (d : Docker) (i : Instance)
    → is_resolved (maybe_run_soma_task_evaluation d i).0 ≡ true
    → Graded d i
unfolding maybe_run_soma_task_evaluation
maybe_run_soma_task_evaluation-resolved d i h = elim (Bool-cases i.enabled) [
  | inr e ↦ let k : false ≡ true = rw e at h in cc
  | inl e ↦ elim (Bool-cases i.is_soma_task) [
    | inr f ↦ let k : false ≡ true = rw (e, f) at h in cc
    | inl f ↦ elim (Bool-cases i.has_changes) [
      | inr g ↦ let k : false ≡ true = rw (e, f, g) at h in cc
      | inl g ↦ with_patch-resolved d i i.patch (rw (e, f, g) at h)
    ]
  ]
]
