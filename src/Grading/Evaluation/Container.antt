-- ===== src/Grading/Evaluation/Container.antt =====
-- The life of the container of an evaluation.
use soma_benchmark.Base.{
  ℕ, zero, suc, ◌≡◌, refl, ap, ◌∙◌, inl, inr, Bool, true, false, Option, none, some, List, [], ◌∷◌,
  ◌++◌, ◌==◌, if◌then◌else◌, Bool-cases,
}
use soma_benchmark.Base.Text.{Text, is_empty}
use soma_benchmark.Grading.Evaluation.{
  Command, inspect, pull, run, remove, Docker, Instance, apply_patch_in_container, test_commands,
  in_container, with_container, start_container, fetch_image, with_patch,
  maybe_run_soma_task_evaluation,
}

-- Whether the container runs after a command; `none` is a command that must not be given then: one in
-- the container while none runs, or a start while one runs.
abbrev pub next : Docker → Bool → Command → Option Bool
next d running inspect = if running then none else some false
next d running pull = if running then none else some false
next d running run = if running then none else some (d.run == 0)
next d running remove = if running then some false else none
next d running _ = if running then some true else none

abbrev pub replay_from : Docker → Option Bool → List Command → Option Bool
replay_from d none commands = none
replay_from d (some running) [] = some running
replay_from d (some running) (c ∷ commands) = replay_from d (next d running c) commands

replay_from-append :
    (d : Docker) (o : Option Bool) (cs ds : List Command)
    → replay_from d o (cs ++ ds) ≡ replay_from d (replay_from d o cs) ds
replay_from-append d none cs ds = refl
replay_from-append d (some b) [] ds = refl
replay_from-append d (some b) (c ∷ cs) ds = replay_from-append d (next d b c) cs ds

replay_from-apply :
    (d : Docker) (left k : ℕ)
    → replay_from d (some true) (apply_patch_in_container d.apply left k).1 ≡ some true
unfolding apply_patch_in_container
replay_from-apply d zero k = refl
replay_from-apply d (suc left) k = elim (Bool-cases (d.apply k == 0)) [
  | inl e ↦ rw e refl
  | inr e ↦ rw e (replay_from-apply d left (suc k))
]

replay_from-test_commands :
    (d : Docker) (b : Bool) → replay_from d (some true) (test_commands b) ≡ some true
replay_from-test_commands d true = refl
replay_from-test_commands d false = refl

replay_from-in_container :
    (d : Docker) (i : Instance) → replay_from d (some true) (in_container d i).1 ≡ some true
unfolding in_container
replay_from-in_container d i =
    let (applied, commands) = apply_patch_in_container d.apply 3 0 in
    elim (Bool-cases (d.copy_patch == 0)) [
      | inl e ↦ rw e (
          replay_from-append d (some true) commands (test_commands applied)
          ∙ ap (λ o. replay_from d o (test_commands applied)) (replay_from-apply d 3 0)
          ∙ replay_from-test_commands d applied)
      | inr e ↦ rw e refl
    ]

replay_from-with_container :
    (d : Docker) (i : Instance) → replay_from d (some true) (with_container d i).1 ≡ some false
unfolding with_container
replay_from-with_container d i =
    replay_from-append d (some true) (in_container d i).1 (remove ∷ [])
    ∙ ap (λ o. replay_from d o (remove ∷ [])) (replay_from-in_container d i)

replay_from-started :
    (d : Docker) (i : Instance)
    → (d.run == 0) ≡ true
    → replay_from d (some (d.run == 0)) (with_container d i).1 ≡ some false
replay_from-started d i e = rw e (replay_from-with_container d i)

replay_from-not_started :
    (d : Docker) → (d.run == 0) ≡ false → replay_from d (some (d.run == 0)) [] ≡ some false
replay_from-not_started d e = rw e refl

replay_from-start_container :
    (d : Docker) (i : Instance) (patch : Text)
    → replay_from d (some false) (start_container d i patch).1 ≡ some false
unfolding start_container
replay_from-start_container d i patch = elim (Bool-cases (is_empty patch)) [
  | inl e ↦ rw e refl
  | inr e ↦ elim (Bool-cases (d.run == 0)) [
    | inl f ↦ rw (e, f) (replay_from-started d i f)
    | inr f ↦ rw (e, f) (replay_from-not_started d f)
  ]
]

replay_from-fetch_image :
    (d : Docker) (i : Instance) (patch : Text)
    → replay_from d (some false) (fetch_image d i patch).1 ≡ some false
unfolding fetch_image
replay_from-fetch_image d i patch =
    let s = replay_from-start_container d i patch in
    elim (Bool-cases (d.inspect == 0)) [
      | inl e ↦ rw e s
      | inr e ↦ elim (Bool-cases (d.pull == 0)) [ inl f ↦ rw (e, f) s | inr f ↦ rw (e, f) refl ]
    ]

replay_from-with_patch :
    (d : Docker) (i : Instance) (o : Option Text)
    → replay_from d (some false) (with_patch d i o).1 ≡ some false
unfolding with_patch
replay_from-with_patch d i none = refl
replay_from-with_patch d i (some patch) = replay_from-fetch_image d i _

-- On every path, whatever the commands return, a command in the container is given only while the
-- container runs, the container is started at most while none runs, and none runs at the
-- end. `docker rm` is taken to remove the container.
pub maybe_run_soma_task_evaluation-replay :
    (d : Docker) (i : Instance)
    → replay_from d (some false) (maybe_run_soma_task_evaluation d i).1 ≡ some false
unfolding maybe_run_soma_task_evaluation
maybe_run_soma_task_evaluation-replay d i = elim (Bool-cases i.enabled) [
  | inr e ↦ rw e refl
  | inl e ↦ elim (Bool-cases i.is_soma_task) [
    | inr f ↦ rw (e, f) refl
    | inl f ↦ elim (Bool-cases i.has_changes) [
      | inr g ↦ rw (e, f, g) refl
      | inl g ↦ rw (e, f, g) (replay_from-with_patch d i i.patch)
    ]
  ]
]
