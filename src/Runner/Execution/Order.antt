-- ===== src/Runner/Execution/Order.antt =====
-- The order of the results of `execute_runtime_contexts`.
use soma_benchmark.Base.{
  ℕ, zero, suc, ◌<◌, ◌≡◌, refl, ap, ◌∙◌, inl, inr, Bool, true, false, ◌||◌, Option, none, some,
  List, [], ◌∷◌, map, ◌==◌, arith, if◌then◌else◌, Bool-cases,
}
use soma_benchmark.Base.Lists.{length}
use soma_benchmark.Base.Json.{ℤ}
use soma_benchmark.Runner.Execution.{
  Context, ExecutionResult, Backend, execute_one, present, record_result, collect_results,
  unfinished, worker_count, run_each, run_all, execute_runtime_contexts,
}

abbrev pub is_in : ℕ → List ℕ → Bool
is_in k [] = false
is_in k (j ∷ order) = k == j || is_in k order

true_right : (x : Bool) → true ≡ (x || 0 == 0)
true_right x = ground arith

false_right : (x y : Bool) → y ≡ false → x ≡ (x || y)
false_right x y h = ground arith

suc_zero : (k : ℕ) → (suc k == 0) ≡ false
suc_zero k = ground arith

zero_suc : (k : ℕ) → (0 == suc k) ≡ false
zero_suc k = ground arith

suc-suc : (k j : ℕ) → (k == j) ≡ (suc k == suc j)
suc-suc k j = ground arith

or_assoc : (x y z : Bool) → ((x || y) || z) ≡ (x || (y || z))
or_assoc x y z = ground arith

module _ (b : Backend) where
  abbrev done : Context → Bool → Option ExecutionResult
  done c x = if x then some (execute_one b c) else none

  -- The results in which the indices that `p` selects are there.
  abbrev marked : (ℕ → Bool) → List Context → List (Option ExecutionResult)
  marked p [] = []
  marked p (c ∷ cs) = (if p 0 then some (execute_one b c) else none) ∷ marked (λ k. p (suc k)) cs

  marked-cong :
      (p q : ℕ → Bool) (cs : List Context) → ((k : ℕ) → p k ≡ q k) → marked p cs ≡ marked q cs
  marked-cong p q [] h = refl
  marked-cong p q (c ∷ cs) h = rw (h 0) (
      ap (λ r. (if q 0 then some (execute_one b c) else none) ∷ r)
        (marked-cong (λ k. p (suc k)) (λ k. q (suc k)) cs (λ k. h (suc k))))

  record_result-marked :
      (j : ℕ) (p : ℕ → Bool) (cs : List Context)
      → record_result b j cs (marked p cs) ≡ marked (λ k. p k || k == j) cs
  unfolding record_result
  record_result-marked j p [] = refl
  record_result-marked zero p (c ∷ cs) =
      ap (λ x. done c x ∷ marked (λ k. p (suc k)) cs) (true_right (p 0))
      ∙ ap (λ r. done c (p 0 || 0 == 0) ∷ r)
          (marked-cong (λ k. p (suc k)) (λ k. p (suc k) || suc k == 0) cs
            (λ k. false_right (p (suc k)) (suc k == 0) (suc_zero k)))
  record_result-marked (suc j) p (c ∷ cs) =
      ap (λ x. done c x ∷ record_result b j cs (marked (λ k. p (suc k)) cs))
        (false_right (p 0) (0 == suc j) (zero_suc j))
      ∙ ap (λ r. done c (p 0 || 0 == suc j) ∷ r)
          (record_result-marked j (λ k. p (suc k)) cs
            ∙ marked-cong (λ k. p (suc k) || k == j) (λ k. p (suc k) || suc k == suc j) cs
                (λ k. ap (λ x. p (suc k) || x) (suc-suc k j)))

  collect_results-marked :
      (order : List ℕ) (p : ℕ → Bool) (cs : List Context)
      → collect_results b cs order (marked p cs) ≡ marked (λ k. p k || is_in k order) cs
  unfolding collect_results
  collect_results-marked [] p cs =
      marked-cong p (λ k. p k || false) cs (λ k. false_right (p k) false refl)
  collect_results-marked (j ∷ order) p cs =
      ap (collect_results b cs order) (record_result-marked j p cs)
      ∙ collect_results-marked order (λ k. p k || k == j) cs
      ∙ marked-cong (λ k. (p k || k == j) || is_in k order) (λ k. p k || (k == j || is_in k order))
          cs (λ k. or_assoc (p k) (k == j) (is_in k order))

  unfinished-marked : (cs : List Context) → unfinished cs ≡ marked (λ k. false) cs
  unfolding unfinished
  unfinished-marked [] = refl
  unfinished-marked (c ∷ cs) = ap (λ r. none ∷ r) (unfinished-marked cs)

  present-marked :
      (p : ℕ → Bool) (cs : List Context)
      → ((k : ℕ) → k < length cs → p k ≡ true)
      → present (marked p cs) ≡ map (execute_one b) cs
  unfolding present
  present-marked p [] h = refl
  present-marked p (c ∷ cs) h = rw (h 0 (omega arith)) (
      ap (λ r. execute_one b c ∷ r)
        (present-marked (λ k. p (suc k)) cs (λ k l. h (suc k) (omega arith))))

  run_each-order :
      (cs : List Context) (workers : ℕ) (order : List ℕ)
      → ((k : ℕ) → k < length cs → is_in k order ≡ true)
      → run_each b cs workers order ≡ map (execute_one b) cs
  unfolding run_each
  run_each-order cs workers order h = elim (Bool-cases (workers == 1)) [
    | inl e ↦ rw e refl
    | inr e ↦ rw e (
        ap (λ r. present (collect_results b cs order r)) (unfinished-marked cs)
        ∙ ap present (collect_results-marked order (λ k. false) cs)
        ∙ present-marked (λ k. false || is_in k order) cs h)
  ]

-- Without a batch executor the results are those of the contexts one by one, in the order of the
-- contexts, whatever the concurrency and whatever the order in which the workers finish; a context whose
-- execution raises has an error result in its place. Every worker is to finish.
pub execute_runtime_contexts-order :
    (b : Backend) (cs : List Context) (concurrency : ℤ) (order : List ℕ)
    → b.execute_batch ≡ none
    → ((k : ℕ) → k < length cs → is_in k order ≡ true)
    → execute_runtime_contexts b cs concurrency order ≡ map (execute_one b) cs
unfolding execute_runtime_contexts run_all
execute_runtime_contexts-order b [] concurrency order e h = refl
execute_runtime_contexts-order b (c ∷ cs) concurrency order e h =
    rw e (run_each-order b (c ∷ cs) (worker_count concurrency (length (c ∷ cs))) order h)
