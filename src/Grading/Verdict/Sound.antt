-- ===== src/Grading/Verdict/Sound.antt =====
-- When a run is resolved, and what its buckets count.
use soma_benchmark.Base.{
  ◌+◌, ◌≡◌, ◌↔◌, ◌⊎◌, refl, ap, ◌∙◌, Bool, true, false, not, if◌then◌else◌, Option, none, some,
  List, [], ◌∷◌, arith, inl, inr, Bool-cases, Option-cases,
}
use soma_benchmark.Base.Lists.{length, keep_if}
use soma_benchmark.Base.Text.{Text, text_eq, text_eq_iff}
use soma_benchmark.Grading.Report.{Outcomes, outcome_of}
use soma_benchmark.Grading.Verdict.{passing_outcome, Sorted, sort_tests, sort_one, bucket, verdict}

-- Every test passed.
abbrev pub AllPassed : List Text → Outcomes → Type 0
AllPassed [] d = Unit
AllPassed (t ∷ tests) d = (outcome_of t d ≡ some passing_outcome) × AllPassed tests d

failed-AllPassed :
    (tests : List Text) (d : Outcomes) → (sort_tests tests d).failed ≡ [] → AllPassed tests d
unfolding sort_tests
failed-AllPassed [] d h = tt
failed-AllPassed (t ∷ tests) d h = elim (Option-cases (outcome_of t d)) [
  | inl e ↦ absurd (ground arith)
  | inr (o, e) ↦ ground (arith, text_eq_iff o passing_outcome, failed-AllPassed tests d)
]

AllPassed-failed :
    (tests : List Text) (d : Outcomes) → AllPassed tests d → (sort_tests tests d).failed ≡ []
unfolding sort_tests
AllPassed-failed [] d h = refl
AllPassed-failed (t ∷ tests) d h = rw (h.0) (AllPassed-failed tests d h.1)

length-zero : {A : Type 0} (xs : List A) → length xs ≡ 0 → xs ≡ []
length-zero [] h = refl
length-zero (x ∷ xs) h = absurd (omega arith)

-- A run is resolved exactly when the report has the outcome "passed" for each graded id: a test that
-- failed, was skipped or is not in the report counts against it.
pub verdict-resolved :
    (fail_ids pass_ids : List Text) (d : Outcomes)
    → ((verdict fail_ids pass_ids d).resolved ≡ true)
      ↔ (AllPassed fail_ids d × AllPassed pass_ids d)
unfolding verdict bucket
verdict-resolved fail_ids pass_ids d = (
  λ h. (
    failed-AllPassed fail_ids d (length-zero _ (ground arith)),
    failed-AllPassed pass_ids d (length-zero _ (ground arith)),
  ),
  λ h. rw (AllPassed-failed fail_ids d h.0, AllPassed-failed pass_ids d h.1),
)

abbrev pub In : Text → List Text → Type 0
In t [] = ⊥
In t (u ∷ tests) = (t ≡ u) ⊎ In t tests

sort_one-missing :
    (u t : Text) (o : Option Text) (s : Sorted) (d : Outcomes)
    → outcome_of u d ≡ o
    → (In t s.missing → In t s.failed × (outcome_of t d ≡ none))
    → In t (sort_one u o s).missing
    → In t (sort_one u o s).failed × (outcome_of t d ≡ none)
sort_one-missing u t none s d e ih (inl p) = (inl p, rw p e)
sort_one-missing u t none s d e ih (inr m) = let (f, n) = ih m in (inr f, n)
sort_one-missing u t (some o) s d e ih m = elim (Bool-cases (text_eq o passing_outcome)) [
  | inl k ↦ rw k (ih (rw k at m))
  | inr k ↦ rw k (let (f, n) = ih (rw k at m) in (inr f, n))
]

missing-failed :
    (tests : List Text) (d : Outcomes) (t : Text)
    → In t (sort_tests tests d).missing
    → In t (sort_tests tests d).failed × (outcome_of t d ≡ none)
unfolding sort_tests
missing-failed [] d t m = absurd m
missing-failed (u ∷ tests) d t m =
    sort_one-missing u t (outcome_of u d) (sort_tests tests d) d refl (missing-failed tests d t) m

sorted_total :
    (tests : List Text) (d : Outcomes)
    → length (sort_tests tests d).successful + length (sort_tests tests d).failed ≡ length tests
unfolding sort_tests
sorted_total [] d = refl
sorted_total (t ∷ tests) d = ground (arith, sorted_total tests d)

abbrev is_passing : Option Text → Bool
is_passing none = false
is_passing (some o) = text_eq o passing_outcome

-- The report has the outcome "passed" for the test.
abbrev pub has_passed : Outcomes → Text → Bool
has_passed d t = is_passing (outcome_of t d)

sort_one-successful :
    (t : Text) (o : Option Text) (s : Sorted) (passed : List Text)
    → s.successful ≡ passed
    → (sort_one t o s).successful ≡ (if is_passing o then t ∷ passed else passed)
sort_one-successful t none s passed h = h
sort_one-successful t (some o) s passed h = elim (Bool-cases (text_eq o passing_outcome)) [
  | inl e ↦ rw e (ap (λ r. t ∷ r) h)
  | inr e ↦ rw e h
]

sort_one-failed :
    (t : Text) (o : Option Text) (s : Sorted) (failed : List Text)
    → s.failed ≡ failed
    → (sort_one t o s).failed ≡ (if not (is_passing o) then t ∷ failed else failed)
sort_one-failed t none s failed h = ap (λ r. t ∷ r) h
sort_one-failed t (some o) s failed h = elim (Bool-cases (text_eq o passing_outcome)) [
  | inl e ↦ rw e h
  | inr e ↦ rw e (ap (λ r. t ∷ r) h)
]

keep_if-cons :
    (p : Text → Bool) (t : Text) (ts : List Text)
    → (if p t then t ∷ keep_if p ts else keep_if p ts) ≡ keep_if p (t ∷ ts)
keep_if-cons p t ts = elim (Bool-cases (p t)) [ inl e ↦ rw e refl | inr e ↦ rw e refl ]

successful-keep_if :
    (tests : List Text) (d : Outcomes)
    → (sort_tests tests d).successful ≡ keep_if (has_passed d) tests
unfolding sort_tests
successful-keep_if [] d = refl
successful-keep_if (t ∷ tests) d =
    sort_one-successful t (outcome_of t d) (sort_tests tests d) (keep_if (has_passed d) tests)
      (successful-keep_if tests d)
    ∙ keep_if-cons (has_passed d) t tests

failed-keep_if :
    (tests : List Text) (d : Outcomes)
    → (sort_tests tests d).failed ≡ keep_if (λ t. not (has_passed d t)) tests
unfolding sort_tests
failed-keep_if [] d = refl
failed-keep_if (t ∷ tests) d =
    let p : Text → Bool = λ t. not (has_passed d t) in
    sort_one-failed t (outcome_of t d) (sort_tests tests d) (keep_if p tests)
      (failed-keep_if tests d)
    ∙ keep_if-cons p t tests

-- The successful tests of a bucket are those that the report says have passed, the failed ones all
-- others, in their order, and the counts are the lengths of these lists and add up to the number of
-- tests. The tests that the report does not mention are among the failed ones.
pub bucket_counts :
    (tests : List Text) (d : Outcomes)
    → let (b, missing) = bucket tests d in
      (b.successful_tests ≡ keep_if (has_passed d) tests)
      × (b.failed_tests ≡ keep_if (λ t. not (has_passed d t)) tests)
      × (b.success ≡ length b.successful_tests)
      × (b.failure ≡ length b.failed_tests)
      × (b.success + b.failure ≡ b.total)
      × (b.total ≡ length tests)
      × ((t : Text) → In t missing → In t b.failed_tests × (outcome_of t d ≡ none))
unfolding bucket
bucket_counts tests d = (
  successful-keep_if tests d,
  failed-keep_if tests d,
  refl,
  refl,
  sorted_total tests d,
  refl,
  λ t m. missing-failed tests d t m,
)
