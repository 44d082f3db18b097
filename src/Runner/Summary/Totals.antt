-- ===== src/Runner/Summary/Totals.antt =====
-- The counts of a summary next to each other and to the rows.
use soma_benchmark.Base.{
  ℕ, suc, ◌+◌, ◌≤◌, String, ◌≡◌, refl, inl, inr, Option, none, some, List, [], ◌∷◌, arith,
  Bool-cases, Option-cases,
}
use soma_benchmark.Base.Lists.{length}
use soma_benchmark.Base.Integers.{◌+ℤ◌}
use soma_benchmark.Base.Json.{ℤ, Value, Fields, get}
use soma_benchmark.Base.Values.{dict_at}
use soma_benchmark.Runner.Summary.{
  Counter, bump, Summary, empty_summary, count_capture, count_resolved, count_status, count_buckets,
  count_evaluation, count_metadata, is_truthy, is_true, status_in, count_row, fail_bucket,
  pass_bucket, add_fail, add_pass, summarize_from, summarize_results,
}

abbrev pub total : Counter → ℕ
total [] = 0
total ((_, n) ∷ c) = n + total c

total-bump : (k : String) (c : Counter) → total (bump k c) ≡ total c + 1
unfolding bump
total-bump k [] = refl
total-bump k ((j, n) ∷ c) = ground (arith, total-bump k c)

-- Every row has one status; at most one patch capture and at most one evaluation of each row is counted,
-- and at most one resolution of each evaluation.
abbrev pub Agrees : ℕ → Summary → Type 0
Agrees z s =
    ((s.row_count ≡ z) × (total s.status_counts ≡ z))
    × (s.with_changes + s.without_changes ≤ s.row_count)
    × (total s.eval_status_counts ≤ s.row_count)
    × (s.resolved ≤ total s.eval_status_counts)

-- The same with room for one capture and one evaluation.
abbrev HasRoom : ℕ → Summary → Type 0
HasRoom z s =
    ((s.row_count ≡ z) × (total s.status_counts ≡ z))
    × (s.with_changes + s.without_changes + 1 ≤ s.row_count)
    × (total s.eval_status_counts + 1 ≤ s.row_count)
    × (s.resolved ≤ total s.eval_status_counts)

-- With room for an evaluation only.
abbrev IsCaptured : ℕ → Summary → Type 0
IsCaptured z s =
    ((s.row_count ≡ z) × (total s.status_counts ≡ z))
    × (s.with_changes + s.without_changes ≤ s.row_count)
    × (total s.eval_status_counts + 1 ≤ s.row_count)
    × (s.resolved ≤ total s.eval_status_counts)

add_fail-Agrees :
    {z : ℕ} (n m : Option ℤ) (s t : Summary) → add_fail n m s ≡ some t → Agrees z s → Agrees z t
add_fail-Agrees none m s t h a = cc
add_fail-Agrees (some n) none s t h a = cc
add_fail-Agrees (some n) (some m) s t h a =
    let q : record s { fail_success = s.fail_success +ℤ n; fail_total = s.fail_total +ℤ m } ≡ t =
      ground arith in
    rw (← q) a

add_pass-Agrees :
    {z : ℕ} (n m : Option ℤ) (s t : Summary) → add_pass n m s ≡ some t → Agrees z s → Agrees z t
add_pass-Agrees none m s t h a = cc
add_pass-Agrees (some n) none s t h a = cc
add_pass-Agrees (some n) (some m) s t h a =
    let q : record s { pass_success = s.pass_success +ℤ n; pass_total = s.pass_total +ℤ m } ≡ t =
      ground arith in
    rw (← q) a

count_capture-IsCaptured :
    {z : ℕ} (c : Option Fields) (s : Summary) → HasRoom z s → IsCaptured z (count_capture c s)
unfolding count_capture
count_capture-IsCaptured none s (a, b, c, d) = (a, omega arith, c, d)
count_capture-IsCaptured (some f) s (a, b, c, d) =
    elim (Bool-cases (is_truthy (get "has_changes" f))) [
      | inl e ↦ rw e (a, omega arith, c, d)
      | inr e ↦ rw e (a, omega arith, c, d)
    ]

count_resolved-Agrees :
    {z : ℕ} (e : Fields) (s : Summary)
    → Agrees z s
    → s.resolved + 1 ≤ total s.eval_status_counts
    → Agrees z (count_resolved e s)
unfolding count_resolved
count_resolved-Agrees e s (a, b, c, d) l = elim (Bool-cases (is_true (get "resolved" e))) [
  | inl h ↦ rw h (a, b, c, omega arith)
  | inr h ↦ rw h (a, b, c, d)
]

module _ (int_of : String → Option ℤ) (show : Value → String) where
  fail_bucket-Agrees :
      {z : ℕ} (o : Option Fields) (s t : Summary)
      → fail_bucket int_of show o s ≡ some t
      → Agrees z s
      → Agrees z t
  fail_bucket-Agrees none s t h a = let q : s ≡ t = ground arith in rw (← q) a
  fail_bucket-Agrees (some b) s t h a = add_fail-Agrees _ _ s t h a

  pass_bucket-Agrees :
      {z : ℕ} (o : Option Fields) (s t : Summary)
      → pass_bucket int_of show o s ≡ some t
      → Agrees z s
      → Agrees z t
  pass_bucket-Agrees none s t h a = let q : s ≡ t = ground arith in rw (← q) a
  pass_bucket-Agrees (some b) s t h a = add_pass-Agrees _ _ s t h a

  count_buckets-Agrees :
      {z : ℕ} (o : Option Fields) (s t : Summary)
      → count_buckets int_of show o s ≡ some t
      → Agrees z s
      → Agrees z t
  count_buckets-Agrees none s t h a = let q : s ≡ t = ground arith in rw (← q) a
  count_buckets-Agrees (some d) s t h a =
      elim (Option-cases (fail_bucket int_of show (dict_at "fail_to_pass" d) s)) [
        | inl e ↦ let x : ◌≡◌ {A = Option Summary} none (some t) = rw (e, count_buckets) at h in cc
        | inr (s', e) ↦
            pass_bucket-Agrees (dict_at "pass_to_pass" d) s' t (rw (e, count_buckets) at h)
              (fail_bucket-Agrees (dict_at "fail_to_pass" d) s s' e a)
      ]

  count_evaluation-Agrees :
      {z : ℕ} (o : Option Fields) (s t : Summary)
      → count_evaluation int_of show o s ≡ some t
      → IsCaptured z s
      → Agrees z t
  unfolding count_evaluation
  count_evaluation-Agrees none s t h (a, b, c, d) =
      let q : s ≡ t = ground arith in rw (← q) (a, b, omega arith, d)
  count_evaluation-Agrees (some e) s t h (a, b, c, d) =
      let u = count_status int_of show e s in
      let k = total-bump (status_in int_of show e) s.eval_status_counts in
      count_buckets-Agrees (dict_at "summary" e) (count_resolved e u) t h
        (count_resolved-Agrees e u (a, b, omega arith, omega arith) (omega arith))

  count_metadata-Agrees :
      {z : ℕ} (o : Option Fields) (s t : Summary)
      → count_metadata int_of show o s ≡ some t
      → HasRoom z s
      → Agrees z t
  unfolding count_metadata
  count_metadata-Agrees none s t h (a, b, c, d) =
      let q : s ≡ t = ground arith in rw (← q) (a, omega arith, omega arith, d)
  count_metadata-Agrees (some m) s t h r =
      count_evaluation-Agrees (dict_at "patch_evaluation" m)
        (count_capture (dict_at "patch_capture" m) s) t h
        (count_capture-IsCaptured (dict_at "patch_capture" m) s r)

  count_row-HasRoom :
      {z : ℕ} (row : Fields) (s : Summary)
      → Agrees z s
      → HasRoom (z + 1) (count_row int_of show row s)
  count_row-HasRoom row s ((r, a), b, c, d) =
      let k = total-bump (status_in int_of show row) s.status_counts in
      ((omega arith, omega arith), omega arith, omega arith, d)

  summarize_from-Agrees :
      {z : ℕ} (rows : List Fields) (s t : Summary)
      → summarize_from int_of show rows s ≡ some t
      → Agrees z s
      → Agrees (z + length rows) t
  unfolding summarize_from
  summarize_from-Agrees {z} [] s t h a =
      let q : s ≡ t = ground arith in let e : z + 0 ≡ z = omega arith in rw (← q, e) a
  summarize_from-Agrees {z} (row ∷ rows) s t h a =
      elim (Option-cases
        (count_metadata int_of show (dict_at "metadata" row) (count_row int_of show row s))) [
          | inl e ↦
              let x : ◌≡◌ {A = Option Summary} none (some t) = rw (e, summarize_from) at h in cc
          | inr (s', e) ↦
              let p : z + suc (length rows) ≡ z + 1 + length rows = omega arith in
              rw p (
                summarize_from-Agrees {z = z + 1} rows s' t (rw (e, summarize_from) at h) (
                  count_metadata-Agrees (dict_at "metadata" row) (count_row int_of show row s) s' e
                    (count_row-HasRoom row s a)))
        ]

  -- The summary counts every row, and one status for each. Captures with and without changes, and
  -- evaluations, are at most as many as the rows, and resolutions at most as many as the evaluations. No
  -- count in the rows is to make `int` raise.
  pub summarize_results-Agrees :
      (rows : List Fields) (s : Summary)
      → summarize_results int_of show rows ≡ some s
      → (s.row_count ≡ length rows)
        × (total s.status_counts ≡ length rows)
        × (s.with_changes + s.without_changes ≤ length rows)
        × (total s.eval_status_counts ≤ length rows)
        × (s.resolved ≤ total s.eval_status_counts)
  unfolding summarize_results empty_summary
  summarize_results-Agrees rows s h =
      let ((a, b), c, d, e) =
        summarize_from-Agrees {z = 0} rows empty_summary s h
          ((refl, refl), omega arith, omega arith, omega arith) in
      (omega arith, omega arith, omega arith, omega arith, e)
