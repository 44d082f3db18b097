-- ===== src/Compressor/Rounds/Answers.antt =====
-- The answers of `Services._round` next to the results they come from.
use soma_benchmark.Base.{
  ℕ, suc, ◌+◌, String, ◌≡◌, refl, ap, ◌∙◌, true, false, Option, none, some, List, [], ◌∷◌, arith,
  inl, inr, ◌⊎◌, Bool-cases, Option-cases,
}
use soma_benchmark.Base.Lists.{length}
use soma_benchmark.Base.Json.{Fields, get}
use soma_benchmark.Compressor.Rounds.{
  Answer, response, service_error, has_id, result_for, answer_of, answers, ids_from, truthy_field,
  as_dict, round, settled, literal,
}

abbrev pub In : Fields → List Fields → Type 0
In r [] = ⊥
In r (x ∷ results) = (r ≡ x) ⊎ In r results

-- The result that is used for a call is one of the results, and has the call's id.
result_for-In :
    (cid : String) (results : List Fields) (r : Fields)
    → result_for cid results ≡ some r
    → In r results × (has_id cid r ≡ true)
unfolding result_for
result_for-In cid [] r h = cc
result_for-In cid (x ∷ results) r h = elim (Option-cases (result_for cid results)) [
  | inl e ↦ ground arith
  | inr (y, e) ↦ let (m, q) = result_for-In cid results y e in ground arith
]

-- No result has the id.
abbrev pub Lacks : String → List Fields → Type 0
Lacks cid [] = Unit
Lacks cid (x ∷ results) = (has_id cid x ≡ false) × Lacks cid results

result_for-Lacks :
    (cid : String) (results : List Fields) → result_for cid results ≡ none → Lacks cid results
unfolding result_for
result_for-Lacks cid [] h = tt
result_for-Lacks cid (x ∷ results) h = elim (Option-cases (result_for cid results)) [
  | inl e ↦ (ground arith, result_for-Lacks cid results e)
  | inr (y, e) ↦ absurd (ground arith)
]

-- What an answer to the call `cid` says of the results: a response is the one of a result with that
-- id that is marked `ok`; an error is "invalid_result" where no result has the id, and otherwise
-- that of a result with the id that is not `ok` or has no response.
abbrev pub Answers : List Fields → String → Answer → Type 0
Answers results cid (response d) =
    (r : Fields) × In r results
    × (has_id cid r ≡ true)
    × (truthy_field "ok" r ≡ true)
    × (as_dict (get "response" r) ≡ some d)
Answers results cid (service_error code message) =
    ((code ≡ literal "invalid_result") × Lacks cid results)
    ⊎ ((r : Fields) × In r results
        × (has_id cid r ≡ true)
        × ((truthy_field "ok" r ≡ false) ⊎ (as_dict (get "response" r) ≡ none)))

settled-Answers :
    (results : List Fields) (cid : String) (r : Fields) (o : Option Fields)
    → as_dict (get "response" r) ≡ o
    → In r results
    → has_id cid r ≡ true
    → Answers results cid (settled r o)
settled-Answers results cid r none e m i = inr (r, m, i, inr e)
settled-Answers results cid r (some d) e m i = elim (Bool-cases (truthy_field "ok" r)) [
  | inl k ↦ rw k (r, m, i, k, e)
  | inr k ↦ rw k (inr (r, m, i, inl k))
]

answer_of-Answers :
    (results : List Fields) (cid : String)
    → Answers results cid (answer_of cid (result_for cid results))
unfolding answer_of
answer_of-Answers results cid = elim (Option-cases (result_for cid results)) [
  | inl e ↦ rw e (inl (refl, result_for-Lacks cid results e))
  | inr (r, e) ↦
      let (m, i) = result_for-In cid results r e in
      rw e (settled-Answers results cid r (as_dict (get "response" r)) refl m i)
]

-- The two lists are as long, and `P` holds at each place.
abbrev pub Each {ℓ κ} : {A : Type ℓ} {B : Type κ} → (A → B → Type 0) → List A → List B → Type 0
Each P [] [] = Unit
Each P [] (_ ∷ _) = ⊥
Each P (_ ∷ _) [] = ⊥
Each P (x ∷ xs) (y ∷ ys) = P x y × Each P xs ys

answers-Answers : (all : List Fields) (ids : List String) → Each (Answers all) ids (answers ids all)
unfolding answers
answers-Answers all [] = tt
answers-Answers all (cid ∷ ids) = (answer_of-Answers all cid, answers-Answers all ids)

length-answers :
    (ids : List String) (results : List Fields) → length (answers ids results) ≡ length ids
unfolding answers
length-answers [] results = refl
length-answers (cid ∷ ids) results = ap suc (length-answers ids results)

length-ids_from :
    {A : Type 0} (show : ℕ → String) (n : ℕ) (calls : List A)
    → length (ids_from show n calls) ≡ length calls
unfolding ids_from
length-ids_from show n [] = refl
length-ids_from show n (_ ∷ calls) = ap suc (length-ids_from show (n + 1) calls)

-- Each call of a round gets exactly one answer, at its place, and the answer is its own: whatever
-- results the proxy sends, in whatever order and with whatever extra ones, a response belongs to a
-- result with the call's id.
pub round-Answers :
    {A : Type 0} (show : ℕ → String) (round_trip : List String → List A → List Fields)
    (calls : List A) (n : ℕ)
    → let ids = ids_from show n calls in
      (out : List Answer) × ((round show (some round_trip) calls n).0 ≡ some out)
      × Each (Answers (round_trip ids calls)) ids out
      × (length out ≡ length calls)
unfolding round ids_from
round-Answers show round_trip [] n = ([], refl, tt, refl)
round-Answers show round_trip (call ∷ calls) n =
    let ids = ids_from show n (call ∷ calls) in
    let results = round_trip ids (call ∷ calls) in
    (
      answers ids results,
      refl,
      answers-Answers results ids,
      length-answers ids results ∙ length-ids_from show n (call ∷ calls),
    )
