-- ===== src/Compressor/Rounds.antt =====
-- `Services._round` of src/compression_service/app/services.py: one round of service calls of a miner.
pub mod Answers
use soma_benchmark.Base.Lists.{length}
use soma_benchmark.Base.{
  ℕ, ◌+◌, String, Bool, false, Option, none, some, List, [], ◌∷◌, str_eq, if◌then◌else◌,
}
use soma_benchmark.Base.Values.{truthy}
use soma_benchmark.Base.Json.{Value, int, str, obj, Fields, end, field, get}

abbrev pub truthy_field : String → Fields → Bool
truthy_field k d = elim (get k d) [ none ↦ false | some v ↦ truthy v ]

-- A `ServiceError` has a code and a message, the texts of two JSON values or of the constants here.
pub data Text : Type 0 where
  literal : String → Text
  printed : Value → Text
  no_result_for : String → Text

pub data Answer : Type 0 where
  response : Fields → Answer
  service_error : Text → Text → Answer

-- `str(d.get(k) or default)`
abbrev text_or : String → Fields → String → Text
text_or k d default = elim (get k d) [
  | none ↦ literal default
  | some v ↦ if truthy v then printed v else literal default
]

abbrev pub as_dict : Option Value → Option Fields
as_dict (some (obj d)) = some d
as_dict _ = none

abbrev or_end : Option Fields → Fields
or_end none = end
or_end (some d) = d

-- `str(n)` for the ids, which only have to differ: the text is a parameter.
module _ (show : ℕ → String) where
  -- The ids of as many calls, from the counter `n` on, and the counter after them.
  unfoldable pub ids_from {ℓ} : {A : Type ℓ} → ℕ → List A → List String
  ids_from n [] = []
  ids_from n (_ ∷ calls) = show (n + 1) ∷ ids_from (n + 1) calls

-- `r.get("id") == cid`
abbrev pub has_id : String → Fields → Bool
has_id cid r = elim (get "id" r) [ some (str s) ↦ str_eq s cid | _ ↦ false ]

-- `by_id.get(cid)` for `by_id = {r.get("id"): r for r in results}`: the last result with that id.
unfoldable pub result_for : String → List Fields → Option Fields
result_for cid [] = none
result_for cid (r ∷ results) = elim (result_for cid results) [
  | some later ↦ some later
  | none ↦ if has_id cid r then some r else none
]

abbrev failed : Fields → Answer
failed r =
    let err = or_end (as_dict (get "error" r)) in
    service_error (text_or "code" err "upstream_error") (text_or "message" err "")

abbrev settled : Fields → Option Fields → Answer
settled r none = failed r
settled r (some d) = if truthy_field "ok" r then response d else failed r

-- The answer to one call, from the result that has its id.
unfoldable pub answer_of : String → Option Fields → Answer
unfolding truthy
answer_of cid none = service_error (literal "invalid_result") (no_result_for cid)
answer_of cid (some r) = settled r (as_dict (get "response" r))

-- The second half of `_round`: the answers in the order of the ids.
unfoldable pub answers : List String → List Fields → List Answer
unfolding result_for answer_of
answers [] results = []
answers (cid ∷ ids) results = answer_of cid (result_for cid results) ∷ answers ids results

-- `Services._round`, with the counter of ids as its state. `none` is `ServiceUnavailable`.
unfoldable pub round {ℓ} :
    {A : Type ℓ}
    → (ℕ → String)
    → Option (List String → List A → List Fields)
    → List A
    → ℕ
    → Option (List Answer) × ℕ
unfolding ids_from answers
round show none calls n = (none, n)
round show (some round_trip) [] n = (some [], n)
round show (some round_trip) (call ∷ calls) n =
    let ids = ids_from show n (call ∷ calls) in
    (some (answers ids (round_trip ids (call ∷ calls))), n + length (call ∷ calls))
