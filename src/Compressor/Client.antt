-- ===== src/Compressor/Client.antt =====
-- `Services` and `_Jev` of src/compression_service/app/services.py: what a miner receives as `services`.
use soma_benchmark.Base.{
  ℕ, String, Bool, true, false, ◌≡◌, refl, ap, ◌∙◌, Option, none, some, List, [], ◌∷◌, map, arith,
}
use soma_benchmark.Base.Json.{Value, null, str, obj, Fields, end, field, get}
use soma_benchmark.Base.Lists.{length}
use soma_benchmark.Base.Values.{non_falsy, dict_at}
use soma_benchmark.Compressor.Rounds.{Answer, service_error, literal, round}
use soma_benchmark.Compressor.Rounds.Answers.{round-Answers}

pub record Services : Type 0 where
  pub offered : Fields
  pub round_trip : Option (List String → List Fields → List Fields)
  pub next_id : ℕ

-- `Services({}, None)`
abbrev pub no_services : Services
no_services = record { offered = end; round_trip = none; next_id = 0 }

-- `Services.offer`
unfoldable pub offer : String → Services → Option Fields
offer name s = elim s.round_trip [ none ↦ none | some _ ↦ dict_at name s.offered ]

abbrev is_some {ℓ} : {A : Type ℓ} → Option A → Bool
is_some none = false
is_some (some _) = true

-- `Services.offers`
unfoldable pub offers : String → Services → Bool
unfolding offer
offers name s = is_some (offer name s)

abbrev or_null : Option Value → Value
or_null none = null
or_null (some v) = v

abbrev first_of : Option Value → Option Value → Value
first_of (some v) other = v
first_of none other = or_null other

-- A call of `decide_many`, for one of its requests.
unfoldable pub call_of : Fields → Fields → Fields
call_of jev item =
    let body = field "model" (first_of (non_falsy (get "model" item)) (get "default_model" jev)) (
      field "state" (or_null (get "state" item))
        (field "questions" (or_null (get "questions" item)) end)) in
    field "service" (str "jev") (field "op" (str "decide") (field "request" (obj body) end))

module _ (show : ℕ → String) where
  abbrev pub decide_with : Option Fields → List Fields → Services → Option (List Answer) × ℕ
  decide_with none requests s = (none, s.next_id)
  decide_with (some jev) requests s = round show s.round_trip (map (call_of jev) requests) s.next_id

  -- `_Jev.decide_many`, with the counter of ids after it. `none` is `ServiceUnavailable`.
  unfoldable pub decide_many : List Fields → Services → Option (List Answer) × ℕ
  unfolding offer call_of round
  decide_many requests s = decide_with (offer "jev" s) requests s

  abbrev unavailable : Answer
  unavailable = service_error (literal "not_offered") (literal "jev is not offered on this turn")

  -- The first answer; `none` is an index out of range.
  abbrev pub first : Option (List Answer) → Option Answer
  first none = some unavailable
  first (some []) = none
  first (some (a ∷ _)) = some a

  -- `_Jev.decide`: a response, or the `ServiceError` that it raises.
  unfoldable pub decide : Value → Value → Value → Services → Option Answer × ℕ
  unfolding decide_many
  decide state questions model s =
      let request = field "state" state (field "questions" questions (field "model" model end)) in
      let (out, n) = decide_many (request ∷ []) s in (first out, n)

  first-cons : (out : List Answer) → length out ≡ 1 → (a : Answer) × (first (some out) ≡ some a)
  first-cons [] h = absurd (omega arith)
  first-cons (a ∷ _) h = (a, refl)

  first-round :
      (trip : Option (List String → List Fields → List Fields)) (call : Fields) (n : ℕ)
      → (a : Answer) × (first (round show trip (call ∷ []) n).0 ≡ some a)
  unfolding round
  first-round none call n = (unavailable, refl)
  first-round (some trip) call n =
      let (out, e, _, l) = round-Answers show trip (call ∷ []) n in
      let (a, f) = first-cons out l in (a, ap first e ∙ f)

  first-decide_with :
      (jev : Option Fields) (request : Fields) (s : Services)
      → (a : Answer) × (first (decide_with jev (request ∷ []) s).0 ≡ some a)
  first-decide_with none request s = (unavailable, refl)
  first-decide_with (some jev) request s = first-round s.round_trip (call_of jev request) s.next_id

  -- `decide` gets an answer or a service error, whatever the proxy sends back.
  pub decide-total :
      (state questions model : Value) (s : Services)
      → (a : Answer) × ((decide state questions model s).0 ≡ some a)
  unfolding decide decide_many
  decide-total state questions model s =
      let request = field "state" state (field "questions" questions (field "model" model end)) in
      first-decide_with (offer "jev" s) request s
