-- ===== src/Proxy/Calls.antt =====
-- Which service calls of a compressor run: the offer, and the checks that `_run_service_round` of
-- src/compression_service/app/proxy.py makes of each call.
use soma_benchmark.Base.{
  ℕ, String, Bool, true, false, not, ◌||◌, Option, none, some, List, [], ◌∷◌, str_eq, ltb, leb,
  if◌then◌else◌,
}
use soma_benchmark.Base.Json.{ℤ, pos, Value, null, bool, int, real, str, arr, obj, Fields, end, get}
use soma_benchmark.Base.Values.{as_dict, as_string, non_falsy}

-- `JEV_OFFER`
pub record Offer : Type 0 where
  pub ops : List String
  pub models : List String
  pub default_model : String
  pub max_request_bytes : ℕ
  pub max_rounds : ℕ
  pub max_calls : ℕ
  pub max_calls_per_round : ℕ

-- `_ServiceBudget`, without its clock.
pub record Budget : Type 0 where
  pub rounds : ℕ
  pub calls : ℕ

abbrev pub new : Budget
new = record { rounds = 0; calls = 0 }

-- A key of the dict `results`: Python takes `True`, 1 and 1.0 for one key.
pub data Key : Type 0 where
  nothing : Key
  text : String → Key
  whole : ℤ → Key
  fraction : String → Key

-- The id of a call as a key; `none` is the `TypeError` of a list or a dict.
abbrev pub key_of : Option Value → Option Key
key_of none = some nothing
key_of (some null) = some nothing
key_of (some (bool true)) = some (whole (pos 1))
key_of (some (bool false)) = some (whole (pos 0))
key_of (some (int n)) = some (whole n)
key_of (some (real r)) = some (elim r.integral [ some n ↦ whole n | none ↦ fraction r.literal ])
key_of (some (str s)) = some (text s)
key_of (some (arr _)) = none
key_of (some (obj _)) = none

abbrev pub at : String → Option Fields → Option Value
at k none = none
at k (some d) = get k d

abbrev pub dict_in : Option Value → Option Fields
dict_in none = none
dict_in (some v) = as_dict v

abbrev pub among : List String → Option String → Bool
among ss none = false
among [] (some s) = false
among (t ∷ ss) (some s) = str_eq t s || among ss (some s)

pub record Body : Type 0 where
  pub model : String
  pub state : Value
  pub questions : Fields

pub data Code : Type 0 where
  not_offered : Code
  invalid_request : Code
  budget_exhausted : Code

pub data Decision : Type 0 where
  refuse : Code → Decision
  execute : Body → Decision

abbrev or_string : Option Value → String → Option String
or_string none default = some default
or_string (some v) default = as_string (some v)

abbrev non_null : Option Value → Option Value
non_null (some null) = none
non_null o = o

abbrev non_empty : Option Fields → Option Fields
non_empty (some end) = none
non_empty o = o

abbrev body_of : Option String → Option Value → Option Fields → Option Body
body_of (some m) (some s) (some q) = some (record { model = m; state = s; questions = q })
body_of _ _ _ = none

abbrev if_among : List String → Option String → Option String
if_among models m = if among models m then m else none

-- The body of a request, if it is one that the offer allows, its size left aside.
unfoldable pub request_body : Offer → Option Fields → Option Body
request_body offer none = none
request_body offer (some req) =
    body_of (if_among offer.models (or_string (non_falsy (get "model" req)) offer.default_model))
      (non_null (get "state" req)) (non_empty (dict_in (get "questions" req)))

-- `budget.offer.get(service) if isinstance(service, str)`
abbrev pub offer_for : (String → Option Offer) → Option String → Option Offer
offer_for offers none = none
offer_for offers (some service) = offers service

-- `len(json.dumps(body))` of a body.
module _ (size : Body → ℕ) where
  -- Whether the budget is used up; `late` is the deadline's part of the test.
  abbrev pub exhausted : Offer → Budget → ℕ → Bool → Bool
  exhausted offer b running late =
      ltb offer.max_rounds b.rounds
      || leb offer.max_calls b.calls
      || leb offer.max_calls_per_round running
      || late

  abbrev pub within : Offer → Budget → ℕ → Bool → Option Body → Decision
  within offer b running late none = refuse invalid_request
  within offer b running late (some body) =
      if ltb offer.max_request_bytes (size body)
      then refuse invalid_request
      else if exhausted offer b running late
      then refuse budget_exhausted
      else execute body

  abbrev pub offered : Option Offer → Budget → ℕ → Bool → Option Fields → Decision
  offered none b running late call = refuse not_offered
  offered (some offer) b running late call =
      if not (among offer.ops (as_string (at "op" call)))
      then refuse invalid_request
      else within offer b running late (request_body offer (dict_in (at "request" call)))

  -- One turn of the loop over `calls`, with the number of calls that already run in this round.
  unfoldable pub decide : (String → Option Offer) → Budget → ℕ → Bool → Value → Decision
  unfolding request_body
  decide offers b running late call =
      let c = as_dict call in
      offered (offer_for offers (as_string (at "service" c))) b running late c
