-- ===== src/Proxy/Services.antt =====
-- The service calls of a compressor: `_ServiceBudget`, `_run_service_round` and the rounds of
-- `_transform_payload_via_compression_service` in src/compression_service/app/proxy.py.
pub mod Limits
mod Tests
use soma_benchmark.Base.{
  ℕ, zero, suc, ◌+◌, ◌*◌, String, Bool, true, false, not, ◌||◌, Option, none, some, List, [], ◌∷◌,
  ◌++◌, str_eq, ◌==◌, leb, if◌then◌else◌,
}
use soma_benchmark.Base.Lists.{length}
use soma_benchmark.Base.Json.{ℤ, pos, Value, str, arr, Fields, end, to_list, get}
use soma_benchmark.Base.Values.{as_dict}
pub use soma_benchmark.Proxy.Calls.{
  Offer, Budget, new, Key, key_of, at, dict_in, among, Body, Code, Decision, exhausted, within,
  offered, nothing, text, whole, fraction, not_offered, invalid_request, budget_exhausted, refuse,
  execute, offer_for,
}
unfoldable pub use soma_benchmark.Proxy.Calls.{request_body, decide}

-- What `_execute_jev_call` returned, and a result of a round.
pub data Result : Type 0 where
  refused : Code → Result
  answered : Fields → Result
  failed : String → Result

abbrev pub key_eq : Key → Key → Bool
key_eq nothing nothing = true
key_eq (text s) (text t) = str_eq s t
key_eq (whole (pos m)) (whole (pos n)) = m == n
key_eq (whole (ℤ.negsuc m)) (whole (ℤ.negsuc n)) = m == n
key_eq (fraction s) (fraction t) = str_eq s t
key_eq _ _ = false

-- `results`, a dict from keys: the newest entry stands first.
abbrev pub result_at : List (Key × Result) → Key → Option Result
result_at [] k = none
result_at ((j, r) ∷ results) k = if key_eq j k then some r else result_at results k

pub record Round : Type 0 where
  pub budget : Budget
  pub results : List (Key × Result)
  pub runnable : List (Key × Body)

abbrev pub note : Key → Decision → Round → Round
note k (refuse c) r = record r { results = (k, refused c) ∷ r.results }
note k (execute body) r = record r {
  budget = record r.budget { calls = r.budget.calls + 1 };
  runnable = r.runnable ++ (k, body) ∷ [];
}

module _ (size : Body → ℕ) (offers : String → Option Offer) (late : ℕ → ℕ → Bool) where
  abbrev pub note_call : ℕ → Value → Option Key → Round → Option Round
  unfolding decide
  note_call n call none r = none
  note_call n call (some k) r =
      some
        (note k (decide size offers r.budget (length r.runnable) (late r.budget.rounds n) call) r)

  -- The loop; `n` counts the calls, since the deadline is read for each. `none` is a `TypeError`.
  unfoldable pub classify : ℕ → List Value → Round → Option Round
  unfolding note_call
  classify n [] r = some r
  classify n (call ∷ calls) r = elim (note_call n call (key_of (at "id" (as_dict call))) r) [
    | none ↦ none
    | some r' ↦ classify (n + 1) calls r'
  ]

abbrev pub bodies : List (Key × Body) → List Body
bodies [] = []
bodies ((_, body) ∷ runnable) = body ∷ bodies runnable

-- The pool runs the calls of a round; `run` is `_execute_jev_call`, for the n-th call of the turn.
unfoldable pub execute_all :
    (ℕ → Body → Result) → ℕ → List (Key × Body) → List (Key × Result) → List (Key × Result)
execute_all run n [] results = results
execute_all run n ((k, body) ∷ runnable) results =
    execute_all run (n + 1) runnable ((k, run n body) ∷ results)

abbrev result_of : List (Key × Result) → Option Key → Option Result
result_of results none = none
result_of results (some k) = result_at results k

abbrev pub cons_result : Option Result → Option (List Result) → Option (List Result)
cons_result (some r) (some rs) = some (r ∷ rs)
cons_result _ _ = none

-- `[results[...] for c in calls]`; `none` is a `KeyError`.
unfoldable pub results_of : List Value → List (Key × Result) → Option (List Result)
results_of [] results = some []
results_of (call ∷ calls) results =
    cons_result (result_of results (key_of (at "id" (as_dict call)))) (results_of calls results)

abbrev calls_of : Option Value → List Value
calls_of (some (arr calls)) = to_list calls
calls_of _ = []

abbrev pub begin : Budget → Round
begin b = record { budget = record b { rounds = b.rounds + 1 }; results = []; runnable = [] }

-- `parsed["pending"]`, if there is one, and the payload of a final reply.
abbrev pub pending_of : Value → Option Fields
pending_of parsed = dict_in (at "pending" (as_dict parsed))

abbrev pub payload_of : Value → Option Fields
payload_of parsed = dict_in (at "payload" (as_dict parsed))

-- How a transform ends. An exception is one of the compressor, of a round, or the `RuntimeError` of the
-- loop.
pub data Ending : Type 0 where
  transformed : Fields → Ending
  failed_transform : Ending
  out_of_fuel : Ending

abbrev pub ending : Option Fields → Ending
ending none = failed_transform
ending (some d) = transformed d

module _ (size : Body → ℕ) (offers : String → Option Offer) (late : ℕ → ℕ → Bool)
    (run : ℕ → Body → Result) where
  -- The bodies of the calls that are executed, and what the round gives.
  abbrev pub finish_round :
      ℕ → List Value → Option Round → List Body × Option (Budget × List Result)
  unfolding execute_all results_of
  finish_round n calls none = ([], none)
  finish_round n calls (some r) = (
    bodies r.runnable,
    elim (results_of calls (execute_all run n r.runnable r.results)) [
      | none ↦ none
      | some results ↦ some (r.budget, results)
    ],
  )

  -- `_run_service_round`
  unfoldable pub run_service_round : Fields → Budget → List Body × Option (Budget × List Result)
  unfolding classify finish_round
  run_service_round pending b =
      let calls = calls_of (get "calls" pending) in
      finish_round b.calls calls (classify size offers late 0 calls (begin b))

  -- The loop of `_transform_payload_via_compression_service`. The compressor replies to the results of
  -- all rounds so far; `limit` is the largest `max_rounds`, and `expired` the deadline's part of the
  -- test.
  module _ (reply : List (List Result) → Option Value) (limit : ℕ) (expired : ℕ → Bool) where
    -- `sent` has the bodies of the calls that were executed.
    unfoldable pub rounds_from :
        ℕ → Budget → List Body → List (List Result) → Option Value → Ending × Budget × List Body
    unfolding run_service_round
    rounds_from fuel b sent history none = (failed_transform, b, sent)
    rounds_from zero b sent history (some parsed) = elim (pending_of parsed) [
      | none ↦ (ending (payload_of parsed), b, sent)
      | some pending ↦
          if leb (2 * limit) b.rounds || expired b.rounds
          then (failed_transform, b, sent)
          else (out_of_fuel, b, sent)
    ]
    rounds_from (suc fuel) b sent history (some parsed) = elim (pending_of parsed) [
      | none ↦ (ending (payload_of parsed), b, sent)
      | some pending ↦
          if leb (2 * limit) b.rounds || expired b.rounds
          then (failed_transform, b, sent)
          else elim (run_service_round pending b).1 [
            | none ↦ (failed_transform, b, sent ++ (run_service_round pending b).0)
            | some (b', results) ↦
                rounds_from fuel b' (sent ++ (run_service_round pending b).0)
                  (history ++ results ∷ []) (reply (history ++ results ∷ []))
          ]
    ]

    -- `_transform_payload_via_compression_service` where services are offered: how it ends, the budget
    -- of the last round that was answered, and the calls that were executed.
    unfoldable pub transform_payload : Ending × Budget × List Body
    unfolding rounds_from
    transform_payload = rounds_from (2 * limit) new [] [] (reply [])
