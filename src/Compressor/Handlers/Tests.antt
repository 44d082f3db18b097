-- ===== src/Compressor/Handlers/Tests.antt =====
-- Runs of the handlers on concrete requests, and instances of their theorems.
use soma_benchmark.Base.{ℕ, String, ◌≡◌, refl, List, [], ◌∷◌, none, Option, some, true, false}
use soma_benchmark.Base.Json.{Value, str, obj, Fields, end, field, nil}
use soma_benchmark.Compressor.App.{Arguments, Compressor, parse_offer, miner_takes_services}
use soma_benchmark.Compressor.Store
use soma_benchmark.Compressor.Sessions.{other}
use soma_benchmark.Compressor.Handlers.{
  Turn, asks, returns, raises, pending_calls, payload, http_error, blocked, Service, Request,
  Served, calls, ends, transform_payload, start_session, transform_resume, invoke_in_handler,
}
use soma_benchmark.Compressor.Handlers.View.{
  Op, start, resume, invoke, run, replay, Shows, ShowsLast,
}
use soma_benchmark.Compressor.Handlers.Refines.{run-replay}
use soma_benchmark.Compressor.Handlers.Answers.{Answered, run-answers}

-- A miner that asks for one call, then for another, and returns after the second round.
abbrev turns : List (List Value) → Turn
turns [] = asks ("1" ∷ [])
turns (_ ∷ []) = asks ("2" ∷ [])
turns (_ ∷ _ ∷ []) = returns (obj (field "model" (str "m") end))
turns _ = raises other

abbrev results : String → List Value
results cid = obj (field "id" (str cid) end) ∷ []

-- The second start has to wait, as the first miner is suspended.
abbrev requests : List Op
requests =
    start 0 "b" (λ _. raises other)
    ∷ start 10 "a" turns
    ∷ resume "a" (results "2")
    ∷ resume "a" (obj (field "id" (obj end) end) ∷ [])
    ∷ resume "a" (results "1")
    ∷ resume "c" (results "1")
    ∷ resume "a" (results "2")
    ∷ resume "a" (results "2")
    ∷ invoke (some end)
    ∷ start 20 "d" turns
    ∷ start 30 "e" turns
    ∷ resume "d" (results "1")
    ∷ []

abbrev idle : Service
idle = record { locked = false; sessions = [] }

idle_shown : Shows idle none
unfolding Store.get
idle_shown = (refl, (tt, λ j. refl))

answers :
    (run requests idle).0
    ≡ http_error 500
      ∷ pending_calls "a" 1 ("1" ∷ [])
      ∷ http_error 400
      ∷ http_error 500
      ∷ pending_calls "a" 2 ("2" ∷ [])
      ∷ http_error 404
      ∷ payload (field "model" (str "m") end)
      ∷ http_error 404
      ∷ payload end
      ∷ pending_calls "d" 1 ("1" ∷ [])
      ∷ blocked
      ∷ []
unfolding start_session transform_resume invoke_in_handler
answers = refl

run-replay_example :
    ((run requests idle).0 ≡ (replay requests none).0)
    × ShowsLast (run requests idle).1 (replay requests none).1
run-replay_example = run-replay requests idle none idle_shown

run-answers_example : Answered requests none (run requests idle).0
run-answers_example = run-answers requests idle none idle_shown

abbrev served : Arguments ℕ → List (List Value) → Served
served _ [] = calls ("1" ∷ [])
served _ _ = ends (record { result = some (obj end); messages = nil })

abbrev serviced : Compressor ℕ
serviced = record {
  signature = some ("messages" ∷ "services" ∷ []);
  call = λ _. record { result = none; messages = nil };
}

abbrev request : Option Value → Request
request services = record {
  payload = field "model" (str "m") end;
  path = "/";
  context = end;
  services = services;
}

abbrev offer : Fields
offer = field "jev" (obj end) end

abbrev spoken : Fields
spoken = field "protocol" (str "soma-compressor-services/1") (field "offer" (obj offer) end)

transformed :
    ((transform_payload 0 (λ _ _. 1) served (some serviced) true 0 "a" (request none) idle).0
      ≡ http_error 500)
    × ((transform_payload 0
          (λ _ _. 1)
          served
          (some serviced)
          true
          0
          "a"
          (request (some (obj spoken)))
          idle).0
        ≡ pending_calls "a" 1 ("1" ∷ []))
    × ((transform_payload 0 (λ _ _. 1) served none true 0 "a" (request (some (obj spoken))) idle).0
        ≡ payload (field "model" (str "m") end))
unfolding transform_payload parse_offer miner_takes_services
transformed = (refl, refl, refl)
