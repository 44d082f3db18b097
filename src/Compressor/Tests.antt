-- ===== src/Compressor/Tests.antt =====
-- Runs of the compression service on concrete inputs, and instances of its theorems.
use soma_benchmark.Base.{
  ℕ, zero, suc, String, ◌≡◌, ◌≢◌, refl, true, some, List, [], ◌∷◌, str_eq, if◌then◌else◌,
}
use soma_benchmark.Base.Lists.{length}
use soma_benchmark.Base.Json.{Value, bool, str, obj, Fields, end, field}
use soma_benchmark.Compressor.Rounds.{
  Answer, response, service_error, literal, no_result_for, round, ids_from,
}
use soma_benchmark.Compressor.Rounds.Answers.{Answers, Each, round-Answers}
use soma_benchmark.Compressor.Sessions.{
  Session, outside, waiting, new, begin_round, ids_of, same_ids, deliver, take_results, time_out,
  clear_pending,
}
use soma_benchmark.Compressor.Sessions.Protocol.{
  deliver_nothing, here, next, asks, delivers, take_results-same_ids,
}
use soma_benchmark.Compressor.Store
use soma_benchmark.Compressor.Store.Lookup.{IsDict, live, get-add}

abbrev show : ℕ → String
show zero = "0"
show (suc zero) = "1"
show (suc (suc zero)) = "2"
show _ = "many"

abbrev result : String → Fields
result cid = field "id" (str cid) (field "ok" (bool true) (field "response" (obj end) end))

-- Results in another order than the calls, one of them for no call.
abbrev round_trip : List String → List ℕ → List Fields
round_trip ids calls = result "9" ∷ result "1" ∷ []

answered :
    round show (some round_trip) (5 ∷ 6 ∷ []) 0
    ≡ (some (response end ∷ service_error (literal "invalid_result") (no_result_for "2") ∷ []), 2)
unfolding round
answered = refl

round-Answers_example :
    let calls : List ℕ = 5 ∷ 6 ∷ [] in
    let ids = ids_from show 0 calls in
    (out : List Answer) × ((round show (some round_trip) calls 0).0 ≡ some out)
    × Each (Answers (round_trip ids calls)) ids out
    × (length out ≡ length calls)
round-Answers_example = round-Answers show round_trip (5 ∷ 6 ∷ []) 0

abbrev results : List Value
results = obj (result "1") ∷ []

abbrev asked : Session
asked = begin_round ("1" ∷ []) new

abbrev delivered : Session
delivered = record {
  miner = waiting ("1" ∷ []);
  round = 1;
  pending_ids = [];
  events = asked.events;
  results = results ∷ [];
}

deliver_runs : deliver results asked ≡ some delivered
unfolding deliver begin_round new
deliver_runs = refl

names_a_call : ids_of results ≢ []
unfolding ids_of
names_a_call h = cc

deliver_nothing_example :
    (t : Session) × (deliver [] new ≡ some t)
    × ((u : Session) × (take_results (begin_round ("1" ∷ []) t) ≡ some ([], u)))
unfolding new
deliver_nothing_example = deliver_nothing new ("1" ∷ []) refl refl

-- Results that come between a timeout and its clean-up stay in the queue for the next round.
late_results :
    let expired = record asked { miner = soma_benchmark.Compressor.Sessions.expired ("1" ∷ []) } in
    (time_out asked ≡ some expired)
    × (deliver results expired ≡ some (record expired { pending_ids = []; results = results ∷ [] }))
    × (clear_pending (record expired { pending_ids = []; results = results ∷ [] })
        ≡ some (record asked { miner = outside; pending_ids = []; results = results ∷ [] }))
unfolding time_out deliver clear_pending begin_round new
late_results = (refl, refl, refl)

is_outside : new.miner ≡ outside
unfolding new
is_outside = refl

abbrev taken : Session
taken = record delivered { miner = outside; results = [] }

take_runs : take_results delivered ≡ some (results, taken)
unfolding take_results begin_round new
take_runs = refl

take_results-same_ids_example :
    (ids : List String) × (delivered.miner ≡ waiting ids) × (same_ids results ids ≡ true)
take_results-same_ids_example =
    take_results-same_ids taken results
      (next (next here (asks ("1" ∷ []) is_outside)) (delivers results names_a_call deliver_runs))
      take_runs

abbrev created : ℕ → ℕ
created t = t

abbrev store : List (String × ℕ)
store = ("a", 0) ∷ ("b", 200000) ∷ []

store-IsDict : IsDict created store
unfolding Store.get
store-IsDict = (refl, (refl, tt))

added : Store.add created 300001 "c" 300001 store ≡ ("b", 200000) ∷ ("c", 300001) ∷ []
unfolding Store.add
added = refl

get-add_example :
    Store.get "a" (Store.add created 300001 "c" 300001 store)
    ≡ (if str_eq "c" "a" then some 300001 else live created 300001 (Store.get "a" store))
get-add_example = get-add created 300001 "c" "a" 300001 store store-IsDict
