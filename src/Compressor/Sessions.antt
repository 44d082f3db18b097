-- ===== src/Compressor/Sessions.antt =====
-- `Session` of src/compression_service/app/services.py: a suspended miner between two threads. The miner
-- thread and the HTTP handlers take their steps in any order.
pub mod Protocol
use soma_benchmark.Base.{
  ℕ, ◌+◌, String, Bool, true, false, ◌&&◌, Option, none, some, List, [], ◌∷◌, ◌++◌, str_eq,
  if◌then◌else◌,
}
use soma_benchmark.Base.Json.{Value, str, arr, obj, get}

-- Where the miner thread stands in `_round_trip`: outside of it, waiting at `self._results.get`, or
-- past a timeout of that call and before `self._pending_ids = set()`.
pub data Miner : Type 0 where
  outside : Miner
  waiting : List String → Miner
  expired : List String → Miner

-- An exception that ends the miner: an `HTTPException` with its status, or another one.
pub data Failure : Type 0 where
  http_exception : ℕ → Failure
  other : Failure

-- What the events queue carries: the round and the ids of its calls, or the end of the miner.
pub data Event : Type 0 where
  pending : ℕ → List String → Event
  done : Value → Event
  error : Failure → Event

pub record Session : Type 0 where
  pub miner : Miner
  pub round : ℕ
  pub pending_ids : List String
  pub events : List Event
  pub results : List (List Value)

unfoldable pub new : Session
new = record { miner = outside; round = 0; pending_ids = []; events = []; results = [] }

-- `_round_trip` up to the wait.
unfoldable pub begin_round : List String → Session → Session
begin_round ids s = record {
  miner = waiting ids;
  round = s.round + 1;
  pending_ids = ids;
  events = s.events ++ pending (s.round + 1) ids ∷ [];
  results = s.results;
}

-- `{r.get("id") for r in results if isinstance(r, dict)}`; `none` where a result has no id.
abbrev pub id_of : Value → List (Option Value)
id_of (obj r) = get "id" r ∷ []
id_of _ = []

unfoldable pub ids_of : List Value → List (Option Value)
ids_of [] = []
ids_of (r ∷ results) = id_of r ++ ids_of results

abbrev pub is_str : String → Option Value → Bool
is_str s (some (str t)) = str_eq s t
is_str s _ = false

unfoldable pub holds : List (Option Value) → String → Bool
holds [] s = false
holds (o ∷ os) s = if is_str s o then true else holds os s

unfoldable pub is_among : List String → Option Value → Bool
is_among [] o = false
is_among (s ∷ ids) o = if is_str s o then true else is_among ids o

abbrev all_held : List (Option Value) → List String → Bool
all_held os [] = true
all_held os (s ∷ ids) = holds os s && all_held os ids

abbrev all_among : List String → List (Option Value) → Bool
all_among ids [] = true
all_among ids (o ∷ os) = is_among ids o && all_among ids os

-- The two sets of ids are equal.
unfoldable pub same_ids : List Value → List String → Bool
unfolding ids_of holds is_among
same_ids results ids = let os = ids_of results in all_held os ids && all_among ids os

-- `deliver`; `none` is an exception.
unfoldable pub deliver : List Value → Session → Option Session
unfolding same_ids
deliver results s =
    if same_ids results s.pending_ids
    then some (record s { pending_ids = []; results = s.results ++ results ∷ [] })
    else none

-- The exception of `deliver`: a `TypeError` for an id that is a list or a dict, which no set can hold,
-- and a `ValueError` for other results.
abbrev pub is_hashable : Option Value → Bool
is_hashable (some (arr _)) = false
is_hashable (some (obj _)) = false
is_hashable _ = true

abbrev all_hashable : List (Option Value) → Bool
all_hashable [] = true
all_hashable (o ∷ os) = is_hashable o && all_hashable os

unfoldable pub raises_value_error : List Value → Bool
unfolding ids_of
raises_value_error results = all_hashable (ids_of results)

-- `self._results.get`, where something is in the queue.
abbrev take_from : List (List Value) → Session → Option (List Value × Session)
take_from [] s = none
take_from (r ∷ results) s = some (r, record s { miner = outside; results = results })

abbrev take_as : Miner → Session → Option (List Value × Session)
take_as (waiting ids) s = take_from s.results s
take_as _ s = none

unfoldable pub take_results : Session → Option (List Value × Session)
take_results s = take_as s.miner s

-- `queue.Empty`, and then the clean-up of its handler.
unfoldable pub time_out : Session → Option Session
time_out s = elim s.miner [ waiting ids ↦ some (record s { miner = expired ids }) | _ ↦ none ]

unfoldable pub clear_pending : Session → Option Session
clear_pending s = elim s.miner [
  | expired ids ↦ some (record s { miner = outside; pending_ids = [] })
  | _ ↦ none
]

-- `finish`, by the result or the exception of the miner.
abbrev pub put_event : Event → Session → Session
put_event e s = record s { events = s.events ++ e ∷ [] }

unfoldable pub finish : Option Failure → Value → Session → Session
finish none result s = put_event (done result) s
finish (some failure) result s = put_event (error failure) s

-- `next_event`, where something is in the queue.
abbrev first_event : List Event → Session → Option (Event × Session)
first_event [] s = none
first_event (e ∷ events) s = some (e, record s { events = events })

unfoldable pub next_event : Session → Option (Event × Session)
next_event s = first_event s.events s
