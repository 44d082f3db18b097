-- ===== src/Compressor/Handlers/View.antt =====
-- The service as the proxy sees it: the miner that is suspended, and what requests do to it.
use soma_benchmark.Base.{
  ℕ, ◌+◌, Bool, true, false, String, ◌≡◌, Option, none, some, List, [], ◌∷◌, ◌++◌, str_eq,
  if◌then◌else◌,
}
use mathlib.Core.Option
use soma_benchmark.Base.Json.{Value, Fields}
use soma_benchmark.Compressor.Sessions.{waiting, same_ids}
use soma_benchmark.Compressor.Store
use soma_benchmark.Compressor.Store.Lookup.{IsDict}
use soma_benchmark.Compressor.Handlers.{
  Turn, asks, returns, raises, Entry, Reply, pending_calls, blocked, http_error, Sessions, Service,
  refusal, finish_transform, error_reply, transform_resume, start_session, invoke_in_handler,
  answer_turn, logged,
}

-- A suspended miner: how it goes on, the results so far, and the calls that it waits for.
pub record Parked : Type 0 where
  pub turns : List (List Value) → Turn
  pub history : List (List Value)
  pub round : ℕ
  pub ids : List String
  pub created : ℕ

-- What the proxy sees of the service: the miner that is suspended, if there is one, under its session id.
abbrev pub View : Type 0
View = Option (String × Parked)

abbrev pub lookup : View → String → Option Parked
lookup none j = none
lookup (some (sid, p)) j = if str_eq sid j then some p else none

abbrev pub under : String → Option Parked → View
under sid none = none
under sid (some p) = some (sid, p)

abbrev pub parked : Turn → ℕ → (List (List Value) → Turn) → List (List Value) → ℕ → Option Parked
parked (asks ids) round turns history created =
    some (record { turns = turns; history = history; round = round; ids = ids; created = created })
parked _ round turns history created = none

abbrev pub reply_of : String → ℕ → Turn → Reply
reply_of sid round (asks ids) = pending_calls sid round ids
reply_of sid round (returns value) = finish_transform value
reply_of sid round (raises failure) = error_reply failure

-- A request that starts a session at a time, under a new id, one that brings the results of a round, or
-- one that is answered by a call of the compressor without services, with the result of that call.
pub data Op : Type 0 where
  start : ℕ → String → (List (List Value) → Turn) → Op
  resume : String → List Value → Op
  invoke : Option Fields → Op

abbrev pub step : Op → Service → Reply × Service
step (start now sid turns) s = start_session now sid turns s
step (resume sid results) s = transform_resume sid results s
step (invoke result) s = invoke_in_handler result s

-- The same requests on the view. One that calls the compressor has to wait while a miner is suspended.
abbrev pub waits : Op → View → Bool
waits (start now sid turns) (some _) = true
waits (invoke result) (some _) = true
waits _ _ = false

abbrev pub resume_parked : String → List Value → Parked → Reply × View
resume_parked sid results p =
    let history = p.history ++ results ∷ [] in
    let turn = p.turns history in
    let round = p.round + 1 in
    if same_ids results p.ids
    then (reply_of sid round turn, under sid (parked turn round p.turns history p.created))
    else (http_error (refusal results), some (sid, p))

abbrev pub step_view : Op → View → Reply × View
step_view (start now sid turns) v =
    (reply_of sid 1 (turns []), under sid (parked (turns []) 1 turns [] now))
step_view (invoke result) v = (answer_turn (logged result), v)
step_view (resume sid results) none = (http_error 404, none)
step_view (resume sid results) (some (holder, p)) =
    if str_eq holder sid then resume_parked sid results p else (http_error 404, some (holder, p))

abbrev pub is_blocked : Reply → Bool
is_blocked blocked = true
is_blocked _ = false

-- Both go on until a request has to wait.
abbrev pub run_on : Reply → List Reply × Service → Service → List Reply × Service
run_on reply (replies, s) s' = if is_blocked reply then (reply ∷ [], s') else (reply ∷ replies, s)

abbrev pub run : List Op → Service → List Reply × Service
run [] s = ([], s)
run (op ∷ ops) s = let (reply, s') = step op s in run_on reply (run ops s') s'

-- The view is `none` where the last request waits.
abbrev pub replay_on : Bool → Reply → List Reply × Option View → List Reply × Option View
replay_on true reply later = (blocked ∷ [], none)
replay_on false reply (replies, v) = (reply ∷ replies, v)

abbrev pub replay : List Op → View → List Reply × Option View
replay [] v = ([], some v)
replay (op ∷ ops) v =
    let (reply, v') = step_view op v in replay_on (waits op v) reply (replay ops v')

abbrev pub entry_of : Parked → Entry
entry_of p = record {
  session = record {
    miner = waiting p.ids;
    round = p.round;
    pending_ids = p.ids;
    events = [];
    results = [];
  };
  turns = p.turns;
  history = p.history;
  created = p.created;
}

abbrev pub is_some {ℓ} : {A : Type ℓ} → Option A → Bool
is_some none = false
is_some (some _) = true

-- The store holds these sessions and no others: each of them waits with empty queues.
abbrev pub Holds : Sessions → (String → Option Parked) → Type 0
Holds d f = IsDict (λ e. e.created) d × ((j : String) → Store.get j d ≡ Option.map entry_of (f j))

-- The lock is held by the miner of the view, and the store holds its session only.
abbrev pub Shows : Service → View → Type 0
Shows s v = (s.locked ≡ is_some v) × Holds s.sessions (lookup v)

-- Where the last request waits, the lock is held.
abbrev pub ShowsLast : Service → Option View → Type 0
ShowsLast s none = s.locked ≡ true
ShowsLast s (some v) = Shows s v
