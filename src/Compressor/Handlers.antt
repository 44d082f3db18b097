-- ===== src/Compressor/Handlers.antt =====
-- The two handlers of src/compression_service/app/main.py over the store of sessions and the lock that a call
-- of the compressor holds, suspended or not. A handler runs from its request to its answer, or until it
-- has to wait for the lock; what happens after such a wait is not modelled. The miner's thread moves as
-- soon as it can, no call times out, and no two handlers run at once.
pub mod Answers
pub mod Refines
pub mod Steps
pub mod Stored
pub mod View
mod Tests
use soma_benchmark.Base.{
  ℕ, ◌+◌, String, Bool, true, false, Option, none, some, List, [], ◌∷◌, ◌++◌, if◌then◌else◌,
}
use soma_benchmark.Base.Json.{Value, null, obj, Fields, get}
use soma_benchmark.Compressor.App.{
  Ran, Compressor, Arguments, extract_messages, arguments, finish_call, invoke_compressor,
  miner_takes_services, parse_offer,
}
use soma_benchmark.Compressor.Sessions.{
  Session, Event, Failure, pending, done, error, http_exception, other, new, begin_round, deliver,
  raises_value_error, take_results, finish, next_event,
}
use soma_benchmark.Compressor.Store

-- What the thread of a miner does next: it asks for a round of calls with these ids, or it ends with
-- a payload or an exception.
pub data Turn : Type 0 where
  asks : List String → Turn
  returns : Value → Turn
  raises : Failure → Turn

-- A session with the thread of its miner, whose next turn depends on the results so far.
pub record Entry : Type 0 where
  pub session : Session
  pub turns : List (List Value) → Turn
  pub history : List (List Value)
  pub created : ℕ

-- The answer to a request. A handler is blocked while the events queue stays
-- empty, or while it waits for the lock.
pub data Reply : Type 0 where
  pending_calls : String → ℕ → List String → Reply
  payload : Fields → Reply
  http_error : ℕ → Reply
  blocked : Reply

abbrev pub Sessions : Type 0
Sessions = List (String × Entry)

-- `_SESSIONS`, and whether `_COMPRESSOR_EXEC_LOCK` is held.
pub record Service : Type 0 where
  pub locked : Bool
  pub sessions : Sessions

abbrev pub with_lock : Bool → Reply × Sessions → Reply × Service
with_lock locked (reply, d) = (reply, record { locked = locked; sessions = d })

-- `_finish_transform`
abbrev pub finish_transform : Value → Reply
finish_transform (obj d) = payload d
finish_transform _ = http_error 500

abbrev pub error_reply : Failure → Reply
error_reply (http_exception status) = http_error status
error_reply other = http_error 500

-- `_session_answer` for an event of the session.
abbrev answer_event : String → Event → Entry → Sessions → Reply × Sessions
answer_event sid (pending round ids) e d = (pending_calls sid round ids, Store.insert sid e d)
answer_event sid (done value) e d = (finish_transform value, Store.drop sid d)
answer_event sid (error failure) e d = (error_reply failure, Store.drop sid d)

-- `_session_answer`; the session is an object of the store, so its change is seen there.
unfoldable pub session_answer : String → Entry → Sessions → Reply × Sessions
unfolding next_event Store.insert Store.drop
session_answer sid e d = elim (next_event e.session) [
  | none ↦ (blocked, Store.insert sid e d)
  | some (event, s) ↦ answer_event sid event (record e { session = s }) d
]

-- The miner's thread, up to its next round of calls or its end.
unfoldable pub work : Turn → Session → Session
unfolding begin_round finish
work (asks ids) s = begin_round ids s
work (returns result) s = finish none result s
work (raises failure) s = finish (some failure) null s

-- The lock is held until the miner ends.
abbrev pub is_asking : Turn → Bool
is_asking (asks _) = true
is_asking _ = false

-- The miner's thread after a delivery: it goes on if it waits. With the lock, which it then holds.
abbrev pub resumed : Entry → Option (List Value × Session) → Session → Bool → Entry × Bool
resumed e none s locked = (record e { session = s }, locked)
resumed e (some (results, t)) s locked =
    let history = e.history ++ results ∷ [] in
    let turn = e.turns history in
    (record e { session = work turn t; history = history }, is_asking turn)

-- The status of the exception of a delivery: only a `ValueError` is caught.
abbrev pub refusal : List Value → ℕ
unfolding raises_value_error
refusal results = if raises_value_error results then 400 else 500

-- `transform_resume` after the delivery and after the lookup.
abbrev pub resume_with : String → List Value → Option Session → Entry → Service → Reply × Service
resume_with sid results none e v = (http_error (refusal results), v)
resume_with sid results (some s) e v =
    let (e', locked) = resumed e (take_results s) s v.locked in
    with_lock locked (session_answer sid e' v.sessions)

abbrev pub resume_entry : String → List Value → Option Entry → Service → Reply × Service
resume_entry sid results none v = (http_error 404, v)
resume_entry sid results (some e) v = resume_with sid results (deliver results e.session) e v

-- `transform_resume`
unfoldable pub transform_resume : String → List Value → Service → Reply × Service
unfolding Store.get deliver take_results work session_answer refusal
transform_resume sid results v = resume_entry sid results (Store.get sid v.sessions) v

-- `transform_payload` for a miner that may call services, from `Session(offer)` on. The miner's thread
-- waits for the lock first, and the handler for that thread.
unfoldable pub start_session : ℕ → String → (List (List Value) → Turn) → Service → Reply × Service
unfolding Store.add new work session_answer
start_session now sid turns v =
    let e : Entry = record { session = new; turns = turns; history = []; created = now } in
    let d = Store.add (λ e. e.created) now sid e v.sessions in
    if v.locked
    then (blocked, record v { sessions = d })
    else with_lock (is_asking (turns []))
        (session_answer sid (record e { session = work (turns []) new }) d)

-- A call of the compressor that may be suspended: a round of service calls, or its end.
pub data Served : Type 0 where
  calls : List String → Served
  ends : Ran → Served

-- `_invoke_compressor_logged`: an exception becomes an `HTTPException`.
abbrev pub logged : Option Fields → Turn
logged none = raises (http_exception 500)
logged (some d) = returns (obj d)

unfoldable pub turn_of : Bool → Fields → Served → Turn
unfolding finish_call
turn_of mutate d (calls ids) = asks ids
turn_of mutate d (ends ran) = logged (finish_call mutate d ran)

abbrev pub answer_turn : Turn → Reply
answer_turn (asks _) = blocked
answer_turn (returns value) = finish_transform value
answer_turn (raises failure) = error_reply failure

-- A call of the compressor in the handler itself, with its result.
unfoldable pub invoke_in_handler : Option Fields → Service → Reply × Service
invoke_in_handler result v = (if v.locked then blocked else answer_turn (logged result), v)

-- The request, without the fields that are only logged.
pub record Request : Type 0 where
  pub payload : Fields
  pub path : String
  pub context : Fields
  pub services : Option Value

-- `services` is what `Session` makes of an offer, `served` the call of a compressor that gets it.
module _ {ℓ} {S : Type ℓ} (no_services : S) (services : String → Fields → S) where
  abbrev served_turns :
      (Arguments S → List (List Value) → Served)
      → Compressor S
      → Bool
      → String
      → Fields
      → Request
      → List (List Value)
      → Turn
  served_turns served c mutate sid offer r history = turn_of mutate r.payload (
      served
        (arguments no_services c.signature (extract_messages r.payload) r.path (some r.context)
          (some (services sid offer)))
        history)

  -- `transform_payload` at the time `now`; `sid` is the id of a new session.
  unfoldable pub transform_payload :
      (Arguments S → List (List Value) → Served)
      → Option (Compressor S)
      → Bool
      → ℕ
      → String
      → Request
      → Service
      → Reply × Service
  unfolding invoke_compressor arguments start_session turn_of invoke_in_handler
  transform_payload served none mutate now sid r v = invoke_in_handler (some r.payload) v
  transform_payload served (some c) mutate now sid r v =
      let direct =
        invoke_in_handler
          (invoke_compressor no_services (some c) mutate r.payload r.path (some r.context) none)
          v in
      elim (parse_offer r.services) [
        | none ↦ direct
        | some offer ↦
            if miner_takes_services (some c)
            then start_session now sid (served_turns served c mutate sid offer r) v
            else direct
      ]
