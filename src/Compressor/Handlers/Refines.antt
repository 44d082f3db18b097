-- ===== src/Compressor/Handlers/Refines.antt =====
-- The handlers against the view, over any sequence of requests.
use soma_benchmark.Base.{
  ℕ, ◌+◌, String, ◌≡◌, refl, ap, ◌∙◌, false, none, some, List, [], ◌∷◌, ◌++◌, inl, inr, Bool-cases,
  str_eq,
}
use soma_benchmark.Base.Json.{obj, Value}
use soma_benchmark.Compressor.Sessions.{Failure, http_exception, other, same_ids}
use soma_benchmark.Compressor.Handlers.{
  Turn, asks, returns, raises, blocked, Service, finish_transform, error_reply,
}
use soma_benchmark.Compressor.Handlers.View.{
  Parked, View, reply_of, Op, start, resume, invoke, step, waits, resume_parked, step_view,
  is_blocked, run, replay, Shows, ShowsLast,
}
use soma_benchmark.Compressor.Handlers.Steps.{step-Follows, step-waits}

finish_transform-is_blocked : (v : Value) → is_blocked (finish_transform v) ≡ false
finish_transform-is_blocked (obj _) = refl
finish_transform-is_blocked _ = refl

error_reply-is_blocked : (e : Failure) → is_blocked (error_reply e) ≡ false
error_reply-is_blocked (http_exception _) = refl
error_reply-is_blocked other = refl

reply_of-is_blocked :
    (sid : String) (round : ℕ) (turn : Turn) → is_blocked (reply_of sid round turn) ≡ false
reply_of-is_blocked sid round (asks _) = refl
reply_of-is_blocked sid round (returns v) = finish_transform-is_blocked v
reply_of-is_blocked sid round (raises e) = error_reply-is_blocked e

resume_parked-is_blocked :
    (sid : String) (results : List Value) (p : Parked)
    → is_blocked (resume_parked sid results p).0 ≡ false
resume_parked-is_blocked sid results p = elim (Bool-cases (same_ids results p.ids)) [
  | inl e ↦ rw e (reply_of-is_blocked sid (p.round + 1) (p.turns (p.history ++ results ∷ [])))
  | inr e ↦ rw e refl
]

step_view-is_blocked : (op : Op) (v : View) → is_blocked (step_view op v).0 ≡ false
step_view-is_blocked (start now sid turns) v = reply_of-is_blocked sid 1 (turns [])
step_view-is_blocked (invoke none) v = refl
step_view-is_blocked (invoke (some d)) v = refl
step_view-is_blocked (resume sid results) none = refl
step_view-is_blocked (resume sid results) (some (holder, p)) =
    elim (Bool-cases (str_eq holder sid)) [
      | inl e ↦ rw e (resume_parked-is_blocked sid results p)
      | inr e ↦ rw e refl
    ]

-- A run whose first request is answered, or waits.
pub run-answered :
    (op : Op) (ops : List Op) (s : Service)
    → is_blocked (step op s).0 ≡ false
    → let later = run ops (step op s).1 in run (op ∷ ops) s ≡ ((step op s).0 ∷ later.0, later.1)
run-answered op ops s h = rw h refl

pub run-waits :
    (op : Op) (ops : List Op) (s : Service)
    → (step op s).0 ≡ blocked
    → run (op ∷ ops) s ≡ (blocked ∷ [], (step op s).1)
run-waits op ops s h = rw h refl

pub step-is_blocked :
    (op : Op) (s : Service) (v : View)
    → (step op s).0 ≡ (step_view op v).0
    → is_blocked (step op s).0 ≡ false
step-is_blocked op s v e = ap is_blocked e ∙ step_view-is_blocked op v

-- The handlers answer any sequence of requests as the view does, up to a request that has to wait. A
-- started miner is suspended under its id until its results come, the results of a round go to it if
-- they come under its id, and the request is answered by what the miner does next. Its session is
-- forgotten when it ends; results under another id or for other calls than those of the last round
-- change nothing. A request that calls the compressor while a miner is suspended has to wait for the
-- lock. In the end the lock and the store show the view, or the lock is held if the last request
-- waits. No call is to time out.
pub run-replay :
    (ops : List Op) (s : Service) (v : View)
    → Shows s v
    → ((run ops s).0 ≡ (replay ops v).0) × ShowsLast (run ops s).1 (replay ops v).1
run-replay [] s v h = (refl, h)
run-replay (op ∷ ops) s v h = elim (Bool-cases (waits op v)) [
  | inl w ↦ let (e, l) = step-waits op s v h w in rw (run-waits op ops s e, w) (refl, l)
  | inr w ↦
      let (e, k) = step-Follows op s v h w in
      let (es, m) = run-replay ops (step op s).1 (step_view op v).1 k in
      rw (run-answered op ops s (step-is_blocked op s v e), w) (rw (e, es) refl, m)
]
