-- ===== src/Compressor/Handlers/Steps.antt =====
-- The handlers against the view, for one request.
use soma_benchmark.Base.{
  ℕ, ◌+◌, String, ◌≡◌, refl, ap, ◌∙◌, eq_iff, true, false, Option, none, some, List, [], ◌∷◌, ◌++◌,
  inl, inr, Bool-cases, str_eq,
}
use mathlib.Core.Option
use soma_benchmark.Base.Json.{Value, Fields}
use soma_benchmark.Compressor.Sessions.{new, same_ids, deliver, take_results}
use soma_benchmark.Compressor.Store
use soma_benchmark.Compressor.Handlers.{
  Turn, Entry, Reply, blocked, http_error, Service, is_asking, with_lock, refusal, transform_resume,
  start_session, invoke_in_handler, answer_turn, logged,
}
use soma_benchmark.Compressor.Handlers.View.{
  Parked, View, lookup, parked, reply_of, Op, start, resume, invoke, step, waits, resume_parked,
  step_view, entry_of, Shows,
}
use soma_benchmark.Compressor.Handlers.Stored.{
  stored, session_answer-running, turn-Shows, add-HoldsBut,
}

abbrev begun : ℕ → (List (List Value) → Turn) → Entry
begun now turns = record { session = new; turns = turns; history = []; created = now }

start_session-stored :
    (now : ℕ) (sid : String) (turns : List (List Value) → Turn) (s : Service)
    → s.locked ≡ false
    → start_session now sid turns s ≡ (
      reply_of sid 1 (turns []),
      record {
        locked = is_asking (turns []);
        sessions =
            stored sid
              (parked (turns []) 1 turns [] now)
              (Store.add (λ e. e.created) now sid (begun now turns) s.sessions);
      },
    )
unfolding start_session new
start_session-stored now sid turns s h = rw h (
    ap (with_lock (is_asking (turns []))) (
      session_answer-running sid (turns []) 0 turns [] now
        (Store.add (λ e. e.created) now sid (begun now turns) s.sessions)))

start_session-blocked :
    (now : ℕ) (sid : String) (turns : List (List Value) → Turn) (s : Service)
    → s.locked ≡ true
    → ((start_session now sid turns s).0 ≡ blocked)
      × ((start_session now sid turns s).1.locked ≡ true)
unfolding start_session
start_session-blocked now sid turns s h = rw h (refl, refl)

transform_resume-stored :
    (sid : String) (results : List Value) (p : Parked) (s : Service)
    → Store.get sid s.sessions ≡ some (entry_of p)
    → same_ids results p.ids ≡ true
    → let history = p.history ++ results ∷ [] in
      let turn = p.turns history in
      transform_resume sid results s ≡ (
        reply_of sid (p.round + 1) turn,
        record {
          locked = is_asking turn;
          sessions = stored sid (parked turn (p.round + 1) p.turns history p.created) s.sessions;
        },
      )
unfolding transform_resume deliver take_results
transform_resume-stored sid results p s g h =
    let history = p.history ++ results ∷ [] in
    let turn = p.turns history in
    rw (g, h)
      (ap (with_lock (is_asking turn))
        (session_answer-running sid turn p.round p.turns history p.created s.sessions))

transform_resume-refused :
    (sid : String) (results : List Value) (p : Parked) (s : Service)
    → Store.get sid s.sessions ≡ some (entry_of p)
    → same_ids results p.ids ≡ false
    → transform_resume sid results s ≡ (http_error (refusal results), s)
unfolding transform_resume deliver
transform_resume-refused sid results p s g h = rw (g, h) refl

transform_resume-unknown :
    (sid : String) (results : List Value) (s : Service)
    → Store.get sid s.sessions ≡ none
    → transform_resume sid results s ≡ (http_error 404, s)
unfolding transform_resume
transform_resume-unknown sid results s g = rw g refl

-- A step answers as the view does, and its state shows the next view.
abbrev Follows : Reply × Service → Reply × View → Type 0
Follows (reply, s) (reply', v) = (reply ≡ reply') × Shows s v

-- Only one session is there.
lookup-other :
    (sid j : String) (p : Parked) → str_eq sid j ≡ false → lookup (some (sid, p)) j ≡ none
lookup-other sid j p e = rw e refl

lookup-same : (sid : String) (p : Parked) → lookup (some (sid, p)) sid ≡ some p
lookup-same sid p = rw ((eq_iff sid sid).1 refl) refl

resume_parked-Follows :
    (sid : String) (results : List Value) (p : Parked) (s : Service)
    → Shows s (some (sid, p))
    → Follows (transform_resume sid results s) (resume_parked sid results p)
resume_parked-Follows sid results p s h =
    let g : Store.get sid s.sessions ≡ some (entry_of p) =
      h.1.1 sid ∙ ap (Option.map entry_of) (lookup-same sid p) in
    elim (Bool-cases (same_ids results p.ids)) [
      | inl e ↦
          let history = p.history ++ results ∷ [] in
          rw (transform_resume-stored sid results p s g e, e)
            (
              refl,
              turn-Shows sid (p.turns history) (p.round + 1) p.turns history p.created s.sessions
                  (some (sid, p)) (h.1.0, λ j _. h.1.1 j) (λ j n. lookup-other sid j p n),
            )
      | inr e ↦ rw (transform_resume-refused sid results p s g e, e) (refl, h)
    ]

invoke_in_handler-Follows :
    (result : Option Fields) (s : Service)
    → Shows s none
    → Follows (invoke_in_handler result s) (answer_turn (logged result), none)
unfolding invoke_in_handler
invoke_in_handler-Follows result s h = (rw (h.0) refl, h)

invoke_in_handler-blocked :
    (result : Option Fields) (s : Service)
    → s.locked ≡ true
    → ((invoke_in_handler result s).0 ≡ blocked) × ((invoke_in_handler result s).1.locked ≡ true)
unfolding invoke_in_handler
invoke_in_handler-blocked result s h = (rw h refl, h)

pub step-Follows :
    (op : Op) (s : Service) (v : View)
    → Shows s v
    → waits op v ≡ false
    → Follows (step op s) (step_view op v)
step-Follows (start now sid turns) s none h w = rw (start_session-stored now sid turns s h.0) (
  refl,
  turn-Shows sid (turns []) 1 turns [] now
      (Store.add (λ e. e.created) now sid (begun now turns) s.sessions) none
      (add-HoldsBut now sid (begun now turns) s.sessions h.1) (λ j _. refl),
)
step-Follows (start now sid turns) s (some p) h w = cc
step-Follows (invoke result) s none h w = invoke_in_handler-Follows result s h
step-Follows (invoke result) s (some p) h w = cc
step-Follows (resume sid results) s none h w =
    rw (transform_resume-unknown sid results s (h.1.1 sid)) (refl, h)
step-Follows (resume sid results) s (some (holder, p)) h w = elim (Bool-cases (str_eq holder sid)) [
  | inl e ↦
      let q : holder ≡ sid = (eq_iff holder sid).0 e in
      rw e (resume_parked-Follows sid results p s (rw q at h))
  | inr e ↦
      let g : Store.get sid s.sessions ≡ none =
        h.1.1 sid ∙ ap (Option.map entry_of) (lookup-other holder sid p e) in
      rw (e, transform_resume-unknown sid results s g) (refl, h)
]

pub step-waits :
    (op : Op) (s : Service) (v : View)
    → Shows s v
    → waits op v ≡ true
    → ((step op s).0 ≡ blocked) × ((step op s).1.locked ≡ true)
step-waits (start now sid turns) s none h w = cc
step-waits (start now sid turns) s (some p) h w = start_session-blocked now sid turns s h.0
step-waits (invoke result) s none h w = cc
step-waits (invoke result) s (some p) h w = invoke_in_handler-blocked result s h.0
step-waits (resume sid results) s v h w = cc
