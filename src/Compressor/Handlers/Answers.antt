-- ===== src/Compressor/Handlers/Answers.antt =====
-- The answers of the handlers, and who has to wait.
use soma_benchmark.Base.{
  ◌≡◌, ◌≢◌, sym, refl, ap, ◌∙◌, Bool, true, false, List, [], ◌∷◌, inl, inr, Bool-cases,
}
use soma_benchmark.Compressor.Handlers.{Reply, blocked, Service}
use soma_benchmark.Compressor.Handlers.View.{
  View, Op, step, waits, step_view, is_blocked, run, Shows,
}
use soma_benchmark.Compressor.Handlers.Steps.{step-Follows, step-waits}
use soma_benchmark.Compressor.Handlers.Refines.{step-is_blocked, run-answered, run-waits}

-- A request waits and is the last, or it is answered and the rest follows.
abbrev pub AnsweredBy : Bool → Reply → List Reply → Type 0 → Type 0
AnsweredBy true reply replies Rest = (reply ≡ blocked) × (replies ≡ [])
AnsweredBy false reply replies Rest = (reply ≢ blocked) × Rest

-- The requests that wait are the calls of the compressor while a miner is suspended.
abbrev pub Answered : List Op → View → List Reply → Type 0
Answered [] v replies = replies ≡ []
Answered (op ∷ ops) v [] = ⊥
Answered (op ∷ ops) v (reply ∷ replies) =
    AnsweredBy (waits op v) reply replies (Answered ops (step_view op v).1 replies)

is_blocked-ne : (reply : Reply) → is_blocked reply ≡ false → reply ≢ blocked
is_blocked-ne reply h e = let k : true ≡ false = sym (ap is_blocked e) ∙ h in cc

-- Of any sequence of requests, up to the first that has to wait: a request waits exactly if it calls the
-- compressor, in a session or not, while another miner is suspended, and each other request gets its own
-- answer, whatever came before it and whatever results it brings. No call is to time out.
pub run-answers :
    (ops : List Op) (s : Service) (v : View) → Shows s v → Answered ops v (run ops s).0
run-answers [] s v h = refl
run-answers (op ∷ ops) s v h = elim (Bool-cases (waits op v)) [
  | inl w ↦ let (e, _) = step-waits op s v h w in rw (run-waits op ops s e, w) (refl, refl)
  | inr w ↦
      let (e, k) = step-Follows op s v h w in
      let b = step-is_blocked op s v e in
      rw (run-answered op ops s b, w)
        (is_blocked-ne (step op s).0 b, run-answers ops (step op s).1 (step_view op v).1 k)
]
