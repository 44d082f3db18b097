-- ===== src/Compressor/Sessions/Protocol.antt =====
-- The protocol of a session: deliveries, takes and the runs of both threads.
use soma_benchmark.Base.{
  String, ◌≡◌, ◌≢◌, refl, true, false, Option, none, some, List, [], ◌∷◌, ◌++◌, arith, inl, inr,
  Bool-cases,
}
use soma_benchmark.Base.Json.{Value}
use soma_benchmark.Compressor.Sessions.{
  Session, Miner, all_among, is_among, take_from, take_as, outside, waiting, expired, new,
  begin_round, ids_of, same_ids, deliver, take_results,
}

not_among : (os : List (Option Value)) → os ≢ [] → all_among [] os ≡ false
not_among [] n = absurd (n refl)
not_among (o ∷ os) n = unfold is_among in refl

-- Results are accepted once: a second delivery of any results that name a call is refused, until the
-- miner asks again.
pub deliver_twice :
    (results again : List Value) (s t : Session)
    → deliver results s ≡ some t
    → ids_of again ≢ []
    → deliver again t ≡ none
unfolding deliver same_ids
deliver_twice results again s t h n =
    let p : t.pending_ids ≡ [] = ground arith in rw (p, not_among (ids_of again) n)

-- A delivery of no results is accepted whenever no call is pending, although nothing asked for it,
-- and it is what the miner's next round takes in place of its own results.
pub deliver_nothing :
    (s : Session) (ids : List String)
    → s.pending_ids ≡ []
    → s.results ≡ []
    → (t : Session) × (deliver [] s ≡ some t)
      × ((u : Session) × (take_results (begin_round ids t) ≡ some ([], u)))
unfolding deliver same_ids take_results begin_round
deliver_nothing s ids p r =
    let t : Session = record s { pending_ids = []; results = s.results ++ [] ∷ [] } in
    let e : t.results ≡ [] ∷ [] = rw r in
    (t, rw p, (record (begin_round ids t) { miner = outside; results = [] }, rw e))

-- The steps of a session in which no call times out and every delivery names a call: the miner asks,
-- a handler delivers, the miner takes.
pub data Step : Session → Session → Type 0 where
  asks : {s : Session} (ids : List String) → s.miner ≡ outside → Step s (begin_round ids s)
  delivers :
      {s t : Session} (results : List Value)
      → ids_of results ≢ []
      → deliver results s ≡ some t
      → Step s t
  takes : {s t : Session} (results : List Value) → take_results s ≡ some (results, t) → Step s t

pub data Reach (s : Session) : Session → Type 0 where
  here : Reach s s
  next : {t u : Session} → Reach s t → Step t u → Reach s u

-- Nothing is queued for a miner that does not wait; for one that waits, either its call is pending
-- or the one queued list of results answers exactly its calls.
abbrev InStep : Miner → List String → List (List Value) → Type 0
InStep outside pending results = (pending ≡ []) × (results ≡ [])
InStep (waiting ids) pending [] = pending ≡ ids
InStep (waiting ids) pending (r ∷ []) = (pending ≡ []) × (same_ids r ids ≡ true)
InStep (waiting ids) pending (r ∷ q ∷ results) = ⊥
InStep (expired ids) pending results = ⊥

abbrev IsInStep : Session → Type 0
IsInStep s = InStep s.miner s.pending_ids s.results

ask-InStep :
    (ids pending : List String) (m : Miner) (results : List (List Value))
    → m ≡ outside
    → InStep m pending results
    → InStep (waiting ids) ids results
ask-InStep ids pending outside results e i = rw (i.1) refl
ask-InStep ids pending (waiting _) results e i = cc
ask-InStep ids pending (expired _) results e i = cc

-- Only a pending call can be answered by results that name a call.
same_ids-ne-nil :
    (results : List Value) (pending : List String)
    → ids_of results ≢ []
    → same_ids results pending ≡ true
    → pending ≢ []
unfolding same_ids
same_ids-ne-nil results pending n h e =
    let q : all_among [] (ids_of results) ≡ true = rw e at h in cc (q, not_among (ids_of results) n)

deliver-InStep :
    (new_results : List Value) (m : Miner) (pending : List String) (results : List (List Value))
    → pending ≢ []
    → same_ids new_results pending ≡ true
    → InStep m pending results
    → InStep m [] (results ++ new_results ∷ [])
deliver-InStep r outside pending results n h i = absurd (n i.0)
deliver-InStep r (waiting ids) pending [] n h i = (refl, rw (← i) h)
deliver-InStep r (waiting ids) pending (_ ∷ []) n h i = absurd (n i.0)
deliver-InStep r (waiting ids) pending (_ ∷ (_ ∷ _)) n h i = elim i [ ]
deliver-InStep r (expired _) pending results n h i = elim i [ ]

deliver-IsInStep :
    (results : List Value) (s t : Session)
    → ids_of results ≢ []
    → deliver results s ≡ some t
    → IsInStep s
    → IsInStep t
unfolding deliver
deliver-IsInStep results s t n h i = elim (Bool-cases (same_ids results s.pending_ids)) [
  | inl k ↦
      let e : t ≡ record s { pending_ids = []; results = s.results ++ results ∷ [] } =
        ground arith in
      rw e (
        deliver-InStep results s.miner s.pending_ids s.results
          (same_ids-ne-nil results s.pending_ids n k) k i)
  | inr k ↦ absurd (ground arith)
]

-- A take is that of the first queued list, by a waiting miner.
take_from-eq-some :
    (queue : List (List Value)) (s t : Session) (results : List Value)
    → take_from queue s ≡ some (results, t)
    → (rest : List (List Value)) × (queue ≡ results ∷ rest)
      × (t ≡ record s { miner = outside; results = rest })
take_from-eq-some [] s t results h = cc
take_from-eq-some (r ∷ rest) s t results h = (rest, ground arith, ground arith)

take_as-eq-some :
    (m : Miner) (s t : Session) (results : List Value)
    → take_as m s ≡ some (results, t)
    → (ids : List String) × (m ≡ waiting ids) × (take_from s.results s ≡ some (results, t))
take_as-eq-some outside s t results h = cc
take_as-eq-some (waiting ids) s t results h = (ids, refl, h)
take_as-eq-some (expired ids) s t results h = cc

take-InStep :
    (m : Miner) (pending ids : List String) (queue rest : List (List Value)) (r : List Value)
    → m ≡ waiting ids
    → queue ≡ r ∷ rest
    → InStep m pending queue
    → (pending ≡ []) × (rest ≡ []) × (same_ids r ids ≡ true)
take-InStep outside pending ids queue rest r e q i = cc
take-InStep (expired _) pending ids queue rest r e q i = cc
take-InStep (waiting x) pending ids [] rest r e q i = cc
take-InStep (waiting x) pending ids (y ∷ []) rest r e q i = ground arith
take-InStep (waiting x) pending ids (y ∷ z ∷ queue) rest r e q i = absurd i

-- What a take gives, in step: results that answer the calls of the round.
take_results-InStep :
    (results : List Value) (s t : Session)
    → take_results s ≡ some (results, t)
    → IsInStep s
    → (ids : List String) × (s.miner ≡ waiting ids) × (same_ids results ids ≡ true) × IsInStep t
unfolding take_results
take_results-InStep results s t h i =
    let (ids, w, f) = take_as-eq-some s.miner s t results h in
    let (rest, q, e) = take_from-eq-some s.results s t results f in
    let (p, n, k) = take-InStep s.miner s.pending_ids ids s.results rest results w q i in
    (ids, w, k, rw e (p, n))

Step-IsInStep : {s t : Session} → Step s t → IsInStep s → IsInStep t
Step-IsInStep (asks {s = s} ids e) i =
    unfold begin_round in ask-InStep ids s.pending_ids s.miner s.results e i
Step-IsInStep (delivers {s = s} {t = t} results n h) i = deliver-IsInStep results s t n h i
Step-IsInStep (takes {s = s} {t = t} results h) i = (take_results-InStep results s t h i).3

Reach-IsInStep : {t : Session} → Reach new t → IsInStep t
Reach-IsInStep here = unfold new in (refl, refl)
Reach-IsInStep (next r st) = Step-IsInStep st (Reach-IsInStep r)

-- Whatever the order of the steps, a miner that takes results waits for a round, and the results
-- answer exactly the calls of that round. No call is to time out, and every delivery is to name a
-- call.
pub take_results-same_ids :
    {s : Session} (t : Session) (results : List Value)
    → Reach new s
    → take_results s ≡ some (results, t)
    → (ids : List String) × (s.miner ≡ waiting ids) × (same_ids results ids ≡ true)
take_results-same_ids {s} t results r h =
    let (ids, w, k, _) = take_results-InStep results s t h (Reach-IsInStep r) in (ids, w, k)
