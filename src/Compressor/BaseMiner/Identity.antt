-- ===== src/Compressor/BaseMiner/Identity.antt =====
-- The compression service around the base miner.
use soma_benchmark.Base.{
  ℕ, String, ◌≡◌, refl, ap, ◌∙◌, Bool, true, false, Option, none, some, inl, inr, Bool-cases,
  if◌then◌else◌, List, [], ◌∷◌, sym,
}
use mathlib.Core.Option.{some-injective}
use soma_benchmark.Base.Json.{Value, null, arr, Items, Fields, get}
use soma_benchmark.Compressor.Client.{Services, no_services, decide-total, offers}
use soma_benchmark.Compressor.App.{
  messages_of, services_or, metadata_of, extract_messages, arguments, invoke_compressor,
  has_parameter,
}
use soma_benchmark.Compressor.App.Invoke.{held_after, SameBut, Allowed, invoke_compressor-Allowed}
use soma_benchmark.Compressor.BaseMiner.{
  Printed, printed_of, last_tool, ask_about, result_of, return_after, state_of, ask_jev,
  print_answer, consult, compress_messages, base_miner,
}

held_after_self : (o : Option Value) → held_after (messages_of o) o ≡ o
unfolding messages_of
held_after_self none = refl
held_after_self (some (arr messages)) = refl
held_after_self (some _) = refl

module _ (show : ℕ → String) (str_of : Value → String) (questions : Value) where
  ask_about-total :
      (tool metadata : Option Fields) (s : Services)
      → (p : List Printed) × (ask_about show str_of questions tool metadata s ≡ some p)
  ask_about-total none metadata s = ([], refl)
  ask_about-total (some tool) metadata s =
      let state = state_of show str_of questions metadata tool in
      let (a, e) = decide-total show state questions null s in
      (printed_of a ∷ [], ap (print_answer show str_of questions) e)

  ask_jev-total :
      (messages : Items) (metadata : Option Fields) (s : Services)
      → (p : List Printed) × (ask_jev show str_of questions messages metadata s ≡ some p)
  unfolding ask_jev
  ask_jev-total messages metadata s = ask_about-total (last_tool messages) metadata s

  consult-total :
      (messages : Items) (metadata : Option Fields) (services : Option Services)
      → (p : List Printed) × (consult show str_of questions messages metadata services ≡ some p)
  consult-total messages metadata none = ([], refl)
  consult-total messages metadata (some s) = elim (Bool-cases (offers "jev" s)) [
    | inl e ↦ rw e (ask_jev-total messages metadata s)
    | inr e ↦ rw e ([], refl)
  ]

  compress_messages-identity :
      (messages : Items) (metadata : Option Fields) (services : Option Services)
      → (p : List Printed) × (compress_messages show str_of questions
            (some messages)
            metadata
            services
          ≡ some (messages, p))
  unfolding compress_messages
  compress_messages-identity messages metadata services =
      let (p, e) = consult-total messages metadata services in
      (p, ap (return_after show str_of questions messages) e)

  call-result :
      (messages : Items) (path : String) (context : Option Fields) (services : Option Services)
      → let c = base_miner show str_of questions in
        let ran = c.call (arguments no_services c.signature messages path context services) in
        (ran.result ≡ some (arr messages)) × (ran.messages ≡ messages)
  unfolding arguments has_parameter
  call-result messages path context services =
      let metadata = some (metadata_of context path) in
      let s = some (services_or no_services services) in
      let (p, e) = compress_messages-identity messages metadata s in
      (ap (result_of show str_of questions) e, refl)

  Allowed-identity :
      (mutate : Bool) (payload q : Fields)
      → let messages = extract_messages payload in
        Allowed mutate (arr messages) messages payload q
        → SameBut q payload
          × (get "messages" q ≡ (if mutate then some (arr messages) else get "messages" payload))
  Allowed-identity true payload q h = h
  Allowed-identity false payload q h = (h.0, h.1 ∙ held_after_self (get "messages" payload))

  -- The base miner never fails a request and changes nothing in it, whatever Jev or the proxy
  -- answers and whether or not services are offered: every field but the messages is as before, and
  -- so are the messages, except that a request without a list of messages gets an empty one where
  -- requests may be changed.
  pub invoke_compressor-base_miner :
      (mutate : Bool) (payload : Fields) (path : String) (context : Option Fields)
      (services : Option Services)
      → let c = base_miner show str_of questions in
        let messages = extract_messages payload in
        (q : Fields) × (invoke_compressor no_services (some c) mutate payload path context services
          ≡ some q)
        × SameBut q payload
        × (get "messages" q ≡ (if mutate then some (arr messages) else get "messages" payload))
  invoke_compressor-base_miner mutate payload path context services =
      let c = base_miner show str_of questions in
      let (e, m) = call-result (extract_messages payload) path context services in
      elim (invoke_compressor-Allowed no_services c mutate payload path context services) [
        | inl h ↦ absurd (let f = h.0 in cc)
        | inr (result, f, (q, o, a)) ↦
            let r : result ≡ arr (extract_messages payload) = some-injective _ _ (sym f ∙ e) in
            let (b, g) = Allowed-identity mutate payload q (rw (r, m) at a) in (q, o, b, g)
      ]
