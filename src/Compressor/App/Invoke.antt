-- ===== src/Compressor/App/Invoke.antt =====
-- The payload that a call of the compressor gives.
use soma_benchmark.Base.{
  String, ◌≡◌, ◌≢◌, refl, ◌∙◌, if◌then◌else◌, Bool, true, false, Option, none, some, ◌⊎◌, inl, inr,
  arith, Option-cases, eq_iff,
}
use soma_benchmark.Base.Json.{Value, arr, obj, Items, Fields, get, put, get-put}
use soma_benchmark.Compressor.App.{
  Ran, Compressor, extract_messages, payload_after, of_dict, mutated, finish_call, arguments,
  invoke_compressor,
}

get-with_messages :
    (k : String) (messages : Items) (payload : Fields)
    → k ≢ "messages"
    → get k (put "messages" (arr messages) payload) ≡ get k payload
get-with_messages k messages payload n =
    ground (arith, get-put "messages" k (arr messages) payload, eq_iff "messages" k)

-- `after` has the fields of `payload` except for its messages.
abbrev pub SameBut : Fields → Fields → Type 0
SameBut after payload = (k : String) → k ≢ "messages" → get k after ≡ get k payload

payload_after-SameBut :
    (messages : Items) (o : Option Value) (payload : Fields)
    → SameBut (payload_after messages o payload) payload
unfolding payload_after
payload_after-SameBut messages none payload k n = refl
payload_after-SameBut messages (some (arr _)) payload k n = get-with_messages k messages payload n
payload_after-SameBut messages (some _) payload k n = refl

-- The messages of a payload whose list of messages now holds `after`.
abbrev pub held_after : Items → Option Value → Option Value
held_after after (some (arr _)) = some (arr after)
held_after after o = o

-- `q` is the payload with these messages.
abbrev pub Replaces : Items → Fields → Fields → Type 0
Replaces messages payload q = SameBut q payload × (get "messages" q ≡ some (arr messages))

-- `q` is the payload, with what the call left in its list of messages.
abbrev pub Keeps : Items → Fields → Fields → Type 0
Keeps after payload q =
    SameBut q payload × (get "messages" q ≡ held_after after (get "messages" payload))

abbrev pub OfDict : Fields → Option Value → Fields → Fields → Type 0
OfDict result (some (arr messages)) payload q = Replaces messages payload q
OfDict result _ payload q = q ≡ result

-- What a payload may become by a result of the compressor.
abbrev pub Allowed : Bool → Value → Items → Fields → Fields → Type 0
Allowed false result after payload q = Keeps after payload q
Allowed true (arr messages) after payload q = Replaces messages payload q
Allowed true (obj result) after payload q = OfDict result (get "messages" result) payload q
Allowed true _ after payload q = Keeps after payload q

get-messages :
    (messages : Items) (payload : Fields)
    → get "messages" (put "messages" (arr messages) payload) ≡ some (arr messages)
get-messages messages payload = ground (arith, get-put "messages" "messages" (arr messages) payload)

with_messages-Replaces :
    (messages after : Items) (payload now : Fields)
    → Keeps after payload now
    → Replaces messages payload (put "messages" (arr messages) now)
with_messages-Replaces messages after payload now h =
    (λ k n. get-with_messages k messages now n ∙ h.0 k n, get-messages messages now)

get-payload_after :
    (messages : Items) (o : Option Value) (payload : Fields)
    → get "messages" payload ≡ o
    → get "messages" (payload_after messages o payload) ≡ held_after messages o
unfolding payload_after
get-payload_after messages none payload h = h
get-payload_after messages (some (arr _)) payload h = get-messages messages payload
get-payload_after messages (some _) payload h = h

payload_after-Keeps :
    (messages : Items) (payload : Fields)
    → Keeps messages payload (payload_after messages (get "messages" payload) payload)
payload_after-Keeps messages payload = (
  payload_after-SameBut messages (get "messages" payload) payload,
  get-payload_after messages (get "messages" payload) payload refl,
)

of_dict-OfDict :
    (result : Fields) (o : Option Value) (after : Items) (payload now : Fields)
    → Keeps after payload now
    → OfDict result o payload (of_dict result o now)
of_dict-OfDict result none after payload now h = refl
of_dict-OfDict result (some (arr messages)) after payload now h =
    with_messages-Replaces messages after payload now h
of_dict-OfDict result (some _) after payload now h = refl

mutated-Allowed :
    (result : Value) (after : Items) (payload now : Fields)
    → Keeps after payload now
    → Allowed true result after payload (mutated result now)
unfolding mutated
mutated-Allowed (arr messages) after payload now h =
    with_messages-Replaces messages after payload now h
mutated-Allowed (obj result) after payload now h =
    of_dict-OfDict result (get "messages" result) after payload now h
mutated-Allowed _ after payload now h = h

choose-Allowed :
    (mutate : Bool) (result : Value) (after : Items) (payload now : Fields)
    → Keeps after payload now
    → (q : Fields) × ((if mutate then some (mutated result now) else some now) ≡ some q)
      × Allowed mutate result after payload q
choose-Allowed true result after payload now h =
    (mutated result now, refl, mutated-Allowed result after payload now h)
choose-Allowed false result after payload now h = (now, refl, h)

finish_call-Allowed :
    (mutate : Bool) (payload : Fields) (ran : Ran)
    → ((ran.result ≡ none) × (finish_call mutate payload ran ≡ none))
      ⊎ ((result : Value) × (ran.result ≡ some result)
          × ((q : Fields) × (finish_call mutate payload ran ≡ some q)
              × Allowed mutate result ran.messages payload q))
unfolding finish_call
finish_call-Allowed mutate payload ran = elim (Option-cases ran.result) [
  | inl e ↦ inl (e, rw e)
  | inr (result, e) ↦
      let now = payload_after ran.messages (get "messages" payload) payload in
      let (q, f, a) =
        choose-Allowed mutate result ran.messages payload now
          (payload_after-Keeps ran.messages payload) in
      inr (result, e, (q, rw e f, a))
]

-- An exception of the compressor is one of the call. Otherwise the request keeps every field but its
-- messages, whatever the compressor returns, unless it may be changed and the result is a dict
-- without a list of messages, which then takes the place of the request. The messages are those that
-- the compressor returned, or, where it returned none or the request may not be changed, what it
-- left in the list that it was given.
pub invoke_compressor-Allowed {ℓ} :
    {S : Type ℓ} (no_services : S) (c : Compressor S) (mutate : Bool) (payload : Fields)
    (path : String) (context : Option Fields) (services : Option S)
    → let messages = extract_messages payload in
      let ran = c.call (arguments no_services c.signature messages path context services) in
      let out = invoke_compressor no_services (some c) mutate payload path context services in
      ((ran.result ≡ none) × (out ≡ none))
      ⊎ ((result : Value) × (ran.result ≡ some result)
          × ((q : Fields) × (out ≡ some q) × Allowed mutate result ran.messages payload q))
unfolding invoke_compressor
invoke_compressor-Allowed no_services c mutate payload path context services =
    let messages = extract_messages payload in
    finish_call-Allowed mutate payload
      (c.call (arguments no_services c.signature messages path context services))
