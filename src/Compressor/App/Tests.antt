-- ===== src/Compressor/App/Tests.antt =====
-- Runs of the compression service's parts on concrete inputs, and instances of their theorems.
use soma_benchmark.Base.{
  ℕ, zero, suc, String, ◌≡◌, refl, true, false, none, some, List, [], ◌∷◌, str_eq, if◌then◌else◌,
  ◌⊎◌,
}
use soma_benchmark.Base.Json.{
  Value, null, bool, str, arr, obj, Items, nil, cons, Fields, end, field, get, pos,
}
use soma_benchmark.Base.Text.{codes}
use soma_benchmark.Compressor.App.{
  Compressor, coerce_bool, extract_messages, arguments, invoke_compressor,
  resolve_compressor_callable, missing, plain, function, Attribute, first_callable,
}
use soma_benchmark.Compressor.Events.{output_capture_limit, truncate_captured_output, exec_event}
use soma_benchmark.Compressor.Events.Bounds.{CutTo, exec_event-CutTo}
use soma_benchmark.Compressor.App.Invoke.{Allowed, SameBut, invoke_compressor-Allowed}
use soma_benchmark.Compressor.Client.{Services, no_services}
use soma_benchmark.Compressor.BaseMiner.{base_miner, compress_messages, answered}
use soma_benchmark.Compressor.BaseMiner.Identity.{invoke_compressor-base_miner}

coerced :
    (coerce_bool (str " Yes ") false ≡ true)
    × (coerce_bool (str "OFF") true ≡ false)
    × (coerce_bool (str "maybe") true ≡ true)
    × (coerce_bool null true ≡ true)
unfolding coerce_bool
coerced = (refl, refl, refl, refl)

abbrev digit : ℕ → List ℕ
digit n = codes "7"

cut :
    truncate_captured_output digit (output_capture_limit (some (pos 3))) (codes "abcdefghij")
    ≡ codes "abc\n... [truncated 7 chars]"
unfolding truncate_captured_output output_capture_limit
cut = refl

abbrev attributes : String → Attribute ℕ
attributes name =
    if str_eq name "compress_messages"
    then plain
    else if str_eq name "compress_payload"
    then missing
    else if str_eq name "process_request"
    then function 3
    else function 4

resolved : resolve_compressor_callable (some attributes) ≡ some 3
unfolding resolve_compressor_callable first_callable
resolved = refl

abbrev tool_message : Fields
tool_message = field "role" (str "tool") (field "content" (str "error: not found") end)

abbrev messages : Items
messages = cons (obj tool_message) nil

abbrev request : Fields
request = field "model" (str "m") (field "messages" (arr messages) end)

-- A compressor that empties the list of messages that it is given and returns a dict.
abbrev emptying : Compressor Services
emptying = record {
  signature = some ("messages" ∷ []);
  call = λ _. record { result = some (obj (field "messages" (str "none") end)); messages = nil };
}

emptied :
    (invoke_compressor no_services (some emptying) false request "/" none none
      ≡ some (field "model" (str "m") (field "messages" (arr nil) end)))
    × (invoke_compressor no_services (some emptying) true request "/" none none
        ≡ some (field "messages" (str "none") end))
unfolding invoke_compressor
emptied = (refl, refl)

invoke_compressor-Allowed_example :
    let given = arguments no_services emptying.signature (extract_messages request) "/" none none in
    let ran = emptying.call given in
    let out = invoke_compressor no_services (some emptying) false request "/" none none in
    ((ran.result ≡ none) × (out ≡ none))
    ⊎ ((result : Value) × (ran.result ≡ some result)
        × ((q : Fields) × (out ≡ some q) × Allowed false result ran.messages request q))
invoke_compressor-Allowed_example =
    invoke_compressor-Allowed no_services emptying false request "/" none none

abbrev show : ℕ → String
show zero = "0"
show (suc zero) = "1"
show _ = "many"

abbrev quoted : Value → String
quoted v = "?"

abbrev jev_response : Fields
jev_response = field "answers" (obj end) end

abbrev jev_trip : List String → List Fields → List Fields
jev_trip ids calls =
    field "id" (str "1") (field "ok" (bool true) (field "response" (obj jev_response) end)) ∷ []

abbrev jev_services : Services
jev_services = record {
  offered = field "jev" (obj (field "default_model" (str "j") end)) end;
  round_trip = some jev_trip;
  next_id = 0;
}

consulted :
    compress_messages show quoted null (some messages) none (some jev_services)
    ≡ some (messages, answered jev_response ∷ [])
unfolding compress_messages
consulted = refl

invoke_compressor-base_miner_example :
    let c = base_miner show quoted null in
    (q : Fields) × (invoke_compressor no_services (some c) true request "/" none (some jev_services)
      ≡ some q)
    × SameBut q request
    × (get "messages" q
        ≡ (if true then some (arr (extract_messages request)) else get "messages" request))
invoke_compressor-base_miner_example =
    invoke_compressor-base_miner show quoted null true request "/" none (some jev_services)

exec_event-CutTo_example :
    let e = exec_event digit 3 (some emptying) request none (codes "abcdefghij") [] in
    CutTo digit 3 (codes "abcdefghij") e.stdout × CutTo digit 3 [] e.stderr
exec_event-CutTo_example =
    exec_event-CutTo digit 3 (some emptying) request none (codes "abcdefghij") []
