-- ===== src/Proxy/Passthrough/Tests.antt =====
-- A request through the proxy, and instances of the theorems on what goes upstream.
use soma_benchmark.Base.{
  ℕ, String, ◌≡◌, refl, true, false, Option, none, some, List, [], ◌∷◌, ◌++◌, if◌then◌else◌, eq_iff,
  arith,
}
use soma_benchmark.Base.Lists.{take, drop}
use soma_benchmark.Base.Text.{Text, codes, text_eq, text_eq_iff}
use soma_benchmark.Base.Values.{truthy}
use soma_benchmark.Base.Json.{ℤ, Value, null, str, arr, obj, of_list, Fields, end, field}
use soma_benchmark.Proxy.Prompts.{is_protected_role}
use soma_benchmark.Proxy.Tools.{Tool, named_tools}
use soma_benchmark.Proxy.Body.{anthropic_request_to_openai}
use soma_benchmark.Proxy.Tools.Order.{swap, AreDistinct}
use soma_benchmark.Proxy.Body.Reordering.{SameButTools, anthropic_request_to_openai-Reordered}
use soma_benchmark.Proxy.Upstream.{Url, answered, response, execute_jev_call, service_auth_headers}
use soma_benchmark.Proxy.TaskContext.{context_of}
use soma_benchmark.Proxy.Passthrough.{
  Request, Settings, Loaded, loaded, not_json, Sent, Upstream, http_error, reply, proxy_passthrough,
  sends_json,
}
use soma_benchmark.Proxy.Passthrough.Guarded.{IsAllowed, proxy_passthrough-IsAllowed}
use soma_benchmark.Proxy.Passthrough.Rewritten.{BodyOf, Rewrites, proxy_passthrough-Rewrites}

-- URLs whose host is one character.
abbrev split : Text → Url
split t = record { scheme = []; netloc = take 1 t; path = drop 1 t; query = [] }

abbrev unsplit : Url → Text
unsplit u = u.netloc ++ u.path

abbrev message : String → String → Value
message role content = obj (field "role" (str role) (field "content" (str content) end))

abbrev payload : Fields
payload = field "messages" (arr (of_list (message "user" "task" ∷ message "tool" "out" ∷ []))) end

abbrev loads : Text → Loaded
loads t = if text_eq t (codes "B") then loaded (obj payload) else not_json

abbrev dumps : Value → Text
dumps _ = codes "D"

abbrev dumps_string : Value → String
dumps_string _ = "D"

abbrev settings : Settings
settings = record {
  base_url = codes "h/";
  compression_enabled = true;
  translation_enabled = false;
  override_api_key = codes "k";
  run_id = [];
  body = record { carry = true; effort = none; sort = true };
}

abbrev transform : Fields → Fields → Option Fields
transform context stripped = some stripped

abbrev request : Request
request = record {
  method = codes "POST";
  path = codes "/v1/x";
  query = [];
  headers = (codes "Host", codes "proxy") ∷ (codes "content-type", codes "Application/JSON") ∷ [];
  body = codes "B";
}

abbrev urlopen : Sent → Upstream
urlopen sent = http_error 429 ((codes "Connection", codes "close") ∷ []) (codes "E")

abbrev sent : Sent
sent = record {
  url = codes "h/v1/x";
  method = codes "POST";
  headers =
      (codes "content-type", codes "Application/JSON")
      ∷ (codes "Authorization", codes "Bearer k")
      ∷ [];
  body = some (codes "D");
}

abbrev no_value : String → Option Value
no_value _ = none

abbrev no_int : String → Option ℤ
no_int _ = none

abbrev fresh : ℕ → String
fresh _ = "f"

abbrev show : Value → String
show _ = "x"

abbrev decompress : Text → Text → Text
decompress body encoding = body

passed :
    proxy_passthrough split unsplit loads dumps dumps_string settings transform no_value fresh
      no_int show "u" decompress request urlopen
    ≡ (some sent, reply 429 [] (codes "E"))
unfolding proxy_passthrough is_protected_role
passed = refl

told : context_of payload ≡ field "task" (str "task") end
unfolding context_of is_protected_role
told = refl

is_sent :
    (proxy_passthrough split unsplit loads dumps dumps_string settings transform no_value fresh
      no_int show "u" decompress request urlopen).0
    ≡ some sent
unfolding proxy_passthrough is_protected_role
is_sent = refl

json_sent : sends_json request ≡ true
unfolding sends_json
json_sent = refl

proxy_passthrough-IsAllowed_example : IsAllowed split settings.base_url sent
proxy_passthrough-IsAllowed_example =
    proxy_passthrough-IsAllowed split unsplit loads dumps dumps_string settings transform no_value
      fresh no_int show "u" decompress request urlopen sent is_sent

proxy_passthrough-Rewrites_example :
    BodyOf (Rewrites split unsplit loads dumps dumps_string settings transform payload) sent.body
proxy_passthrough-Rewrites_example =
    proxy_passthrough-Rewrites split unsplit loads dumps dumps_string settings transform no_value
      fresh no_int show "u" decompress request urlopen sent payload refl json_sent refl is_sent

abbrev tool : String → Value
tool name = obj (field "name" (str name) end)

abbrev with_tools : List Value → Fields
with_tools tools =
    field "messages" (arr (of_list (message "user" "task" ∷ [])))
      (field "tools" (arr (of_list tools)) (field "stream" (str "yes") end))

abbrev listed : List Value
listed = tool "b" ∷ tool "a" ∷ []

abbrev relisted : List Value
relisted = tool "a" ∷ tool "b" ∷ []

abbrev parameters : Value
parameters = obj (field "type" (str "object") (field "properties" (obj end) end))

abbrev tools : List Tool
tools =
    record { name = "b"; description = str ""; parameters = parameters }
    ∷ record { name = "a"; description = str ""; parameters = parameters }
    ∷ []

tools_named : named_tools listed ≡ some tools
unfolding named_tools truthy
tools_named = refl

tools_differ : AreDistinct tools
tools_differ = (
  ((λ e. let h : text_eq (codes "b") (codes "a") ≡ true = (text_eq_iff _ _).1 e in cc), tt),
  (tt, tt),
)

same_but_tools : SameButTools (with_tools listed) (with_tools relisted)
same_but_tools k e = ground (arith, eq_iff k "tools", eq_iff "tools" k)

anthropic_request_to_openai-Reordered_example :
    anthropic_request_to_openai dumps_string settings.body (with_tools listed)
    ≡ anthropic_request_to_openai dumps_string settings.body (with_tools relisted)
anthropic_request_to_openai-Reordered_example =
    anthropic_request_to_openai-Reordered dumps_string settings.body (with_tools listed)
      (with_tools relisted) tools refl refl refl same_but_tools (swap (tool "b") (tool "a") [])
      tools_named tools_differ

abbrev jev_answer : Fields
jev_answer =
    field "answers" (obj end) (
      field "usage" (obj (field "input_tokens" (Value.int (ℤ.pos 3)) end)) (field "debug" null end))

called : execute_jev_call split unsplit (codes "h/") (λ _. answered (obj jev_answer)) ≡ (
  some (codes "h/systemone"),
  response (
      field "answers"
        (obj end)
        (field "usage" (obj (field "input_tokens" (Value.int (ℤ.pos 3)) end)) end)),
)
unfolding execute_jev_call
called = refl

authorized :
    service_auth_headers request.headers (codes "k") (codes "7")
    ≡ (codes "Authorization", codes "Bearer k") ∷ (codes "X-Run-Id", codes "7") ∷ []
unfolding service_auth_headers
authorized = refl
