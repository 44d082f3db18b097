-- ===== src/Proxy/Transform.antt =====
-- A whole transform: `JEV_OFFER` and `_transform_payload_via_compression_service` of
-- src/compression_service/app/proxy.py, whose rounds are in Proxy/Services.
mod Tests
use Prim.Native.String.{◌++◌ as ◌<>◌}
use soma_benchmark.Base.{
  ℕ, String, Bool, Option, none, some, List, [], ◌∷◌, ◌>>=◌, str_eq, if◌then◌else◌,
}
use soma_benchmark.Base.Text.{Text, codes}
use soma_benchmark.Base.Json.{pos, Value, int, str, arr, of_list, obj, Fields, end, field}
use soma_benchmark.Proxy.Upstream.{Url, build_upstream_url}
use soma_benchmark.Proxy.Services.{
  Offer, Body, Result, Ending, ending, payload_of, transform_payload,
}
use soma_benchmark.Proxy.Routing.{Environment, resolve_compressor_services_offer}

-- `JEV_OFFER`, as the budget reads it and as the dict that is sent.
abbrev pub jev_offer : Offer
jev_offer = record {
  ops = "decide" ∷ [];
  models = "jev-latest" ∷ "jev-1.13" ∷ [];
  default_model = "jev-latest";
  max_request_bytes = 262144;
  max_rounds = 50;
  max_calls = 500;
  max_calls_per_round = 16;
}

abbrev strings : List String → List Value
strings [] = []
strings (s ∷ ss) = str s ∷ strings ss

abbrev pub offer_fields : Offer → ℕ → Fields
offer_fields o deadline_ms = field "ops" (arr (of_list (strings o.ops))) (
    field "default_model" (str o.default_model) (
      field "models" (arr (of_list (strings o.models))) (
        field "max_rounds" (int (pos o.max_rounds)) (
          field "max_calls" (int (pos o.max_calls)) (
            field "max_calls_per_round" (int (pos o.max_calls_per_round)) (
              field "max_request_bytes" (int (pos o.max_request_bytes))
                (field "deadline_ms" (int (pos deadline_ms)) end)))))))

abbrev pub jev_offers : String → Option Offer
jev_offers service = if str_eq service "jev" then some jev_offer else none

abbrev services_field : Option Fields → Fields
services_field none = end
services_field (some services) = field "services" (obj services) end

-- The body of the first request.
unfoldable pub transform_body : String → String → String → Fields → Fields → Option Fields → Fields
transform_body path query request_id payload context services =
    field "path" (str (if str_eq path "" then "/" else "/" <> path)) (
      field "query" (str query) (
        field "payload" (obj payload) (
          field "request_id" (str request_id)
            (field "context" (obj context) (services_field services)))))

-- What goes to the compression service, for a turn of the agent.
pub record Turn : Type 0 where
  pub path : String
  pub query : String
  pub request_id : String
  pub payload : Fields
  pub context : Fields
  pub has_service_headers : Bool

unfoldable pub body_of : Turn → Option Fields → Fields
unfolding transform_body
body_of t services = transform_body t.path t.query t.request_id t.payload t.context services

-- What the compression service replies to the first request, by its URL and body, and to the
-- results of the rounds so far; `none` is an exception of the request.
module _ (post : Text → Fields → Option Value) (resume : List (List Result) → Option Value) where
  abbrev pub reply_to : Text → Fields → List (List Result) → Option Value
  reply_to url body [] = post url body
  reply_to url body (results ∷ history) = resume (results ∷ history)

  -- `urlsplit`, `urlunsplit`, and the parameters of Proxy/Services.
  module _ (split : Text → Url) (unsplit : Url → Text) (size : Body → ℕ) (late : ℕ → ℕ → Bool)
      (run : ℕ → Body → Result) (expired : ℕ → Bool) where
    abbrev pub transform_at : Text → Turn → Option Fields → Ending
    unfolding body_of transform_payload
    transform_at url t none = ending (post url (body_of t none) >>= payload_of)
    transform_at url t (some services) =
        (transform_payload size jev_offers late run (reply_to url (body_of t (some services)))
          jev_offer.max_rounds expired).0

    unfoldable pub transform_payload_via_compression_service : Environment → Text → Turn → Ending
    unfolding build_upstream_url resolve_compressor_services_offer transform_at
    transform_payload_via_compression_service env compression_base_url t =
        let url = build_upstream_url split unsplit compression_base_url (codes "transform") [] in
        let offer = resolve_compressor_services_offer (offer_fields jev_offer 20000) env in
        transform_at url t (if t.has_service_headers then offer else none)
