-- ===== src/Proxy/Transform/Tests.antt =====
-- A transform without services, and one whose compressor asks forever.
use soma_benchmark.Base.{◌≡◌, refl, true, false, Bool, Option, none, some, []}
use soma_benchmark.Base.Text.{Text, codes}
use soma_benchmark.Base.Json.{Value, str, obj, Fields, end, field}
use soma_benchmark.Proxy.Upstream.{Url}
use soma_benchmark.Proxy.Services.{Ending, transformed, failed_transform, answered}
use soma_benchmark.Proxy.Transform.{
  Turn, transform_body, body_of, transform_payload_via_compression_service,
}

abbrev split : Text → Url
split t = record { scheme = []; netloc = []; path = t; query = [] }

abbrev turn : Bool → Turn
turn has_headers = record {
  path = "v1/messages";
  query = "";
  request_id = "r";
  payload = field "model" (str "m") end;
  context = end;
  has_service_headers = has_headers;
}

-- A service that echoes the request's body.
abbrev echo : Text → Fields → Option Value
echo url body = some (obj (field "payload" (obj body) end))

abbrev transform : (Text → Fields → Option Value) → Bool → Ending
transform post has_headers =
    transform_payload_via_compression_service post (λ _. none) split (λ u. u.path) (λ _. 10)
      (λ _ _. false) (λ _ _. answered end) (λ _. false) (λ _. none) (codes "c/") (turn has_headers)

without_services :
    transform echo false
    ≡ transformed (transform_body "v1/messages" "" "r" (field "model" (str "m") end) end none)
unfolding transform_payload_via_compression_service transform_body body_of
without_services = refl

no_answer_after_pending :
    transform (λ _ _. some (obj (field "pending" (obj end) end))) true ≡ failed_transform
unfolding transform_payload_via_compression_service
no_answer_after_pending = refl
