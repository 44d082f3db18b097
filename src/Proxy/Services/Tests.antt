-- ===== src/Proxy/Services/Tests.antt =====
-- Runs of the service rounds on concrete inputs, and instances of their theorems.
use soma_benchmark.Base.{
  String, ◌≡◌, refl, false, Option, none, some, [], ◌∷◌, str_eq, if◌then◌else◌,
}
use soma_benchmark.Base.Json.{Value, str, arr, obj, end, field, of_list}
use soma_benchmark.Base.Values.{truthy}
use soma_benchmark.Proxy.Services.{Body, Offer, answered, failed_transform, transform_payload}

abbrev jev : Offer
jev = record {
  ops = "decide" ∷ [];
  models = "jev-latest" ∷ "jev-1.13" ∷ [];
  default_model = "jev-latest";
  max_request_bytes = 262144;
  max_rounds = 50;
  max_calls = 500;
  max_calls_per_round = 16;
}

abbrev jev_offers : String → Option Offer
jev_offers service = if str_eq service "jev" then some jev else none

-- A compressor that asks for a call in each of its replies.
abbrev asking : Value
asking = obj (
    field "pending"
      (obj (
        field "calls"
          (arr (
            of_list (
              obj (
                field "id" (str "1") (
                  field "service" (str "jev") (
                    field "op" (str "decide") (
                      field "request"
                        (obj (
                          field "state" (str "s")
                            (field "questions" (obj (field "q" (str "?") end)) end)))
                        end))))
              ∷ [])))
          end))
      end)

abbrev body : Body
body = record { model = "jev-latest"; state = str "s"; questions = field "q" (str "?") end }

asks_forever :
    transform_payload
      (λ _. 10)
      jev_offers
      (λ _ _. false)
      (λ _ _. answered end)
      (λ _. some asking)
      2
      (λ _. false)
    ≡ (failed_transform, record { rounds = 4; calls = 4 }, body ∷ body ∷ body ∷ body ∷ [])
unfolding transform_payload truthy
asks_forever = refl
