-- ===== src/Proxy/Reply/Tests.antt =====
-- Runs of the translation of a response and of the choice of requests, and an instance of a theorem.
use soma_benchmark.Base.{◌≡◌, refl, true, false, none, some, [], ◌∷◌}
use soma_benchmark.Base.Json.{pos, Value, str, arr, obj, Fields, end, field, of_list}
use soma_benchmark.Base.Text.{codes}
use soma_benchmark.Base.Values.{truthy}
use soma_benchmark.Proxy.Dispatch.{is_anthropic_messages_request}
use soma_benchmark.Proxy.Response.{tool_use}
use soma_benchmark.Proxy.Reply.{Reply, openai_response_to_anthropic}
use soma_benchmark.Proxy.Reply.StopReason.{IsSound, openai_response_to_anthropic-IsSound}

abbrev asked : Value
asked = obj (field "messages" (arr (of_list (obj end ∷ []))) (field "system" (str "rules") end))

translated : is_anthropic_messages_request (codes "v1/messages") asked ≡ true
unfolding is_anthropic_messages_request
translated = refl

count_is_not : is_anthropic_messages_request (codes "v1/messages/count_tokens") asked ≡ false
unfolding is_anthropic_messages_request
count_is_not = refl

-- A tool call that the model ends with "stop".
abbrev payload : Fields
payload = field "id" (str "x") (
    field "choices"
      (arr (
        of_list (
          obj (
            field "finish_reason" (str "stop") (
              field "message"
                (obj (field "tool_calls" (arr (of_list (obj (field "id" (str "a") end) ∷ []))) end))
                end))
          ∷ [])))
      end)

abbrev reply : Reply
reply = record {
  id = str "msg_x";
  model = str "";
  content = tool_use (str "a") (str "") end ∷ [];
  stop_reason = "tool_use";
  usage = record { input = pos 0; output = pos 0; cache_read = pos 0; cache_creation = pos 0 };
}

replied :
    openai_response_to_anthropic
      (λ _. none)
      (λ _. "toolu_0")
      (λ _. none)
      (λ _. "x")
      "u"
      true
      payload
    ≡ some reply
unfolding openai_response_to_anthropic truthy
replied = refl

openai_response_to_anthropic-IsSound_example : IsSound reply
openai_response_to_anthropic-IsSound_example =
    openai_response_to_anthropic-IsSound (λ _. none) (λ _. "toolu_0") (λ _. none) (λ _. "x") "u"
      true payload reply replied
