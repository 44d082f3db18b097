-- ===== src/Proxy/Body.antt =====
-- An Anthropic request as an OpenAI body: the settings and the whole of
-- `_anthropic_request_to_openai` of src/compression_service/app/proxy.py.
pub mod Reordering
use soma_benchmark.Base.{
  String, Bool, true, false, Option, none, some, List, [], ◌∷◌, ◌==◌, if◌then◌else◌, ◌>>=◌,
}
use soma_benchmark.Base.Text.{Text, codes, starts_with}
use soma_benchmark.Base.Json.{Value, null, bool, str, arr, obj, of_list, Fields, end, field, get}
use soma_benchmark.Base.Values.{non_falsy}
use soma_benchmark.Proxy.Tools.{Tool, tool_values, openai_tools, openai_tool_choice}
use soma_benchmark.Proxy.Request.{
  Message, Call, from_system, from_user, from_assistant, from_tool, convert_messages,
}
use soma_benchmark.Proxy.Response.{or_default, items_of}

abbrev pub without_tildes : Text → Text
without_tildes [] = []
without_tildes (c ∷ s) = let rest = without_tildes s in if c == 126 then rest else c ∷ s

-- `_is_anthropic_model`
unfoldable pub is_anthropic_model : Option Value → Bool
is_anthropic_model (some (str s)) = starts_with (without_tildes (codes s)) (codes "anthropic/")
is_anthropic_model _ = false

abbrev call_value : Call → Value
call_value c = obj (
    field "id" c.id (
      field "type" (str "function") (
        field "function" (obj (field "name" c.name (field "arguments" (str c.arguments) end)))
          end)))

abbrev call_values : List Call → List Value
call_values [] = []
call_values (c ∷ cs) = call_value c ∷ call_values cs

abbrev said_by : String → String → Fields → Value
said_by role content rest = obj (field "role" (str role) (field "content" (str content) rest))

abbrev calls_field : List Call → Fields
calls_field [] = end
calls_field (c ∷ cs) = field "tool_calls" (arr (of_list (call_values (c ∷ cs)))) end

abbrev reasoning_field : Option String → Fields → Fields
reasoning_field none d = d
reasoning_field (some s) d = field "reasoning_content" (str s) d

-- The dict of a message.
abbrev pub message_value : Message → Value
message_value (from_system s) = said_by "system" s end
message_value (from_user s) = said_by "user" s end
message_value (from_assistant s reasoning calls) =
    said_by "assistant" s (reasoning_field reasoning (calls_field calls))
message_value (from_tool id s) =
    obj (field "role" (str "tool") (field "tool_call_id" id (field "content" (str s) end)))

abbrev pub message_values : List Message → List Value
message_values [] = []
message_values (m ∷ ms) = message_value m ∷ message_values ms

-- The entries of the body that are set under a condition.
abbrev non_null : Option Value → Option Value
non_null (some null) = none
non_null o = o

abbrev also : String → Option Value → Fields → Fields
also k none d = d
also k (some v) d = field k v d

abbrev when : Bool → Value → Option Value
when b v = if b then some v else none

-- `_carry_reasoning()` and `_reasoning_effort()`
abbrev pub reasoning_setting : Bool → Option String → Option Value
reasoning_setting false effort = some (obj (field "enabled" (bool false) end))
reasoning_setting true none = none
reasoning_setting true (some effort) = some (obj (field "effort" (str effort) end))

abbrev stream_options : Option Value → Option Value
stream_options none = none
stream_options (some _) = some (obj (field "include_usage" (bool true) end))

abbrev tools_fields : List Tool → Option Value → Fields
tools_fields [] choice = end
tools_fields (t ∷ ts) choice =
    field "tools" (arr (of_list (tool_values (t ∷ ts)))) (also "tool_choice" choice end)

pub record Settings : Type 0 where
  pub carry : Bool
  pub effort : Option String
  pub sort : Bool

-- The body from its messages, its tools and its tool choice.
unfoldable pub body_with : Settings → Fields → List Message → List Tool → Option Value → Fields
unfolding is_anthropic_model
body_with s payload messages tools choice =
    let model = or_default null (get "model" payload) in
    let ephemeral = obj (field "type" (str "ephemeral") end) in
    field "model" model (
      field "messages" (arr (of_list (message_values messages))) (
        also "cache_control" (when (is_anthropic_model (some model)) ephemeral) (
          also "max_tokens" (non_null (get "max_tokens" payload)) (
            also "temperature" (non_null (get "temperature" payload)) (
              also "top_p" (non_null (get "top_p" payload)) (
                also "stream" (non_null (get "stream" payload)) (
                  also "reasoning" (reasoning_setting s.carry s.effort) (
                    also "stream_options" (stream_options (non_falsy (get "stream" payload))) (
                      also "stop" (non_falsy (get "stop_sequences" payload))
                        (tools_fields tools choice))))))))))

-- The choice is read only where there are tools.
unfoldable pub choice_if_tools : List Tool → Option Value → Option (Option Value)
unfolding openai_tool_choice
choice_if_tools [] choice = some none
choice_if_tools (_ ∷ _) choice = openai_tool_choice choice

-- The parts of the request in the order in which they are read, and what the body makes of them.
abbrev pub request_with :
    (Value → String)
    → Bool
    → Option (List Value)
    → Option Value
    → Option (List Tool)
    → Option Value
    → (List Message → List Tool → Option Value → Fields)
    → Option Fields
request_with dumps carry given top named choice body = do
  messages ← given >>= convert_messages dumps carry top
  tools ← named
  chosen ← choice_if_tools tools choice
  some (body messages tools chosen)

-- `_anthropic_request_to_openai`; `dumps` is `json.dumps`, and `none` is an exception.
unfoldable pub anthropic_request_to_openai : (Value → String) → Settings → Fields → Option Fields
unfolding convert_messages openai_tools choice_if_tools body_with
anthropic_request_to_openai dumps s payload =
    request_with dumps s.carry (items_of (get "messages" payload)) (get "system" payload)
      (openai_tools s.sort (get "tools" payload)) (get "tool_choice" payload) (body_with s payload)
