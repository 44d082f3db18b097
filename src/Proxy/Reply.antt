-- ===== src/Proxy/Reply.antt =====
-- An OpenAI response as an Anthropic response: `_openai_response_to_anthropic` of
-- src/compression_service/app/proxy.py.
pub mod StopReason
mod Tests
use Prim.Native.String.{◌++◌ as ◌<>◌}
use text.Mathlib.Text.{starts_with}
use soma_benchmark.Base.{
  ℕ, String, Bool, false, ◌||◌, Option, none, some, List, [], ◌∷◌, str_eq, if◌then◌else◌,
}
use soma_benchmark.Base.Json.{ℤ, pos, Value, str, arr, obj, cons, Fields, end, get}
use soma_benchmark.Base.Values.{as_dict, is_type, non_falsy, dict_at, or_end}
use soma_benchmark.Proxy.Response.{anthropic_content_blocks, or_default}
use soma_benchmark.Proxy.Usage.{Counts, sse_usage_fields}

-- The fields of the response that vary.
pub record Reply : Type 0 where
  pub id : Value
  pub model : Value
  pub content : List Value
  pub stop_reason : String
  pub usage : Counts

-- `choices[0]`, or `{}` where there is none; `none` is the exception of a choice that is no dict.
unfoldable pub first_choice : Option Value → Option Fields
first_choice (some (arr (cons c _))) = as_dict c
first_choice _ = some end

-- `_STOP_REASON_MAP.get(finish, "end_turn")`; `none` is the `TypeError` of a list or a dict.
abbrev pub known_reason : String → String
known_reason s =
    if str_eq s "tool_calls" || str_eq s "function_call"
    then "tool_use"
    else if str_eq s "length"
    then "max_tokens"
    else "end_turn"

unfoldable pub reason_of : Option Value → Option String
reason_of (some (str s)) = some (known_reason s)
reason_of (some (arr _)) = none
reason_of (some (obj _)) = none
reason_of _ = some "end_turn"

abbrev is_tool_use : Option Fields → Bool
is_tool_use none = false
is_tool_use (some b) = is_type "tool_use" b

unfoldable pub has_tool_use : List Value → Bool
has_tool_use [] = false
has_tool_use (b ∷ bs) = is_tool_use (as_dict b) || has_tool_use bs

abbrev no_counts : Counts
no_counts = record { input = pos 0; output = pos 0; cache_read = pos 0; cache_creation = pos 0 }

abbrev counts_or_zero : Option Counts → Counts
counts_or_zero none = no_counts
counts_or_zero (some c) = c

-- `str` of an id.
abbrev message_id : (Value → String) → Value → Value
message_id show id = if starts_with (show id) "msg_" then id else str ("msg_" <> show id)

-- The reply to a payload, from its blocks, its stop reason and its usage.
unfoldable pub reply_with :
    (Value → String)
    → String
    → Fields
    → Option (List Value)
    → Option String
    → Option (Option Counts)
    → Option Reply
unfolding has_tool_use
reply_with show fresh_id payload (some blocks) (some reason) (some usage) = some (record {
  id = message_id show (or_default (str fresh_id) (non_falsy (get "id" payload)));
  model = or_default (str "") (non_falsy (get "model" payload));
  content = blocks;
  stop_reason = if has_tool_use blocks then "tool_use" else reason;
  usage = counts_or_zero usage;
})
reply_with show fresh_id payload _ _ _ = none

module _ (loads : String → Option Value) (fresh : ℕ → String) (int_of : String → Option ℤ)
    (show : Value → String) (fresh_id : String) where
  unfoldable pub reply_to : Bool → Fields → Option Fields → Option Reply
  unfolding anthropic_content_blocks reason_of sse_usage_fields reply_with
  reply_to carry payload none = none
  reply_to carry payload (some choice) =
      reply_with show fresh_id payload
        (anthropic_content_blocks loads fresh carry (or_end (dict_at "message" choice)))
        (reason_of (get "finish_reason" choice)) (sse_usage_fields int_of payload)

  -- `_openai_response_to_anthropic`; `none` is an exception.
  unfoldable pub openai_response_to_anthropic : Bool → Fields → Option Reply
  unfolding reply_to first_choice
  openai_response_to_anthropic carry payload =
      reply_to carry payload (first_choice (get "choices" payload))
