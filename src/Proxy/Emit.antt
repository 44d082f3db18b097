-- ===== src/Proxy/Emit.antt =====
-- An Anthropic response as the events of a stream: `_anthropic_sse_events` of
-- src/compression_service/app/proxy.py. An event has a constructor in place of its JSON object.
pub mod Client
pub mod Delivery
pub mod Translated
use soma_benchmark.Base.{
  ◌>>=◌, ℕ, ◌+◌, String, Option, none, some, List, [], ◌∷◌, ◌++◌, if◌then◌else◌,
}
use soma_benchmark.Base.Json.{ℤ, Value, str, Fields, get}
use soma_benchmark.Base.Values.{as_dict, is_string}
use soma_benchmark.Proxy.Reply.{Reply}

-- The content block with which a block starts.
pub data Start : Type 0 where
  thinking : Start
  text : Start
  tool_use : Value → Value → Start

pub data Delta : Type 0 where
  thinking_delta : Value → Delta
  signature_delta : Value → Delta
  text_delta : Value → Delta
  input_json_delta : String → Delta

pub data Event : Type 0 where
  -- The id, the model, and the counts of the prompt: its tokens, cache reads and cache writes.
  message_start : Value → Value → ℤ → ℤ → ℤ → Event
  content_block_start : ℕ → Start → Event
  content_block_delta : ℕ → Delta → Event
  content_block_stop : ℕ → Event
  -- The stop reason and the output tokens.
  message_delta : String → ℤ → Event
  message_stop : Event

abbrev or_blank : Option Value → Value
or_blank none = str ""
or_blank (some v) = v

-- `json.dumps` is a parameter. A missing key is an exception.
module _ (dumps : Value → String) where
  unfoldable pub thinking_events : ℕ → Fields → Option (List Event)
  thinking_events i b = do
    t ← get "thinking" b
    s ← get "signature" b
    some (
        content_block_start i thinking
        ∷ content_block_delta i (thinking_delta t)
        ∷ content_block_delta i (signature_delta s)
        ∷ content_block_stop i
        ∷ [])

  unfoldable pub tool_use_events : ℕ → Fields → Option (List Event)
  tool_use_events i b = do
    id ← get "id" b
    name ← get "name" b
    input ← get "input" b
    some (
        content_block_start i (tool_use id name)
        ∷ content_block_delta i (input_json_delta (dumps input))
        ∷ content_block_stop i
        ∷ [])

  unfoldable pub text_events : ℕ → Fields → Option (List Event)
  text_events i b = some (
      content_block_start i text
      ∷ content_block_delta i (text_delta (or_blank (get "text" b)))
      ∷ content_block_stop i
      ∷ [])

  unfoldable pub events_of_kind : ℕ → Fields → Option Value → Option (List Event)
  unfolding thinking_events tool_use_events text_events
  events_of_kind i b none = none
  events_of_kind i b (some kind) =
      if is_string "thinking" (some kind)
      then thinking_events i b
      else if is_string "tool_use" (some kind)
      then tool_use_events i b
      else text_events i b

  abbrev pub events_of_dict : ℕ → Option Fields → Option (List Event)
  events_of_dict i none = none
  events_of_dict i (some b) = events_of_kind i b (get "type" b)

  -- The events of the blocks from the index `i` on.
  unfoldable pub block_events : ℕ → List Value → Option (List Event)
  unfolding events_of_kind
  block_events i [] = some []
  block_events i (b ∷ bs) = do
    es ← events_of_dict i (as_dict b)
    rest ← block_events (i + 1) bs
    some (es ++ rest)

  -- `_anthropic_sse_events`
  unfoldable pub anthropic_sse_events : Reply → Option (List Event)
  unfolding block_events
  anthropic_sse_events r = do
    es ← block_events 0 r.content
    some (
        message_start r.id r.model r.usage.input r.usage.cache_read r.usage.cache_creation
        ∷ (es ++ message_delta r.stop_reason r.usage.output ∷ message_stop ∷ []))
