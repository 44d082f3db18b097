-- ===== src/Proxy/Emit/Client.antt =====
-- A client of the stream, and what it has read at the end.
use Prim.Native.String.{◌++◌ as ◌<>◌}
use soma_benchmark.Base.{
  ℕ, String, Bool, true, false, Option, none, some, List, [], ◌∷◌, ◌++◌, ◌==◌, if◌then◌else◌, ◌>>=◌,
}
use soma_benchmark.Base.Lists.{length}
use soma_benchmark.Base.Json.{ℤ, pos, Value, str}
use soma_benchmark.Base.Values.{as_dict}
use soma_benchmark.Proxy.Usage.{Counts}
use soma_benchmark.Proxy.Reply.{Reply}
use soma_benchmark.Proxy.Response
use soma_benchmark.Proxy.Emit.{
  Start, Delta, Event, thinking, text, tool_use, thinking_delta, signature_delta, text_delta,
  input_json_delta, message_start, content_block_start, content_block_delta, content_block_stop,
  message_delta, message_stop,
}

-- A block that the client is reading, with the texts received so far.
pub data Open : Type 0 where
  closed : Open
  open_thinking : ℕ → String → String → Open
  open_text : ℕ → String → Open
  open_tool_use : ℕ → Value → Value → String → Open

pub record Client : Type 0 where
  pub id : Value
  pub model : Value
  pub usage : Counts
  pub blocks : List Value
  pub block : Open
  pub stop_reason : Option String
  pub stopped : Bool

abbrev opened : ℕ → Start → Open
opened i thinking = open_thinking i "" ""
opened i text = open_text i ""
opened i (tool_use id name) = open_tool_use i id name ""

-- A block starts when none is open, with the index of its place.
abbrev start_block : ℕ → Start → Client → Open → Option Client
start_block i s c closed =
    if i == length c.blocks then some (record c { block = opened i s }) else none
start_block i s c _ = none

abbrev extend : ℕ → Delta → Open → Option Open
extend i (thinking_delta (str s)) (open_thinking j t u) =
    if i == j then some (open_thinking j (t <> s) u) else none
extend i (signature_delta (str s)) (open_thinking j t u) =
    if i == j then some (open_thinking j t (u <> s)) else none
extend i (text_delta (str s)) (open_text j t) = if i == j then some (open_text j (t <> s)) else none
extend i (input_json_delta s) (open_tool_use j id name t) =
    if i == j then some (open_tool_use j id name (t <> s)) else none
extend _ _ _ = none

module _ (loads : String → Option Value) where
  abbrev closing : ℕ → Open → Option Value
  closing i closed = none
  closing i (open_thinking j t u) = if i == j then some (Response.thinking t u) else none
  closing i (open_text j t) = if i == j then some (Response.text_block t) else none
  closing i (open_tool_use j id name t) =
      if i == j then (loads t >>= as_dict) >>= (λ d. some (Response.tool_use id name d)) else none

  abbrev pub new_client : Value → Value → ℤ → ℤ → ℤ → Client
  new_client id model input cache_read cache_creation = record {
    id = id;
    model = model;
    usage = record {
      input = input;
      output = pos 0;
      cache_read = cache_read;
      cache_creation = cache_creation;
    };
    blocks = [];
    block = closed;
    stop_reason = none;
    stopped = false;
  }

  -- One event of the client; before `message_start` there is none.
  abbrev pub receive : Event → Option Client → Option Client
  receive (message_start id model input cache_read cache_creation) none =
      some (new_client id model input cache_read cache_creation)
  receive (message_start _ _ _ _ _) (some c) = none
  receive e none = none
  receive (content_block_start i s) (some c) = start_block i s c c.block
  receive (content_block_delta i d) (some c) =
      extend i d c.block >>= (λ b. some (record c { block = b }))
  receive (content_block_stop i) (some c) =
      closing i c.block >>= (λ v. some (record c { blocks = c.blocks ++ v ∷ []; block = closed }))
  receive (message_delta reason output) (some c) =
      some (record c { stop_reason = some reason; usage = record c.usage { output = output } })
  receive message_stop (some c) = some (record c { stopped = true })

  abbrev pub run_client : List Event → Client → Option Client
  run_client [] c = some c
  run_client (e ∷ es) c = receive e (some c) >>= run_client es

  abbrev pub from_start : List Event → Option Client
  from_start [] = none
  from_start (e ∷ es) = receive e none >>= run_client es

  abbrev pub reply_of : Client → Option Reply
  reply_of c = c.stop_reason >>= (λ reason.
      if c.stopped
      then some (record {
        id = c.id;
        model = c.model;
        content = c.blocks;
        stop_reason = reason;
        usage = c.usage;
      })
      else none)

  -- The response that a client has read, if the events are a whole message.
  unfoldable pub read_events : List Event → Option Reply
  read_events es = from_start es >>= reply_of
