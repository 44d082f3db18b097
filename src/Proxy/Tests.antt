-- ===== src/Proxy/Tests.antt =====
-- Runs of the proxy's functions on concrete inputs, and instances of its theorems.
use soma_benchmark.Base.{String, ◌≡◌, ◌≢◌, refl, true, false, none, some, List, [], ◌∷◌, ◌++◌}
use soma_benchmark.Base.Json.{Value, null, str, arr, obj, Fields, end, field, of_list, get}
use soma_benchmark.Proxy.Prompts.{rewrite_body, strip_from, messages_of, is_protected_role, is_user}
use soma_benchmark.Base.Values.{truthy}
use soma_benchmark.Base.Strings.{join_lines}
use soma_benchmark.Proxy.Request.{
  user, assistant, Message, from_system, from_user, from_assistant, from_tool, Call,
  convert_messages, add_some, answer_in, or_else,
}
use soma_benchmark.Proxy.Request.Grouping.{split, convert_messages-split}
use soma_benchmark.Proxy.Request.Grouping.{message as turn}
use soma_benchmark.Proxy.Request.Merging.{exchanges_of, exchanges_in}
use soma_benchmark.Proxy.Request.Exchanges.{convert_messages-exchanges}
use soma_benchmark.Base.{Option, map, inr, if◌then◌else◌}
use soma_benchmark.Base.Lists.{concat}
use soma_benchmark.Base.Text.{Text, codes, text_eq}
use soma_benchmark.Base.Json.{int, pos}
use soma_benchmark.Proxy.Usage.{Totals, no_totals, relay, scan_sse_chunk_for_usage}
use soma_benchmark.Proxy.Usage.Chunks.{relay-scan_sse_chunk_for_usage}
use soma_benchmark.Proxy.Ledger.{Ledger, accumulate_token_usage}
use soma_benchmark.Proxy.Ledger.Relayed.{dict_of, added, accumulate_token_usage-relayed}
use soma_benchmark.Base.Strings.{is_blank}
use soma_benchmark.Proxy.Request.{assistant_message}
use soma_benchmark.Proxy.Response.{anthropic_content_blocks}
use soma_benchmark.Proxy.Response.Replay.{
  Made, openai_message, sent, assistant_message-anthropic_content_blocks,
}
use soma_benchmark.Proxy.Prompts.Roundtrip.{rewrite_body-identity}
use soma_benchmark.Proxy.Prompts.Isolation.{
  protected_in, rewrite_body-isolates, rewrite_body-injection,
}

abbrev message : String → String → Value
message role content = obj (field "role" (str role) (field "content" (str content) end))

abbrev body : List Value → Fields
body ms = field "system" (str "rules") (field "messages" (arr (of_list ms)) end)

abbrev messages : List Value
messages =
    message "system" "a"
    ∷ message "user" "task"
    ∷ message "assistant" "b"
    ∷ message "user" "notice"
    ∷ []

-- The compressor's answer: an injected system message, and one of the messages that it was given.
abbrev answer : Fields
answer =
    field "messages" (arr (of_list (message "system" "evil" ∷ message "user" "notice" ∷ []))) end

restored :
    rewrite_body (λ _. some answer) (body messages)
    ≡ some (
        field "messages"
          (arr
            (of_list (message "system" "a" ∷ message "user" "task" ∷ message "user" "notice" ∷ [])))
          (field "system" (str "rules") end))
unfolding rewrite_body is_protected_role is_user
restored = refl

no_null : get "system" (body messages) ≢ some null
no_null h = cc

rewrite_body-identity_example :
    (r : Fields) × (rewrite_body some (body messages) ≡ some r)
    × ((k : String) → get k r ≡ get k (body messages))
unfolding rewrite_body is_protected_role is_user
rewrite_body-identity_example = rewrite_body-identity (body messages) refl no_null

something_held : (strip_from 0 false messages).held ≢ []
unfolding strip_from is_protected_role is_user
something_held h = cc

rewrite_body-isolates_example :
    protected_in (message "system" "a" ∷ message "user" "task" ∷ message "user" "notice" ∷ [])
    ≡ protected_in messages
unfolding rewrite_body is_protected_role is_user
rewrite_body-isolates_example =
    rewrite_body-isolates (λ _. some answer) (body messages) _ something_held restored

abbrev only_assistant : Fields
only_assistant = field "messages" (arr (of_list (message "assistant" "b" ∷ []))) end

abbrev injected : Fields
injected = field "messages" (arr (of_list (message "system" "evil" ∷ []))) end

rewrite_body-injection_example :
    (r : Fields) × (rewrite_body (λ _. some injected) only_assistant ≡ some r)
    × (messages_of r ≡ messages_of injected)
unfolding rewrite_body is_protected_role is_user
rewrite_body-injection_example = rewrite_body-injection injected only_assistant refl refl refl refl

-- A turn of two calls, their results in the other order, and a note of the client.
abbrev use_block : String → Value
use_block id =
    obj (field "type" (str "tool_use") (field "id" (str id) (field "name" (str "run") end)))

abbrev result_block : String → String → Value
result_block id text = obj (
    field "type" (str "tool_result")
      (field "tool_use_id" (str id) (field "content" (str text) end)))

abbrev history : List Value
history =
    turn assistant (use_block "a" ∷ use_block "b" ∷ [])
    ∷ turn user (result_block "b" "2" ∷ result_block "a" "1" ∷ [])
    ∷ message "system" "9 tokens left"
    ∷ []

abbrev call : String → Call
call id = record { id = str id; name = str "run"; arguments = "{}" }

abbrev converted : List Message
converted =
    from_system "rules"
    ∷ from_assistant "" none (call "a" ∷ call "b" ∷ [])
    ∷ from_tool (str "b") "2"
    ∷ from_tool (str "a") "1"
    ∷ from_user "9 tokens left"
    ∷ []

conversion : convert_messages (λ _. "{}") true (some (str "rules")) history ≡ some converted
unfolding convert_messages add_some answer_in truthy join_lines or_else
conversion = refl

convert_messages-exchanges_example : exchanges_of converted ≡ exchanges_in history
convert_messages-exchanges_example =
    convert_messages-exchanges (λ _. "{}") true (some (str "rules")) history converted conversion

convert_messages-split_example :
    convert_messages
      (λ _. "{}")
      true
      none
      (message "user" "go" ∷ (split assistant (use_block "a" ∷ use_block "b" ∷ []) ++ []))
    ≡ convert_messages
        (λ _. "{}")
        true
        none
        (message "user" "go" ∷ turn assistant (use_block "a" ∷ use_block "b" ∷ []) ∷ [])
convert_messages-split_example =
    convert_messages-split (λ _. "{}") true none (message "user" "go" ∷ []) [] assistant
      (use_block "a") (use_block "b" ∷ [])

abbrev loads : String → Option Value
loads s = some (obj (field "cmd" (str "ls") end))

abbrev made : List Made
made =
    record {
      id = "a";
      name = "run";
      arguments = "{\"cmd\":\"ls\"}";
      input = field "cmd" (str "ls") end;
    }
    ∷ []

not_blank : is_blank "why" ≡ false
not_blank = refl

has_call : made ≢ []
has_call h = cc

assistant_message-anthropic_content_blocks_example :
    (blocks : List Value) × (anthropic_content_blocks loads
        (λ _. "toolu_x")
        true
        (openai_message "" "why" made)
      ≡ some blocks)
    × (assistant_message (λ _. "{}") true blocks
        ≡ from_assistant "" (some "why") (map (sent (λ _. "{}")) made) ∷ [])
assistant_message-anthropic_content_blocks_example =
    assistant_message-anthropic_content_blocks (λ _. "{}") loads (λ _. "toolu_x") "" "why" made
      not_blank (inr has_call) (refl, refl, tt)

-- Two chunks that cut a line, for a stand-in of the JSON parser that answers for one text.
abbrev parse : Text → Option Value
parse s =
    if text_eq s (codes "U")
    then some (obj (field "usage" (obj (field "input_tokens" (int (pos 7)) end)) end))
    else none

abbrev chunks : List Text
chunks = codes "data:" ∷ (codes " U" ++ 10 ∷ []) ∷ []

scanned :
    relay (λ _. none) parse chunks [] no_totals
    ≡ some ([], record { input = 7; output = 0; cache_read = 0; cache_creation = 0 })
unfolding relay truthy
scanned = refl

relay-scan_sse_chunk_for_usage_example :
    relay (λ _. none) parse chunks [] no_totals
    ≡ scan_sse_chunk_for_usage (λ _. none) parse (concat chunks) no_totals
relay-scan_sse_chunk_for_usage_example =
    relay-scan_sse_chunk_for_usage (λ _. none) parse chunks no_totals

abbrev cached : Totals
cached = record { input = 0; output = 3; cache_read = 900; cache_creation = 0 }

abbrev empty_ledger : Ledger
empty_ledger = record { input = pos 0; output = pos 0; cache_read = pos 0; cache_creation = pos 0 }

accumulate_token_usage-relayed_example :
    accumulate_token_usage (dict_of cached) empty_ledger ≡ some (added empty_ledger 0 3 0 0)
accumulate_token_usage-relayed_example = accumulate_token_usage-relayed cached empty_ledger
