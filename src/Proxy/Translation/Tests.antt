-- ===== src/Proxy/Translation/Tests.antt =====
-- A stream of two interleaved tool calls, and instances of the theorems.
use soma_benchmark.Base.{
  ℕ, String, ◌≡◌, refl, true, Option, none, some, List, [], ◌∷◌, str_eq, inl, inr, Bool-cases,
  if◌then◌else◌,
}
use soma_benchmark.Base.Strings.{join}
use soma_benchmark.Base.Text.{Text, codes, text_eq}
use soma_benchmark.Base.Json.{
  ℤ, pos, Value, null, int, str, arr, obj, nil, cons, of_list, Fields, end, field,
}
use soma_benchmark.Base.Values.{truthy}
use soma_benchmark.Proxy.Usage.{cut}
use soma_benchmark.Proxy.Response.{tool_use, thinking}
use soma_benchmark.Proxy.Reply.{Reply, openai_response_to_anthropic}
use soma_benchmark.Proxy.Assembly.{Slots, assemble_openai_stream}
use soma_benchmark.Proxy.Assembly.Heads.{head_of, response}
use soma_benchmark.Proxy.Assembly.Fragments.{Turn, turns_of, pick, merged, find, IsSorted}
use soma_benchmark.Proxy.Assembly.Merged.{assemble_openai_stream-turns_of}
use soma_benchmark.Proxy.Emit.Translated.{Rereads}
use soma_benchmark.Proxy.Translation.{values_of_lines, pings, translate_event_stream}
use soma_benchmark.Proxy.Translation.Whole.{Delivers, text_of, translate_event_stream-Delivers}

abbrev call : ℕ → Fields → Fields
call i rest = field "index" (int (pos i)) rest

abbrev function : Fields → Fields
function f = field "function" (obj f) end

abbrev arguments : String → Fields
arguments s = function (field "arguments" (str s) end)

abbrev chunk : Fields → Value
chunk delta = obj (field "choices" (arr (cons (obj (field "delta" (obj delta) end)) nil)) end)

abbrev calls : List Value → Fields
calls cs = field "tool_calls" (arr (of_list cs)) end

abbrev named : String → Fields
named n = field "id" (str n) (function (field "name" (str n) end))

-- The call 1 comes before the call 0, and their arguments alternate.
abbrev chunks : List Value
chunks =
    chunk (field "reasoning" (str "so") end)
    ∷ chunk (calls (obj (call 1 (named "b")) ∷ obj (call 0 (named "a")) ∷ []))
    ∷ chunk (calls (obj (call 0 (arguments "{")) ∷ obj (call 1 (arguments "{")) ∷ []))
    ∷ chunk (calls (obj (call 1 (arguments "}")) ∷ obj (call 0 (arguments "}")) ∷ []))
    ∷ []

abbrev turn : Turn
turn = record {
  texts = [];
  reasonings = "so" ∷ [];
  fragments =
      (pos 1, call 1 (named "b"))
      ∷ (pos 0, call 0 (named "a"))
      ∷ (pos 0, call 0 (arguments "{"))
      ∷ (pos 1, call 1 (arguments "{"))
      ∷ (pos 1, call 1 (arguments "}"))
      ∷ (pos 0, call 0 (arguments "}"))
      ∷ [];
}

turn_read : turns_of chunks ≡ some turn
turn_read = refl

merged_first :
    merged (pick (pos 0) turn.fragments)
    ≡ some (record { id = str "a"; name = str "a"; arguments = "{}" })
unfolding join truthy
merged_first = refl

assemble_openai_stream-turns_of_example :
    (calls : Slots) × (assemble_openai_stream chunks
      ≡ some (response (head_of chunks) turn.texts turn.reasonings calls))
    × IsSorted calls
    × ((i : ℤ) → find i calls ≡ merged (pick i turn.fragments))
assemble_openai_stream-turns_of_example = assemble_openai_stream-turns_of chunks turn turn_read

-- `json.loads` and `json.dumps` on the texts of this stream.
abbrev loads : String → Option Value
loads s = if str_eq s "{}" then some (obj end) else none

abbrev dumps : Value → String
dumps v = "{}"

rereads : Rereads loads dumps
rereads = (
  refl,
  λ raw d h. elim (Bool-cases (str_eq raw "{}")) [
    | inl e ↦ rw e at h
    | inr e ↦ absurd (let k : ◌≡◌ {A = Option Value} none (some (obj d)) = rw e at h in cc)
  ],
)

abbrev loads_text : Text → Option Value
loads_text t =
    if text_eq t (codes "0")
    then some (chunk (field "reasoning" (str "so") end))
    else if text_eq t (codes "1")
    then some (chunk (calls (obj (call 0 (named "a")) ∷ [])))
    else if text_eq t (codes "2")
    then some (chunk (calls (obj (call 0 (arguments "{}")) ∷ [])))
    else none

-- The lines are cut within the word "data" and within a line's end.
abbrev reads : List (Text × ℕ)
reads =
    (codes "data: 0\nda", 1000)
    ∷ (codes "ta:1\n\n: keep-alive\ndata: 2", 30000)
    ∷ (codes "\ndata: [DONE]\n", 31000)
    ∷ []

abbrev values : List Value
values =
    chunk (field "reasoning" (str "so") end)
    ∷ chunk (calls (obj (call 0 (named "a")) ∷ []))
    ∷ chunk (calls (obj (call 0 (arguments "{}")) ∷ []))
    ∷ []

values_read : values_of_lines loads_text (cut (text_of reads)).lines ≡ values
unfolding values_of_lines cut
values_read = refl

pinged : pings reads 0 ≡ 1
unfolding pings
pinged = refl

abbrev assembled_call : Fields
assembled_call = field "id" (str "a") (
    field "type" (str "function")
      (function (field "name" (str "a") (field "arguments" (str "{}") end))))

abbrev message : Fields
message = field "role" (str "assistant") (
    field "content" (str "")
      (field "reasoning_content" (str "so") (calls (obj assembled_call ∷ []))))

abbrev assembled : Fields
assembled =
    let choice =
      field "index" (int (pos 0))
        (field "message" (obj message) (field "finish_reason" null end)) in
    field "id" (str "") (field "model" (str "") (field "choices" (arr (cons (obj choice) nil)) end))

assembled_runs :
    assemble_openai_stream (values_of_lines loads_text (cut (text_of reads)).lines) ≡ some assembled
unfolding assemble_openai_stream truthy values_of_lines cut join
assembled_runs = refl

abbrev reply : Reply
reply = record {
  id = str "msg_x";
  model = str "";
  content = thinking "so" "unsigned:openai-translation" ∷ tool_use (str "a") (str "a") end ∷ [];
  stop_reason = "tool_use";
  usage = record { input = pos 0; output = pos 0; cache_read = pos 0; cache_creation = pos 0 };
}

abbrev no_int : String → Option ℤ
no_int _ = none

abbrev fresh : ℕ → String
fresh _ = "toolu_0"

abbrev show : Value → String
show _ = "x"

replied : openai_response_to_anthropic loads fresh no_int show "u" true assembled ≡ some reply
unfolding openai_response_to_anthropic truthy
replied = refl

translate_event_stream-Delivers_example :
    Delivers loads loads_text dumps fresh no_int show "u" assembled reply
      (pings reads 0)
      (translate_event_stream loads loads_text dumps fresh no_int show "u" true reads 0)
translate_event_stream-Delivers_example =
    translate_event_stream-Delivers loads loads_text dumps fresh no_int show "u" true reads 0
      assembled reply rereads assembled_runs replied
