-- ===== src/Proxy/Response.antt =====
-- An OpenAI response as Anthropic content blocks: `_reasoning_of` and `_anthropic_content_blocks` of
-- src/compression_service/app/proxy.py.
pub mod Replay
use soma_benchmark.Base.{
  ℕ, ◌+◌, String, Bool, Option, none, some, List, [], ◌∷◌, ◌++◌, if◌then◌else◌,
}
use soma_benchmark.Base.Strings.{join_lines, is_blank}
use soma_benchmark.Base.Json.{Value, str, arr, obj, Fields, end, field, to_list, get}
use soma_benchmark.Base.Values.{
  as_dict, as_string, string_field, truthy, non_falsy, or_value, dict_at, or_end,
}
use soma_benchmark.Proxy.Request.{cons_some, texts_of}

abbrev unsigned_thinking_marker : String
unsigned_thinking_marker = "unsigned:openai-translation"

-- `s if s`
abbrev pub non_blank : Option String → Option String
non_blank none = none
non_blank (some s) = if is_blank s then none else some s

-- `item.get("text") or item.get("summary")`, if it is a string that is not empty.
abbrev detail_text : Option Fields → Option String
detail_text none = none
detail_text (some item) =
    non_blank (as_string (or_value (non_falsy (get "text" item)) (get "summary" item)))

abbrev detail_signature : Option Fields → Option String
detail_signature none = none
detail_signature (some item) = non_blank (string_field "signature" item)

unfoldable pub detail_texts : List Value → List String
detail_texts [] = []
detail_texts (item ∷ items) = cons_some (detail_text (as_dict item)) (detail_texts items)

-- The last signature wins.
unfoldable pub last_signature : List Value → Option String
last_signature [] = none
last_signature (item ∷ items) = or_value (last_signature items) (detail_signature (as_dict item))

abbrev pub details_of : Option Value → List Value
details_of (some (arr items)) = to_list items
details_of _ = []

abbrev with_signature : List String → Option String → Option (String × Option String)
with_signature [] signature = none
with_signature (s ∷ ss) signature = some (join_lines (s ∷ ss), signature)

abbrev unsigned : Option String → Option (String × Option String)
unsigned none = none
unsigned (some s) = some (s, none)

-- `_reasoning_of`; `none` is `("", None)`.
unfoldable pub reasoning_of : Fields → Option (String × Option String)
unfolding detail_texts last_signature
reasoning_of message =
    let details = details_of (get "reasoning_details" message) in
    or_value (with_signature (detail_texts details) (last_signature details)) (
      or_value (unsigned (non_blank (string_field "reasoning_content" message)))
        (unsigned (non_blank (string_field "reasoning" message))))

abbrev pub thinking : String → String → Value
thinking text signature = obj (
    field "type" (str "thinking")
      (field "thinking" (str text) (field "signature" (str signature) end)))

abbrev pub text_block : String → Value
text_block s = obj (field "type" (str "text") (field "text" (str s) end))

abbrev pub tool_use : Value → Value → Fields → Value
tool_use id name input = obj (
    field "type" (str "tool_use")
      (field "id" id (field "name" name (field "input" (obj input) end))))

abbrev pub or_marker : Option String → String
or_marker none = unsigned_thinking_marker
or_marker (some s) = s

abbrev pub thinking_blocks : Option (String × Option String) → List Value
thinking_blocks none = []
thinking_blocks (some (text, signature)) =
    if is_blank text then [] else thinking text (or_marker signature) ∷ []

abbrev pub blocks_of_text : String → List Value
blocks_of_text s = if is_blank s then [] else text_block s ∷ []

unfoldable pub text_blocks : Option Value → List Value
text_blocks (some (str s)) = blocks_of_text s
text_blocks (some (arr parts)) = blocks_of_text (join_lines (texts_of (to_list parts)))
text_blocks _ = []

abbrev pub or_default : Value → Option Value → Value
or_default v none = v
or_default v (some w) = w

-- `message.get("tool_calls") or []` as a list. Of a dict or of a string the loop sees only strings,
-- which it skips; `none` is the `TypeError` of a value that has no items.
abbrev pub items_of : Option Value → Option (List Value)
items_of (some (arr items)) = some (to_list items)
items_of (some (obj _)) = some []
items_of (some (str _)) = some []
items_of (some v) = if truthy v then none else some []
items_of none = some []

-- `parsed if isinstance(parsed, dict) else {}`, and `{}` for arguments that do not parse.
abbrev pub parsed : Option Value → Fields
parsed none = end
parsed (some v) = or_end (as_dict v)

-- `json.loads`, where `none` is the `ValueError`, and an id that `uuid4` gives to the n-th call.
module _ (loads : String → Option Value) (fresh : ℕ → String) where
  abbrev pub parsed_of : Option String → Fields
  parsed_of none = end
  parsed_of (some raw) = parsed (loads raw)

  abbrev pub call_block : ℕ → Fields → Value
  call_block n call =
      let function = or_end (dict_at "function" call) in
      tool_use (or_default (str (fresh n)) (non_falsy (get "id" call)))
        (or_default (str "") (non_falsy (get "name" function)))
        (parsed_of (string_field "arguments" function))

  abbrev pub call_at : ℕ → Option Fields → Option Value
  call_at n none = none
  call_at n (some call) = some (call_block n call)

  unfoldable pub call_blocks : ℕ → List Value → List Value
  call_blocks n [] = []
  call_blocks n (call ∷ calls) = cons_some (call_at n (as_dict call)) (call_blocks (n + 1) calls)

  abbrev pub or_empty_text : List Value → List Value
  or_empty_text [] = text_block "" ∷ []
  or_empty_text (b ∷ bs) = b ∷ bs

  unfoldable pub carried : Bool → Fields → Option (String × Option String)
  unfolding reasoning_of
  carried carry message = if carry then reasoning_of message else none

  unfoldable pub with_calls : Bool → Fields → Option (List Value) → Option (List Value)
  unfolding call_blocks text_blocks carried
  with_calls carry message none = none
  with_calls carry message (some calls) = some (
      or_empty_text (
        thinking_blocks (carried carry message)
        ++ (text_blocks (get "content" message) ++ call_blocks 0 calls)))

  -- `_anthropic_content_blocks`, with `_carry_reasoning()` as its first argument.
  unfoldable pub anthropic_content_blocks : Bool → Fields → Option (List Value)
  unfolding with_calls
  anthropic_content_blocks carry message =
      with_calls carry message (items_of (get "tool_calls" message))
