-- ===== src/Proxy/Messages.antt =====
-- The dicts of OpenAI messages, and what `_text_of`, `_tool_result_text`, `_assistant_message` and
-- `_user_messages` of src/compression_service/app/proxy.py make of the blocks of a message.
use soma_benchmark.Base.{String, Bool, ◌&&◌, Option, none, some, List, [], ◌∷◌, ◌++◌, if◌then◌else◌}
use soma_benchmark.Base.Strings.{join_lines, is_blank}
use soma_benchmark.Base.Json.{Value, str, arr, obj, Fields, end, to_list, get}
use soma_benchmark.Base.Values.{as_dict, string_field, is_type, truthy, non_falsy}

pub record Call : Type 0 where
  pub id : Value
  pub name : Value
  pub arguments : String

-- The dicts that go into `messages`, by their `role`; the reasoning and the calls stand in the dict
-- only if there are any.
pub data Message : Type 0 where
  from_system : String → Message
  from_user : String → Message
  from_assistant : String → Option String → List Call → Message
  from_tool : Value → String → Message

-- `b["text"]` of a text block.
abbrev pub text_block : Option Fields → Option String
text_block none = none
text_block (some b) = if is_type "text" b then string_field "text" b else none

abbrev pub cons_some {ℓ} : {A : Type ℓ} → Option A → List A → List A
cons_some none xs = xs
cons_some (some x) xs = x ∷ xs

unfoldable pub texts_of : List Value → List String
texts_of [] = []
texts_of (b ∷ bs) = cons_some (text_block (as_dict b)) (texts_of bs)

-- `_text_of`
unfoldable pub text_of : Option Value → String
unfolding texts_of
text_of (some (str s)) = s
text_of (some (arr blocks)) = join_lines (texts_of (to_list blocks))
text_of _ = ""

-- `item.get("text", "")`: only a string can be joined.
abbrev result_part : Option Value → Option String
result_part none = some ""
result_part (some (str s)) = some s
result_part _ = none

abbrev part_of : Option Fields → Option (Option String)
part_of none = some none
part_of (some item) =
    if is_type "text" item
    then elim (result_part (get "text" item)) [ none ↦ none | some s ↦ some (some s) ]
    else some none

abbrev with_part : Option (Option String) → Option (List String) → Option (List String)
with_part (some part) (some parts) = some (cons_some part parts)
with_part _ _ = none

unfoldable pub parts_of : List Value → Option (List String)
parts_of [] = some []
parts_of (item ∷ items) = with_part (part_of (as_dict item)) (parts_of items)

abbrev joined : Option (List String) → Option String
joined none = none
joined (some parts) = some (join_lines parts)

-- `_tool_result_text`; `none` is the `TypeError` of joining a text that is not a string.
unfoldable pub tool_result_text : Fields → Option String
unfolding parts_of
tool_result_text b = elim (get "content" b) [
  | some (str s) ↦ some s
  | some (arr items) ↦ joined (parts_of (to_list items))
  | _ ↦ some ""
]

-- What `_assistant_message` collects.
pub record Collected : Type 0 where
  pub texts : List String
  pub reasoning : List String
  pub tool_calls : List Call

abbrev pub thinking_block : Bool → Fields → Option String
thinking_block carry b = if carry && is_type "thinking" b then string_field "thinking" b else none

-- `b.get("input") or {}` and `b.get("name") or ""`
unfoldable pub or_else : Value → Option Value → Value
or_else default none = default
or_else default (some v) = if truthy v then v else default

abbrev pub call_with : (Value → String) → Fields → Option Value → Option Call
call_with dumps b none = none
call_with dumps b (some id) = some (record {
  id = id;
  name = or_else (str "") (get "name" b);
  arguments = dumps (or_else (obj end) (get "input" b));
})

-- The id of a `tool_use` block, where it has one.
abbrev pub use_id : Fields → Option Value
use_id b = if is_type "tool_use" b then non_falsy (get "id" b) else none

abbrev pub add_block : (Value → String) → Bool → Option Fields → Collected → Collected
add_block dumps carry none c = c
add_block dumps carry (some b) c = record {
  texts = cons_some (text_block (some b)) c.texts;
  reasoning = cons_some (thinking_block carry b) c.reasoning;
  tool_calls = cons_some (call_with dumps b (use_id b)) c.tool_calls;
}

abbrev no_lines : List String → Option String
no_lines [] = none
no_lines (s ∷ ss) = some (join_lines (s ∷ ss))

abbrev pub message_from : Collected → List Message
message_from c = elim c.texts [
  | [] ↦ elim c.tool_calls [
    | [] ↦ []
    | call ∷ calls ↦ from_assistant "" (no_lines c.reasoning) (call ∷ calls) ∷ []
  ]
  | s ∷ ss ↦ from_assistant (join_lines (s ∷ ss)) (no_lines c.reasoning) c.tool_calls ∷ []
]

-- `json.dumps` of an input and `_carry_reasoning()`.
module _ (dumps : Value → String) (carry : Bool) where
  unfoldable pub collect : List Value → Collected
  collect [] = record { texts = []; reasoning = []; tool_calls = [] }
  collect (b ∷ bs) = add_block dumps carry (as_dict b) (collect bs)

  -- `_assistant_message`, as a list of at most one message.
  unfoldable pub assistant_message : List Value → List Message
  unfolding collect
  assistant_message blocks = message_from (collect blocks)

-- The id that a `tool_result` block answers, where it has one.
abbrev pub result_id : Fields → Option Value
result_id b = if is_type "tool_result" b then non_falsy (get "tool_use_id" b) else none

abbrev pub answer_with : Option Value → Option String → Option (Option Message)
answer_with none text = some none
answer_with (some id) none = none
answer_with (some id) (some text) = some (some (from_tool id text))

unfoldable pub answer_in : Option Fields → Option (Option Message)
unfolding tool_result_text
answer_in none = some none
answer_in (some b) = answer_with (result_id b) (tool_result_text b)

abbrev pub with_answer : Option (Option Message) → Option (List Message) → Option (List Message)
with_answer (some m) (some ms) = some (cons_some m ms)
with_answer _ _ = none

unfoldable pub tool_messages : List Value → Option (List Message)
tool_messages [] = some []
tool_messages (b ∷ bs) = with_answer (answer_in (as_dict b)) (tool_messages bs)

abbrev pub said : List String → List Message
said [] = []
said (s ∷ ss) = from_user (join_lines (s ∷ ss)) ∷ []

abbrev pub followed_by : Option (List Message) → List Message → Option (List Message)
followed_by none ms = none
followed_by (some results) ms = some (results ++ ms)

-- `_user_messages`
unfoldable pub user_messages : Value → Option (List Message)
unfolding tool_messages texts_of
user_messages (str s) = some (if is_blank s then [] else from_user s ∷ [])
user_messages (arr content) =
    followed_by (tool_messages (to_list content)) (said (texts_of (to_list content)))
user_messages _ = some []
