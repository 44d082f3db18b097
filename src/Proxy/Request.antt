-- ===== src/Proxy/Request.antt =====
-- The messages of an Anthropic request as OpenAI messages: `_group_same_role` and the first half of
-- `_anthropic_request_to_openai` in src/compression_service/app/proxy.py.
pub mod Grouping
pub mod Merging
pub mod Exchanges
use soma_benchmark.Base.{
  String, Bool, true, false, Option, none, some, List, [], ◌∷◌, ◌++◌, str_eq, if◌then◌else◌,
}
use soma_benchmark.Base.Strings.{is_blank}
use soma_benchmark.Base.Json.{Value, str, arr, obj, Fields, end, field, to_list, of_list, get}
use soma_benchmark.Base.Values.{as_dict}
pub use soma_benchmark.Proxy.Messages.{
  answer_with, Call, Message, text_block, cons_some, Collected, thinking_block, call_with, use_id,
  add_block, message_from, result_id, with_answer, said, followed_by, from_system, from_user,
  from_assistant, from_tool,
}
unfoldable pub use soma_benchmark.Proxy.Messages.{
  texts_of, text_of, parts_of, tool_result_text, or_else, collect, assistant_message, answer_in,
  tool_messages, user_messages,
}

-- The roles that `_group_same_role` keeps.
pub data Role : Type 0 where
  user : Role
  assistant : Role
  system : Role

abbrev pub same_role : Role → Role → Bool
same_role user user = true
same_role assistant assistant = true
same_role system system = true
same_role _ _ = false

pub record Turn : Type 0 where
  pub role : Role
  pub blocks : List Value

-- `message["role"]`, if it is one that is kept.
abbrev pub role_in : Option Value → Option Role
role_in (some (str s)) =
    if str_eq s "user"
    then some user
    else if str_eq s "assistant"
    then some assistant
    else if str_eq s "system"
    then some system
    else none
role_in _ = none

abbrev pub blocks_of : Option Value → List Value
blocks_of (some (arr blocks)) = to_list blocks
blocks_of (some (str s)) =
    if is_blank s then [] else obj (field "type" (str "text") (field "text" (str s) end)) ∷ []
blocks_of _ = []

abbrev pub turn_with : Option Role → Option Value → Option Turn
turn_with none content = none
turn_with (some r) content = some (record { role = r; blocks = blocks_of content })

abbrev pub turn_in : Option Fields → Option Turn
turn_in none = none
turn_in (some d) = turn_with (role_in (get "role" d)) (get "content" d)

abbrev pub turn_of : Value → Option Turn
turn_of m = turn_in (as_dict m)

unfoldable pub add_after : Turn → List Turn → Turn → List Turn
add_after u [] t =
    if same_role u.role t.role
    then record { role = u.role; blocks = u.blocks ++ t.blocks } ∷ []
    else u ∷ t ∷ []
add_after u (v ∷ turns) t = u ∷ add_after v turns t

-- `grouped[-1]` gets the blocks, if it has the role; otherwise a turn is appended.
unfoldable pub add_turn : List Turn → Turn → List Turn
unfolding add_after
add_turn [] t = t ∷ []
add_turn (u ∷ turns) t = add_after u turns t

unfoldable pub add_some : List Turn → Option Turn → List Turn
unfolding add_turn
add_some grouped none = grouped
add_some grouped (some t) = add_turn grouped t

-- The loop of `_group_same_role`, with its list `grouped`. The blocks are copied, so a merge changes
-- no list of the payload.
unfoldable pub group_from : List Turn → List Value → List Turn
group_from grouped [] = grouped
group_from grouped (m ∷ ms) = group_from (add_some grouped (turn_of m)) ms

unfoldable pub group_same_role : List Value → List Turn
unfolding group_from
group_same_role ms = group_from [] ms

abbrev pub noted : String → List Message
noted s = if is_blank s then [] else from_user s ∷ []

abbrev pub preface : String → List Message
preface s = if is_blank s then [] else from_system s ∷ []

abbrev pub both : Option (List Message) → Option (List Message) → Option (List Message)
both (some xs) (some ys) = some (xs ++ ys)
both _ _ = none

module _ (dumps : Value → String) (carry : Bool) where
  unfoldable pub convert_turn : Role → List Value → Option (List Message)
  unfolding assistant_message user_messages text_of
  convert_turn assistant blocks = some (assistant_message dumps carry blocks)
  convert_turn user blocks = user_messages (arr (of_list blocks))
  convert_turn system blocks = some (noted (text_of (some (arr (of_list blocks)))))

  unfoldable pub convert_turns : List Turn → Option (List Message)
  unfolding convert_turn
  convert_turns [] = some []
  convert_turns (t ∷ turns) = both (convert_turn t.role t.blocks) (convert_turns turns)

  -- The `messages` of `_anthropic_request_to_openai`, from the `system` and the `messages` of the
  -- payload; `none` is a `TypeError`.
  unfoldable pub convert_messages : Option Value → List Value → Option (List Message)
  unfolding convert_turns group_same_role text_of
  convert_messages top messages =
      both (some (preface (text_of top))) (convert_turns (group_same_role messages))
