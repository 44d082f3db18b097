-- ===== src/Compressor/BaseMiner.antt =====
-- src/compression_service/app/base_miner.py: the compressor that changes nothing and asks Jev about the last
-- tool output.
pub mod Identity
use soma_benchmark.Base.{ℕ, String, Option, none, some, List, [], ◌∷◌, if◌then◌else◌}
use soma_benchmark.Base.Strings.{join_lines, prefix}
use soma_benchmark.Base.Json.{Value, null, str, arr, obj, Items, nil, cons, Fields, end, field, get}
use soma_benchmark.Base.Values.{as_string, is_string, non_falsy, truthy}
use soma_benchmark.Compressor.Rounds.{Answer, Text, response, service_error}
use soma_benchmark.Compressor.Client.{Services, offers, decide}
use soma_benchmark.Compressor.App.{Ran, Arguments, keywords, positional, Compressor}

abbrev pub preview_chars : ℕ
preview_chars = 600

abbrev with_text : Option String → List String → List String
with_text none rest = rest
with_text (some s) rest = s ∷ rest

unfoldable pub texts_of : Items → List String
texts_of nil = []
texts_of (cons (obj part) parts) = with_text (as_string (get "text" part)) (texts_of parts)
texts_of (cons _ parts) = texts_of parts

-- `_text`
unfoldable pub text_of : Option Value → String
unfolding texts_of join_lines
text_of (some (str s)) = s
text_of (some (arr parts)) = join_lines (texts_of parts)
text_of _ = ""

abbrev or_else : Option Fields → Fields → Option Fields
or_else (some later) m = some later
or_else none m = if is_string "tool" (get "role" m) then some m else none

-- The last message with the role `tool`.
unfoldable pub last_tool : Items → Option Fields
last_tool nil = none
last_tool (cons (obj m) messages) = or_else (last_tool messages) m
last_tool (cons _ messages) = last_tool messages

-- What a call prints: the answer of Jev, or the error of the call.
pub data Printed : Type 0 where
  answered : Fields → Printed
  call_failed : Text → Text → Printed

abbrev pub printed_of : Answer → Printed
printed_of (response d) = answered d
printed_of (service_error code message) = call_failed code message

-- `show` and `str_of` are `str` of a number and of a value that is no string; `questions` is the
-- constant dict of the one question.
module _ (show : ℕ → String) (str_of : Value → String) (questions : Value) where
  abbrev task_text : Option Value → String
  task_text none = ""
  task_text (some (str s)) = s
  task_text (some v) = str_of v

  abbrev get_in : String → Option Fields → Option Value
  get_in k none = none
  get_in k (some d) = get k d

  unfoldable pub state_of : Option Fields → Fields → Value
  unfolding text_of prefix truthy
  state_of metadata tool = obj (
      field "task" (str (prefix 1000 (task_text (non_falsy (get_in "task" metadata)))))
        (field "last_tool_output" (str (prefix preview_chars (text_of (get "content" tool)))) end))

  abbrev pub print_answer : Option Answer → Option (List Printed)
  print_answer none = none
  print_answer (some a) = some (printed_of a ∷ [])

  abbrev pub ask_about : Option Fields → Option Fields → Services → Option (List Printed)
  ask_about none metadata s = some []
  ask_about (some tool) metadata s =
      print_answer (decide show (state_of metadata tool) questions null s).0

  -- `_ask_jev`; `none` is an exception that it does not catch.
  unfoldable pub ask_jev : Items → Option Fields → Services → Option (List Printed)
  unfolding last_tool state_of decide
  ask_jev messages metadata s = ask_about (last_tool messages) metadata s

  abbrev pub consult : Items → Option Fields → Option Services → Option (List Printed)
  consult messages metadata none = some []
  consult messages metadata (some s) =
      if offers "jev" s then ask_jev messages metadata s else some []

  abbrev pub return_after : Items → Option (List Printed) → Option (Items × List Printed)
  return_after messages none = none
  return_after messages (some printed) = some (messages, printed)

  -- `compress_messages`: the messages that it returns and what it prints.
  unfoldable pub compress_messages :
      Option Items → Option Fields → Option Services → Option (Items × List Printed)
  unfolding offers ask_jev
  compress_messages none metadata services = some (nil, [])
  compress_messages (some messages) metadata services =
      return_after messages (consult messages metadata services)

  abbrev pub result_of : Option (Items × List Printed) → Option Value
  result_of none = none
  result_of (some (messages, printed)) = some (arr messages)

  abbrev messages_or_nil : Option Items → Items
  messages_or_nil none = nil
  messages_or_nil (some messages) = messages

  -- The module as a compressor. It leaves the list that it is given as it is.
  abbrev call : Arguments Services → Ran
  call (keywords k) = record {
    result = result_of (compress_messages k.messages k.metadata k.services);
    messages = messages_or_nil k.messages;
  }
  call (positional messages) = record {
    result = result_of (compress_messages (some messages) none none);
    messages = messages;
  }

  abbrev pub base_miner : Compressor Services
  base_miner = record {
    signature = some ("messages" ∷ "path" ∷ "metadata" ∷ "services" ∷ []);
    call = call;
  }
