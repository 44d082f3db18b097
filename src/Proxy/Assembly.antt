-- ===== src/Proxy/Assembly.antt =====
-- The deltas of an OpenAI stream as one response: `_assemble_openai_stream` of
-- src/compression_service/app/proxy.py. A call's index is a number without a fraction, as the API has it: at
-- another one the run of the model stops, as it does at an exception.
pub mod Fragments
pub mod Heads
pub mod Merged
pub mod Order
pub mod Slots
use soma_benchmark.Base.{
  String, true, false, Option, none, some, List, [], ◌∷◌, ◌++◌, if◌then◌else◌, ◌>>=◌,
}
use Prim.Native.String.{◌++◌ as ◌<>◌}
use soma_benchmark.Base.Lists.{length}
use soma_benchmark.Base.Strings.{join}
use soma_benchmark.Base.Integers.{same_integer, at_most}
use soma_benchmark.Base.Json.{
  ℤ, pos, Value, null, bool, int, real, str, arr, obj, nil, cons, of_list, Fields, end, field, get,
}
use soma_benchmark.Base.Values.{as_dict, string_field, non_falsy, or_value, dict_at}
use soma_benchmark.Proxy.Response.{items_of, or_default}

pub record Slot : Type 0 where
  pub id : Value
  pub name : Value
  pub arguments : String

abbrev pub new_slot : Slot
new_slot = record { id = str ""; name = str ""; arguments = "" }

-- The fragment of a call, as it changes its slot.
abbrev pub with_id : Option Value → Slot → Slot
with_id none s = s
with_id (some v) s = record s { id = v }

abbrev pub with_name : Option Value → Slot → Slot
with_name none s = s
with_name (some v) s = record s { name = v }

abbrev pub with_arguments : Option String → Slot → Slot
with_arguments none s = s
with_arguments (some t) s = record s { arguments = s.arguments <> t }

abbrev pub with_function : Option Fields → Slot → Slot
with_function none s = s
with_function (some f) s =
    with_arguments (string_field "arguments" f) (with_name (non_falsy (get "name" f)) s)

unfoldable pub add_fragment : Fields → Slot → Slot
add_fragment call s =
    with_function (dict_at "function" call) (with_id (non_falsy (get "id" call)) s)

-- `tool_calls`, in the order in which its keys came.
abbrev pub Slots : Type 0
Slots = List (ℤ × Slot)

unfoldable pub update_slot : ℤ → Fields → Slots → Slots
unfolding add_fragment
update_slot i call [] = (i, add_fragment call new_slot) ∷ []
update_slot i call ((j, s) ∷ slots) =
    let rest = update_slot i call slots in
    if same_integer j i then (j, add_fragment call s) ∷ slots else (j, s) ∷ rest

abbrev pub index_of : Value → Option ℤ
index_of (int n) = some n
index_of (bool true) = some (pos 1)
index_of (bool false) = some (pos 0)
index_of (real r) = r.integral
index_of _ = none

-- `call.get("index", len(tool_calls))`
abbrev pub key_of : Option Value → Slots → Option ℤ
key_of none slots = some (pos (length slots))
key_of (some v) slots = index_of v

abbrev pub add_at : Option ℤ → Fields → Slots → Option Slots
add_at none call slots = none
add_at (some i) call slots = some (update_slot i call slots)

abbrev pub add_dict : Option Fields → Slots → Option Slots
add_dict none slots = some slots
add_dict (some call) slots = add_at (key_of (get "index" call) slots) call slots

unfoldable pub add_calls : List Value → Slots → Option Slots
unfolding update_slot
add_calls [] slots = some slots
add_calls (call ∷ calls) slots = add_dict (as_dict call) slots >>= add_calls calls

pub record Assembly : Type 0 where
  pub id : Option Value
  pub model : Option Value
  pub provider : Option Value
  pub usage : Option Fields
  pub finish_reason : Option Value
  pub text_parts : List String
  pub reasoning_parts : List String
  pub slots : Slots

abbrev pub empty : Assembly
empty = record {
  id = none;
  model = none;
  provider = none;
  usage = none;
  finish_reason = none;
  text_parts = [];
  reasoning_parts = [];
  slots = [];
}

abbrev pub one_or_none : Option String → List String
one_or_none none = []
one_or_none (some s) = s ∷ []

abbrev pub reasoning_text : Fields → Option String
reasoning_text delta =
    or_value (string_field "reasoning_content" delta) (string_field "reasoning" delta)

abbrev pub with_slots : Assembly → Slots → Option Assembly
with_slots a slots = some (record a { slots = slots })

abbrev pub add_delta : Option Fields → Assembly → Option Assembly
add_delta none a = some a
add_delta (some d) a =
    let b : Assembly = record a {
      text_parts = a.text_parts ++ one_or_none (string_field "content" d);
      reasoning_parts = a.reasoning_parts ++ one_or_none (reasoning_text d);
    } in
    (items_of (get "tool_calls" d) >>= (λ calls. add_calls calls a.slots)) >>= with_slots b

abbrev pub add_choice : Option Fields → Assembly → Option Assembly
add_choice none a = none
add_choice (some choice) a =
    add_delta (dict_at "delta" choice) (record a {
      finish_reason = or_value (non_falsy (get "finish_reason" choice)) a.finish_reason;
    })

abbrev pub add_choices : Option Value → Assembly → Option Assembly
add_choices (some (arr (cons choice _))) a = add_choice (as_dict choice) a
add_choices _ a = some a

abbrev pub with_head : Fields → Assembly → Assembly
with_head chunk a = record a {
  id = or_value a.id (non_falsy (get "id" chunk));
  model = or_value a.model (non_falsy (get "model" chunk));
  provider = or_value a.provider (non_falsy (get "provider" chunk));
  usage = or_value (dict_at "usage" chunk) a.usage;
}

-- One chunk; `none` is an exception.
unfoldable pub add_chunk : Value → Assembly → Option Assembly
unfolding add_calls
add_chunk (obj chunk) a = add_choices (get "choices" chunk) (with_head chunk a)
add_chunk _ a = none

unfoldable pub add_chunks : List Value → Assembly → Option Assembly
unfolding add_chunk
add_chunks [] a = some a
add_chunks (chunk ∷ chunks) a = add_chunk chunk a >>= add_chunks chunks

-- `sorted(tool_calls)`, with the slots. The keys differ.
abbrev pub insert_slot : ℤ × Slot → Slots → Slots
insert_slot s [] = s ∷ []
insert_slot s (t ∷ slots) =
    let rest = insert_slot s slots in if at_most s.0 t.0 then s ∷ t ∷ slots else t ∷ rest

unfoldable pub sorted : Slots → Slots
sorted [] = []
sorted (s ∷ slots) = insert_slot s (sorted slots)

abbrev call_value : ℤ × Slot → Value
call_value (_, s) = obj (
    field "id" s.id (
      field "type" (str "function") (
        field "function" (obj (field "name" s.name (field "arguments" (str s.arguments) end)))
          end)))

abbrev call_values : Slots → List Value
call_values [] = []
call_values (s ∷ slots) = call_value s ∷ call_values slots

abbrev calls_field : Slots → Fields
calls_field [] = end
calls_field (s ∷ slots) = field "tool_calls" (arr (of_list (call_values (s ∷ slots)))) end

abbrev reasoning_field : List String → Fields → Fields
reasoning_field [] d = d
reasoning_field (s ∷ ss) d = field "reasoning_content" (str (join (s ∷ ss))) d

abbrev pub message_of : Assembly → Fields
message_of a = field "role" (str "assistant") (
    field "content" (str (join a.text_parts))
      (reasoning_field a.reasoning_parts (calls_field (sorted a.slots))))

abbrev usage_field : Option Fields → Fields
usage_field (some (field k v d)) = field "usage" (obj (field k v d)) end
usage_field _ = end

abbrev provider_field : Option Value → Fields → Fields
provider_field none d = d
provider_field (some v) d = field "provider" v d

unfoldable pub body_of : Assembly → Fields
unfolding sorted join
body_of a =
    let choice = field "index" (int (pos 0)) (
      field "message" (obj (message_of a))
        (field "finish_reason" (or_default null a.finish_reason) end)) in
    field "id" (or_default (str "") a.id) (
      field "model" (or_default (str "") a.model) (
        field "choices" (arr (cons (obj choice) nil))
          (provider_field a.provider (usage_field a.usage))))

abbrev body_if_some : Option Assembly → Option Fields
body_if_some none = none
body_if_some (some a) = some (body_of a)

-- `_assemble_openai_stream`
unfoldable pub assemble_openai_stream : List Value → Option Fields
unfolding add_chunks body_of
assemble_openai_stream chunks = body_if_some (add_chunks chunks empty)
