-- ===== src/Proxy/Tools.antt =====
-- The tools of a request: `_openai_tools` and `_openai_tool_choice` of src/compression_service/app/proxy.py. A
-- tool's name is a string, as the API has it: at another one that is not empty the run of the model stops,
-- as it does at an exception.
pub mod Order
use soma_benchmark.Base.{
  String, Bool, Option, none, some, List, [], ◌∷◌, str_eq, if◌then◌else◌, ◌>>=◌,
}
use soma_benchmark.Base.Text.{Text, codes, text_at_most}
use soma_benchmark.Base.Json.{Value, str, arr, obj, cons, to_list, Fields, end, field, get}
use soma_benchmark.Base.Values.{as_dict, non_falsy, is_string}
use soma_benchmark.Proxy.Response.{or_default}

pub record Tool : Type 0 where
  pub name : String
  pub description : Value
  pub parameters : Value

abbrev no_parameters : Value
no_parameters = obj (field "type" (str "object") (field "properties" (obj end) end))

abbrev tool_with : Option Value → Fields → Option (Option Tool)
tool_with none tool = some none
tool_with (some (str name)) tool = some (
    some (record {
      name = name;
      description = or_default (str "") (non_falsy (get "description" tool));
      parameters = or_default no_parameters (non_falsy (get "input_schema" tool));
    }))
tool_with (some _) tool = none

abbrev pub tool_in : Option Fields → Option (Option Tool)
tool_in none = some none
tool_in (some tool) = tool_with (non_falsy (get "name" tool)) tool

abbrev pub cons_tool : Option Tool → List Tool → List Tool
cons_tool none ts = ts
cons_tool (some t) ts = t ∷ ts

-- The tools that have a name, in the order of the request.
unfoldable pub named_tools : List Value → Option (List Tool)
named_tools [] = some []
named_tools (v ∷ vs) =
    tool_in (as_dict v) >>= (λ t. named_tools vs >>= (λ ts. some (cons_tool t ts)))

abbrev pub key : Tool → Text
key t = codes t.name

unfoldable pub insert_tool : Tool → List Tool → List Tool
insert_tool t [] = t ∷ []
insert_tool t (u ∷ us) =
    let rest = insert_tool t us in if text_at_most (key t) (key u) then t ∷ u ∷ us else u ∷ rest

-- `out.sort(key=...)`, which keeps the order of equal names.
unfoldable pub sort_tools : List Tool → List Tool
unfolding insert_tool
sort_tools [] = []
sort_tools (t ∷ ts) = insert_tool t (sort_tools ts)

abbrev list_in : Option Value → List Value
list_in (some (arr vs)) = to_list vs
list_in _ = []

-- `_openai_tools`, where no tools are `None`; `sort` is `PROXY_OPENAI_SORT_TOOLS`.
unfoldable pub openai_tools : Bool → Option Value → Option (List Tool)
unfolding named_tools sort_tools
openai_tools sort tools =
    named_tools (list_in tools) >>= (λ ts. some (if sort then sort_tools ts else ts))

abbrev pub tool_value : Tool → Value
tool_value t = obj (
    field "type" (str "function") (
      field "function"
        (obj (
          field "name" (str t.name)
            (field "description" t.description (field "parameters" t.parameters end))))
        end))

abbrev pub tool_values : List Tool → List Value
tool_values [] = []
tool_values (t ∷ ts) = tool_value t ∷ tool_values ts

-- `_TOOL_CHOICE_MAP.get(kind)`; the outer `none` is the `TypeError` of a list or a dict.
abbrev known_choice : Option Value → Option (Option Value)
known_choice (some (arr _)) = none
known_choice (some (obj _)) = none
known_choice (some (str s)) = some (
    if str_eq s "auto"
    then some (str "auto")
    else if str_eq s "any"
    then some (str "required")
    else if str_eq s "none"
    then some (str "none")
    else none)
known_choice _ = some none

abbrev named_choice : Value → Value
named_choice name =
    obj (field "type" (str "function") (field "function" (obj (field "name" name end)) end))

abbrev choice_with : Option Value → Option Value → Option (Option Value)
choice_with kind none = known_choice kind
choice_with kind (some name) =
    if is_string "tool" kind then some (some (named_choice name)) else known_choice kind

-- `_openai_tool_choice`
unfoldable pub openai_tool_choice : Option Value → Option (Option Value)
openai_tool_choice (some (obj choice)) =
    choice_with (get "type" choice) (non_falsy (get "name" choice))
openai_tool_choice _ = some none
