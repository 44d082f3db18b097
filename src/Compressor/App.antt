-- ===== src/Compressor/App.antt =====
-- src/compression_service/app/main.py: the settings, the choice of the compressor, and one call of it. The
-- miner's module is not part of the repository, so its function is a parameter.
pub mod Invoke
mod Tests
use soma_benchmark.Base.{
  String, Bool, true, false, ◌||◌, Option, none, some, List, [], ◌∷◌, str_eq, if◌then◌else◌,
}
use soma_benchmark.Base.Text.{codes, strip, lower, is_one_of}
use soma_benchmark.Base.Json.{Value, bool, str, arr, obj, Items, nil, Fields, end, field, get, put}
use soma_benchmark.Base.Values.{is_string}

-- `_coerce_bool`. Only letters of the alphabet become one of the words under `lower`.
unfoldable pub coerce_bool : Value → Bool → Bool
coerce_bool (bool b) default = b
coerce_bool (str s) default =
    let value = lower (strip (codes s)) in
    if is_one_of value ("1" ∷ "true" ∷ "yes" ∷ "on" ∷ [])
    then true
    else if is_one_of value ("0" ∷ "false" ∷ "no" ∷ "off" ∷ [])
    then false
    else default
coerce_bool _ default = default

unfoldable pub messages_of : Option Value → Items
messages_of (some (arr messages)) = messages
messages_of _ = nil

-- `_extract_messages`
abbrev pub extract_messages : Fields → Items
extract_messages payload = messages_of (get "messages" payload)

abbrev pub compressor_candidate_names : List String
compressor_candidate_names =
    "compress_messages" ∷ "compress_payload" ∷ "process_request" ∷ "transform_payload" ∷ []

-- What `getattr(module, name, None)` is: nothing, or a value that may be callable.
pub data Attribute {ℓ} (C : Type ℓ) : Type ℓ where
  missing : Attribute C
  plain : Attribute C
  function : C → Attribute C

unfoldable pub first_callable {ℓ} : {C : Type ℓ} → List String → (String → Attribute C) → Option C
first_callable [] attribute = none
first_callable (name ∷ names) attribute = elim (attribute name) [
  | function c ↦ some c
  | _ ↦ first_callable names attribute
]

-- `_resolve_compressor_callable`
unfoldable pub resolve_compressor_callable {ℓ} :
    {C : Type ℓ} → Option (String → Attribute C) → Option C
resolve_compressor_callable none = none
resolve_compressor_callable (some attribute) = first_callable compressor_candidate_names attribute

-- The keyword arguments, each passed if the function has a parameter of that name.
pub record Keywords {ℓ} (S : Type ℓ) : Type ℓ where
  pub messages : Option Items
  pub path : Option String
  pub metadata : Option Fields
  pub services : Option S

pub data Arguments {ℓ} (S : Type ℓ) : Type ℓ where
  keywords : Keywords S → Arguments S
  positional : Items → Arguments S

-- A call that has ended: its result, or `none` for an exception, and what the list of messages that it
-- was given holds after it, since the function may change that list.
pub record Ran : Type 0 where
  pub result : Option Value
  pub messages : Items

-- A compressor: the parameters of its signature, `none` where `inspect.signature` fails, and its call.
pub record Compressor {ℓ} (S : Type ℓ) : Type ℓ where
  pub signature : Option (List String)
  pub call : Arguments S → Ran

unfoldable pub has_parameter : String → List String → Bool
has_parameter name [] = false
has_parameter name (p ∷ parameters) = str_eq p name || has_parameter name parameters

abbrev when {ℓ} : {A : Type ℓ} → Bool → A → Option A
when b a = if b then some a else none

-- `{**(context or {}), "path": path}`
abbrev pub metadata_of : Option Fields → String → Fields
metadata_of none path = field "path" (str path) end
metadata_of (some context) path = put "path" (str path) context

module _ {ℓ} {S : Type ℓ} (no_services : S) where
  abbrev pub services_or : Option S → S
  services_or none = no_services
  services_or (some s) = s

  abbrev as_arguments : Items → Bool → Keywords S → Arguments S
  as_arguments messages given k = if given then keywords k else positional messages

  -- The arguments of the call in `_invoke_compressor`; `no_services` is `Services({}, None)`.
  unfoldable pub arguments :
      Option (List String) → Items → String → Option Fields → Option S → Arguments S
  unfolding has_parameter
  arguments none messages path context services = positional messages
  arguments (some ps) messages path context services =
      as_arguments messages
        (has_parameter "messages" ps
          || has_parameter "path" ps
          || has_parameter "metadata" ps
          || has_parameter "services" ps)
        (record {
          messages = when (has_parameter "messages" ps) messages;
          path = when (has_parameter "path" ps) path;
          metadata = when (has_parameter "metadata" ps) (metadata_of context path);
          services = when (has_parameter "services" ps) (services_or services);
        })

-- The payload after the call, whose list of messages the call may have changed.
unfoldable pub payload_after : Items → Option Value → Fields → Fields
payload_after messages (some (arr _)) payload = put "messages" (arr messages) payload
payload_after messages _ payload = payload

abbrev pub with_messages : Items → Fields → Fields
with_messages messages payload = put "messages" (arr messages) payload

abbrev pub of_dict : Fields → Option Value → Fields → Fields
of_dict result (some (arr messages)) payload = with_messages messages payload
of_dict result _ payload = result

-- What `_invoke_compressor` returns for a result, where the request may be changed.
unfoldable pub mutated : Value → Fields → Fields
mutated (arr messages) payload = with_messages messages payload
mutated (obj result) payload = of_dict result (get "messages" result) payload
mutated _ payload = payload

-- `_invoke_compressor` from the end of the call; `none` is the exception of the compressor.
unfoldable pub finish_call : Bool → Fields → Ran → Option Fields
unfolding payload_after mutated
finish_call mutate payload ran =
    let after = payload_after ran.messages (get "messages" payload) payload in
    elim ran.result [
      | none ↦ none
      | some result ↦ if mutate then some (mutated result after) else some after
    ]

module _ {ℓ} {S : Type ℓ} where
  -- `_invoke_compressor`, with `COMPRESSION_MUTATE_REQUEST` as a Boolean.
  unfoldable pub invoke_compressor :
      S → Option (Compressor S) → Bool → Fields → String → Option Fields → Option S → Option Fields
  unfolding arguments finish_call messages_of
  invoke_compressor no_services none mutate payload path context services = some payload
  invoke_compressor no_services (some c) mutate payload path context services =
      finish_call mutate payload (
        c.call (arguments no_services c.signature (extract_messages payload) path context services))

  -- `_miner_takes_services`
  unfoldable pub miner_takes_services : Option (Compressor S) → Bool
  unfolding has_parameter
  miner_takes_services none = false
  miner_takes_services (some c) = elim c.signature [
    | none ↦ false
    | some ps ↦ has_parameter "services" ps
  ]

abbrev non_empty : Option Value → Option Fields
non_empty (some (obj (field k v d))) = some (field k v d)
non_empty _ = none

-- `parse_offer` of services.py
unfoldable pub parse_offer : Option Value → Option Fields
parse_offer (some (obj services)) =
    if is_string "soma-compressor-services/1" (get "protocol" services)
    then non_empty (get "offer" services)
    else none
parse_offer _ = none
