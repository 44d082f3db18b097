-- ===== src/Compressor/Events.antt =====
-- What src/compression_service/app/main.py reports: the entries of its log lines, of which a call's output is
-- cut, and the answer of its health check.
pub mod Bounds
use soma_benchmark.Base.{
  ℕ, ◌-◌, String, Bool, true, false, Option, none, some, List, ◌++◌, leb, if◌then◌else◌,
}
use soma_benchmark.Base.Lists.{length, take}
use soma_benchmark.Base.Text.{codes}
use soma_benchmark.Base.Json.{ℤ, pos, negsuc, Value, Items, to_list, Fields, get}
use soma_benchmark.Compressor.App.{coerce_bool, extract_messages}

-- `_get_compressor_output_capture_limit`, where `none` is a text that is not an integer.
unfoldable pub output_capture_limit : Option ℤ → ℕ
output_capture_limit none = 20000
output_capture_limit (some (pos n)) = n
output_capture_limit (some (negsuc _)) = 0

abbrev pub cut_note : List ℕ → List ℕ
cut_note digits = codes "\n... [truncated " ++ (digits ++ codes " chars]")

-- `_truncate_captured_output`, where `show` is `str` of a number.
unfoldable pub truncate_captured_output : (ℕ → List ℕ) → ℕ → List ℕ → List ℕ
truncate_captured_output show limit value =
    if leb (length value) limit
    then value
    else take limit value ++ cut_note (show (length value - limit))

-- The entry of a compressor run, without its clock, its request and the texts of an exception.
pub record ExecEvent : Type 0 where
  pub ok : Bool
  pub compressor_loaded : Bool
  pub input_messages : ℕ
  pub output_messages : Option ℕ
  pub stdout : List ℕ
  pub stderr : List ℕ

abbrev is_some {ℓ} : {A : Type ℓ} → Option A → Bool
is_some none = false
is_some (some _) = true

abbrev count_messages : Fields → ℕ
count_messages d = length (to_list (extract_messages d))

-- The entry that `_invoke_compressor_logged` emits after a call, whose `result` is `none` for an
-- exception. The input messages are counted after the call, in the payload as it then is.
unfoldable pub exec_event {ℓ} :
    {C : Type ℓ}
    → (ℕ → List ℕ)
    → ℕ
    → Option C
    → Fields
    → Option Fields
    → List ℕ
    → List ℕ
    → ExecEvent
unfolding truncate_captured_output
exec_event show limit compressor after result stdout stderr = record {
  ok = is_some result;
  compressor_loaded = is_some compressor;
  input_messages = count_messages after;
  output_messages = elim result [ none ↦ none | some d ↦ some (count_messages d) ];
  stdout = truncate_captured_output show limit stdout;
  stderr = truncate_captured_output show limit stderr;
}

pub record MessageEvent : Type 0 where
  pub request_id : String
  pub path : String
  pub query : String
  pub model : Option Value
  pub messages : Items

-- `_emit_message_event`
unfoldable pub message_event : String → String → String → Fields → MessageEvent
message_event request_id path query payload = record {
  request_id = request_id;
  path = path;
  query = query;
  model = get "model" payload;
  messages = extract_messages payload;
}

-- The fields of `health` that are not constants; `setting` is `COMPRESSION_MUTATE_REQUEST`.
pub record Health : Type 0 where
  pub compressor_loaded : Bool
  pub mutate_enabled : Bool

unfoldable pub health {ℓ} : {C : Type ℓ} → Option C → Option String → Health
unfolding coerce_bool
health compressor setting = record {
  compressor_loaded = is_some compressor;
  mutate_enabled = elim setting [
    | none ↦ coerce_bool (Value.str "true") true
    | some s ↦ coerce_bool (Value.str s) true
  ];
}
