-- ===== src/Proxy/Dispatch.antt =====
-- Which requests are translated: `_is_anthropic_messages_request` of src/compression_service/app/proxy.py.
use soma_benchmark.Base.{
  String, Bool, true, false, not, ◌&&◌, ◌||◌, Option, none, some, List, [], ◌∷◌,
}
use soma_benchmark.Base.Text.{Text, codes, contains}
use soma_benchmark.Base.Json.{Value, str, arr, obj, Fields, to_list, get}
use soma_benchmark.Base.Values.{as_dict, is_type}

abbrev pub any_of {ℓ} : {A : Type ℓ} → (A → Bool) → List A → Bool
any_of p [] = false
any_of p (x ∷ xs) = p x || any_of p xs

abbrev list_in : Option Value → List Value
list_in (some (arr vs)) = to_list vs
list_in _ = []

abbrev has_key : String → Option Fields → Bool
has_key k none = false
has_key k (some d) = elim (get k d) [ some _ ↦ true | none ↦ false ]

abbrev is_anthropic_block : Option Fields → Bool
is_anthropic_block none = false
is_anthropic_block (some b) =
    is_type "tool_use" b
    || is_type "tool_result" b
    || is_type "thinking" b
    || is_type "redacted_thinking" b

abbrev has_anthropic_block : Option Fields → Bool
has_anthropic_block none = false
has_anthropic_block (some m) =
    any_of (λ b. is_anthropic_block (as_dict b)) (list_in (get "content" m))

abbrev is_text_or_list : Option Value → Bool
is_text_or_list (some (str _)) = true
is_text_or_list (some (arr _)) = true
is_text_or_list _ = false

abbrev is_empty_list {ℓ} : {A : Type ℓ} → List A → Bool
is_empty_list [] = true
is_empty_list (_ ∷ _) = false

unfoldable pub has_anthropic_shape : Fields → Bool
has_anthropic_shape payload =
    is_text_or_list (get "system" payload)
    || any_of (λ m. has_anthropic_block (as_dict m)) (list_in (get "messages" payload))
    || any_of (λ t. has_key "input_schema" (as_dict t)) (list_in (get "tools" payload))

unfoldable pub is_anthropic_messages_request : Text → Value → Bool
unfolding has_anthropic_shape
is_anthropic_messages_request path (obj payload) =
    not (is_empty_list (list_in (get "messages" payload)))
    && not (contains (codes "chat/completions") path)
    && not (contains (codes "count_tokens") path)
    && has_anthropic_shape payload
is_anthropic_messages_request path _ = false
