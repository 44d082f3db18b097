-- ===== src/Proxy/Assembly/Heads.antt =====
-- The fields of an assembled response: what each is, by the chunks of the stream.
use soma_benchmark.Base.{
  String, ◌≡◌, refl, sym, ap, ◌∙◌, Option, none, some, List, [], ◌∷◌, ◌++◌, ◌>>=◌, bind-eq-some,
}
use mathlib.Core.Option.{some-injective}
use soma_benchmark.Base.Strings.{join}
use soma_benchmark.Base.Json.{
  ℤ, pos, Value, null, int, str, arr, nil, cons, obj, of_list, Fields, end, field, get,
}
use soma_benchmark.Base.Values.{as_dict, string_field, non_falsy, or_value, dict_at}
use soma_benchmark.Proxy.Response.{items_of, or_default}
use soma_benchmark.Proxy.Assembly.{
  Slot, Slots, Assembly, empty, add_calls, add_delta, add_choice, add_choices, add_chunk,
  add_chunks, with_head, with_slots, one_or_none, reasoning_text, body_of, reasoning_field,
  calls_field, call_values, provider_field, usage_field, sorted,
}

-- What a stream says besides its texts and calls.
pub record Head : Type 0 where
  pub id : Option Value
  pub model : Option Value
  pub provider : Option Value
  pub usage : Option Fields
  pub finish_reason : Option Value

abbrev pub no_head : Head
no_head = record { id = none; model = none; provider = none; usage = none; finish_reason = none }

-- The first id, model and provider count, and the last usage and finish reason.
abbrev pub and_then : Head → Head → Head
and_then h g = record {
  id = or_value h.id g.id;
  model = or_value h.model g.model;
  provider = or_value h.provider g.provider;
  usage = or_value g.usage h.usage;
  finish_reason = or_value g.finish_reason h.finish_reason;
}

abbrev pub reason_in : Option Fields → Option Value
reason_in none = none
reason_in (some choice) = non_falsy (get "finish_reason" choice)

abbrev pub first_reason : Option Value → Option Value
first_reason (some (arr (cons choice _))) = reason_in (as_dict choice)
first_reason _ = none

abbrev pub head_in : Value → Head
head_in (obj chunk) = record {
  id = non_falsy (get "id" chunk);
  model = non_falsy (get "model" chunk);
  provider = non_falsy (get "provider" chunk);
  usage = dict_at "usage" chunk;
  finish_reason = first_reason (get "choices" chunk);
}
head_in _ = no_head

abbrev pub head_of : List Value → Head
head_of [] = no_head
head_of (chunk ∷ chunks) = and_then (head_in chunk) (head_of chunks)

-- A field that is there only with a value.
abbrev pub optional : String → Option Value → Fields → Fields
optional k none d = d
optional k (some v) d = field k v d

abbrev pub joined : List String → Option Value
joined [] = none
joined (s ∷ ss) = some (str (join (s ∷ ss)))

abbrev pub call_object : ℤ × Slot → Value
call_object (_, s) = obj (
    field "id" s.id (
      field "type" (str "function") (
        field "function" (obj (field "name" s.name (field "arguments" (str s.arguments) end)))
          end)))

abbrev pub call_objects : Slots → List Value
call_objects [] = []
call_objects (s ∷ slots) = call_object s ∷ call_objects slots

abbrev pub array : List Value → Option Value
array [] = none
array (v ∷ vs) = some (arr (of_list (v ∷ vs)))

abbrev pub dict_with_fields : Option Fields → Option Value
dict_with_fields (some (field k v d)) = some (obj (field k v d))
dict_with_fields _ = none

abbrev pub message : List String → List String → Slots → Fields
unfolding join
message texts reasonings calls = field "role" (str "assistant") (
    field "content" (str (join texts)) (
      optional "reasoning_content" (joined reasonings)
        (optional "tool_calls" (array (call_objects calls)) end)))

-- The response with some texts, reasonings and calls.
unfoldable pub response : Head → List String → List String → Slots → Fields
unfolding message
response h texts reasonings calls =
    let choice = field "index" (int (pos 0)) (
      field "message" (obj (message texts reasonings calls))
        (field "finish_reason" (or_default null h.finish_reason) end)) in
    field "id" (or_default (str "") h.id) (
      field "model" (or_default (str "") h.model) (
        field "choices" (arr (cons (obj choice) nil))
          (optional "provider" h.provider (optional "usage" (dict_with_fields h.usage) end))))

abbrev pub head : Assembly → Head
head a = record {
  id = a.id;
  model = a.model;
  provider = a.provider;
  usage = a.usage;
  finish_reason = a.finish_reason;
}

call_values-call_objects : (slots : Slots) → call_values slots ≡ call_objects slots
call_values-call_objects [] = refl
call_values-call_objects (s ∷ slots) = ap (λ r. call_object s ∷ r) (call_values-call_objects slots)

calls_field-optional :
    (slots : Slots) → calls_field slots ≡ optional "tool_calls" (array (call_objects slots)) end
calls_field-optional [] = refl
calls_field-optional (s ∷ slots) =
    ap (λ r. field "tool_calls" (arr (of_list r)) end) (call_values-call_objects (s ∷ slots))

reasoning_field-optional :
    (ss : List String) (d : Fields)
    → reasoning_field ss d ≡ optional "reasoning_content" (joined ss) d
reasoning_field-optional [] d = refl
reasoning_field-optional (s ∷ ss) d = refl

usage_field-optional :
    (o : Option Fields) → usage_field o ≡ optional "usage" (dict_with_fields o) end
usage_field-optional none = refl
usage_field-optional (some end) = refl
usage_field-optional (some (field k v d)) = refl

provider_field-optional :
    (o : Option Value) (d : Fields) → provider_field o d ≡ optional "provider" o d
provider_field-optional none d = refl
provider_field-optional (some v) d = refl

pub body_of-response :
    (a : Assembly) → body_of a ≡ response (head a) a.text_parts a.reasoning_parts (sorted a.slots)
unfolding body_of response
body_of-response a =
    rw
      (
        provider_field-optional a.provider (usage_field a.usage),
        usage_field-optional a.usage,
        reasoning_field-optional a.reasoning_parts (calls_field (sorted a.slots)),
        calls_field-optional (sorted a.slots),
      )
      refl

or_value-none : {A : Type 0} (o : Option A) → or_value o none ≡ o
or_value-none none = refl
or_value-none (some v) = refl

or_value_assoc :
    {A : Type 0} (o p q : Option A) → or_value (or_value o p) q ≡ or_value o (or_value p q)
or_value_assoc none p q = refl
or_value_assoc (some v) p q = refl

and_then_assoc : (h g f : Head) → and_then (and_then h g) f ≡ and_then h (and_then g f)
and_then_assoc h g f = λ i. record {
  id = or_value_assoc h.id g.id f.id i;
  model = or_value_assoc h.model g.model f.model i;
  provider = or_value_assoc h.provider g.provider f.provider i;
  usage = sym (or_value_assoc f.usage g.usage h.usage) i;
  finish_reason = sym (or_value_assoc f.finish_reason g.finish_reason h.finish_reason) i;
}

and_then-no_head : (h : Head) → and_then h no_head ≡ h
and_then-no_head h = λ i. record {
  id = or_value-none h.id i;
  model = or_value-none h.model i;
  provider = or_value-none h.provider i;
  usage = h.usage;
  finish_reason = h.finish_reason;
}

no_head-and_then : (h : Head) → and_then no_head h ≡ h
no_head-and_then h = λ i. record {
  id = h.id;
  model = h.model;
  provider = h.provider;
  usage = or_value-none h.usage i;
  finish_reason = or_value-none h.finish_reason i;
}

add_delta-head : (o : Option Fields) (a b : Assembly) → add_delta o a ≡ some b → head b ≡ head a
add_delta-head none a b h = ap head (sym (some-injective _ _ h))
add_delta-head (some d) a b h =
    let c : Assembly = record a {
      text_parts = a.text_parts ++ one_or_none (string_field "content" d);
      reasoning_parts = a.reasoning_parts ++ one_or_none (reasoning_text d);
    } in
    let (slots, _, e) =
      bind-eq-some (items_of (get "tool_calls" d) >>= (λ calls. add_calls calls a.slots))
        (with_slots c) b h in
    ap head (sym (some-injective _ _ e))

-- The head after the first choice of a chunk.
abbrev with_reason : Option Value → Head → Head
with_reason o h = record h { finish_reason = or_value o h.finish_reason }

add_choice-head :
    (o : Option Fields) (a b : Assembly)
    → add_choice o a ≡ some b
    → head b ≡ with_reason (reason_in o) (head a)
add_choice-head none a b h = cc
add_choice-head (some choice) a b h = add_delta-head (dict_at "delta" choice) _ b h

add_choices-head :
    (o : Option Value) (a b : Assembly)
    → add_choices o a ≡ some b
    → head b ≡ with_reason (first_reason o) (head a)
add_choices-head none a b h = ap head (sym (some-injective _ _ h))
add_choices-head (some (arr (cons choice vs))) a b h = add_choice-head (as_dict choice) a b h
add_choices-head (some (arr nil)) a b h = ap head (sym (some-injective _ _ h))
add_choices-head (some _) a b h = ap head (sym (some-injective _ _ h))

add_chunk-head :
    (chunk : Value) (a b : Assembly)
    → add_chunk chunk a ≡ some b
    → head b ≡ and_then (head a) (head_in chunk)
unfolding add_chunk
add_chunk-head (obj chunk) a b h = add_choices-head (get "choices" chunk) (with_head chunk a) b h
add_chunk-head _ a b h = cc

add_chunks-head :
    (chunks : List Value) (a b : Assembly)
    → add_chunks chunks a ≡ some b
    → head b ≡ and_then (head a) (head_of chunks)
unfolding add_chunks
add_chunks-head [] a b h = ap head (sym (some-injective _ _ h)) ∙ sym (and_then-no_head (head a))
add_chunks-head (chunk ∷ chunks) a b h =
    let (m, e, f) = bind-eq-some (add_chunk chunk a) (add_chunks chunks) b h in
    add_chunks-head chunks m b f
    ∙ ap (λ g. and_then g (head_of chunks)) (add_chunk-head chunk a m e)
    ∙ and_then_assoc (head a) (head_in chunk) (head_of chunks)

pub add_chunks-head_of :
    (chunks : List Value) (b : Assembly)
    → add_chunks chunks empty ≡ some b
    → head b ≡ head_of chunks
add_chunks-head_of chunks b h = add_chunks-head chunks empty b h ∙ no_head-and_then (head_of chunks)
