-- ===== src/Proxy/Response/Replay.antt =====
-- A turn of the model that goes to the agent as Anthropic blocks and comes back in a later request.
use soma_benchmark.Base.{
  ℕ, ◌+◌, String, ◌≡◌, ◌≢◌, ◌⊎◌, refl, ap, ◌∙◌, inl, inr, true, false, Option, some, List, [], ◌∷◌,
  ◌++◌, map, arith, Bool-cases, eq_iff,
}
use soma_benchmark.Base.Strings.{is_blank, join_lines}
use soma_benchmark.Base.Json.{Value, str, arr, obj, Fields, end, field, of_list, to_list-of_list}
use soma_benchmark.Base.Values.{truthy, non_falsy, as_dict}
use soma_benchmark.Proxy.Request.{
  Call, from_assistant, message_from, collect, assistant_message, or_else, add_block, call_with,
  cons_some, Collected,
}
use soma_benchmark.Proxy.Response.{
  anthropic_content_blocks, with_calls, carried, reasoning_of, text_blocks, call_blocks,
  blocks_of_text, thinking, unsigned_thinking_marker, or_default, detail_texts, parsed, call_at,
  tool_use,
}

-- A tool call as the model wrote it, with the input that its arguments parse to.
pub record Made : Type 0 where
  pub id : String
  pub name : String
  pub arguments : String
  pub input : Fields

abbrev pub call_value : Made → Value
call_value c = obj (
    field "id" (str c.id) (
      field "type" (str "function") (
        field "function" (obj (field "name" (str c.name) (field "arguments" (str c.arguments) end)))
          end)))

abbrev pub openai_message : String → String → List Made → Fields
openai_message text reasoning calls = field "role" (str "assistant") (
    field "content" (str text) (
      field "reasoning_content" (str reasoning)
        (field "tool_calls" (arr (of_list (map call_value calls))) end)))

abbrev use_fields : Made → Fields
use_fields c =
    field "type" (str "tool_use")
      (field "id" (str c.id) (field "name" (str c.name) (field "input" (obj c.input) end)))

abbrev pub Loads : (String → Option Value) → List Made → Type 0
Loads loads [] = Unit
Loads loads (c ∷ calls) =
    (is_blank c.id ≡ false) × (loads c.arguments ≡ some (obj c.input)) × Loads loads calls

abbrev pub sent : (Value → String) → Made → Call
sent dumps c = record { id = str c.id; name = str c.name; arguments = dumps (obj c.input) }

or_default-str : (s : String) → or_default (str "") (non_falsy (some (str s))) ≡ str s
unfolding truthy
or_default-str s = ground (arith, eq_iff s "")

or_else-str : (s : String) → or_else (str "") (some (str s)) ≡ str s
unfolding truthy or_else
or_else-str s = ground (arith, eq_iff s "")

or_else-obj : (d : Fields) → or_else (obj end) (some (obj d)) ≡ obj d
unfolding truthy or_else
or_else-obj end = refl
or_else-obj (field k v d) = refl

non_falsy-str : (s : String) → is_blank s ≡ false → non_falsy (some (str s)) ≡ some (str s)
unfolding truthy
non_falsy-str s h = ground arith

abbrev with_call : Collected → Call → Collected
with_call c call = record c { tool_calls = call ∷ c.tool_calls }

module _ (dumps : Value → String) (loads : String → Option Value) (fresh : ℕ → String) where
  call_at-call_value :
      (n : ℕ) (c : Made)
      → is_blank c.id ≡ false
      → loads c.arguments ≡ some (obj c.input)
      → call_at loads fresh n (as_dict (call_value c))
        ≡ some (tool_use (str c.id) (str c.name) c.input)
  call_at-call_value n c b l =
      let input = parsed (loads c.arguments) in
      let name = or_default (str "") (non_falsy (some (str c.name))) in
      ap (λ o. some (tool_use (or_default (str (fresh n)) o) name input)) (non_falsy-str c.id b)
      ∙ ap (λ v. some (tool_use (str c.id) v input)) (or_default-str c.name)
      ∙ ap (λ o. some (tool_use (str c.id) (str c.name) (parsed o))) l

  add_block-tool_use :
      (c : Made) (rest : Collected)
      → is_blank c.id ≡ false
      → add_block dumps true (as_dict (tool_use (str c.id) (str c.name) c.input)) rest
        ≡ record rest { tool_calls = sent dumps c ∷ rest.tool_calls }
  unfolding or_else
  add_block-tool_use c rest b =
      let arguments = dumps (or_else (obj end) (some (obj c.input))) in
      ap
        (λ o. record rest {
          tool_calls = cons_some (call_with dumps (use_fields c) o) rest.tool_calls;
        })
        (non_falsy-str c.id b)
      ∙ ap (λ v. with_call rest (record { id = str c.id; name = v; arguments = arguments }))
          (or_else-str c.name)
      ∙ ap (λ v. with_call rest (record { id = str c.id; name = str c.name; arguments = dumps v }))
          (or_else-obj c.input)

  collect-call_blocks :
      (n : ℕ) (calls : List Made)
      → Loads loads calls
      → collect dumps true (call_blocks loads fresh n (map call_value calls))
        ≡ record { texts = []; reasoning = []; tool_calls = map (sent dumps) calls }
  unfolding collect call_blocks
  collect-call_blocks n [] h = refl
  collect-call_blocks n (c ∷ calls) (b, l, h) =
      ap
        (λ o.
          collect dumps true (cons_some o (call_blocks loads fresh (n + 1) (map call_value calls))))
        (call_at-call_value n c b l)
      ∙ (add_block-tool_use c
            (collect dumps true (call_blocks loads fresh (n + 1) (map call_value calls))) b
          ∙ ap (λ (r : Collected). record r { tool_calls = sent dumps c ∷ r.tool_calls })
              (collect-call_blocks (n + 1) calls h))

  no_text :
      (text reasoning : String) (calls : List Call)
      → is_blank text ≡ true
      → (is_blank text ≡ false) ⊎ (calls ≢ [])
      → message_from (record { texts = []; reasoning = reasoning ∷ []; tool_calls = calls })
        ≡ from_assistant text (some reasoning) calls ∷ []
  unfolding join_lines
  no_text text reasoning [] b (inl n) = cc
  no_text text reasoning [] b (inr n) = absurd (n refl)
  no_text text reasoning (c ∷ calls) b n =
      let e : "" ≡ text = ground (arith, eq_iff text "") in
      ap (λ t. from_assistant t (some reasoning) (c ∷ calls) ∷ []) e

  -- The blocks of a turn, its tool calls after its text, as the message that they were.
  assistant_message-blocks :
      (text reasoning marker : String) (rest : List Value) (calls : List Call)
      → collect dumps true rest ≡ record { texts = []; reasoning = []; tool_calls = calls }
      → (is_blank text ≡ false) ⊎ (calls ≢ [])
      → assistant_message dumps true (thinking reasoning marker ∷ (blocks_of_text text ++ rest))
        ≡ from_assistant text (some reasoning) calls ∷ []
  unfolding collect assistant_message join_lines
  assistant_message-blocks text reasoning marker rest calls h n =
      elim (Bool-cases (is_blank text)) [
        | inl b ↦ rw b (
            ap
              (λ (r : Collected). message_from (record {
                texts = r.texts;
                reasoning = reasoning ∷ r.reasoning;
                tool_calls = r.tool_calls;
              }))
              h
            ∙ no_text text reasoning calls b n)
        | inr b ↦ rw b (
            ap
              (λ (r : Collected). message_from (record {
                texts = text ∷ r.texts;
                reasoning = reasoning ∷ r.reasoning;
                tool_calls = r.tool_calls;
              }))
              h)
      ]

  some_calls :
      (text : String) (calls : List Made)
      → (is_blank text ≡ false) ⊎ (calls ≢ [])
      → (is_blank text ≡ false) ⊎ (map (sent dumps) calls ≢ [])
  some_calls text calls (inl b) = inl b
  some_calls text [] (inr n) = absurd (n refl)
  some_calls text (c ∷ calls) (inr n) = inr (λ e. cc)

  -- A turn with its reasoning and its tool calls becomes Anthropic blocks, and these become the same
  -- turn again: the text and the reasoning verbatim, and every call with its id, its name and the input
  -- that its arguments parse to. The reasoning is not empty, the turn has a text or a call, every call
  -- has an id, and the arguments of a call parse to an object.
  pub assistant_message-anthropic_content_blocks :
      (text reasoning : String) (calls : List Made)
      → is_blank reasoning ≡ false
      → (is_blank text ≡ false) ⊎ (calls ≢ [])
      → Loads loads calls
      → (blocks : List Value) × (anthropic_content_blocks loads fresh true
            (openai_message text reasoning calls)
          ≡ some blocks)
        × (assistant_message dumps true blocks
            ≡ from_assistant text (some reasoning) (map (sent dumps) calls) ∷ [])
  unfolding anthropic_content_blocks with_calls carried text_blocks reasoning_of detail_texts
  assistant_message-anthropic_content_blocks text reasoning calls r n h = (
    thinking reasoning unsigned_thinking_marker
        ∷ (blocks_of_text text ++ call_blocks loads fresh 0 (map call_value calls)),
    rw (to_list-of_list (map call_value calls), r, r) refl,
    assistant_message-blocks text reasoning unsigned_thinking_marker
        (call_blocks loads fresh 0 (map call_value calls)) (map (sent dumps) calls)
        (collect-call_blocks 0 calls h) (some_calls text calls n),
  )
