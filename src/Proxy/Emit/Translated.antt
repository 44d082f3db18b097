-- ===== src/Proxy/Emit/Translated.antt =====
-- A translated response as the client of its stream reads it.
use soma_benchmark.Base.{
  ℕ, ◌+◌, String, Bool, ◌≡◌, refl, Option, none, some, List, [], ◌∷◌, ◌++◌, inl, inr, Bool-cases,
}
use mathlib.Core.Option.{some-injective}
use soma_benchmark.Base.Json.{ℤ, Value, str, arr, obj, Fields, end, get, to_list}
use soma_benchmark.Base.Strings.{is_blank, join_lines}
use soma_benchmark.Base.Values.{or_end, dict_at, string_field}
use soma_benchmark.Proxy.Request.{texts_of}
use soma_benchmark.Proxy.Usage.{Counts}
use soma_benchmark.Proxy.Response.{
  or_marker, thinking_blocks, blocks_of_text, text_blocks, items_of, parsed, parsed_of, call_blocks,
  or_empty_text, carried, with_calls, anthropic_content_blocks,
}
use soma_benchmark.Proxy.Reply.{
  Reply, first_choice, reply_with, reply_to, openai_response_to_anthropic,
}
use soma_benchmark.Proxy.Emit.{Event, anthropic_sse_events}
use soma_benchmark.Proxy.Emit.Client.{read_events}
use soma_benchmark.Proxy.Emit.Delivery.{
  AreBlocks, of_thinking, of_text, of_tool_use, read_events-anthropic_sse_events,
}

-- The JSON text of a dict that was read is read as that dict, and so is that of the empty dict.
abbrev pub Rereads : (String → Option Value) → (Value → String) → Type 0
Rereads loads dumps =
    (loads (dumps (obj end)) ≡ some (obj end))
    × ((raw : String) (d : Fields)
        → loads raw ≡ some (obj d)
        → loads (dumps (obj d)) ≡ some (obj d))

module _ (loads : String → Option Value) (dumps : Value → String) (h : Rereads loads dumps) where
  append-AreBlocks :
      (xs ys : List Value)
      → AreBlocks loads dumps xs
      → AreBlocks loads dumps ys
      → AreBlocks loads dumps (xs ++ ys)
  append-AreBlocks [] ys a b = b
  append-AreBlocks (x ∷ xs) ys a b = (a.0, append-AreBlocks xs ys a.1 b)

  thinking_blocks-AreBlocks :
      (o : Option (String × Option String)) → AreBlocks loads dumps (thinking_blocks o)
  thinking_blocks-AreBlocks none = tt
  thinking_blocks-AreBlocks (some (t, u)) = elim (Bool-cases (is_blank t)) [
    | inl e ↦ rw e tt
    | inr e ↦ rw e (of_thinking t (or_marker u), tt)
  ]

  blocks_of_text-AreBlocks : (s : String) → AreBlocks loads dumps (blocks_of_text s)
  blocks_of_text-AreBlocks s = elim (Bool-cases (is_blank s)) [
    | inl e ↦ rw e tt
    | inr e ↦ rw e (of_text s, tt)
  ]

  text_blocks-AreBlocks : (o : Option Value) → AreBlocks loads dumps (text_blocks o)
  unfolding text_blocks
  text_blocks-AreBlocks (some (str s)) = blocks_of_text-AreBlocks s
  text_blocks-AreBlocks (some (arr parts)) =
      blocks_of_text-AreBlocks (join_lines (texts_of (to_list parts)))
  text_blocks-AreBlocks none = tt
  text_blocks-AreBlocks (some _) = tt

  reread-parsed :
      (o : Option Value)
      → ((d : Fields) → o ≡ some (obj d) → loads (dumps (obj d)) ≡ some (obj d))
      → loads (dumps (obj (parsed o))) ≡ some (obj (parsed o))
  reread-parsed (some (obj d)) k = k d refl
  reread-parsed none k = h.0
  reread-parsed (some _) k = h.0

  module _ (fresh : ℕ → String) where
    reread-parsed_of :
        (o : Option String)
        → loads (dumps (obj (parsed_of loads fresh o))) ≡ some (obj (parsed_of loads fresh o))
    reread-parsed_of none = h.0
    reread-parsed_of (some raw) = reread-parsed (loads raw) (h.1 raw)

    call_blocks-AreBlocks :
        (calls : List Value) (n : ℕ) → AreBlocks loads dumps (call_blocks loads fresh n calls)
    unfolding call_blocks
    call_blocks-AreBlocks [] n = tt
    call_blocks-AreBlocks (obj call ∷ calls) n =
        let function = or_end (dict_at "function" call) in
        (
          of_tool_use _ _ (parsed_of loads fresh (string_field "arguments" function))
              (reread-parsed_of (string_field "arguments" function)),
          call_blocks-AreBlocks calls (n + 1),
        )
    call_blocks-AreBlocks (_ ∷ calls) n = call_blocks-AreBlocks calls (n + 1)

    or_empty_text-AreBlocks :
        (bs : List Value)
        → AreBlocks loads dumps bs
        → AreBlocks loads dumps (or_empty_text loads fresh bs)
    or_empty_text-AreBlocks [] a = (of_text "", tt)
    or_empty_text-AreBlocks (b ∷ bs) a = a

    with_calls-AreBlocks :
        (carry : Bool) (m : Fields) (o : Option (List Value)) (bs : List Value)
        → with_calls loads fresh carry m o ≡ some bs
        → AreBlocks loads dumps bs
    unfolding with_calls
    with_calls-AreBlocks carry m none bs e = cc
    with_calls-AreBlocks carry m (some calls) bs e =
        let t = thinking_blocks-AreBlocks (carried loads fresh carry m) in
        let c = call_blocks-AreBlocks calls 0 in
        let x = text_blocks-AreBlocks (get "content" m) in
        rw (← some-injective _ _ e)
          (or_empty_text-AreBlocks _ (append-AreBlocks _ _ t (append-AreBlocks _ _ x c)))

  reply_with-content :
      (show : Value → String) (fresh_id : String) (payload : Fields) (blocks : Option (List Value))
      (reason : Option String) (usage : Option (Option Counts)) (r : Reply)
      → reply_with show fresh_id payload blocks reason usage ≡ some r
      → blocks ≡ some r.content
  unfolding reply_with
  reply_with-content show fresh_id payload none reason usage r e = cc
  reply_with-content show fresh_id payload (some bs) none usage r e = cc
  reply_with-content show fresh_id payload (some bs) (some s) none r e = cc
  reply_with-content show fresh_id payload (some bs) (some s) (some u) r e =
      rw (← some-injective _ _ e) refl

  module _ (fresh : ℕ → String) (int_of : String → Option ℤ) (show : Value → String)
      (fresh_id : String) where
    reply_to-AreBlocks :
        (carry : Bool) (payload : Fields) (choice : Option Fields) (r : Reply)
        → reply_to loads fresh int_of show fresh_id carry payload choice ≡ some r
        → AreBlocks loads dumps r.content
    unfolding reply_to anthropic_content_blocks
    reply_to-AreBlocks carry payload none r e = cc
    reply_to-AreBlocks carry payload (some choice) r e =
        let m = or_end (dict_at "message" choice) in
        with_calls-AreBlocks fresh carry m (items_of (get "tool_calls" m)) r.content
          (reply_with-content show fresh_id payload _ _ _ r e)

    -- A translated response reaches the client of its stream: whatever the model answered, the events
    -- can be made, and a client that follows the protocol reads from them exactly the translated
    -- response, its blocks, its tool inputs, its stop reason and its counts included. JSON texts of
    -- dicts are to be read as these dicts.
    pub read_events-openai_response_to_anthropic :
        (carry : Bool) (payload : Fields) (r : Reply)
        → openai_response_to_anthropic loads fresh int_of show fresh_id carry payload ≡ some r
        → (es : List Event) × (anthropic_sse_events dumps r ≡ some es)
          × (read_events loads es ≡ some r)
    unfolding openai_response_to_anthropic
    read_events-openai_response_to_anthropic carry payload r e =
        read_events-anthropic_sse_events loads dumps r
          (reply_to-AreBlocks carry payload (first_choice (get "choices" payload)) r e)
