-- ===== src/Proxy/Reply/StopReason.antt =====
-- The content and the stop reason of a translated response.
use soma_benchmark.Base.{
  ℕ, String, ◌≡◌, ◌≢◌, ◌⊎◌, refl, ◌∙◌, inl, inr, Bool, true, ◌||◌, Option, none, some, List, [],
  ◌∷◌, arith, str_eq, Bool-cases,
}
use mathlib.Core.Option.{some-injective}
use soma_benchmark.Base.Json.{ℤ, Value, null, bool, int, real, str, arr, obj, Fields, get}
use soma_benchmark.Base.Values.{or_end, dict_at}
use soma_benchmark.Proxy.Response.{anthropic_content_blocks, with_calls, or_empty_text, items_of}
use soma_benchmark.Proxy.Usage.{Counts}
use soma_benchmark.Proxy.Reply.{
  Reply, first_choice, known_reason, reason_of, has_tool_use, reply_with, reply_to,
  openai_response_to_anthropic,
}

-- The stop reasons that the agent knows.
abbrev pub IsKnown : String → Type 0
IsKnown s = (s ≡ "end_turn") ⊎ (s ≡ "tool_use") ⊎ (s ≡ "max_tokens")

known_reason-IsKnown : (s : String) → IsKnown (known_reason s)
known_reason-IsKnown s = elim (Bool-cases (str_eq s "tool_calls" || str_eq s "function_call")) [
  | inl e ↦ rw e (inr (inl refl))
  | inr e ↦ elim (Bool-cases (str_eq s "length")) [
    | inl f ↦ rw (e, f) (inr (inr refl))
    | inr f ↦ rw (e, f) (inl refl)
  ]
]

reason_of-IsKnown : (o : Option Value) (s : String) → reason_of o ≡ some s → IsKnown s
unfolding reason_of
reason_of-IsKnown none s h = inl (ground arith)
reason_of-IsKnown (some null) s h = inl (ground arith)
reason_of-IsKnown (some (bool b)) s h = inl (ground arith)
reason_of-IsKnown (some (int n)) s h = inl (ground arith)
reason_of-IsKnown (some (real r)) s h = inl (ground arith)
reason_of-IsKnown (some (str t)) s h =
    let q : known_reason t ≡ s = some-injective _ _ h in rw (← q) (known_reason-IsKnown t)
reason_of-IsKnown (some (arr vs)) s h = cc
reason_of-IsKnown (some (obj d)) s h = cc

or_empty_text-ne-nil :
    (loads : String → Option Value) (fresh : ℕ → String) (bs : List Value)
    → or_empty_text loads fresh bs ≢ []
or_empty_text-ne-nil loads fresh [] h = cc
or_empty_text-ne-nil loads fresh (b ∷ bs) h = cc

with_calls-ne-nil :
    (loads : String → Option Value) (fresh : ℕ → String) (carry : Bool) (m : Fields)
    (o : Option (List Value)) (bs : List Value)
    → with_calls loads fresh carry m o ≡ some bs
    → bs ≢ []
unfolding with_calls
with_calls-ne-nil loads fresh carry m none bs h e = cc
with_calls-ne-nil loads fresh carry m (some calls) bs h e =
    or_empty_text-ne-nil loads fresh _ (some-injective _ _ h ∙ e)

-- What a reply says of its turn: there is content, the stop reason is known, and a turn with a tool call
-- stops for it.
abbrev pub IsSound : Reply → Type 0
IsSound r =
    (r.content ≢ [])
    × IsKnown r.stop_reason
    × (has_tool_use r.content ≡ true → r.stop_reason ≡ "tool_use")

reply_with-IsSound :
    (show : Value → String) (fresh_id : String) (payload : Fields) (blocks : Option (List Value))
    (reason : Option String) (usage : Option (Option Counts)) (r : Reply)
    → reply_with show fresh_id payload blocks reason usage ≡ some r
    → ((bs : List Value) → blocks ≡ some bs → bs ≢ [])
    → ((s : String) → reason ≡ some s → IsKnown s)
    → IsSound r
unfolding reply_with
reply_with-IsSound show fresh_id payload none reason usage r h b k = cc
reply_with-IsSound show fresh_id payload (some bs) none usage r h b k = cc
reply_with-IsSound show fresh_id payload (some bs) (some s) none r h b k = cc
reply_with-IsSound show fresh_id payload (some bs) (some s) (some u) r h b k =
    let q = some-injective _ _ h in
    rw (← q) (elim (Bool-cases (has_tool_use bs)) [
      | inl e ↦ rw e (b bs refl, inr (inl refl), λ _. refl)
      | inr e ↦ rw e (b bs refl, k s refl, λ x. cc)
    ])

module _ (loads : String → Option Value) (fresh : ℕ → String) (int_of : String → Option ℤ)
    (show : Value → String) (fresh_id : String) where
  reply_to-IsSound :
      (carry : Bool) (payload : Fields) (choice : Option Fields) (r : Reply)
      → reply_to loads fresh int_of show fresh_id carry payload choice ≡ some r
      → IsSound r
  unfolding reply_to anthropic_content_blocks
  reply_to-IsSound carry payload none r h = cc
  reply_to-IsSound carry payload (some choice) r h =
      let m = or_end (dict_at "message" choice) in
      reply_with-IsSound show fresh_id payload _ _ _ r h
        (λ bs. with_calls-ne-nil loads fresh carry m (items_of (get "tool_calls" m)) bs)
        (λ s. reason_of-IsKnown (get "finish_reason" choice) s)

  -- A response that is translated has content, a stop reason that the agent knows, and the stop reason
  -- "tool_use" whenever it has a tool call, whatever reason the model gave.
  pub openai_response_to_anthropic-IsSound :
      (carry : Bool) (payload : Fields) (r : Reply)
      → openai_response_to_anthropic loads fresh int_of show fresh_id carry payload ≡ some r
      → IsSound r
  unfolding openai_response_to_anthropic
  openai_response_to_anthropic-IsSound carry payload r h =
      reply_to-IsSound carry payload (first_choice (get "choices" payload)) r h
