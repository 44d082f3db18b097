-- ===== src/Proxy/Request/Exchanges.antt =====
-- The tool calls and the tool results in a request and in its translation.
use soma_benchmark.Base.{
  String, ◌≡◌, refl, sym, ap, ◌∙◌, inl, inr, Bool, Option, none, some, List, [], ◌∷◌, ◌++◌, arith,
  Option-cases,
}
use mathlib.Core.List.{append-nil}
use soma_benchmark.Base.Json.{Value, arr, Fields, of_list, to_list-of_list}
use soma_benchmark.Base.Values.{as_dict}
use soma_benchmark.Proxy.Request.{
  Role, user, assistant, system, Turn, group_from, group_same_role, Message, Call, from_tool,
  Collected, add_block, call_with, cons_some, message_from, collect, assistant_message, use_id,
  result_id, answer_in, answer_with, tool_result_text, with_answer, tool_messages, said,
  followed_by, user_messages, both, noted, preface, text_of, texts_of, convert_turn, convert_turns,
  convert_messages,
}
use soma_benchmark.Proxy.Request.Merging.{
  called, answered, exchange_of, block_exchange, block_exchanges, exchanges_in, calls_made,
  exchanges_of, exchanges_of-append, turns_exchanges, turns_exchanges-group_from,
}

calls_made-cons_some :
    (dumps : Value → String) (b : Fields) (o : Option Value) (calls : List Call)
    → calls_made (cons_some (call_with dumps b o) calls) ≡ exchange_of called o ++ calls_made calls
calls_made-cons_some dumps b none calls = refl
calls_made-cons_some dumps b (some id) calls = refl

calls_made-add_block :
    (dumps : Value → String) (carry : Bool) (o : Option Fields) (c : Collected)
    → calls_made (add_block dumps carry o c).tool_calls
      ≡ block_exchange assistant o ++ calls_made c.tool_calls
calls_made-add_block dumps carry none c = refl
calls_made-add_block dumps carry (some b) c = calls_made-cons_some dumps b (use_id b) c.tool_calls

calls_made-collect :
    (dumps : Value → String) (carry : Bool) (bs : List Value)
    → calls_made (collect dumps carry bs).tool_calls ≡ block_exchanges assistant bs
unfolding collect
calls_made-collect dumps carry [] = refl
calls_made-collect dumps carry (b ∷ bs) =
    calls_made-add_block dumps carry (as_dict b) (collect dumps carry bs)
    ∙ ap (λ x. block_exchange assistant (as_dict b) ++ x) (calls_made-collect dumps carry bs)

exchanges_of-parts :
    (texts reasoning : List String) (calls : List Call)
    → exchanges_of
        (message_from (record { texts = texts; reasoning = reasoning; tool_calls = calls }))
      ≡ calls_made calls
exchanges_of-parts [] reasoning [] = refl
exchanges_of-parts [] reasoning (c ∷ calls) = append-nil (calls_made (c ∷ calls))
exchanges_of-parts (s ∷ texts) reasoning calls = append-nil (calls_made calls)

said-exchanges : (texts : List String) → exchanges_of (said texts) ≡ []
said-exchanges [] = refl
said-exchanges (s ∷ texts) = refl

answer_with-exchanges :
    (id : Option Value) (text : Option String) (m : Option Message) (ms : List Message)
    → answer_with id text ≡ some m
    → exchanges_of (cons_some m ms) ≡ exchange_of answered id ++ exchanges_of ms
answer_with-exchanges none text m ms h = let e : m ≡ none = ground arith in rw e refl
answer_with-exchanges (some id) none m ms h = cc
answer_with-exchanges (some id) (some s) m ms h =
    let e : m ≡ some (from_tool id s) = ground arith in rw e refl

-- A block of a user's turn that is converted gives its result, if it has one.
exchanges_of-answer :
    (b : Option Fields) (m : Option Message) (ms : List Message)
    → answer_in b ≡ some m
    → exchanges_of (cons_some m ms) ≡ block_exchange user b ++ exchanges_of ms
unfolding answer_in
exchanges_of-answer none m ms h = let e : m ≡ none = ground arith in rw e refl
exchanges_of-answer (some b) m ms h =
    answer_with-exchanges (result_id b) (tool_result_text b) m ms h

with_answer-eq-some :
    (m : Option (Option Message)) (rest : Option (List Message)) (out : List Message)
    → with_answer m rest ≡ some out
    → (a : Option Message) × (ms : List Message) × (m ≡ some a)
      × (rest ≡ some ms)
      × (out ≡ cons_some a ms)
with_answer-eq-some none rest out h = cc
with_answer-eq-some (some a) none out h = cc
with_answer-eq-some (some a) (some ms) out h = (a, ms, refl, refl, ground arith)

exchanges_of-tool_messages :
    (bs : List Value) (out : List Message)
    → tool_messages bs ≡ some out
    → exchanges_of out ≡ block_exchanges user bs
unfolding tool_messages
exchanges_of-tool_messages [] out h = ground arith
exchanges_of-tool_messages (b ∷ bs) out h =
    let (a, ms, e, f, g) = with_answer-eq-some (answer_in (as_dict b)) (tool_messages bs) out h in
    rw g (
      exchanges_of-answer (as_dict b) a ms e
      ∙ ap (λ x. block_exchange user (as_dict b) ++ x) (exchanges_of-tool_messages bs ms f))

followed_by-exchanges :
    (o : Option (List Message)) (texts : List String) (out : List Message)
    → followed_by o (said texts) ≡ some out
    → (ms : List Message) × (o ≡ some ms) × (exchanges_of out ≡ exchanges_of ms)
followed_by-exchanges none texts out h = cc
followed_by-exchanges (some ms) texts out h =
    let e : out ≡ ms ++ said texts = ground arith in
    (
      ms,
      refl,
      rw e (
          exchanges_of-append ms (said texts)
          ∙ ap (λ x. exchanges_of ms ++ x) (said-exchanges texts)
          ∙ append-nil (exchanges_of ms)),
    )

noted-exchanges : (s : String) → exchanges_of (noted s) ≡ []
noted-exchanges s = ground arith

preface-exchanges : (s : String) → exchanges_of (preface s) ≡ []
preface-exchanges s = ground arith

system-exchanges : (bs : List Value) → block_exchanges system bs ≡ []
system-exchanges [] = refl
system-exchanges (b ∷ bs) = elim (Option-cases (as_dict b)) [
  | inl e ↦ rw e (system-exchanges bs)
  | inr (d, e) ↦ rw e (system-exchanges bs)
]

both-eq-some :
    (x y : Option (List Message)) (out : List Message)
    → both x y ≡ some out
    → (xs : List Message) × (ys : List Message) × (x ≡ some xs) × (y ≡ some ys) × (out ≡ xs ++ ys)
both-eq-some none y out h = cc
both-eq-some (some xs) none out h = cc
both-eq-some (some xs) (some ys) out h = (xs, ys, refl, refl, ground arith)

module _ (dumps : Value → String) (carry : Bool) where
  convert_turn-exchanges :
      (r : Role) (bs : List Value) (out : List Message)
      → convert_turn dumps carry r bs ≡ some out
      → exchanges_of out ≡ block_exchanges r bs
  unfolding convert_turn assistant_message user_messages
  convert_turn-exchanges assistant bs out h =
      let c = collect dumps carry bs in
      let e : out ≡ message_from c = ground arith in
      rw e (exchanges_of-parts c.texts c.reasoning c.tool_calls ∙ calls_made-collect dumps carry bs)
  convert_turn-exchanges user bs out h =
      let h' : followed_by (tool_messages bs) (said (texts_of bs)) ≡ some out =
        rw (← (to_list-of_list bs)) h in
      let (ms, e, f) = followed_by-exchanges (tool_messages bs) (texts_of bs) out h' in
      f ∙ exchanges_of-tool_messages bs ms e
  convert_turn-exchanges system bs out h =
      let s = text_of (some (arr (of_list bs))) in
      let e : out ≡ noted s = ground arith in rw e (noted-exchanges s ∙ sym (system-exchanges bs))

  convert_turns-exchanges :
      (turns : List Turn) (out : List Message)
      → convert_turns dumps carry turns ≡ some out
      → exchanges_of out ≡ turns_exchanges turns
  unfolding convert_turns
  convert_turns-exchanges [] out h = ground arith
  convert_turns-exchanges (t ∷ turns) out h =
      let (xs, ys, e, f, g) =
        both-eq-some (convert_turn dumps carry t.role t.blocks) (convert_turns dumps carry turns)
          out h in
      rw g (
        exchanges_of-append xs ys
        ∙ ap (λ x. x ++ exchanges_of ys) (convert_turn-exchanges t.role t.blocks xs e)
        ∙ ap (λ x. block_exchanges t.role t.blocks ++ x) (convert_turns-exchanges turns ys f))

  -- Where the translation does not fail, the OpenAI messages make the tool calls and return the tool
  -- results of the Anthropic messages that have an id: each once, by its id, and in their order.
  pub convert_messages-exchanges :
      (top : Option Value) (ms : List Value) (out : List Message)
      → convert_messages dumps carry top ms ≡ some out
      → exchanges_of out ≡ exchanges_in ms
  unfolding convert_messages group_same_role
  convert_messages-exchanges top ms out h =
      let (xs, ys, e, f, g) =
        both-eq-some (some (preface (text_of top))) (convert_turns dumps carry (group_from [] ms))
          out h in
      let p : xs ≡ preface (text_of top) = ground arith in
      rw g (
        exchanges_of-append xs ys
        ∙ ap (λ x. exchanges_of x ++ exchanges_of ys) p
        ∙ ap (λ x. x ++ exchanges_of ys) (preface-exchanges (text_of top))
        ∙ convert_turns-exchanges (group_from [] ms) ys f
        ∙ turns_exchanges-group_from [] ms)
