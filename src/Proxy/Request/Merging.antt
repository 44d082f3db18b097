-- ===== src/Proxy/Request/Merging.antt =====
-- What a request says of tool calls and tool results, and the merge of its messages into turns.
use soma_benchmark.Base.{
  ◌≡◌, refl, sym, ap, ◌∙◌, inl, inr, true, Option, none, some, List, [], ◌∷◌, ◌++◌, Bool-cases,
}
use mathlib.Core.List.{append_assoc, append-nil}
use soma_benchmark.Base.Json.{Value, Fields}
use soma_benchmark.Base.Values.{as_dict}
use soma_benchmark.Proxy.Request.{
  Role, user, assistant, system, same_role, Turn, turn_of, add_after, add_turn, add_some,
  group_from, Message, Call, from_assistant, from_tool, use_id, result_id,
}

-- A call that the assistant makes and a result that the user's side returns, by the id.
pub data Exchange : Type 0 where
  called : Value → Exchange
  answered : Value → Exchange

abbrev pub exchange_of : (Value → Exchange) → Option Value → List Exchange
exchange_of f none = []
exchange_of f (some id) = f id ∷ []

-- What one block of a payload's message says: a `tool_use` with an id in a turn of the assistant, a
-- `tool_result` with an id in a turn of the user.
abbrev pub block_exchange : Role → Option Fields → List Exchange
block_exchange r none = []
block_exchange assistant (some b) = exchange_of called (use_id b)
block_exchange user (some b) = exchange_of answered (result_id b)
block_exchange system (some b) = []

abbrev pub block_exchanges : Role → List Value → List Exchange
block_exchanges r [] = []
block_exchanges r (b ∷ bs) = block_exchange r (as_dict b) ++ block_exchanges r bs

abbrev pub turn_exchanges : Option Turn → List Exchange
turn_exchanges none = []
turn_exchanges (some t) = block_exchanges t.role t.blocks

-- Those of a payload's messages, and those of the OpenAI messages.
abbrev pub exchanges_in : List Value → List Exchange
exchanges_in [] = []
exchanges_in (m ∷ ms) = turn_exchanges (turn_of m) ++ exchanges_in ms

abbrev pub calls_made : List Call → List Exchange
calls_made [] = []
calls_made (c ∷ cs) = called c.id ∷ calls_made cs

abbrev pub message_exchanges : Message → List Exchange
message_exchanges (from_assistant _ _ calls) = calls_made calls
message_exchanges (from_tool id _) = answered id ∷ []
message_exchanges _ = []

abbrev pub exchanges_of : List Message → List Exchange
exchanges_of [] = []
exchanges_of (m ∷ ms) = message_exchanges m ++ exchanges_of ms

pub exchanges_of-append :
    (xs ys : List Message) → exchanges_of (xs ++ ys) ≡ exchanges_of xs ++ exchanges_of ys
exchanges_of-append [] ys = refl
exchanges_of-append (x ∷ xs) ys =
    ap (λ r. message_exchanges x ++ r) (exchanges_of-append xs ys)
    ∙ sym (append_assoc (message_exchanges x) (exchanges_of xs) (exchanges_of ys))

block_exchanges-append :
    (r : Role) (bs cs : List Value)
    → block_exchanges r (bs ++ cs) ≡ block_exchanges r bs ++ block_exchanges r cs
block_exchanges-append r [] cs = refl
block_exchanges-append r (b ∷ bs) cs =
    ap (λ x. block_exchange r (as_dict b) ++ x) (block_exchanges-append r bs cs)
    ∙ sym
        (append_assoc (block_exchange r (as_dict b)) (block_exchanges r bs) (block_exchanges r cs))

-- Merging turns of one role keeps the exchanges.
merged :
    (r q : Role) (bs cs : List Value)
    → same_role r q ≡ true
    → block_exchanges r (bs ++ cs) ≡ block_exchanges r bs ++ block_exchanges q cs
merged user user bs cs e = block_exchanges-append user bs cs
merged user assistant bs cs e = cc
merged user system bs cs e = cc
merged assistant user bs cs e = cc
merged assistant assistant bs cs e = block_exchanges-append assistant bs cs
merged assistant system bs cs e = cc
merged system user bs cs e = cc
merged system assistant bs cs e = cc
merged system system bs cs e = block_exchanges-append system bs cs

abbrev pub turns_exchanges : List Turn → List Exchange
turns_exchanges [] = []
turns_exchanges (t ∷ turns) = block_exchanges t.role t.blocks ++ turns_exchanges turns

turns_exchanges-add_after :
    (u t : Turn) (turns : List Turn)
    → turns_exchanges (add_after u turns t)
      ≡ turns_exchanges (u ∷ turns) ++ block_exchanges t.role t.blocks
unfolding add_after
turns_exchanges-add_after u t [] = elim (Bool-cases (same_role u.role t.role)) [
  | inl e ↦
      rw (e, append-nil (block_exchanges u.role u.blocks))
        (append-nil _ ∙ merged u.role t.role u.blocks t.blocks e)
  | inr e ↦
      rw
        (
          e,
          append-nil (block_exchanges u.role u.blocks),
          append-nil (block_exchanges t.role t.blocks),
        )
        refl
]
turns_exchanges-add_after u t (v ∷ turns) =
    ap (λ x. block_exchanges u.role u.blocks ++ x) (turns_exchanges-add_after v t turns)
    ∙ sym (
        append_assoc (block_exchanges u.role u.blocks) (turns_exchanges (v ∷ turns))
          (block_exchanges t.role t.blocks))

turns_exchanges-add_some :
    (grouped : List Turn) (o : Option Turn)
    → turns_exchanges (add_some grouped o) ≡ turns_exchanges grouped ++ turn_exchanges o
unfolding add_some add_turn
turns_exchanges-add_some grouped none = sym (append-nil (turns_exchanges grouped))
turns_exchanges-add_some [] (some t) = append-nil (block_exchanges t.role t.blocks)
turns_exchanges-add_some (u ∷ grouped) (some t) = turns_exchanges-add_after u t grouped

pub turns_exchanges-group_from :
    (grouped : List Turn) (ms : List Value)
    → turns_exchanges (group_from grouped ms) ≡ turns_exchanges grouped ++ exchanges_in ms
unfolding group_from
turns_exchanges-group_from grouped [] = sym (append-nil (turns_exchanges grouped))
turns_exchanges-group_from grouped (m ∷ ms) =
    turns_exchanges-group_from (add_some grouped (turn_of m)) ms
    ∙ ap (λ x. x ++ exchanges_in ms) (turns_exchanges-add_some grouped (turn_of m))
    ∙ append_assoc (turns_exchanges grouped) (turn_exchanges (turn_of m)) (exchanges_in ms)
