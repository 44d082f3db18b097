-- ===== src/Proxy/Request/Grouping.antt =====
-- `_group_same_role` on a turn that is split into one message per block.
use soma_benchmark.Base.{
  String, ◌≡◌, refl, sym, ap, ◌∙◌, Bool, true, Option, List, [], ◌∷◌, ◌++◌, arith,
}
use mathlib.Core.List.{append_assoc, append-nil}
use soma_benchmark.Base.Json.{Value, str, arr, obj, end, field, of_list, to_list-of_list}
use soma_benchmark.Proxy.Request.{
  Role, user, assistant, system, same_role, Turn, turn_of, add_after, add_turn, add_some,
  group_from, group_same_role, convert_messages,
}

abbrev pub role_name : Role → String
role_name user = "user"
role_name assistant = "assistant"
role_name system = "system"

-- A message of the payload, and the same turn as one message for each block.
abbrev pub message : Role → List Value → Value
message r blocks =
    obj (field "role" (str (role_name r)) (field "content" (arr (of_list blocks)) end))

abbrev pub split : Role → List Value → List Value
split r [] = []
split r (b ∷ blocks) = message r (b ∷ []) ∷ split r blocks

same_role_refl : (r : Role) → same_role r r ≡ true
same_role_refl user = refl
same_role_refl assistant = refl
same_role_refl system = refl

abbrev turn : Role → List Value → Turn
turn r blocks = record { role = r; blocks = blocks }

add_after-twice :
    (u v : Turn) (turns : List Turn) (r : Role) (bs cs : List Value)
    → add_after u (add_after v turns (turn r bs)) (turn r cs)
      ≡ u ∷ add_after v turns (turn r (bs ++ cs))
unfolding add_after
add_after-twice u v [] r bs cs = ground (arith, same_role_refl r, append_assoc v.blocks bs cs)
add_after-twice u v (w ∷ turns) r bs cs = ap (λ x. u ∷ x) (add_after-twice v w turns r bs cs)

add_turn-twice :
    (grouped : List Turn) (r : Role) (bs cs : List Value)
    → add_turn (add_turn grouped (turn r bs)) (turn r cs) ≡ add_turn grouped (turn r (bs ++ cs))
unfolding add_turn
add_turn-twice [] r bs cs = ground (arith, same_role_refl r)
add_turn-twice (u ∷ []) r bs cs = ground (arith, same_role_refl r, append_assoc u.blocks bs cs)
add_turn-twice (u ∷ v ∷ turns) r bs cs = add_after-twice u v turns r bs cs

group_from-message :
    (grouped : List Turn) (r : Role) (blocks ms : List Value)
    → group_from grouped (message r blocks ∷ ms) ≡ group_from (add_turn grouped (turn r blocks)) ms
unfolding group_from add_some add_turn
group_from-message grouped user blocks ms = rw (to_list-of_list blocks)
group_from-message grouped assistant blocks ms = rw (to_list-of_list blocks)
group_from-message grouped system blocks ms = rw (to_list-of_list blocks)

group_from-append :
    (grouped : List Turn) (ms ns : List Value)
    → group_from grouped (ms ++ ns) ≡ group_from (group_from grouped ms) ns
unfolding group_from add_some add_turn
group_from-append grouped [] ns = refl
group_from-append grouped (m ∷ ms) ns = group_from-append (add_some grouped (turn_of m)) ms ns

group_from-split :
    (grouped : List Turn) (r : Role) (bs cs : List Value)
    → group_from (add_turn grouped (turn r bs)) (split r cs) ≡ add_turn grouped (turn r (bs ++ cs))
unfolding group_from add_some add_turn
group_from-split grouped r bs [] = ap (λ x. add_turn grouped (turn r x)) (sym (append-nil bs))
group_from-split grouped r bs (c ∷ cs) =
    group_from-message (add_turn grouped (turn r bs)) r (c ∷ []) (split r cs)
    ∙ ap (λ x. group_from x (split r cs)) (add_turn-twice grouped r bs (c ∷ []))
    ∙ group_from-split grouped r (bs ++ c ∷ []) cs
    ∙ ap (λ x. add_turn grouped (turn r x)) (append_assoc bs (c ∷ []) cs)

group_from-both :
    (grouped : List Turn) (after : List Value) (r : Role) (b : Value) (bs : List Value)
    → group_from grouped (split r (b ∷ bs) ++ after)
      ≡ group_from grouped (message r (b ∷ bs) ∷ after)
group_from-both grouped after r b bs =
    group_from-append grouped (split r (b ∷ bs)) after
    ∙ ap (λ x. group_from x after)
        (group_from-message grouped r (b ∷ []) (split r bs)
          ∙ group_from-split grouped r (b ∷ []) bs)
    ∙ sym (group_from-message grouped r (b ∷ bs) after)

group_same_role-split :
    (before after : List Value) (r : Role) (b : Value) (bs : List Value)
    → group_same_role (before ++ (split r (b ∷ bs) ++ after))
      ≡ group_same_role (before ++ message r (b ∷ bs) ∷ after)
unfolding group_same_role
group_same_role-split before after r b bs =
    group_from-append [] before (split r (b ∷ bs) ++ after)
    ∙ group_from-both (group_from [] before) after r b bs
    ∙ sym (group_from-append [] before (message r (b ∷ bs) ∷ after))

-- A turn that is recorded as one message for each of its blocks, of which there is at least one, gives
-- the same OpenAI messages as the turn in one message, whatever stands before and after it.
pub convert_messages-split :
    (dumps : Value → String) (carry : Bool) (top : Option Value) (before after : List Value)
    (r : Role) (b : Value) (bs : List Value)
    → convert_messages dumps carry top (before ++ (split r (b ∷ bs) ++ after))
      ≡ convert_messages dumps carry top (before ++ message r (b ∷ bs) ∷ after)
unfolding convert_messages
convert_messages-split dumps carry top before after r b bs =
    rw (group_same_role-split before after r b bs)
