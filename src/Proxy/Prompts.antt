-- ===== src/Proxy/Prompts.antt =====
-- `_strip_protected_prompts` and `_restore_protected_prompts` of src/compression_service/app/proxy.py:
-- the prompts that a compressor may not touch leave the body before it runs and come back after.
pub mod Roundtrip
pub mod Isolation
use soma_benchmark.Base.{
  ℕ, zero, suc, String, min, Bool, true, false, not, ◌&&◌, ◌||◌, Option, none, some, List, [], ◌∷◌,
  str_eq, if◌then◌else◌,
}
use soma_benchmark.Base.Lists.{length, keep_if}
use soma_benchmark.Base.Json.{Value, null, str, arr, obj, Fields, to_list, of_list, get, put, pop}

-- `message.get("role") if isinstance(message, dict) else None`
abbrev role_of : Value → Option Value
role_of (obj d) = get "role" d
role_of _ = none

abbrev names : String → Option Value → Bool
names r (some (str s)) = str_eq s r
names r _ = false

-- A list or a dict cannot be looked up in a set: Python raises `TypeError`.
abbrev is_hashable : Option Value → Bool
is_hashable (some (arr _)) = false
is_hashable (some (obj _)) = false
is_hashable _ = true

-- `role in _PROTECTED_MESSAGE_ROLES`
unfoldable pub is_protected_role : Value → Bool
is_protected_role m = let r = role_of m in names "system" r || names "developer" r

unfoldable pub is_user : Value → Bool
is_user m = names "user" (role_of m)

unfoldable pub roles_hashable : List Value → Bool
roles_hashable [] = true
roles_hashable (m ∷ ms) = is_hashable (role_of m) && roles_hashable ms

pub record Stripped : Type 0 where
  pub held : List (ℕ × Value)
  pub remaining : List Value

abbrev hold : ℕ → Value → Stripped → Stripped
hold i m s = record { held = (i, m) ∷ s.held; remaining = s.remaining }

abbrev leave : Value → Stripped → Stripped
leave m s = record { held = s.held; remaining = m ∷ s.remaining }

-- The loop over `enumerate(messages)`, from an index and with the flag `first_user_protected`.
unfoldable pub strip_from : ℕ → Bool → List Value → Stripped
strip_from i seen [] = record { held = []; remaining = [] }
strip_from i seen (m ∷ ms) =
    let rest = strip_from (suc i) (seen || (is_user m && not (is_protected_role m))) ms in
    if is_protected_role m || (is_user m && not seen) then hold i m rest else leave m rest

-- The dict `protected`; `system` is `none` for a missing and for a null field.
pub record Protected : Type 0 where
  pub messages : List (ℕ × Value)
  pub system : Option Value

abbrev non_null : Option Value → Option Value
non_null (some null) = none
non_null o = o

infixl 5 ◌>>=◌
abbrev ◌>>=◌ : {A B : Type 0} → Option A → (A → Option B) → Option B
none >>= f = none
some a >>= f = f a

abbrev list_of : Option Value → Option (List Value)
list_of (some (arr vs)) = some (to_list vs)
list_of _ = none

-- `payload.get("messages")`, if it is a list.
unfoldable pub messages_of : Fields → Option (List Value)
messages_of d = list_of (get "messages" d)

abbrev pub or_empty : Option (List Value) → List Value
or_empty none = []
or_empty (some ms) = ms

abbrev set_messages : List Value → Fields → Fields
set_messages ms d = put "messages" (arr (of_list ms)) d

abbrev replace_messages : Option (List Value) → List Value → Fields → Fields
replace_messages none rest d = d
replace_messages (some _) rest d = set_messages rest d

-- The loop changes nothing but its own lists, so a `TypeError` in it is one of the whole call.
unfoldable pub strip_protected_prompts : Fields → Option (Fields × Protected)
unfolding strip_from roles_hashable messages_of
strip_protected_prompts payload =
    let messages = messages_of payload in
    let s = strip_from 0 false (or_empty messages) in
    if roles_hashable (or_empty messages)
    then some (
      pop "system" (replace_messages messages s.remaining payload),
      record { messages = s.held; system = non_null (get "system" payload) },
    )
    else none

-- `messages.insert(i, m)`, at the end where `i` is out of range.
unfoldable pub insert_at : ℕ → Value → List Value → List Value
insert_at zero m ms = m ∷ ms
insert_at (suc i) m [] = m ∷ []
insert_at (suc i) m (x ∷ ms) = x ∷ insert_at i m ms

unfoldable pub insert_all : List (ℕ × Value) → List Value → List Value
unfolding insert_at
insert_all [] ms = ms
insert_all ((i, m) ∷ held) ms = insert_all held (insert_at (min i (length ms)) m ms)

abbrev is_empty {ℓ} : {A : Type ℓ} → List A → Bool
is_empty [] = true
is_empty (_ ∷ _) = false

abbrev restore_system : Option Value → Fields → Fields
restore_system none d = d
restore_system (some v) d = put "system" v d

unfoldable pub restore_protected_prompts : Fields → Protected → Option Fields
unfolding insert_all roles_hashable messages_of
restore_protected_prompts payload p =
    let messages = or_empty (messages_of payload) in
    let restored = insert_all p.messages (keep_if (λ m. not (is_protected_role m)) messages) in
    if roles_hashable messages
    then some (
        restore_system p.system (
          if is_empty restored && is_empty p.messages
          then payload
          else set_messages restored payload))
    else none

-- The steps of `proxy_passthrough` around the compression service, which is `transform`.
unfoldable pub rewrite_body : (Fields → Option Fields) → Fields → Option Fields
unfolding strip_protected_prompts restore_protected_prompts
rewrite_body transform payload = do
  (stripped, p) ← strip_protected_prompts payload
  transformed ← transform stripped
  restore_protected_prompts transformed p
