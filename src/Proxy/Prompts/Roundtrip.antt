-- ===== src/Proxy/Prompts/Roundtrip.antt =====
-- The protected prompts next to a compressor that changes nothing.
use soma_benchmark.Base.{
  ℕ, suc, String, min, ◌≡◌, ◌≢◌, refl, ap, ◌∙◌, inl, inr, Bool, true, false, not, ◌||◌, ◌&&◌,
  Option, none, some, List, [], ◌∷◌, ◌++◌, arith, str_eq, eq_iff, if◌then◌else◌, Bool-cases,
  Option-cases,
}
use mathlib.Core.List.{append_assoc}
use soma_benchmark.Base.Lists.{length, keep_if, length-append}
use soma_benchmark.Base.Json.{
  Value, null, arr, Fields, of_list, of_list-to_list, to_list-of_list, get, pop, get-put, get-pop,
}
use soma_benchmark.Proxy.Prompts.{
  is_protected_role, is_user, strip_from, insert_at, insert_all, roles_hashable, messages_of,
  or_empty, replace_messages, set_messages, is_empty, restore_system, non_null, list_of,
  rewrite_body,
}

insert_at-append :
    (pre ms : List Value) (m : Value) → insert_at (length pre) m (pre ++ ms) ≡ pre ++ (m ∷ ms)
unfolding insert_at
insert_at-append [] [] m = refl
insert_at-append [] (x ∷ ms) m = refl
insert_at-append (x ∷ pre) ms m = ap (λ r. x ∷ r) (insert_at-append pre ms m)

min-length : (pre ms : List Value) → min (length pre) (length (pre ++ ms)) ≡ length pre
min-length pre ms = omega (arith, length-append pre ms)

-- Every message that is left has a role that is not protected.
keep_if-remaining :
    (i : ℕ) (seen : Bool) (ms : List Value)
    → keep_if (λ m. not (is_protected_role m)) (strip_from i seen ms).remaining
      ≡ (strip_from i seen ms).remaining
unfolding strip_from
keep_if-remaining i seen [] = refl
keep_if-remaining i seen (m ∷ ms) =
    ground (arith, keep_if-remaining (suc i) (seen || (is_user m && not (is_protected_role m))) ms)

length_snoc : (pre : List Value) (m : Value) → length (pre ++ m ∷ []) ≡ suc (length pre)
length_snoc pre m = omega (arith, length-append pre (m ∷ []))

insert_all-strip_from :
    (i : ℕ) (seen : Bool) (ms pre : List Value)
    → i ≡ length pre
    → insert_all (strip_from i seen ms).held (pre ++ (strip_from i seen ms).remaining) ≡ pre ++ ms
unfolding strip_from insert_all
insert_all-strip_from i seen [] pre e = refl
insert_all-strip_from i seen (m ∷ ms) pre e =
    let seen' = seen || (is_user m && not (is_protected_role m)) in
    let ih =
      insert_all-strip_from (suc i) seen' ms (pre ++ m ∷ []) (omega (arith, length_snoc pre m)) in
    elim (Bool-cases (is_protected_role m || (is_user m && not seen))) [
      | inl held ↦ rw (held, e, min-length, insert_at-append) (rw (← e) (simp append_assoc at ih))
      | inr left ↦ rw left (simp append_assoc at ih)
    ]

-- `insert_all` of what was held, into what was left, gives the messages back.
pub restore_messages :
    (ms : List Value)
    → let s = strip_from 0 false ms in
      insert_all s.held (keep_if (λ m. not (is_protected_role m)) s.remaining) ≡ ms
restore_messages ms = rw (keep_if-remaining 0 false ms) (insert_all-strip_from 0 false ms [] refl)

abbrev seen_after : Value → Bool → Bool
seen_after m seen = seen || (is_user m && not (is_protected_role m))

-- What is left of hashable messages is hashable.
roles_hashable-remaining :
    (i : ℕ) (seen : Bool) (ms : List Value)
    → roles_hashable ms ≡ true
    → roles_hashable (strip_from i seen ms).remaining ≡ true
unfolding strip_from roles_hashable
roles_hashable-remaining i seen [] h = refl
roles_hashable-remaining i seen (m ∷ ms) h =
    ground (arith, roles_hashable-remaining (suc i) (seen_after m seen) ms)

abbrev stripped_body : Fields → List Value → Fields
stripped_body d rest = pop "system" (replace_messages (messages_of d) rest d)

pub messages_of-pop_system : (d : Fields) → messages_of (pop "system" d) ≡ messages_of d
unfolding messages_of
messages_of-pop_system d = ground (arith, get-pop "system" "messages" d)

pub messages_of-set_messages :
    (ms : List Value) (d : Fields) → messages_of (set_messages ms d) ≡ some ms
unfolding messages_of
messages_of-set_messages ms d =
    ground (arith, get-put "messages" "messages" (arr (of_list ms)) d, to_list-of_list ms)

-- The list of messages of the body that the compressor is given.
messages-stripped :
    (d : Fields)
    → let rest = (strip_from 0 false (or_empty (messages_of d))).remaining in
      or_empty (messages_of (stripped_body d rest)) ≡ rest
unfolding strip_from
messages-stripped d = elim (Option-cases (messages_of d)) [
  | inl e ↦ simp (messages_of-pop_system, e)
  | inr (ms, e) ↦ simp (messages_of-pop_system, e, messages_of-set_messages)
]

list_of-eq :
    (o : Option Value) (ms : List Value) → list_of o ≡ some ms → o ≡ some (arr (of_list ms))
list_of-eq none ms h = cc
list_of-eq (some (arr vs)) ms h = ground (arith, of_list-to_list vs)
list_of-eq (some _) ms h = cc

get-messages :
    (d : Fields) (ms : List Value)
    → messages_of d ≡ some ms
    → get "messages" d ≡ some (arr (of_list ms))
unfolding messages_of
get-messages d ms h = list_of-eq (get "messages" d) ms h

non_null-some : (v : Value) → some v ≢ some null → non_null (some v) ≡ some v
non_null-some null n = absurd (n refl)
non_null-some _ n = refl

-- Putting the system field back undoes taking it out.
get-restore_system :
    (k : String) (d x : Fields)
    → get "system" d ≢ some null
    → get k x ≡ (if str_eq "system" k then none else get k d)
    → get k (restore_system (non_null (get "system" d)) x) ≡ get k d
get-restore_system k d x n h = elim (Option-cases (get "system" d)) [
  | inl e ↦ rw e (ground (arith, eq_iff "system" k))
  | inr (v, e) ↦
      rw (e, non_null-some v (λ p. n (e ∙ p)))
        (ground (arith, eq_iff "system" k, get-put "system" k v x))
]

-- The body after `restore_protected_prompts`, for a compressor that changes nothing.
restored_body : Fields → Option (List Value) → Fields
restored_body d o =
    let s = strip_from 0 false (or_empty o) in
    let x = pop "system" (replace_messages o s.remaining d) in
    restore_system (non_null (get "system" d))
      (if is_empty (or_empty o) && is_empty s.held then x else set_messages (or_empty o) x)

get-restored_body :
    (d : Fields) (k : String) (o : Option (List Value))
    → get "system" d ≢ some null
    → ((ms : List Value) → o ≡ some ms → get "messages" d ≡ some (arr (of_list ms)))
    → get k (restored_body d o) ≡ get k d
unfolding restored_body strip_from
get-restored_body d k none n h = get-restore_system k d _ n (ground (arith, get-pop "system" k d))
get-restored_body d k (some []) n h = get-restore_system k d _ n (
    ground (
      arith,
      h [] refl,
      get-pop "system" k (set_messages [] d),
      get-put "messages" k (arr (of_list [])) d,
      eq_iff "messages" k,
    ))
get-restored_body d k (some (m ∷ ms)) n h =
    let rest = (strip_from 0 false (m ∷ ms)).remaining in
    let x = set_messages rest d in
    get-restore_system k d _ n (
      ground (
        arith,
        h (m ∷ ms) refl,
        get-put "messages" k (arr (of_list (m ∷ ms))) (pop "system" x),
        get-pop "system" k x,
        get-put "messages" k (arr (of_list rest)) d,
        eq_iff "messages" k,
        eq_iff "system" k,
        eq_iff "messages" "system",
      ))

-- A compressor that changes nothing changes no field of the body: the protected messages come back
-- where they were, and so does the system prompt. The roles are to be hashable, and the system
-- field not null.
pub rewrite_body-identity :
    (d : Fields)
    → roles_hashable (or_empty (messages_of d)) ≡ true
    → get "system" d ≢ some null
    → (r : Fields) × (rewrite_body some d ≡ some r) × ((k : String) → get k r ≡ get k d)
unfolding rewrite_body restored_body
rewrite_body-identity d h n =
    let ms = or_empty (messages_of d) in
    (
      restored_body d (messages_of d),
      rw h (
          rw (messages-stripped d)
            (rw (roles_hashable-remaining 0 false ms h, restore_messages ms))),
      λ k. get-restored_body d k (messages_of d) n (get-messages d),
    )
