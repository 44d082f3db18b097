-- ===== src/Proxy/Prompts/Isolation.antt =====
-- The protected prompts next to a compressor that may return anything.
use soma_benchmark.Base.{
  ℕ, zero, suc, ◌≤◌, min, ◌≡◌, ◌≢◌, refl, sym, ap, ◌∙◌, inl, inr, Bool, true, false, not, ◌||◌,
  ◌&&◌, Option, none, some, List, [], ◌∷◌, ◌++◌, map, arith, Bool-cases,
}
use mathlib.Core.List.{append_assoc, append-nil}
use soma_benchmark.Base.Lists.{length, keep_if, drop, keep_if-append}
use soma_benchmark.Base.Json.{Value, Fields, get, get-put, arr, of_list, to_list-of_list}
use soma_benchmark.Proxy.Prompts.{
  is_protected_role, is_user, strip_from, insert_at, insert_all, Protected, rewrite_body,
  restore_system, is_empty, strip_protected_prompts, restore_protected_prompts, roles_hashable,
  messages_of, or_empty, set_messages, ◌>>=◌, non_null,
}

-- The messages with a protected role, in order.
abbrev pub protected_in : List Value → List Value
protected_in = keep_if is_protected_role

abbrev second : ℕ × Value → Value
second p = p.1

-- Past the place `k` no message has a protected role.
abbrev CleanFrom : ℕ → List Value → Type 0
CleanFrom k ms = protected_in (drop k ms) ≡ []

protected_in-unprotected :
    (ms : List Value) → protected_in (keep_if (λ m. not (is_protected_role m)) ms) ≡ []
protected_in-unprotected [] = refl
protected_in-unprotected (m ∷ ms) = ground (arith, protected_in-unprotected ms)

CleanFrom-mono : (k i : ℕ) (ms : List Value) → CleanFrom k ms → k ≤ i → CleanFrom i ms
CleanFrom-mono zero zero ms c le = c
CleanFrom-mono zero (suc i) [] c le = refl
CleanFrom-mono zero (suc i) (x ∷ ms) c le = CleanFrom-mono zero i ms (ground arith) (omega arith)
CleanFrom-mono (suc k) zero ms c le = absurd (omega arith)
CleanFrom-mono (suc k) (suc i) [] c le = refl
CleanFrom-mono (suc k) (suc i) (x ∷ ms) c le = CleanFrom-mono k i ms c (omega arith)

-- Into a clean part the message goes behind every protected one.
protected_in-insert_at :
    (i : ℕ) (m : Value) (ms : List Value)
    → CleanFrom i ms
    → protected_in (insert_at i m ms) ≡ protected_in ms ++ protected_in (m ∷ [])
unfolding insert_at
protected_in-insert_at zero m ms c = rw c
protected_in-insert_at (suc i) m [] c = refl
protected_in-insert_at (suc i) m (x ∷ ms) c = ground (arith, protected_in-insert_at i m ms c)

min_zero : (n : ℕ) → min 0 n ≡ 0
min_zero n = omega arith

min_zero_right : (n : ℕ) → min n 0 ≡ 0
min_zero_right n = omega arith

min-suc : (i n : ℕ) → min (suc i) (suc n) ≡ suc (min i n)
min-suc i n = omega arith

-- What stands past the inserted message stood past its place before.
drop-insert_at :
    (i : ℕ) (m : Value) (ms : List Value)
    → drop (suc (min i (length ms))) (insert_at i m ms) ≡ drop i ms
unfolding insert_at
drop-insert_at zero m ms = rw (min_zero (length ms))
drop-insert_at (suc i) m [] = rw (min_zero_right (suc i))
drop-insert_at (suc i) m (x ∷ ms) = rw (min-suc i (length ms)) (drop-insert_at i m ms)

-- `min(index, len(restored_messages))` does what an insertion past the end does.
insert_at-min :
    (i : ℕ) (m : Value) (ms : List Value) → insert_at (min i (length ms)) m ms ≡ insert_at i m ms
unfolding insert_at
insert_at-min zero m ms = rw (min_zero (length ms))
insert_at-min (suc i) m [] = rw (min_zero_right (suc i))
insert_at-min (suc i) m (x ∷ ms) =
    rw (min-suc i (length ms)) (ap (λ r. x ∷ r) (insert_at-min i m ms))

-- The indices rise, from `j` on.
abbrev Ascending : ℕ → List (ℕ × Value) → Type 0
Ascending j [] = Unit
Ascending j ((i, m) ∷ held) = (j ≤ i) × Ascending (suc i) held

Ascending-mono : (j k : ℕ) (held : List (ℕ × Value)) → j ≤ k → Ascending k held → Ascending j held
Ascending-mono j k [] le a = tt
Ascending-mono j k ((i, m) ∷ held) le a = (omega arith, a.1)

strip_from-Ascending :
    (i : ℕ) (seen : Bool) (ms : List Value) → Ascending i (strip_from i seen ms).held
unfolding strip_from
strip_from-Ascending i seen [] = tt
strip_from-Ascending i seen (m ∷ ms) =
    let seen' = seen || (is_user m && not (is_protected_role m)) in
    let ih = strip_from-Ascending (suc i) seen' ms in
    elim (Bool-cases (is_protected_role m || (is_user m && not seen))) [
      | inl h ↦ rw h (omega arith, ih)
      | inr h ↦ rw h (Ascending-mono i (suc i) (strip_from (suc i) seen' ms).held (omega arith) ih)
    ]

protected_in-held :
    (i : ℕ) (seen : Bool) (ms : List Value)
    → protected_in (map second (strip_from i seen ms).held) ≡ protected_in ms
unfolding strip_from
protected_in-held i seen [] = refl
protected_in-held i seen (m ∷ ms) =
    ground (arith, protected_in-held (suc i) (seen || (is_user m && not (is_protected_role m))) ms)

protected_in-insert_all :
    (held : List (ℕ × Value)) (ms : List Value) (k j : ℕ)
    → CleanFrom k ms
    → k ≤ j
    → Ascending j held
    → protected_in (insert_all held ms) ≡ protected_in ms ++ protected_in (map second held)
unfolding insert_all
protected_in-insert_all [] ms k j c le a = sym (append-nil _)
protected_in-insert_all ((i, m) ∷ held) ms k j c le a =
    let ci = CleanFrom-mono k i ms c (omega arith) in
    let ih =
      protected_in-insert_all held (insert_at i m ms) (suc (min i (length ms))) (suc i)
        (ap protected_in (drop-insert_at i m ms) ∙ ci) (omega arith) a.1 in
    rw (insert_at-min i m ms) (
      ih
      ∙ ap (λ r. r ++ protected_in (map second held)) (protected_in-insert_at i m ms ci)
      ∙ append_assoc (protected_in ms) (protected_in (m ∷ [])) (protected_in (map second held))
      ∙ ap (λ r. protected_in ms ++ r)
          (sym (keep_if-append is_protected_role (m ∷ []) (map second held))))

-- Whatever list the compressor returns, inserting what was held brings back the protected messages.
protected_in-restored :
    (ms out : List Value)
    → protected_in
        (insert_all (strip_from 0 false ms).held (keep_if (λ m. not (is_protected_role m)) out))
      ≡ protected_in ms
protected_in-restored ms out =
    let clean = protected_in-unprotected out in
    let held = (strip_from 0 false ms).held in
    protected_in-insert_all held (keep_if (λ m. not (is_protected_role m)) out) 0 0 clean
      (omega arith) (strip_from-Ascending 0 false ms)
    ∙ ap (λ r. r ++ protected_in (map second held)) clean
    ∙ protected_in-held 0 false ms

messages_of-restore_system :
    (o : Option Value) (d : Fields) → messages_of (restore_system o d) ≡ messages_of d
unfolding messages_of
messages_of-restore_system none d = refl
messages_of-restore_system (some v) d = ground (arith, get-put "system" "messages" v d)

messages_of-put : (ms : List Value) (d : Fields) → messages_of (set_messages ms d) ≡ some ms
unfolding messages_of
messages_of-put ms d =
    ground (arith, get-put "messages" "messages" (arr (of_list ms)) d, to_list-of_list ms)

is_empty_append : (b : Bool) (held : List (ℕ × Value)) → held ≢ [] → (b && is_empty held) ≡ false
is_empty_append true [] n = absurd (n refl)
is_empty_append false [] n = refl
is_empty_append true (x ∷ held) n = refl
is_empty_append false (x ∷ held) n = refl

-- With something held, the messages of the restored body are the inserted list.
messages-restore :
    (out r : Fields) (p : Protected)
    → p.messages ≢ []
    → restore_protected_prompts out p ≡ some r
    → or_empty (messages_of r)
      ≡ insert_all p.messages
          (keep_if (λ m. not (is_protected_role m)) (or_empty (messages_of out)))
unfolding restore_protected_prompts
messages-restore out r p n h =
    let restored =
      insert_all p.messages
        (keep_if (λ m. not (is_protected_role m)) (or_empty (messages_of out))) in
    let x : Fields = restore_system p.system (set_messages restored out) in
    elim (Bool-cases (roles_hashable (or_empty (messages_of out)))) [
      | inl ok ↦
          let q : restore_protected_prompts out p ≡ some x =
            rw ok (rw (is_empty_append (is_empty restored) p.messages n)) in
          let e : r ≡ x = cc (h, q) in rw e (simp (messages_of-restore_system, messages_of-put))
      | inr bad ↦ let q : restore_protected_prompts out p ≡ none = rw bad in cc (h, q)
    ]

bind-eq-some :
    {A B : Type 0} (m : Option A) (f : A → Option B) (b : B)
    → (m >>= f) ≡ some b
    → (a : A) × (m ≡ some a) × (f a ≡ some b)
bind-eq-some none f b h = cc
bind-eq-some (some a) f b h = (a, refl, h)

held-strip :
    (d s : Fields) (p : Protected)
    → strip_protected_prompts d ≡ some (s, p)
    → p.messages ≡ (strip_from 0 false (or_empty (messages_of d))).held
unfolding strip_protected_prompts
held-strip d s p h = ground arith

-- Whatever a compressor returns, the system and developer messages of the body that is forwarded
-- are those of the body that came in, in their order: it can neither change, drop nor add one.
-- The body is to have a message that is held back.
pub rewrite_body-isolates :
    (transform : Fields → Option Fields) (d r : Fields)
    → (strip_from 0 false (or_empty (messages_of d))).held ≢ []
    → rewrite_body transform d ≡ some r
    → protected_in (or_empty (messages_of r)) ≡ protected_in (or_empty (messages_of d))
unfolding rewrite_body
rewrite_body-isolates transform d r n h =
    let ((s, p), es, h') = bind-eq-some (strip_protected_prompts d) _ r h in
    let (t, et, h'') = bind-eq-some (transform s) _ r h' in
    let e = held-strip d s p es in
    ap protected_in (messages-restore t r p (λ q. n (sym e ∙ q)) h'')
    ∙ ap
        (λ held.
          protected_in
            (insert_all held (keep_if (λ m. not (is_protected_role m)) (or_empty (messages_of t)))))
        e
    ∙ protected_in-restored (or_empty (messages_of d)) (or_empty (messages_of t))

-- In a body with no user, system or developer message nothing is held back. A compressor's answer
-- that has only system and developer messages is then forwarded with all of them.
pub rewrite_body-injection :
    (out d : Fields)
    → roles_hashable (or_empty (messages_of d)) ≡ true
    → (strip_from 0 false (or_empty (messages_of d))).held ≡ []
    → roles_hashable (or_empty (messages_of out)) ≡ true
    → keep_if (λ m. not (is_protected_role m)) (or_empty (messages_of out)) ≡ []
    → (r : Fields) × (rewrite_body (λ _. some out) d ≡ some r) × (messages_of r ≡ messages_of out)
unfolding rewrite_body insert_all
rewrite_body-injection out d hd he ho hn = (
  restore_system (non_null (get "system" d)) out,
  rw (hd, ho, he, hn),
  messages_of-restore_system (non_null (get "system" d)) out,
)
