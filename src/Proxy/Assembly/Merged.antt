-- ===== src/Proxy/Assembly/Merged.antt =====
-- The assembled response against the stream read as a whole.
use soma_benchmark.Base.{
  ◌≡◌, refl, sym, ap, ◌∙◌, Option, none, some, List, [], ◌∷◌, ◌++◌, ◌>>=◌, bind-eq-some,
}
use mathlib.Core.List.{append_assoc, append-nil}
use mathlib.Core.Option.{some-injective}
use soma_benchmark.Base.Json.{ℤ, Value, arr, obj, nil, cons, Fields, get}
use soma_benchmark.Base.Values.{as_dict, string_field, dict_at}
use soma_benchmark.Proxy.Response.{items_of}
use soma_benchmark.Proxy.Assembly.{
  Slots, Assembly, empty, index_of, add_at, key_of, update_slot, add_dict, add_calls, add_delta,
  add_choice, add_choices, add_chunk, add_chunks, with_head, sorted, one_or_none, reasoning_text,
  body_of, assemble_openai_stream,
}
use soma_benchmark.Proxy.Assembly.Fragments.{
  Turn, nothing, followed_by, at_index, dict_at_index, indexed, turn_of_delta, turn_of_choice,
  turn_of_choices, turn_of, turns_of, pick, merged, find, IsSorted,
}
use soma_benchmark.Proxy.Assembly.Heads.{head_of, response, body_of-response, add_chunks-head_of}
use soma_benchmark.Proxy.Assembly.Order.{fragments-IsSorted}
use soma_benchmark.Proxy.Assembly.Slots.{apply_all, apply_all-append, find-fragments}

-- The slots after a call are those after its fragment.
abbrev AddsFirst : List (ℤ × Fields) → List (ℤ × Fields) → Slots → Option Slots → Type 0
AddsFirst fs rest slots out = (t : Slots) × (out ≡ some t) × (apply_all fs slots ≡ apply_all rest t)

add_at-AddsFirst :
    (o : Option Value) (call : Fields) (rest fs : List (ℤ × Fields)) (slots : Slots)
    → at_index o call rest ≡ some fs
    → AddsFirst fs rest slots (add_at (key_of o slots) call slots)
add_at-AddsFirst none call rest fs slots h = cc
add_at-AddsFirst (some v) call rest fs slots h =
    let (i, e, f) = bind-eq-some (index_of v) (λ i. some ((i, call) ∷ rest)) fs h in
    (update_slot i call slots, rw e refl, rw (← some-injective _ _ f) refl)

add_dict-AddsFirst :
    (o : Option Fields) (rest fs : List (ℤ × Fields)) (slots : Slots)
    → dict_at_index o rest ≡ some fs
    → AddsFirst fs rest slots (add_dict o slots)
add_dict-AddsFirst none rest fs slots h =
    (slots, refl, ap (λ x. apply_all x slots) (sym (some-injective _ _ h)))
add_dict-AddsFirst (some call) rest fs slots h =
    add_at-AddsFirst (get "index" call) call rest fs slots h

add_calls-indexed :
    (calls : List Value) (fs : List (ℤ × Fields)) (slots : Slots)
    → indexed calls ≡ some fs
    → add_calls calls slots ≡ some (apply_all fs slots)
unfolding add_calls
add_calls-indexed [] fs slots h = rw (← some-injective _ _ h) refl
add_calls-indexed (call ∷ calls) fs slots h =
    let (rest, e, f) = bind-eq-some (indexed calls) (dict_at_index (as_dict call)) fs h in
    let (t, g, q) = add_dict-AddsFirst (as_dict call) rest fs slots f in
    rw (g, add_calls-indexed calls rest t e, q) refl

-- What a chunk or a stream adds to what is assembled.
abbrev Adds : Turn → Assembly → Option Assembly → Type 0
Adds t a out =
    (b : Assembly) × (out ≡ some b)
    × (b.text_parts ≡ a.text_parts ++ t.texts)
    × (b.reasoning_parts ≡ a.reasoning_parts ++ t.reasonings)
    × (b.slots ≡ apply_all t.fragments a.slots)

-- What adds nothing but changes the head.
Adds-nothing : (t : Turn) (a : Assembly) → nothing ≡ t → Adds t a (some a)
Adds-nothing t a h =
    rw (← h) (a, refl, sym (append-nil a.text_parts), sym (append-nil a.reasoning_parts), refl)

add_delta-Adds :
    (o : Option Fields) (a : Assembly) (t : Turn)
    → turn_of_delta o ≡ some t
    → Adds t a (add_delta o a)
add_delta-Adds none a t h = Adds-nothing t a (some-injective _ _ h)
add_delta-Adds (some d) a t h =
    let calls = items_of (get "tool_calls" d) in
    let (fs, e, f) =
      bind-eq-some (calls >>= indexed)
        (λ fs. some (record {
          texts = one_or_none (string_field "content" d);
          reasonings = one_or_none (reasoning_text d);
          fragments = fs;
        }))
        t h in
    let (cs, g, k) = bind-eq-some calls indexed fs e in
    rw (g, add_calls-indexed cs fs a.slots k, ← some-injective _ _ f)
      (
        record a {
          text_parts = a.text_parts ++ one_or_none (string_field "content" d);
          reasoning_parts = a.reasoning_parts ++ one_or_none (reasoning_text d);
          slots = apply_all fs a.slots;
        },
        refl,
        refl,
        refl,
        refl,
      )

add_choice-Adds :
    (o : Option Fields) (a : Assembly) (t : Turn)
    → turn_of_choice o ≡ some t
    → Adds t a (add_choice o a)
add_choice-Adds none a t h = cc
add_choice-Adds (some choice) a t h = add_delta-Adds (dict_at "delta" choice) _ t h

add_choices-Adds :
    (o : Option Value) (a : Assembly) (t : Turn)
    → turn_of_choices o ≡ some t
    → Adds t a (add_choices o a)
add_choices-Adds none a t h = Adds-nothing t a (some-injective _ _ h)
add_choices-Adds (some (arr (cons choice _))) a t h = add_choice-Adds (as_dict choice) a t h
add_choices-Adds (some (arr nil)) a t h = Adds-nothing t a (some-injective _ _ h)
add_choices-Adds (some _) a t h = Adds-nothing t a (some-injective _ _ h)

add_chunk-Adds :
    (chunk : Value) (a : Assembly) (t : Turn)
    → turn_of chunk ≡ some t
    → Adds t a (add_chunk chunk a)
unfolding add_chunk
add_chunk-Adds (obj chunk) a t h = add_choices-Adds (get "choices" chunk) (with_head chunk a) t h
add_chunk-Adds _ a t h = cc

add_chunks-Adds :
    (chunks : List Value) (a : Assembly) (t : Turn)
    → turns_of chunks ≡ some t
    → Adds t a (add_chunks chunks a)
unfolding add_chunks
add_chunks-Adds [] a t h = Adds-nothing t a (some-injective _ _ h)
add_chunks-Adds (chunk ∷ chunks) a t h =
    let (u, e, f) =
      bind-eq-some (turn_of chunk) (λ u. turns_of chunks >>= (λ v. some (followed_by u v))) t h in
    let (v, g, k) = bind-eq-some (turns_of chunks) (λ v. some (followed_by u v)) t f in
    let (b, p, x, y, z) = add_chunk-Adds chunk a u e in
    let (c, p', x', y', z') = add_chunks-Adds chunks b v g in
    rw (← some-injective _ _ k) (
      c,
      rw p p',
      x' ∙ ap (λ l. l ++ v.texts) x ∙ append_assoc a.text_parts u.texts v.texts,
      y' ∙ ap (λ l. l ++ v.reasonings) y ∙ append_assoc a.reasoning_parts u.reasonings v.reasonings,
      z'
          ∙ ap (λ l. apply_all v.fragments l) z
          ∙ sym (apply_all-append u.fragments v.fragments a.slots),
    )

-- However a stream is cut into chunks and however its calls interleave, it is assembled to one
-- response: its content is the texts of the chunks joined and its reasoning likewise, each call has the
-- last id and the last name among the fragments with its index and their arguments joined, and the
-- calls are in the order of their indices, one for each. The id, the model and the provider are the
-- first that a chunk has, the usage and the reason to finish the last. Each chunk is to be a dict
-- whose first choice is a dict, and each call is to have an index.
pub assemble_openai_stream-turns_of :
    (chunks : List Value) (t : Turn)
    → turns_of chunks ≡ some t
    → (calls : Slots) × (assemble_openai_stream chunks
        ≡ some (response (head_of chunks) t.texts t.reasonings calls))
      × IsSorted calls
      × ((i : ℤ) → find i calls ≡ merged (pick i t.fragments))
unfolding assemble_openai_stream
assemble_openai_stream-turns_of chunks t h =
    let (a, e, x, y, z) = add_chunks-Adds chunks empty t h in
    let q : body_of a ≡ response (head_of chunks) t.texts t.reasonings (sorted a.slots) =
      body_of-response a
      ∙ (λ i. response (add_chunks-head_of chunks a e i) (x i) (y i) (sorted a.slots)) in
    (
      sorted a.slots,
      rw e (ap some q),
      rw z (fragments-IsSorted t.fragments),
      λ i. ap (λ s. find i (sorted s)) z ∙ find-fragments i t.fragments,
    )
