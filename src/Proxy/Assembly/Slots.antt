-- ===== src/Proxy/Assembly/Slots.antt =====
-- The slots of a stream's calls: what each holds.
use Prim.Native.String.{◌++◌ as ◌<>◌}
use Prim.Native.String.append
use text.Mathlib.TextLemmas.{append-nil, append_assoc}
use soma_benchmark.Base.{
  String, ◌≡◌, refl, sym, ap, ◌∙◌, Option, none, some, List, [], ◌∷◌, ◌++◌, if◌then◌else◌, inl, inr,
  Bool-cases, arith,
}
use soma_benchmark.Base.Strings.{join}
use soma_benchmark.Base.Integers.{same_integer, same_integer_iff, at_most_refl, at_most_total}
use soma_benchmark.Base.Json.{ℤ, Value, Fields, get}
use soma_benchmark.Base.Values.{non_falsy, or_value, dict_at, string_field}
use soma_benchmark.Proxy.Response.{or_default}
use soma_benchmark.Proxy.Assembly.{
  Slot, Slots, new_slot, add_fragment, with_function, with_id, with_name, with_arguments,
  update_slot, insert_slot, sorted, one_or_none,
}
use soma_benchmark.Proxy.Assembly.Fragments.{
  pick, last_of, id_in, name_in, arguments_in, arguments_in_function, name_in_function, merged,
  find,
}

abbrev pub apply_all : List (ℤ × Fields) → Slots → Slots
apply_all [] slots = slots
apply_all ((i, f) ∷ fs) slots = apply_all fs (update_slot i f slots)

abbrev or_new : Option Slot → Slot
or_new none = new_slot
or_new (some s) = s

pub find-update_slot :
    (i j : ℤ) (f : Fields) (slots : Slots)
    → find i (update_slot j f slots)
      ≡ (if same_integer j i then some (add_fragment f (or_new (find j slots))) else find i slots)
unfolding update_slot
find-update_slot i j f [] = refl
find-update_slot i j f ((k, s) ∷ slots) = ground (
  arith,
  find-update_slot i j f slots,
  same_integer_iff k j,
  same_integer_iff k i,
  same_integer_iff j i,
)

abbrev fold_fragments : List Fields → Slot → Slot
fold_fragments [] s = s
fold_fragments (f ∷ fs) s = fold_fragments fs (add_fragment f s)

abbrev onto : Option Slot → List Fields → Option Slot
onto o [] = o
onto o (f ∷ fs) = some (fold_fragments (f ∷ fs) (or_new o))

onto-cons :
    (f : Fields) (fs : List Fields) (o : Option Slot)
    → onto (some (add_fragment f (or_new o))) fs ≡ onto o (f ∷ fs)
onto-cons f [] o = refl
onto-cons f (_ ∷ fs) o = refl

find-apply_all :
    (i : ℤ) (fs : List (ℤ × Fields)) (slots : Slots)
    → find i (apply_all fs slots) ≡ onto (find i slots) (pick i fs)
find-apply_all i [] slots = refl
find-apply_all i ((j, f) ∷ fs) slots = elim (Bool-cases (same_integer j i)) [
  | inl e ↦
      let q : j ≡ i = ground (arith, same_integer_iff j i) in
      rw (find-apply_all i fs (update_slot j f slots), find-update_slot i j f slots, e)
        (rw q (onto-cons f (pick i fs) (find i slots)))
  | inr e ↦ rw (find-apply_all i fs (update_slot j f slots), find-update_slot i j f slots, e) refl
]

-- A slot with a later id, a later name and more arguments.
abbrev extended : Option Value → Option Value → Option String → Slot → Slot
extended id name arguments s = record {
  id = or_default s.id id;
  name = or_default s.name name;
  arguments = s.arguments <> join (one_or_none arguments);
}

with_arguments-extended :
    (name : Option Value) (arguments : Option String) (s : Slot)
    → with_arguments arguments (with_name name s) ≡ extended none name arguments s
unfolding join
with_arguments-extended none none s =
    ap (λ x. record s { arguments = x }) (sym (append-nil s.arguments))
with_arguments-extended (some v) none s =
    ap (λ x. record s { name = v; arguments = x }) (sym (append-nil s.arguments))
with_arguments-extended none (some t) s =
    ap (λ x. record s { arguments = s.arguments <> x }) (sym (append-nil t))
with_arguments-extended (some v) (some t) s =
    ap (λ x. record s { name = v; arguments = s.arguments <> x }) (sym (append-nil t))

with_function-extended :
    (o : Option Fields) (s : Slot)
    → with_function o s ≡ extended none (name_in_function o) (arguments_in_function o) s
with_function-extended none s = with_arguments-extended none none s
with_function-extended (some d) s =
    with_arguments-extended (non_falsy (get "name" d)) (string_field "arguments" d) s

with_id-extended :
    (id name : Option Value) (arguments : Option String) (s : Slot)
    → extended none name arguments (with_id id s) ≡ extended id name arguments s
with_id-extended none name arguments s = refl
with_id-extended (some v) name arguments s = refl

add_fragment-extended :
    (f : Fields) (s : Slot)
    → add_fragment f s
      ≡ extended (id_in f) (name_in f) (arguments_in_function (dict_at "function" f)) s
unfolding add_fragment
add_fragment-extended f s =
    let o = dict_at "function" f in
    with_function-extended o (with_id (id_in f) s)
    ∙ with_id-extended (id_in f) (name_in_function o) (arguments_in_function o) s

find-insert_slot :
    (i j : ℤ) (s : Slot) (slots : Slots)
    → find i (insert_slot (j, s) slots) ≡ (if same_integer j i then some s else find i slots)
find-insert_slot i j s [] = refl
find-insert_slot i j s ((k, t) ∷ slots) = ground (
  arith,
  find-insert_slot i j s slots,
  same_integer_iff j i,
  same_integer_iff k i,
  at_most_refl j,
  at_most_total j k,
)

pub find-sorted : (i : ℤ) (slots : Slots) → find i (sorted slots) ≡ find i slots
unfolding sorted
find-sorted i [] = refl
find-sorted i ((j, s) ∷ slots) =
    rw (find-insert_slot i j s (sorted slots), find-sorted i slots) refl

or_default-or_value :
    (v : Value) (o p : Option Value) → or_default (or_default v p) o ≡ or_default v (or_value o p)
or_default-or_value v none p = refl
or_default-or_value v (some _) p = refl

join-one :
    (s : String) (o : Option String) (ss : List String)
    → (s <> join (one_or_none o)) <> join ss ≡ s <> join (one_or_none o ++ ss)
unfolding join
join-one s none ss = ap (λ x. x <> join ss) (append-nil s)
join-one s (some t) ss = rw (append-nil t) (append_assoc s t (join ss))

-- The slot after several fragments.
fold_fragments-slot :
    (fs : List Fields) (s : Slot)
    → fold_fragments fs s ≡ record {
      id = or_default s.id (last_of id_in fs);
      name = or_default s.name (last_of name_in fs);
      arguments = s.arguments <> join (arguments_in fs);
    }
unfolding join
fold_fragments-slot [] s = ap (λ x. record s { arguments = x }) (sym (append-nil s.arguments))
fold_fragments-slot (f ∷ fs) s =
    let o = arguments_in_function (dict_at "function" f) in
    rw
      (
        add_fragment-extended f s,
        fold_fragments-slot fs (extended (id_in f) (name_in f) o s),
        or_default-or_value s.id (last_of id_in fs) (id_in f),
        or_default-or_value s.name (last_of name_in fs) (name_in f),
        join-one s.arguments o (arguments_in fs),
      )
      refl

pub onto-merged : (fs : List Fields) → onto none fs ≡ merged fs
onto-merged [] = refl
onto-merged (f ∷ fs) =
    rw (fold_fragments-slot (f ∷ fs) new_slot, append.nil (join (arguments_in (f ∷ fs)))) refl

-- Each slot is made up by the fragments with its index.
pub find-fragments :
    (i : ℤ) (fs : List (ℤ × Fields)) → find i (sorted (apply_all fs [])) ≡ merged (pick i fs)
find-fragments i fs =
    find-sorted i (apply_all fs []) ∙ find-apply_all i fs [] ∙ onto-merged (pick i fs)

pub apply_all-append :
    (fs gs : List (ℤ × Fields)) (slots : Slots)
    → apply_all (fs ++ gs) slots ≡ apply_all gs (apply_all fs slots)
apply_all-append [] gs slots = refl
apply_all-append ((i, f) ∷ fs) gs slots = apply_all-append fs gs (update_slot i f slots)
