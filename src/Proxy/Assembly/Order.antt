-- ===== src/Proxy/Assembly/Order.antt =====
-- The order of the slots of a stream's calls.
use soma_benchmark.Base.{
  true, false, not, ◌&&◌, ◌≡◌, refl, ◌∙◌, none, List, [], ◌∷◌, inl, inr, Bool-cases, arith,
}
use soma_benchmark.Base.Integers.{same_integer, at_most, same_integer_iff, at_most_total}
use soma_benchmark.Base.Json.{ℤ, Fields}
use soma_benchmark.Proxy.Assembly.{Slot, Slots, update_slot, insert_slot, sorted}
use soma_benchmark.Proxy.Assembly.Fragments.{find, is_first, IsSorted}
use soma_benchmark.Proxy.Assembly.Slots.{apply_all, find-update_slot, find-sorted}

same_integer_sym : (a b : ℤ) → same_integer a b ≡ false → same_integer b a ≡ false
same_integer_sym a b h = ground (arith, same_integer_iff a b, same_integer_iff b a)

-- No two slots have the same key.
abbrev IsDistinct : Slots → Type 0
IsDistinct [] = Unit
IsDistinct ((i, _) ∷ slots) = (find i slots ≡ none) × IsDistinct slots

update_slot-IsDistinct :
    (j : ℤ) (f : Fields) (slots : Slots) → IsDistinct slots → IsDistinct (update_slot j f slots)
unfolding update_slot
update_slot-IsDistinct j f [] h = (refl, tt)
update_slot-IsDistinct j f ((k, s) ∷ slots) h = elim (Bool-cases (same_integer k j)) [
  | inl e ↦ rw e h
  | inr e ↦ rw e (
    rw (find-update_slot k j f slots, same_integer_sym k j e) (h.0),
    update_slot-IsDistinct j f slots h.1,
  )
]

apply_all-IsDistinct :
    (fs : List (ℤ × Fields)) (slots : Slots) → IsDistinct slots → IsDistinct (apply_all fs slots)
apply_all-IsDistinct [] slots h = h
apply_all-IsDistinct ((i, f) ∷ fs) slots h =
    apply_all-IsDistinct fs (update_slot i f slots) (update_slot-IsDistinct i f slots h)

is_first-insert_slot :
    (i j : ℤ) (s : Slot) (slots : Slots)
    → (at_most i j && not (same_integer i j)) ≡ true
    → is_first i slots ≡ true
    → is_first i (insert_slot (j, s) slots) ≡ true
is_first-insert_slot i j s [] a h = a
is_first-insert_slot i j s ((k, t) ∷ slots) a h = ground arith

find-cons-none :
    (j k : ℤ) (t : Slot) (slots : Slots)
    → find j ((k, t) ∷ slots) ≡ none
    → (same_integer k j ≡ false) × (find j slots ≡ none)
find-cons-none j k t slots h = ground arith

insert_slot-IsSorted :
    (j : ℤ) (s : Slot) (slots : Slots)
    → find j slots ≡ none
    → IsSorted slots
    → IsSorted (insert_slot (j, s) slots)
insert_slot-IsSorted j s [] n h = (refl, tt)
insert_slot-IsSorted j s ((k, t) ∷ slots) n h =
    let (d, m) = find-cons-none j k t slots n in
    elim (Bool-cases (at_most j k)) [
      | inl e ↦ rw e (rw (e, same_integer_sym k j d) refl, h)
      | inr e ↦ rw e (
        is_first-insert_slot k j s slots (rw (at_most_total j k e, d) refl) h.0,
        insert_slot-IsSorted j s slots m h.1,
      )
    ]

sorted-IsSorted : (slots : Slots) → IsDistinct slots → IsSorted (sorted slots)
unfolding sorted
sorted-IsSorted [] h = tt
sorted-IsSorted ((j, s) ∷ slots) h =
    insert_slot-IsSorted j s (sorted slots) (find-sorted j slots ∙ h.0) (sorted-IsSorted slots h.1)

-- The slots of a stream's fragments are in the order of their keys.
pub fragments-IsSorted : (fs : List (ℤ × Fields)) → IsSorted (sorted (apply_all fs []))
fragments-IsSorted fs = sorted-IsSorted (apply_all fs []) (apply_all-IsDistinct fs [] tt)
