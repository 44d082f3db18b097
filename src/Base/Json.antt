-- ===== src/Base/Json.antt =====
-- The values of Python's `json` module: what a request body, a service message or a report is
-- after `json.loads`.
use Prim.Native.Nat.{ℕ}
use Prim.Native.String.{String}
use mathlib.Core.Path.{◌≡◌, refl, ap}
use mathlib.Core.Bool.{Bool, true, false}
use mathlib.Core.Option.{Option, none, some}
use mathlib.Core.List.{List, [], ◌∷◌}
use text.Mathlib.Text.{◌==◌ as str_eq}
use text.Mathlib.TextEquality.{eq_iff}
use native.Mathlib.Omega.{arith}

-- `negsuc n` is -(n + 1).
pub data ℤ : Type 0 where
  pos : ℕ → ℤ
  negsuc : ℕ → ℤ

-- A float is known by the integer that it equals, if there is one, the integer that `int`
-- truncates it to, where that does not raise, and its spelling.
pub record Real : Type 0 where
  pub integral : Option ℤ
  pub truncated : Option ℤ
  pub literal : String

mutual
  pub data Value : Type 0 where
    null : Value
    bool : Bool → Value
    int : ℤ → Value
    real : Real → Value
    str : String → Value
    arr : Items → Value
    obj : Fields → Value

  pub data Fields : Type 0 where
    end : Fields
    field : String → Value → Fields → Fields

  pub data Items : Type 0 where
    nil : Items
    cons : Value → Items → Items

abbrev pub to_list : Items → List Value
to_list nil = []
to_list (cons v vs) = v ∷ to_list vs

abbrev pub of_list : List Value → Items
of_list [] = nil
of_list (v ∷ vs) = cons v (of_list vs)

pub to_list-of_list : (vs : List Value) → to_list (of_list vs) ≡ vs
to_list-of_list [] = refl
to_list-of_list (v ∷ vs) = ap (λ r. v ∷ r) (to_list-of_list vs)

pub of_list-to_list : (vs : Items) → of_list (to_list vs) ≡ vs
of_list-to_list nil = refl
of_list-to_list (cons v vs) = ap (λ r. cons v r) (of_list-to_list vs)

abbrev choose {ℓ} : {A : Type ℓ} → Bool → A → A → A
choose b x y = elim b [ true ↦ x | false ↦ y ]

-- `d.get(k)`
abbrev pub get : String → Fields → Option Value
get k end = none
get k (field j v d) = choose (str_eq j k) (some v) (get k d)

-- `d[k] = v`: in place, or at the end.
abbrev pub put : String → Value → Fields → Fields
put k v end = field k v end
put k v (field j w d) = choose (str_eq j k) (field k v d) (field j w (put k v d))

-- `d.pop(k, None)`, without the value.
abbrev pub pop : String → Fields → Fields
pop k end = end
pop k (field j v d) = choose (str_eq j k) (pop k d) (field j v (pop k d))

pub get-put :
    (k j : String) (v : Value) (d : Fields)
    → get j (put k v d) ≡ choose (str_eq k j) (some v) (get j d)
get-put k j v end = refl
get-put k j v (field i w d) = ground (arith, get-put k j v d, eq_iff i k, eq_iff i j, eq_iff k j)

pub get-pop : (k j : String) (d : Fields) → get j (pop k d) ≡ choose (str_eq k j) none (get j d)
get-pop k j end = ground arith
get-pop k j (field i w d) = ground (arith, get-pop k j d, eq_iff i k, eq_iff i j, eq_iff k j)
