-- ===== src/Base/Values.antt =====
-- Python's truth of a JSON value, and the reads of a dict that the program makes again and again.
use Prim.Native.Nat.{zero}
use Prim.Native.String.{String}
use mathlib.Core.Bool.{Bool, true, false, not}
use mathlib.Core.Option.{Option, none, some}
use text.Mathlib.Text.{◌==◌ as str_eq}
use soma_benchmark.Base.Json.{
  ℤ, pos, Value, null, bool, int, real, str, arr, obj, nil, cons, Fields, end, field, get,
}

abbrev is_zero : Option ℤ → Bool
is_zero (some (pos zero)) = true
is_zero _ = false

unfoldable pub truthy : Value → Bool
truthy null = false
truthy (bool b) = b
truthy (int n) = not (is_zero (some n))
truthy (real r) = not (is_zero r.integral)
truthy (str s) = not (str_eq s "")
truthy (arr nil) = false
truthy (arr (cons _ _)) = true
truthy (obj end) = false
truthy (obj (field _ _ _)) = true

-- `v if isinstance(v, dict)`
abbrev pub as_dict : Value → Option Fields
as_dict (obj d) = some d
as_dict _ = none

-- `v if isinstance(v, str)`
abbrev pub as_string : Option Value → Option String
as_string (some (str s)) = some s
as_string _ = none

-- The string under `k`, and whether it is `s`.
abbrev pub string_field : String → Fields → Option String
string_field k d = as_string (get k d)

abbrev pub is_string : String → Option Value → Bool
is_string s (some (str t)) = str_eq t s
is_string s _ = false

-- `d.get("type") == s`
abbrev pub is_type : String → Fields → Bool
is_type s d = is_string s (get "type" d)

-- `v or None`
abbrev pub non_falsy : Option Value → Option Value
non_falsy none = none
non_falsy (some v) = elim (truthy v) [ true ↦ some v | false ↦ none ]

-- `a or b`, of values that are already none where they are falsy.
abbrev pub or_value {ℓ} : {A : Type ℓ} → Option A → Option A → Option A
or_value none o = o
or_value (some a) o = some a

-- `d.get(k)`, if it is a dict.
abbrev pub dict_at : String → Fields → Option Fields
dict_at k d = elim (get k d) [ some v ↦ as_dict v | none ↦ none ]

abbrev pub or_end : Option Fields → Fields
or_end none = end
or_end (some d) = d

-- `int` of a string is a parameter: only counts that are numbers matter.
module _ (int_of : String → Option ℤ) where
  -- `int(v)`; `none` is an exception.
  abbrev to_int : Value → Option ℤ
  to_int (bool true) = some (pos 1)
  to_int (bool false) = some (pos 0)
  to_int (int n) = some n
  to_int (real r) = r.truncated
  to_int (str s) = int_of s
  to_int _ = none

  -- `int(v or 0)`
  unfoldable pub int_or_zero : Option Value → Option ℤ
  int_or_zero none = some (pos 0)
  int_or_zero (some v) = elim (truthy v) [ true ↦ to_int v | false ↦ some (pos 0) ]
