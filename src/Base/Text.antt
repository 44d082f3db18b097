-- ===== src/Base/Text.antt =====
-- Python's `str` as a list of code points, with the methods that the program calls.
use Prim.Native.Char.{code}
use Prim.Native.String.{String}
use Prim.Native.Nat.{ℕ, ◌+◌, compare, Ordering}
use mathlib.Core.Path.{◌≡◌}
use mathlib.Core.Logic.{◌↔◌}
use mathlib.Core.Bool.{Bool, true, false, ◌&&◌, ◌||◌}
use mathlib.Core.List.{List, [], ◌∷◌}
use native.Mathlib.Omega.{arith}

abbrev pub Text : Type 0
Text = List ℕ

abbrev pub codes : String → Text
codes String.[] = []
codes (String.◌∷◌ c s) = code c ∷ codes s

abbrev same : ℕ → ℕ → Bool
same a b = elim (compare a b) [ Ordering.eq ↦ true | _ ↦ false ]

abbrev at_most : ℕ → ℕ → Bool
at_most a b = elim (compare a b) [ Ordering.gt ↦ false | _ ↦ true ]

abbrev pub text_eq : Text → Text → Bool
text_eq [] [] = true
text_eq [] (_ ∷ _) = false
text_eq (_ ∷ _) [] = false
text_eq (a ∷ s) (b ∷ t) = same a b && text_eq s t

pub text_eq_iff : (s t : Text) → (text_eq s t ≡ true) ↔ (s ≡ t)
text_eq_iff [] [] = ground arith
text_eq_iff [] (_ ∷ _) = ground arith
text_eq_iff (_ ∷ _) [] = ground arith
text_eq_iff (a ∷ s) (b ∷ t) = ground (arith, text_eq_iff s t)

-- `s.startswith(t)`
abbrev pub starts_with : Text → Text → Bool
starts_with s [] = true
starts_with [] (_ ∷ _) = false
starts_with (a ∷ s) (b ∷ t) = same a b && starts_with s t

-- `str.isspace` of one character.
abbrev pub is_space : ℕ → Bool
is_space c =
    (at_most 9 c && at_most c 13)
    || (at_most 28 c && at_most c 32)
    || same c 133
    || same c 160
    || same c 5760
    || (at_most 8192 c && at_most c 8202)
    || same c 8232
    || same c 8233
    || same c 8239
    || same c 8287
    || same c 12288

abbrev pub lstrip : Text → Text
lstrip [] = []
lstrip (c ∷ s) = let rest = lstrip s in elim (is_space c) [ true ↦ rest | false ↦ c ∷ s ]

abbrev all_space : Text → Bool
all_space [] = true
all_space (c ∷ s) = is_space c && all_space s

abbrev pub rstrip : Text → Text
rstrip [] = []
rstrip (c ∷ s) = elim (is_space c && all_space s) [ true ↦ [] | false ↦ c ∷ rstrip s ]

-- `s.strip()`
abbrev pub strip : Text → Text
strip s = rstrip (lstrip s)

abbrev pub is_empty : Text → Bool
is_empty [] = true
is_empty (_ ∷ _) = false

-- `needle in s`
abbrev pub contains : Text → Text → Bool
contains needle [] = is_empty needle
contains needle (c ∷ s) = starts_with (c ∷ s) needle || contains needle s

-- `c.lower()` of a letter of the ASCII alphabet; any other character is left as it is.
abbrev lower_code : ℕ → ℕ
lower_code c = elim (at_most 65 c && at_most c 90) [ true ↦ c + 32 | false ↦ c ]

abbrev pub lower : Text → Text
lower [] = []
lower (c ∷ s) = lower_code c ∷ lower s

-- `s <= t`, by code points.
abbrev pub text_at_most : Text → Text → Bool
text_at_most [] t = true
text_at_most (_ ∷ _) [] = false
text_at_most (a ∷ s) (b ∷ t) = elim (compare a b) [
  | Ordering.lt ↦ true
  | Ordering.eq ↦ text_at_most s t
  | Ordering.gt ↦ false
]

pub text_at_most_total : (s t : Text) → text_at_most s t ≡ false → text_at_most t s ≡ true
text_at_most_total [] t h = cc
text_at_most_total (a ∷ s) [] h = ground arith
text_at_most_total (a ∷ s) (b ∷ t) h = ground (arith, text_at_most_total s t)

pub text_at_most_trans :
    (s t u : Text) → text_at_most s t ≡ true → text_at_most t u ≡ true → text_at_most s u ≡ true
text_at_most_trans [] t u h k = ground arith
text_at_most_trans (a ∷ s) [] u h k = cc
text_at_most_trans (a ∷ s) (b ∷ t) [] h k = cc
text_at_most_trans (a ∷ s) (b ∷ t) (c ∷ u) h k = ground (arith, text_at_most_trans s t u)

pub text_at_most_antisym : (s t : Text) → text_at_most s t ≡ true → text_at_most t s ≡ true → s ≡ t
text_at_most_antisym [] [] h k = ground arith
text_at_most_antisym [] (_ ∷ _) h k = cc
text_at_most_antisym (_ ∷ _) [] h k = cc
text_at_most_antisym (a ∷ s) (b ∷ t) h k = ground (arith, text_at_most_antisym s t)

-- `s in {...}`
abbrev pub is_one_of : Text → List String → Bool
is_one_of s [] = false
is_one_of s (w ∷ words) = text_eq s (codes w) || is_one_of s words
