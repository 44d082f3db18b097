-- ===== src/Base/Strings.antt =====
-- Python's `str` as a native string, where only joins and equality of texts matter.
use Prim.Native.Nat.{ℕ, zero, suc}
use Prim.Native.String.{String, ◌++◌ as ◌<>◌}
use mathlib.Core.Bool.{Bool}
use mathlib.Core.List.{List, [], ◌∷◌}
use text.Mathlib.Text.{◌==◌ as str_eq}

abbrev pub is_blank : String → Bool
is_blank s = str_eq s ""

-- `"\n".join(parts)`
unfoldable pub join_lines : List String → String
join_lines [] = ""
join_lines (s ∷ []) = s
join_lines (s ∷ t ∷ parts) = s <> ("\n" <> join_lines (t ∷ parts))

-- `"".join(parts)`
unfoldable pub join : List String → String
join [] = ""
join (s ∷ parts) = s <> join parts

-- `s[:n]`
unfoldable pub prefix : ℕ → String → String
prefix zero s = ""
prefix (suc n) String.[] = ""
prefix (suc n) (String.◌∷◌ c s) = String.◌∷◌ c (prefix n s)
