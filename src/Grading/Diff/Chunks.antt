-- ===== src/Grading/Diff/Chunks.antt =====
-- The chunks of a patch before and after the filter.
use soma_benchmark.Base.{◌≡◌, true, List, [], ◌∷◌, ◌⊎◌}
use soma_benchmark.Base.Lists.{concat}
use soma_benchmark.Base.Text.{Text, is_space}
use soma_benchmark.Grading.Diff.{blocked_in}

-- Nothing is removed: no chunk touches a blocked file.
abbrev pub Untouched : List Text → List Text → Type 0
Untouched blocked [] = Unit
Untouched blocked (c ∷ chunks) = (blocked_in blocked c ≡ []) × Untouched blocked chunks

-- A list without the members that are P, the others in their order.
pub data Filtered (P : Text → Type 0) : List Text → List Text → Type 0 where
  done : Filtered P [] []
  keeps :
      {cs ks : List Text} (c : Text) → (P c → ⊥) → Filtered P cs ks → Filtered P (c ∷ cs) (c ∷ ks)
  drops : {cs ks : List Text} (c : Text) → P c → Filtered P cs ks → Filtered P (c ∷ cs) ks

-- A blank text is one chunk without a header.
abbrev AllSpace : Text → Type 0
AllSpace [] = Unit
AllSpace (c ∷ s) = (is_space c ≡ true) × AllSpace s

-- The graded file is the agent's, if no chunk is left out, or it has the text of the chunks that are kept.
abbrev pub IsGraded : List Text → List Text → Text → Text → Type 0
IsGraded chunks kept file graded = ((kept ≡ chunks) × (graded ≡ file)) ⊎ (graded ≡ concat kept)
