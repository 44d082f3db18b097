-- ===== src/Compressor/Events/Bounds.antt =====
-- The size of what a compressor run adds to the log.
use soma_benchmark.Base.{
  ℕ, zero, suc, [], ◌∷◌, ◌+◌, ◌-◌, ◌≤◌, ◌<◌, ◌≡◌, refl, ◌∙◌, ◌⊎◌, inl, inr, Option, List, ◌++◌,
  Bool-cases, leb, arith,
}
use soma_benchmark.Base.Lists.{
  length, take, drop, length-append, length-take, take-append_le, take_all,
}
use soma_benchmark.Base.Text.{codes}
use soma_benchmark.Base.Json.{Fields}
use soma_benchmark.Compressor.Events.{cut_note, truncate_captured_output, exec_event}

-- `out` is the text, or its first `limit` characters followed by the number of the cut ones in a note.
abbrev pub CutTo : (ℕ → List ℕ) → ℕ → List ℕ → List ℕ → Type 0
CutTo show limit value out =
    ((length value ≤ limit) × (out ≡ value))
    ⊎ ((limit < length value)
        × (take limit out ≡ take limit value)
        × (drop limit out
            ≡ codes "\n... [truncated " ++ (show (length value - limit) ++ codes " chars]"))
        × (length out ≡ limit + 23 + length (show (length value - limit))))

length-cut : (limit : ℕ) (value : List ℕ) → limit < length value → length (take limit value) ≡ limit
length-cut limit value h = omega (arith, length-take limit value)

take-cut :
    (limit : ℕ) (value rest : List ℕ)
    → limit < length value
    → take limit (take limit value ++ rest) ≡ take limit value
take-cut limit value rest h =
    let l = length-cut limit value h in
    take-append_le limit (take limit value) rest (omega arith)
    ∙ take_all limit (take limit value) (omega arith)

drop-cut :
    (limit : ℕ) (value rest : List ℕ)
    → limit < length value
    → drop limit (take limit value ++ rest) ≡ rest
drop-cut zero value rest h = refl
drop-cut (suc n) [] rest h = absurd (omega arith)
drop-cut (suc n) (x ∷ value) rest h = drop-cut n value rest (omega arith)

length-cut_note :
    (limit : ℕ) (value digits : List ℕ)
    → limit < length value
    → length (take limit value ++ cut_note digits) ≡ limit + 23 + length digits
length-cut_note limit value digits h = omega (
  arith,
  length-cut limit value h,
  length-append (take limit value) (cut_note digits),
  length-append (codes "\n... [truncated ") (digits ++ codes " chars]"),
  length-append digits (codes " chars]"),
)

truncate_captured_output-CutTo :
    (show : ℕ → List ℕ) (limit : ℕ) (value : List ℕ)
    → CutTo show limit value (truncate_captured_output show limit value)
unfolding truncate_captured_output
truncate_captured_output-CutTo show limit value = elim (Bool-cases (leb (length value) limit)) [
  | inl e ↦ rw e (inl (ground arith, refl))
  | inr e ↦
      let h : limit < length value = ground arith in
      let digits = show (length value - limit) in
      let rest = cut_note digits in
      rw e (
        inr (
          h,
          take-cut limit value rest h,
          drop-cut limit value rest h,
          length-cut_note limit value digits h,
        ))
]

-- The outputs in the log entry of a run are those of the compressor, whole where they are within the
-- limit; longer ones are cut after as many characters as the limit says, and what follows is a note with
-- the number of characters that were cut.
pub exec_event-CutTo {ℓ} :
    {C : Type ℓ} (show : ℕ → List ℕ) (limit : ℕ) (compressor : Option C) (after : Fields)
    (result : Option Fields) (stdout stderr : List ℕ)
    → let e = exec_event show limit compressor after result stdout stderr in
      CutTo show limit stdout e.stdout × CutTo show limit stderr e.stderr
unfolding exec_event
exec_event-CutTo show limit compressor after result stdout stderr = (
  truncate_captured_output-CutTo show limit stdout,
  truncate_captured_output-CutTo show limit stderr,
)
