-- ===== src/Grading/Diff/Changes.antt =====
-- The chunks that a patch is cut into.
use soma_benchmark.Base.{
  ℕ, ◌≡◌, refl, sym, ap, ◌∙◌, inl, inr, Bool, true, false, List, [], ◌∷◌, ◌++◌, ◌==◌, ◌&&◌, arith,
  Bool-cases,
}
use soma_benchmark.Base.Lists.{All, concat}
use soma_benchmark.Base.Text.{Text, starts_with}
use soma_benchmark.Grading.Diff.{prepend, chunks_from, git_header}

concat-prepend : (c : ℕ) (ls : List Text) → concat (prepend c ls) ≡ c ∷ concat ls
concat-prepend c [] = refl
concat-prepend c (l ∷ ls) = refl

-- The chunks of a diff make up its text.
pub concat-chunks_from : (b : Bool) (s : Text) → concat (chunks_from b s) ≡ s
unfolding chunks_from
concat-chunks_from b [] = refl
concat-chunks_from b (c ∷ s) =
    let e =
      concat-prepend c (chunks_from (c == 10) s)
      ∙ ap (λ r. c ∷ r) (concat-chunks_from (c == 10) s) in
    elim (Bool-cases (b && starts_with (c ∷ s) git_header)) [ inl h ↦ rw h e | inr h ↦ rw h e ]

-- No line of the text is the header of a file's changes; `at_start` tells whether its first character is
-- at the start of a line.
abbrev pub HasNoHeader : Bool → Text → Type 0
HasNoHeader at_start [] = Unit
HasNoHeader at_start (c ∷ s) =
    ((at_start && starts_with (c ∷ s) git_header) ≡ false) × HasNoHeader (c == 10) s

-- Only the first line may be a header.
abbrev pub IsOneChange : Text → Type 0
IsOneChange [] = Unit
IsOneChange (c ∷ s) = HasNoHeader (c == 10) s

HasNoHeader-IsOneChange : (b : Bool) (s : Text) → HasNoHeader b s → IsOneChange s
HasNoHeader-IsOneChange b [] h = tt
HasNoHeader-IsOneChange b (c ∷ s) h = h.1

-- A list that starts with a part of a change, and goes on with changes.
abbrev AreChanges : Bool → List Text → Type 0
AreChanges b [] = ⊥
AreChanges b (l ∷ ls) = HasNoHeader b l × All IsOneChange ls

starts_with-append : (s u t : Text) → starts_with s t ≡ true → starts_with (s ++ u) t ≡ true
starts_with-append s u [] h = refl
starts_with-append [] u (_ ∷ _) h = cc
starts_with-append (x ∷ s) u (y ∷ t) h = ground (arith, starts_with-append s u t)

no_header-append :
    (b : Bool) (s u : Text)
    → (b && starts_with (s ++ u) git_header) ≡ false
    → (b && starts_with s git_header) ≡ false
no_header-append false s u h = refl
no_header-append true s u h = elim (Bool-cases (starts_with s git_header)) [
  | inl e ↦ let k : true ≡ false = sym (starts_with-append s u git_header e) ∙ h in cc
  | inr e ↦ e
]

prepend-AreChanges :
    (b : Bool) (c : ℕ) (s : Text) (ls : List Text)
    → concat ls ≡ s
    → (b && starts_with (c ∷ s) git_header) ≡ false
    → AreChanges (c == 10) ls
    → AreChanges b (prepend c ls)
prepend-AreChanges b c s [] e n h = elim h [ ]
prepend-AreChanges b c s (l ∷ ls) e n h =
    let k : (b && starts_with (c ∷ (l ++ concat ls)) git_header) ≡ false =
      ap (λ r. b && starts_with (c ∷ r) git_header) e ∙ n in
    ((no_header-append b (c ∷ l) (concat ls) k, h.0), h.1)

cut-AreChanges :
    (b : Bool) (c : ℕ) (ls : List Text) → AreChanges (c == 10) ls → AreChanges b ([] ∷ prepend c ls)
cut-AreChanges b c [] h = elim h [ ]
cut-AreChanges b c (l ∷ ls) h = (tt, h)

pub chunks_from-AreChanges : (b : Bool) (s : Text) → AreChanges b (chunks_from b s)
unfolding chunks_from
chunks_from-AreChanges b [] = (tt, tt)
chunks_from-AreChanges b (c ∷ s) =
    let ls = chunks_from (c == 10) s in
    let h = chunks_from-AreChanges (c == 10) s in
    elim (Bool-cases (b && starts_with (c ∷ s) git_header)) [
      | inl e ↦ rw e (cut-AreChanges b c ls h)
      | inr e ↦ rw e (prepend-AreChanges b c s ls (concat-chunks_from (c == 10) s) e h)
    ]

pub AreChanges-All : (b : Bool) (ls : List Text) → AreChanges b ls → All IsOneChange ls
AreChanges-All b [] h = tt
AreChanges-All b (l ∷ ls) h = (HasNoHeader-IsOneChange b l h.0, h.1)
