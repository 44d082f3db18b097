-- ===== src/Proxy/Usage/Lines.antt =====
-- A text cut into lines: what comes later and what is left over.
use soma_benchmark.Base.{
  ℕ, ◌≡◌, refl, ap, ◌∙◌, inl, inr, false, List, [], ◌∷◌, ◌++◌, ◌==◌, Bool-cases,
}
use soma_benchmark.Base.Text.{Text}
use soma_benchmark.Proxy.Usage.{Cut, prepend, cut}

abbrev pub behind : List Text → Cut → Cut
behind ls c = record { lines = ls ++ c.lines; remainder = c.remainder }

prepend-behind :
    (c : ℕ) (ls : List Text) (rest t : Text)
    → (c == 10) ≡ false
    → prepend c (behind ls (cut (rest ++ t))).lines (behind ls (cut (rest ++ t))).remainder
      ≡ behind (prepend c ls rest).lines (cut ((prepend c ls rest).remainder ++ t))
unfolding cut
prepend-behind c [] rest t e = rw e refl
prepend-behind c (l ∷ ls) rest t e = refl

-- Cutting a longer text goes on in the remainder of the shorter one.
pub cut-append : (s t : Text) → cut (s ++ t) ≡ behind (cut s).lines (cut ((cut s).remainder ++ t))
unfolding cut
cut-append [] t = refl
cut-append (c ∷ s) t = elim (Bool-cases (c == 10)) [
  | inl e ↦
      rw e (
        ap (λ (x : Cut). record { lines = [] ∷ x.lines; remainder = x.remainder }) (cut-append s t))
  | inr e ↦ rw e (
      ap (λ (x : Cut). prepend c x.lines x.remainder) (cut-append s t)
      ∙ prepend-behind c (cut s).lines (cut s).remainder t e)
]

abbrev pub IsPartial : Text → Type 0
IsPartial s = cut s ≡ record { lines = []; remainder = s }

prepend-IsPartial :
    (c : ℕ) (ls : List Text) (rest : Text)
    → (c == 10) ≡ false
    → IsPartial rest
    → IsPartial (prepend c ls rest).remainder
unfolding cut
prepend-IsPartial c [] rest e p = rw (e, p) refl
prepend-IsPartial c (l ∷ ls) rest e p = p

-- The remainder has no newline.
pub cut-IsPartial : (s : Text) → IsPartial (cut s).remainder
unfolding cut
cut-IsPartial [] = refl
cut-IsPartial (c ∷ s) = elim (Bool-cases (c == 10)) [
  | inl e ↦ rw e (cut-IsPartial s)
  | inr e ↦ rw e (prepend-IsPartial c (cut s).lines (cut s).remainder e (cut-IsPartial s))
]
