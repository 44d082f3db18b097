-- ===== src/Proxy/Usage/Chunks.antt =====
-- The totals of a stream and the chunks it comes in.
use soma_benchmark.Base.{
  String, ◌≡◌, refl, sym, ap, ◌∙◌, inl, inr, Option, none, some, List, [], ◌∷◌, ◌++◌, Option-cases,
}
use mathlib.Core.List.{append_assoc, append-nil}
use soma_benchmark.Base.Lists.{concat}
use soma_benchmark.Base.Text.{Text}
use soma_benchmark.Base.Json.{ℤ, Value}
use soma_benchmark.Proxy.Usage.Lines.{IsPartial, cut-append, cut-IsPartial}
use soma_benchmark.Proxy.Usage.{
  Totals, cut, scan_lines, merge_event, event_of, with_remainder, scan_sse_chunk_for_usage, relay,
}

module _ (int_of : String → Option ℤ) (loads : Text → Option Value) where
  abbrev then_lines : Option Totals → List Text → Option Totals
  then_lines none ls = none
  then_lines (some t) ls = scan_lines int_of loads ls t

  scan_lines-append :
      (ls ms : List Text) (t : Totals)
      → scan_lines int_of loads (ls ++ ms) t ≡ then_lines (scan_lines int_of loads ls t) ms
  unfolding scan_lines
  scan_lines-append [] ms t = refl
  scan_lines-append (l ∷ ls) ms t =
      elim (Option-cases (merge_event int_of loads t (event_of int_of loads l))) [
        | inl e ↦ rw (e, scan_lines) refl
        | inr (t', e) ↦ rw (e, scan_lines) (scan_lines-append ls ms t')
      ]

  abbrev then_text : Option (Text × Totals) → Text → Option (Text × Totals)
  then_text none s = none
  then_text (some (pending, t)) s = scan_sse_chunk_for_usage int_of loads (pending ++ s) t

  with_remainder-then_text :
      (o : Option Totals) (rest u : Text)
      → with_remainder int_of loads
          (cut (rest ++ u)).remainder
          (then_lines o (cut (rest ++ u)).lines)
        ≡ then_text (with_remainder int_of loads rest o) u
  unfolding scan_sse_chunk_for_usage
  with_remainder-then_text none rest u = refl
  with_remainder-then_text (some t) rest u = refl

  scan_sse_chunk_for_usage-append :
      (s u : Text) (t : Totals)
      → scan_sse_chunk_for_usage int_of loads (s ++ u) t
        ≡ then_text (scan_sse_chunk_for_usage int_of loads s t) u
  unfolding scan_sse_chunk_for_usage
  scan_sse_chunk_for_usage-append s u t = rw (cut-append s u) (
      rw (scan_lines-append (cut s).lines (cut ((cut s).remainder ++ u)).lines t)
        (with_remainder-then_text (scan_lines int_of loads (cut s).lines t) (cut s).remainder u))

  relay-IsPartial :
      (chunks : List Text) (pending : Text) (t : Totals)
      → IsPartial pending
      → relay int_of loads chunks pending t
        ≡ scan_sse_chunk_for_usage int_of loads (pending ++ concat chunks) t
  unfolding relay scan_sse_chunk_for_usage
  relay-IsPartial [] pending t p = rw (append-nil pending, p) refl
  relay-IsPartial (c ∷ chunks) pending t p =
      let s = pending ++ c in
      let whole =
        ap (λ x. scan_sse_chunk_for_usage int_of loads x t)
          (sym (append_assoc pending c (concat chunks)))
        ∙ scan_sse_chunk_for_usage-append s (concat chunks) t in
      let step : relay int_of loads (c ∷ chunks) pending t
          ≡ then_text (scan_sse_chunk_for_usage int_of loads s t) (concat chunks) =
        elim (Option-cases (scan_lines int_of loads (cut s).lines t)) [
          | inl e ↦ rw (e, relay) refl
          | inr (t', e) ↦
              rw (e, relay) (relay-IsPartial chunks (cut s).remainder t' (cut-IsPartial s))
        ] in
      step ∙ sym whole

  -- The totals and the remainder of a relayed stream are those of its whole text at once, and it fails
  -- where that fails, however its text is cut into chunks.
  pub relay-scan_sse_chunk_for_usage :
      (chunks : List Text) (t : Totals)
      → relay int_of loads chunks [] t ≡ scan_sse_chunk_for_usage int_of loads (concat chunks) t
  relay-scan_sse_chunk_for_usage chunks t = relay-IsPartial chunks [] t (unfold cut in refl)
