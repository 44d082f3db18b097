-- ===== src/Proxy/Translation/Whole.antt =====
-- A translated stream from end to end.
use soma_benchmark.Base.{
  ℕ, String, Bool, ◌≡◌, refl, sym, ap, ◌∙◌, Option, none, some, List, [], ◌∷◌, ◌++◌,
}
use mathlib.Core.List.{append_assoc, append-nil}
use soma_benchmark.Base.Text.{Text}
use soma_benchmark.Base.Json.{ℤ, Value, Fields}
use soma_benchmark.Base.Values.{dict_at}
use soma_benchmark.Proxy.Usage.{Cut, cut}
use soma_benchmark.Proxy.Usage.Lines.{IsPartial, cut-append, cut-IsPartial}
use soma_benchmark.Proxy.Assembly.{assemble_openai_stream}
use soma_benchmark.Proxy.Reply.{Reply, openai_response_to_anthropic}
use soma_benchmark.Proxy.Emit.Client.{read_events}
use soma_benchmark.Proxy.Emit.Translated.{Rereads, read_events-openai_response_to_anthropic}
use soma_benchmark.Proxy.Translation.{
  Translated, value_of_line, values_of_lines, read_chunks, pings, translate_values,
  translate_event_stream, cons_value,
}

abbrev pub text_of : List (Text × ℕ) → Text
text_of [] = []
text_of ((text, _) ∷ reads) = text ++ text_of reads

module _ (loads_text : Text → Option Value) where
  cons_value-append :
      (o : Option Value) (vs ws : List Value) → cons_value o (vs ++ ws) ≡ cons_value o vs ++ ws
  cons_value-append none vs ws = refl
  cons_value-append (some v) vs ws = refl

  values_of_lines-append :
      (ls ms : List Text)
      → values_of_lines loads_text (ls ++ ms)
        ≡ values_of_lines loads_text ls ++ values_of_lines loads_text ms
  unfolding values_of_lines
  values_of_lines-append [] ms = refl
  values_of_lines-append (l ∷ ls) ms =
      ap (cons_value (value_of_line loads_text l)) (values_of_lines-append ls ms)
      ∙ cons_value-append (value_of_line loads_text l) (values_of_lines loads_text ls)
          (values_of_lines loads_text ms)

  read_chunks-IsPartial :
      (reads : List (Text × ℕ)) (pending : Text)
      → IsPartial pending
      → read_chunks loads_text reads pending
        ≡ values_of_lines loads_text (cut (pending ++ text_of reads)).lines
  unfolding read_chunks values_of_lines
  read_chunks-IsPartial [] pending p = rw (append-nil pending, p) refl
  read_chunks-IsPartial ((text, now) ∷ reads) pending p =
      let s = pending ++ text in
      let c = cut s in
      let d = cut (c.remainder ++ text_of reads) in
      ap (λ x. values_of_lines loads_text c.lines ++ x)
        (read_chunks-IsPartial reads c.remainder (cut-IsPartial s))
      ∙ sym (values_of_lines-append c.lines d.lines)
      ∙ ap (λ (x : Cut). values_of_lines loads_text x.lines) (sym (cut-append s (text_of reads)))
      ∙ ap (λ x. values_of_lines loads_text (cut x).lines)
          (append_assoc pending text (text_of reads))

  -- The values that are read are those of the lines of the whole text.
  pub read_chunks-text_of :
      (reads : List (Text × ℕ))
      → read_chunks loads_text reads [] ≡ values_of_lines loads_text (cut (text_of reads)).lines
  read_chunks-text_of reads = read_chunks-IsPartial reads [] (unfold cut in refl)

module _ (loads : String → Option Value) (loads_text : Text → Option Value) (dumps : Value → String)
    (fresh : ℕ → String) (int_of : String → Option ℤ) (show : Value → String)
    (fresh_id : String) where
  -- The stream goes to its end, and its client reads `r`.
  abbrev pub Delivers : Fields → Reply → ℕ → Option Translated → Type 0
  Delivers assembled r n o =
      (out : Translated) × (o ≡ some out)
      × (read_events loads out.events ≡ some r)
      × (out.usage ≡ dict_at "usage" assembled)
      × (out.pings ≡ n)

  translate_values-Delivers :
      (carry : Bool) (values : List Value) (n : ℕ) (assembled : Fields) (r : Reply)
      → Rereads loads dumps
      → assemble_openai_stream values ≡ some assembled
      → openai_response_to_anthropic loads fresh int_of show fresh_id carry assembled ≡ some r
      → Delivers assembled r n
          (translate_values loads loads_text dumps fresh int_of show fresh_id carry values n)
  unfolding translate_values
  translate_values-Delivers carry values n assembled r j a b =
      let (es, d, e) =
        read_events-openai_response_to_anthropic loads dumps j fresh int_of show fresh_id carry
          assembled r b in
      (
        record { pings = n; events = es; usage = dict_at "usage" assembled },
        rw (a, b, d) refl,
        e,
        refl,
        refl,
      )

  -- A translated stream reaches its client as the response that its whole text says, however the
  -- text is cut into reads: where the values of its lines can be assembled and translated, the stream
  -- goes to its end and a client that follows the protocol reads exactly that response, blocks, tool
  -- inputs, stop reason and counts included. The totals get the usage of the assembled response. JSON
  -- texts of dicts are to be read as these dicts.
  pub translate_event_stream-Delivers :
      (carry : Bool) (reads : List (Text × ℕ)) (start : ℕ) (assembled : Fields) (r : Reply)
      → Rereads loads dumps
      → assemble_openai_stream (values_of_lines loads_text (cut (text_of reads)).lines)
        ≡ some assembled
      → openai_response_to_anthropic loads fresh int_of show fresh_id carry assembled ≡ some r
      → Delivers assembled r (pings reads start) (
          translate_event_stream loads loads_text dumps fresh int_of show fresh_id carry reads
            start)
  unfolding translate_event_stream
  translate_event_stream-Delivers carry reads start assembled r j a b =
      translate_values-Delivers carry (read_chunks loads_text reads []) (pings reads start)
        assembled r j (rw (read_chunks-text_of loads_text reads) a) b
