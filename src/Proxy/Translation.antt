-- ===== src/Proxy/Translation.antt =====
-- An OpenAI stream as an Anthropic one: `_translate_event_stream` of
-- src/compression_service/app/proxy.py, over the decoded reads, each with the time after it.
pub mod Whole
mod Tests
use soma_benchmark.Base.{
  ℕ, suc, ◌+◌, ◌-◌, ◌*◌, String, Bool, not, ◌||◌, Option, none, some, List, [], ◌∷◌, ◌++◌, ltb,
  if◌then◌else◌, ◌>>=◌,
}
use soma_benchmark.Base.Lists.{drop}
use soma_benchmark.Base.Text.{Text, codes, text_eq, starts_with, strip, is_empty}
use soma_benchmark.Base.Json.{ℤ, Value, Fields}
use soma_benchmark.Base.Values.{dict_at}
use soma_benchmark.Proxy.Usage.{cut}
use soma_benchmark.Proxy.Assembly.{assemble_openai_stream}
use soma_benchmark.Proxy.Reply.{openai_response_to_anthropic}
use soma_benchmark.Proxy.Emit.{Event, anthropic_sse_events}

abbrev pub translation_sse_ping_ms : ℕ
translation_sse_ping_ms = 20 * 1000

abbrev cons_value : Option Value → List Value → List Value
cons_value none vs = vs
cons_value (some v) vs = v ∷ vs

module _ (loads : Text → Option Value) where
  -- The JSON value of a line, where it has one.
  unfoldable pub value_of_line : Text → Option Value
  value_of_line line =
      let stripped = strip line in
      let rest = strip (drop 5 stripped) in
      if not (starts_with stripped (codes "data:"))
      then none
      else if is_empty rest || text_eq rest (codes "[DONE]")
      then none
      else loads rest

  unfoldable pub values_of_lines : List Text → List Value
  unfolding value_of_line
  values_of_lines [] = []
  values_of_lines (l ∷ ls) = cons_value (value_of_line l) (values_of_lines ls)

  -- The values of the stream; `pending` is what has no newline yet.
  unfoldable pub read_chunks : List (Text × ℕ) → Text → List Value
  unfolding values_of_lines cut
  read_chunks [] pending = []
  read_chunks ((text, _) ∷ reads) pending =
      let c = cut (pending ++ text) in values_of_lines c.lines ++ read_chunks reads c.remainder

-- The pings that go out while the stream is read.
unfoldable pub pings : List (Text × ℕ) → ℕ → ℕ
pings [] last_ping = 0
pings ((_, now) ∷ reads) last_ping =
    let later = suc (pings reads now) in
    let same = pings reads last_ping in
    if ltb (now - last_ping) translation_sse_ping_ms then same else later

-- What goes to the client, and the usage that is added to the totals.
pub record Translated : Type 0 where
  pub pings : ℕ
  pub events : List Event
  pub usage : Option Fields

module _ (loads : String → Option Value) (loads_text : Text → Option Value) (dumps : Value → String)
    (fresh : ℕ → String) (int_of : String → Option ℤ) (show : Value → String)
    (fresh_id : String) where
  -- The events of the values of a stream; `none` is an exception, after which the stream ends.
  unfoldable pub translate_values : Bool → List Value → ℕ → Option Translated
  unfolding assemble_openai_stream openai_response_to_anthropic anthropic_sse_events
  translate_values carry values n = assemble_openai_stream values >>= (λ assembled.
      openai_response_to_anthropic loads fresh int_of show fresh_id carry assembled >>= (λ r.
        anthropic_sse_events dumps r
        >>= (λ es. some (record { pings = n; events = es; usage = dict_at "usage" assembled }))))

  unfoldable pub translate_event_stream : Bool → List (Text × ℕ) → ℕ → Option Translated
  unfolding translate_values read_chunks pings
  translate_event_stream carry reads start =
      translate_values carry (read_chunks loads_text reads []) (pings reads start)
