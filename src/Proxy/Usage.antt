-- ===== src/Proxy/Usage.antt =====
-- The token counts of a streamed response: `_sse_usage_fields`, `_merge_sse_usage`,
-- `_scan_sse_chunk_for_usage` and the loop of `_relay_event_stream` of
-- src/compression_service/app/proxy.py.
pub mod Chunks
pub mod Lines
use soma_benchmark.Base.{
  ℕ, zero, suc, ◌+◌, String, Bool, true, false, not, ◌||◌, Option, none, some, List, [], ◌∷◌, ◌++◌,
  ltb, ◌==◌, if◌then◌else◌,
}
use soma_benchmark.Base.Lists.{drop}
use soma_benchmark.Base.Text.{Text, codes, text_eq, starts_with, strip, is_empty}
use soma_benchmark.Base.Integers.{◌-ℤ◌, at_least_zero}
use soma_benchmark.Base.Json.{ℤ, pos, negsuc, Value, int, str, Fields, end, field, get}
use soma_benchmark.Base.Values.{as_dict, non_falsy, or_value, dict_at, or_end, int_or_zero}

pub record Counts : Type 0 where
  pub input : ℤ
  pub output : ℤ
  pub cache_read : ℤ
  pub cache_creation : ℤ

abbrev pub has : String → Fields → Bool
has k d = elim (get k d) [ some _ ↦ true | none ↦ false ]

abbrev pub counts : Option ℤ → Option ℤ → Option ℤ → Option ℤ → Option Counts
counts (some i) (some o) (some r) (some c) =
    some (record { input = i; output = o; cache_read = r; cache_creation = c })
counts _ _ _ _ = none

abbrev pub uncached : Option ℤ → Option ℤ → Option ℤ → Option ℤ
uncached (some p) (some r) (some c) = some (at_least_zero (p -ℤ r -ℤ c))
uncached _ _ _ = none

-- `int` of a string is a parameter: only counts that are numbers matter.
module _ (int_of : String → Option ℤ) where
  abbrev pub usage_counts : Fields → Option Counts
  unfolding int_or_zero
  usage_counts usage =
      let details = or_end (dict_at "prompt_tokens_details" usage) in
      let read =
        int_or_zero int_of
          (or_value (non_falsy (get "cached_tokens" details)) (get "cached_tokens" usage)) in
      let write = int_or_zero int_of (get "cache_write_tokens" details) in
      if has "input_tokens" usage || has "output_tokens" usage
      then counts (int_or_zero int_of (get "input_tokens" usage))
          (int_or_zero int_of (get "output_tokens" usage))
          (int_or_zero int_of (get "cache_read_input_tokens" usage))
          (int_or_zero int_of (get "cache_creation_input_tokens" usage))
      else counts (uncached (int_or_zero int_of (get "prompt_tokens" usage)) read write)
          (int_or_zero int_of (get "completion_tokens" usage)) read write

  abbrev usage_in : Option Fields → Option Fields
  usage_in none = none
  usage_in (some message) = dict_at "usage" message

  abbrev pub some_counts : Option Fields → Option (Option Counts)
  unfolding usage_counts
  some_counts none = some none
  some_counts (some usage) = elim (usage_counts usage) [ none ↦ none | some c ↦ some (some c) ]

  -- `_sse_usage_fields`; the outer `none` is an exception of `int`.
  unfoldable pub sse_usage_fields : Fields → Option (Option Counts)
  unfolding some_counts
  sse_usage_fields payload =
      some_counts (or_value (dict_at "usage" payload) (usage_in (dict_at "message" payload)))

-- The dict `totals`: a key is there once a positive count was seen, so that 0 stands for no key.
pub record Totals : Type 0 where
  pub input : ℕ
  pub output : ℕ
  pub cache_read : ℕ
  pub cache_creation : ℕ

abbrev pub no_totals : Totals
no_totals = record { input = 0; output = 0; cache_read = 0; cache_creation = 0 }

unfoldable pub merge_count : ℕ → ℤ → ℕ
merge_count n (pos v) = if ltb n v then v else n
merge_count n (negsuc _) = n

-- `_merge_sse_usage`
unfoldable pub merge_sse_usage : Totals → Counts → Totals
unfolding merge_count
merge_sse_usage t c = record {
  input = merge_count t.input c.input;
  output = merge_count t.output c.output;
  cache_read = merge_count t.cache_read c.cache_read;
  cache_creation = merge_count t.cache_creation c.cache_creation;
}

-- What `buffer.find("\n")` cuts off, line by line, and the remainder.
pub record Cut : Type 0 where
  pub lines : List Text
  pub remainder : Text

abbrev pub prepend : ℕ → List Text → Text → Cut
prepend c [] remainder = record { lines = []; remainder = c ∷ remainder }
prepend c (l ∷ ls) remainder = record { lines = (c ∷ l) ∷ ls; remainder = remainder }

abbrev pub push : ℕ → Cut → Cut
push c r =
    if c == 10
    then record { lines = [] ∷ r.lines; remainder = r.remainder }
    else prepend c r.lines r.remainder

unfoldable pub cut : Text → Cut
cut [] = record { lines = []; remainder = [] }
cut (c ∷ s) = push c (cut s)

abbrev dict_in : Option Value → Option Fields
dict_in none = none
dict_in (some v) = as_dict v

abbrev merged : Totals → Option (Option Counts) → Option Totals
unfolding merge_sse_usage
merged t none = none
merged t (some none) = some t
merged t (some (some c)) = some (merge_sse_usage t c)

module _ (int_of : String → Option ℤ) (loads : Text → Option Value) where
  -- The event of a line, where it has one; `none` of `loads` is a `ValueError`.
  unfoldable pub event_of : Text → Option Fields
  event_of line =
      let stripped = strip line in
      let payload = strip (drop 5 stripped) in
      if not (starts_with stripped (codes "data:"))
      then none
      else if is_empty payload || text_eq payload (codes "[DONE]")
      then none
      else dict_in (loads payload)

  abbrev pub merge_event : Totals → Option Fields → Option Totals
  unfolding merged sse_usage_fields
  merge_event t none = some t
  merge_event t (some event) = merged t (sse_usage_fields int_of event)

  unfoldable pub scan_lines : List Text → Totals → Option Totals
  unfolding merge_event event_of
  scan_lines [] t = some t
  scan_lines (l ∷ ls) t = elim (merge_event t (event_of l)) [
    | none ↦ none
    | some t' ↦ scan_lines ls t'
  ]

  abbrev pub with_remainder : Text → Option Totals → Option (Text × Totals)
  with_remainder rest none = none
  with_remainder rest (some t) = some (rest, t)

  -- `_scan_sse_chunk_for_usage`: the remainder and the totals; `none` is an exception.
  unfoldable pub scan_sse_chunk_for_usage : Text → Totals → Option (Text × Totals)
  unfolding cut scan_lines
  scan_sse_chunk_for_usage buffer t =
      let c = cut buffer in with_remainder c.remainder (scan_lines c.lines t)

  -- The loop of `_relay_event_stream` over the decoded chunks, with `pending` and `totals`.
  unfoldable pub relay : List Text → Text → Totals → Option (Text × Totals)
  unfolding scan_sse_chunk_for_usage
  relay [] pending t = some (pending, t)
  relay (chunk ∷ chunks) pending t = elim (scan_sse_chunk_for_usage (pending ++ chunk) t) [
    | none ↦ none
    | some (pending', t') ↦ relay chunks pending' t'
  ]
