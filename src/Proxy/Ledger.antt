-- ===== src/Proxy/Ledger.antt =====
-- The token totals of the proxy, and the usage of a whole response: `_accumulate_token_usage`, which runs
-- under a lock and so is one step, `_decompress_for_parsing` and `_extract_usage_from_response` of
-- src/compression_service/app/proxy.py.
pub mod Relayed
use soma_benchmark.Base.{true, false, Option, none, some, [], ◌∷◌, if◌then◌else◌}
use soma_benchmark.Base.Integers.{◌+ℤ◌, ◌-ℤ◌, at_least_zero}
use soma_benchmark.Base.Json.{ℤ, pos, Value, bool, int, obj, Fields, get}
use soma_benchmark.Base.Text.{Text, strip, lower, is_one_of}
use soma_benchmark.Base.Values.{truthy, non_falsy, or_value, dict_at, or_end}
use soma_benchmark.Proxy.Usage.{has}

-- `_token_totals`
pub record Ledger : Type 0 where
  pub input : ℤ
  pub output : ℤ
  pub cache_read : ℤ
  pub cache_creation : ℤ

abbrev whole : Value → Option ℤ
whole (int n) = some n
whole (bool true) = some (pos 1)
whole (bool false) = some (pos 0)
whole _ = none

-- `v or 0` for a count that is added; `none` is a count that is no integer.
unfoldable pub count : Option Value → Option ℤ
count none = some (pos 0)
count (some v) = if truthy v then whole v else some (pos 0)

abbrev pub entry : Option ℤ → Option ℤ → Option ℤ → Option ℤ → Ledger → Option Ledger
entry (some i) (some o) (some r) (some c) g = some (record {
  input = g.input +ℤ at_least_zero i;
  output = g.output +ℤ o;
  cache_read = g.cache_read +ℤ r;
  cache_creation = g.cache_creation +ℤ c;
})
entry _ _ _ _ g = none

abbrev minus : Option ℤ → Option ℤ → Option ℤ → Option ℤ
minus (some p) (some r) (some c) = some (p -ℤ r -ℤ c)
minus _ _ _ = none

-- `_accumulate_token_usage`; `none` is a usage with a count that is no integer.
unfoldable pub accumulate_token_usage : Fields → Ledger → Option Ledger
unfolding count
accumulate_token_usage usage g =
    let details = or_end (dict_at "prompt_tokens_details" usage) in
    let output =
      count (or_value (non_falsy (get "output_tokens" usage)) (get "completion_tokens" usage)) in
    let read = count (get "cached_tokens" details) in
    let write = count (get "cache_write_tokens" details) in
    if has "input_tokens" usage
    then entry (count (get "input_tokens" usage)) output
        (count (get "cache_read_input_tokens" usage))
        (count (get "cache_creation_input_tokens" usage)) g
    else entry (minus (count (get "prompt_tokens" usage)) read write) output read write g

-- `gzip.decompress`, and `zlib.decompress` with and without the header of zlib, which raise `none`.
module _ (gunzip : Text → Option Text) (inflate : Text → Option Text)
    (inflate_raw : Text → Option Text) where
  abbrev or_body : Text → Option Text → Text
  or_body body none = body
  or_body body (some decoded) = decoded

  -- `_decompress_for_parsing`
  unfoldable pub decompress_for_parsing : Text → Text → Text
  decompress_for_parsing body content_encoding =
      let encoding = lower (strip content_encoding) in
      if is_one_of encoding ("gzip" ∷ "x-gzip" ∷ [])
      then or_body body (gunzip body)
      else if is_one_of encoding ("deflate" ∷ [])
      then or_body (or_body body (inflate_raw body)) (inflate body)
      else body

  -- `_extract_usage_from_response`; `none` of `json.loads` is a `ValueError`.
  unfoldable pub extract_usage_from_response : (Text → Option Value) → Text → Text → Option Fields
  unfolding decompress_for_parsing
  extract_usage_from_response loads response_body content_encoding =
      elim (loads (decompress_for_parsing response_body content_encoding)) [
        | some (obj parsed) ↦ dict_at "usage" parsed
        | _ ↦ none
      ]
