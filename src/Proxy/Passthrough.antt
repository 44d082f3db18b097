-- ===== src/Proxy/Passthrough.antt =====
-- `proxy_passthrough` of src/compression_service/app/proxy.py: what goes upstream for a request of the agent,
-- and what the agent gets.
pub mod Guarded
pub mod Rewritten
mod Tests
use soma_benchmark.Base.{
  ℕ, String, Bool, true, false, not, ◌&&◌, Option, none, some, [], ◌∷◌, ltb, if◌then◌else◌,
}
use soma_benchmark.Base.Lists.{keep_if}
use soma_benchmark.Base.Text.{Text, codes, text_eq, lower, is_one_of, is_empty, contains}
use soma_benchmark.Base.Json.{ℤ, Value, null, int, str, arr, obj, of_list, Fields, end, field, get}
use soma_benchmark.Proxy.Prompts.{rewrite_body}
use soma_benchmark.Proxy.Dispatch.{is_anthropic_messages_request}
use soma_benchmark.Proxy.TaskContext.{context_of}
use soma_benchmark.Proxy.Body
use soma_benchmark.Proxy.Usage.{Counts}
use soma_benchmark.Proxy.Reply.{Reply, openai_response_to_anthropic}
use soma_benchmark.Proxy.Upstream.{
  Url, Headers, build_upstream_url, forwardable_headers, header, set_header, upstream_headers,
}

pub record Request : Type 0 where
  pub method : Text
  pub path : Text
  pub query : Text
  pub headers : Headers
  pub body : Text

pub record Settings : Type 0 where
  pub base_url : Text
  pub compression_enabled : Bool
  pub translation_enabled : Bool
  pub override_api_key : Text
  pub run_id : Text
  pub body : Body.Settings

-- What `json.loads` makes of a body: a value, a `JSONDecodeError`, or a `UnicodeDecodeError`.
pub data Loaded : Type 0 where
  loaded : Value → Loaded
  not_json : Loaded
  raised : Loaded

-- The body that goes upstream, its URL, and whether it was translated; or the end of the request.
pub data Forward : Type 0 where
  forward : Text → Text → Bool → Forward
  refused : Forward
  crashed : Forward

pub record Sent : Type 0 where
  pub url : Text
  pub method : Text
  pub headers : Headers
  pub body : Option Text

-- The `HTTPError` of `urlopen`, its `URLError`, or the response with its body.
pub data Upstream : Type 0 where
  http_error : ℕ → Headers → Text → Upstream
  url_error : Upstream
  response : ℕ → Headers → Text → Upstream

-- A stream is relayed, or translated, over the response that was opened.
pub data Answer : Type 0 where
  reply : ℕ → Headers → Text → Answer
  stream : Bool → ℕ → Headers → Answer
  http_exception : ℕ → Answer
  server_error : Answer

abbrev pub count_fields : Counts → Fields
count_fields c = field "input_tokens" (int c.input) (
    field "output_tokens" (int c.output) (
      field "cache_read_input_tokens" (int c.cache_read)
        (field "cache_creation_input_tokens" (int c.cache_creation) end)))

-- The dict of a translated response.
abbrev pub reply_fields : Reply → Fields
reply_fields r = field "id" r.id (
    field "type" (str "message") (
      field "role" (str "assistant") (
        field "model" r.model (
          field "content" (arr (of_list r.content)) (
            field "stop_reason" (str r.stop_reason)
              (field "stop_sequence" null (field "usage" (obj (count_fields r.usage)) end)))))))

abbrev describes_body : Text × Text → Bool
describes_body (k, _) = is_one_of (lower k) ("content-length" ∷ "content-encoding" ∷ [])

unfoldable pub reencoded : Headers → Headers
unfolding set_header
reencoded hs =
    set_header (codes "content-type") (codes "application/json")
      (keep_if (λ h. not (describes_body h)) hs)

abbrev dict_with_choices : Loaded → Option Fields
dict_with_choices (loaded (obj d)) = elim (get "choices" d) [ none ↦ none | some _ ↦ some d ]
dict_with_choices _ = none

abbrev pub has_body : Text → Bool
has_body method = is_one_of method ("POST" ∷ "PUT" ∷ "PATCH" ∷ "DELETE" ∷ [])

-- Whether the body is read as JSON.
unfoldable pub sends_json : Request → Bool
unfolding header
sends_json r =
    not (is_empty r.body)
    && contains (codes "application/json") (lower (header "content-type" r.headers))

-- The guard of a URL, with `urlsplit`.
abbrev pub is_upstream : (Text → Url) → Text → Text → Bool
is_upstream split base_url url = text_eq (split url).netloc (split base_url).netloc

-- `urlsplit`, `urlunsplit`, `json.loads` and `json.dumps`.
module _ (split : Text → Url) (unsplit : Url → Text) (loads : Text → Loaded) (dumps : Value → Text)
    (dumps_string : Value → String) where
  -- The compression service gets the stripped payload and what it may know of the prompts; `none` is
  -- an exception.
  module _ (s : Settings) (transform : Fields → Fields → Option Fields) where
    abbrev pub forward_body : Text → Bool → Option Fields → Forward
    forward_body url translated none = crashed
    forward_body url translated (some d) = forward (dumps (obj d)) url translated

    abbrev pub compress : Text → Bool → Fields → Forward
    unfolding rewrite_body context_of
    compress url translated payload =
        forward_body url translated (rewrite_body (transform (context_of payload)) payload)

    -- A translated request has another URL.
    unfoldable pub compress_translated : Option Fields → Forward
    unfolding build_upstream_url compress
    compress_translated none = crashed
    compress_translated (some payload) =
        let url = build_upstream_url split unsplit s.base_url (codes "v1/chat/completions") [] in
        if is_upstream split s.base_url url then compress url true payload else refused

    unfoldable pub forward_dict : Text → Text → Text → Fields → Forward
    unfolding compress_translated is_anthropic_messages_request Body.anthropic_request_to_openai
    forward_dict path url body payload =
        if not s.compression_enabled
        then forward body url false
        else if s.translation_enabled && is_anthropic_messages_request path (obj payload)
        then compress_translated (Body.anthropic_request_to_openai dumps_string s.body payload)
        else compress url false payload

    abbrev pub forward_loaded : Text → Text → Text → Loaded → Forward
    forward_loaded path url body (loaded (obj payload)) = forward_dict path url body payload
    forward_loaded path url body raised = crashed
    forward_loaded path url body _ = forward body url false

    -- What goes upstream for a request whose URL has passed the guard.
    unfoldable pub forward_of : Text → Request → Forward
    unfolding forward_dict sends_json
    forward_of url r =
        if sends_json r
        then forward_loaded r.path url r.body (loads r.body)
        else forward r.body url false

    -- The parameters of the translation of a response, and the decompression of a body.
    module _ (loads_string : String → Option Value) (fresh : ℕ → String)
        (int_of : String → Option ℤ) (show : Value → String) (fresh_id : String)
        (decompress : Text → Text → Text) where
      abbrev translated_reply : ℕ → Headers → Option Reply → Answer
      translated_reply status hs none = server_error
      translated_reply status hs (some r) =
          reply status (reencoded hs) (dumps (obj (reply_fields r)))

      abbrev reply_json : ℕ → Headers → Text → Option Fields → Answer
      unfolding openai_response_to_anthropic
      reply_json status hs body none = reply status hs body
      reply_json status hs body (some d) =
          translated_reply status hs
            (openai_response_to_anthropic loads_string fresh int_of show fresh_id s.body.carry d)

      unfoldable pub respond : Bool → Upstream → Answer
      unfolding reply_json forwardable_headers header reencoded
      respond translated (http_error status hs body) = reply status (forwardable_headers hs) body
      respond translated url_error = http_exception 502
      respond translated (response status hs body) =
          let content_type = header "content-type" hs in
          let is_json = contains (codes "application/json") content_type in
          let parsed = dict_with_choices (loads (decompress body (header "content-encoding" hs))) in
          if contains (codes "text/event-stream") (lower content_type)
          then stream translated status (forwardable_headers hs)
          else if is_json && (translated && ltb status 400)
          then reply_json status (forwardable_headers hs) body parsed
          else reply status (forwardable_headers hs) body

      unfoldable pub send : Request → (Sent → Upstream) → Forward → Option Sent × Answer
      unfolding upstream_headers respond
      send r urlopen refused = (none, http_exception 400)
      send r urlopen crashed = (none, server_error)
      send r urlopen (forward body url translated) =
          let sent : Sent = record {
            url = url;
            method = r.method;
            headers = upstream_headers r.headers s.override_api_key s.run_id;
            body = if has_body r.method then some body else none;
          } in
          (some sent, respond translated (urlopen sent))

      -- `proxy_passthrough`, the token totals apart: what is sent, if anything is, and the answer.
      unfoldable pub proxy_passthrough : Request → (Sent → Upstream) → Option Sent × Answer
      unfolding build_upstream_url forward_of send
      proxy_passthrough r urlopen =
          let url = build_upstream_url split unsplit s.base_url r.path r.query in
          if is_upstream split s.base_url url
          then send r urlopen (forward_of url r)
          else (none, http_exception 400)
