-- ===== src/Proxy/Upstream.antt =====
-- What the proxy sends upstream besides the body, and its call of Jev: `_build_upstream_url`, the filters of
-- headers, `_service_auth_headers` and `_execute_jev_call` of src/compression_service/app/proxy.py.
use soma_benchmark.Base.{
  suc, String, Bool, true, false, ◌&&◌, Option, none, some, List, [], ◌∷◌, ◌++◌, ◌==◌,
  if◌then◌else◌,
}
use soma_benchmark.Base.Text.{Text, codes, text_eq, lower, is_one_of, is_empty}
use soma_benchmark.Base.Json.{pos, Value, int, obj, Fields, end, field, get}
use soma_benchmark.Base.Values.{dict_at}

-- The parts of `urlsplit`; the fragment is never set.
pub record Url : Type 0 where
  pub scheme : Text
  pub netloc : Text
  pub path : Text
  pub query : Text

abbrev pub ends_with_slash : Text → Bool
ends_with_slash [] = false
ends_with_slash (c ∷ []) = c == 47
ends_with_slash (c ∷ d ∷ s) = ends_with_slash (d ∷ s)

-- `base.path if base.path else "/"`, with a slash at its end.
abbrev pub as_directory : Text → Text
as_directory path = if ends_with_slash path then path else path ++ 47 ∷ []

abbrev without_slashes : Text → Text
without_slashes [] = []
without_slashes (c ∷ s) = let rest = without_slashes s in if c == 47 then rest else c ∷ s

-- `urlsplit` and `urlunsplit` are parameters.
module _ (split : Text → Url) (unsplit : Url → Text) where
  -- `_build_upstream_url`
  unfoldable pub build_upstream_url : Text → Text → Text → Text
  build_upstream_url base_url path query =
      let base = split base_url in
      unsplit (record {
        scheme = base.scheme;
        netloc = base.netloc;
        path = as_directory base.path ++ without_slashes path;
        query = query;
      })

abbrev pub Headers : Type 0
Headers = List (Text × Text)

abbrev pub hop_by_hop_headers : List String
hop_by_hop_headers =
    "connection" ∷ "keep-alive" ∷ "proxy-authenticate" ∷ "proxy-authorization" ∷ "te" ∷ "trailer"
    ∷ "transfer-encoding" ∷ "upgrade" ∷ "host" ∷ "content-length" ∷ []

unfoldable pub is_hop_by_hop : Text → Bool
is_hop_by_hop k = is_one_of (lower k) hop_by_hop_headers

-- `headers[k] = v`
unfoldable pub set_header : Text → Text → Headers → Headers
set_header k v [] = (k, v) ∷ []
set_header k v ((j, w) ∷ hs) =
    let rest = set_header k v hs in if text_eq j k then (k, v) ∷ hs else (j, w) ∷ rest

unfoldable pub copy_headers : Headers → Headers → Headers
unfolding is_hop_by_hop set_header
copy_headers [] out = out
copy_headers ((k, v) ∷ hs) out =
    copy_headers hs (if is_hop_by_hop k then out else set_header k v out)

-- `_forwardable_headers` and `_response_headers_from_upstream`
unfoldable pub forwardable_headers : Headers → Headers
unfolding copy_headers
forwardable_headers hs = copy_headers hs []

-- `headers.get(name, "")`, whose names have no case; `name` is in lower case.
unfoldable pub header : String → Headers → Text
header name [] = []
header name ((k, v) ∷ hs) =
    let rest = header name hs in if text_eq (lower k) (codes name) then v else rest

abbrev pub set_unless_empty : String → Text → Headers → Headers
set_unless_empty k [] hs = hs
set_unless_empty k (c ∷ v) hs = set_header (codes k) (c ∷ v) hs

abbrev pub bearer : Text → Text
bearer key = codes "Bearer " ++ key

-- `_service_auth_headers`, for the key that overrides the request's and the value of X-Run-Id.
unfoldable pub service_auth_headers : Headers → Text → Text → Headers
unfolding set_header header
service_auth_headers request override_api_key run_id =
    let auth =
      if is_empty override_api_key
      then header "authorization" request
      else bearer override_api_key in
    set_unless_empty "X-Run-Id" run_id (set_unless_empty "Authorization" auth [])

-- The headers of the request that goes upstream.
unfoldable pub upstream_headers : Headers → Text → Text → Headers
unfolding forwardable_headers set_header
upstream_headers request override_api_key run_id =
    let hs = set_unless_empty "X-Run-Id" run_id (forwardable_headers request) in
    if is_empty override_api_key
    then hs
    else set_header (codes "Authorization") (bearer override_api_key) hs

-- What `urlopen` and the reading of its answer give.
pub data Called : Type 0 where
  http_error : Called
  failed : Bool → Called
  invalid_json : Called
  answered : Value → Called

-- The result of a call: its response, or the code of its error.
pub data Executed : Type 0 where
  response : Fields → Executed
  error : String → Executed

abbrev copy_key : String → Fields → Fields → Fields
copy_key k d rest = elim (get k d) [ none ↦ rest | some v ↦ field k v rest ]

unfoldable pub kept_fields : Fields → Fields
kept_fields d = copy_key "model" d (copy_key "answers" d (copy_key "usage" d end))

-- `isinstance(n, int) and not isinstance(n, bool) and n > 0`
abbrev pub is_positive : Option Value → Bool
is_positive (some (int (pos (suc n)))) = true
is_positive _ = false

abbrev pub has_usage : Option Fields → Bool
has_usage none = false
has_usage (some usage) = is_positive (get "input_tokens" usage)

abbrev is_some {ℓ} : {A : Type ℓ} → Option A → Bool
is_some none = false
is_some (some _) = true

abbrev answer_of : Value → Executed
answer_of (obj d) =
    if is_some (dict_at "answers" d) && has_usage (dict_at "usage" d)
    then response (kept_fields d)
    else error "upstream_error"
answer_of _ = error "upstream_error"

abbrev executed : Called → Executed
executed http_error = error "upstream_error"
executed (failed timed_out) = error (if timed_out then "timeout" else "upstream_error")
executed invalid_json = error "upstream_error"
executed (answered v) = answer_of v

module _ (split : Text → Url) (unsplit : Url → Text) where
  -- `_execute_jev_call`: the URL that is opened, if one is, and the result.
  unfoldable pub execute_jev_call : Text → (Text → Called) → Option Text × Executed
  unfolding build_upstream_url kept_fields
  execute_jev_call base_url urlopen =
      let url = build_upstream_url split unsplit base_url (codes "systemone") [] in
      if text_eq (split url).netloc (split base_url).netloc
      then (some url, executed (urlopen url))
      else (none, error "invalid_request")
