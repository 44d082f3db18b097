-- ===== src/Proxy/Routing.antt =====
-- The settings of the proxy and the compression service that a run is routed to: `_coerce_bool`,
-- `_normalize_base_url` and the `_resolve_...` functions of src/compression_service/app/proxy.py.
pub mod Normalized
mod Tests
use soma_benchmark.Base.{
  ℕ, zero, suc, ◌-◌, String, Bool, true, false, not, ◌&&◌, ◌||◌, Option, none, some, List, [], ◌∷◌,
  ◌++◌, ◌>>=◌, ◌==◌, if◌then◌else◌,
}
use soma_benchmark.Base.Lists.{length, drop}
use soma_benchmark.Base.Text.{Text, codes, text_eq, starts_with, strip, lower, is_one_of, is_empty}
use soma_benchmark.Base.Json.{Value, bool, str, obj, Fields, end, field}
use soma_benchmark.Proxy.Upstream.{Url, Headers, as_directory, header, set_header}

-- `os.environ`
abbrev pub Environment : Type 0
Environment = String → Option String

abbrev pub getenv : Environment → String → Text → Text
getenv env name default = elim (env name) [ none ↦ default | some s ↦ codes s ]

-- `os.getenv(name, "").strip()`
unfoldable pub setting : Environment → String → Text
setting env name = strip (getenv env name [])

-- `a or b`
abbrev pub or_text : Text → Text → Text
or_text [] t = t
or_text (c ∷ s) t = c ∷ s

-- `_coerce_bool`
unfoldable pub coerce_bool : Option Value → Bool → Bool
coerce_bool (some (bool b)) default = b
coerce_bool (some (str s)) default =
    let value = lower (strip (codes s)) in
    if is_one_of value ("1" ∷ "true" ∷ "yes" ∷ "on" ∷ [])
    then true
    else if is_one_of value ("0" ∷ "false" ∷ "no" ∷ "off" ∷ [])
    then false
    else default
coerce_bool _ default = default

abbrev or_true : Option String → Option Value
or_true none = some (str "true")
or_true (some s) = some (str s)

unfoldable pub resolve_compression_enabled : Environment → Bool
unfolding coerce_bool
resolve_compression_enabled env = coerce_bool (or_true (env "PROXY_COMPRESSION_ENABLED")) true

unfoldable pub resolve_provider_api_key_override : Environment → Text
unfolding setting
resolve_provider_api_key_override env = setting env "PROXY_PROVIDER_API_KEY"

unfoldable pub resolve_run_id_header_value : Environment → Text
unfolding setting
resolve_run_id_header_value env = setting env "PROXY_RUN_ID_HEADER_VALUE"

-- `float` and `value > 0`.
module _ {F : Type 0} (float_of : Text → Option F) (is_positive : F → Bool) where
  abbrev positive_or : F → Option F → F
  positive_or default none = default
  positive_or default (some v) = if is_positive v then v else default

  -- `_resolve_timeout_seconds`
  unfoldable pub resolve_timeout_seconds : Environment → String → F → F
  unfolding setting
  resolve_timeout_seconds env name default =
      let raw = setting env name in
      if is_empty raw then default else positive_or default (float_of raw)

abbrev bearer_token : Text → Text
bearer_token t = if starts_with (lower t) (codes "bearer ") then strip (drop 7 t) else t

-- `_extract_run_id_from_bearer_token`
unfoldable pub extract_run_id_from_bearer_token : Text → Text
extract_run_id_from_bearer_token token = bearer_token (strip token)

-- `_resolve_run_id_for_routing`
unfoldable pub resolve_run_id_for_routing : Headers → Text → Text
unfolding header extract_run_id_from_bearer_token
resolve_run_id_for_routing headers override_api_key =
    let raw_auth = header "authorization" headers in
    if not (is_empty (strip raw_auth))
    then extract_run_id_from_bearer_token raw_auth
    else if not (is_empty override_api_key)
    then extract_run_id_from_bearer_token override_api_key
    else []

-- The pieces of `raw.split(",")`, stripped.
abbrev push_piece : ℕ → List Text → List Text
push_piece c [] = (c ∷ []) ∷ []
push_piece c (w ∷ ws) = (c ∷ w) ∷ ws

unfoldable pub split_commas : Text → List Text
split_commas [] = [] ∷ []
split_commas (c ∷ s) = let rest = split_commas s in if c == 44 then [] ∷ rest else push_piece c rest

abbrev names_service : String → List Text → Bool
names_service service [] = false
names_service service (w ∷ ws) =
    text_eq (lower (strip w)) (codes service) || names_service service ws

-- `_resolve_compressor_services_offer`, for the dict `JEV_OFFER`.
unfoldable pub resolve_compressor_services_offer : Fields → Environment → Option Fields
unfolding split_commas
resolve_compressor_services_offer jev_offer env =
    if names_service "jev" (split_commas (getenv env "PROXY_COMPRESSOR_SERVICES" (codes "jev")))
    then some (
        field "protocol" (str "soma-compressor-services/1")
          (field "offer" (obj (field "jev" (obj jev_offer) end)) end))
    else none

-- `s.replace(needle, by)`, for a needle that is not empty; `skip` characters of a match are left.
abbrev replace_from : Text → Text → ℕ → Text → Text
replace_from needle by skip [] = []
replace_from needle by (suc skip) (c ∷ s) = replace_from needle by skip s
replace_from needle by zero (c ∷ s) =
    let kept = replace_from needle by 0 s in
    let replaced = replace_from needle by (length needle - 1) s in
    if starts_with (c ∷ s) needle then by ++ replaced else c ∷ kept

unfoldable pub replace : Text → Text → Text → Text
replace needle by s = replace_from needle by 0 s

-- `route_map.get(run_id)`
unfoldable pub route_of : Text → List (Text × Text) → Option Text
route_of run_id [] = none
route_of run_id ((k, url) ∷ routes) =
    let rest = route_of run_id routes in if text_eq k run_id then some url else rest

abbrev pub default_compression_base_url : Text
default_compression_base_url = codes "http://compression-service:8000/"

abbrev pub directory_of : Url → Url
directory_of u = record u { path = as_directory u.path; query = [] }

abbrev pub is_absolute : Url → Bool
is_absolute u = not (is_empty u.scheme || is_empty u.netloc)

abbrev pub or_route : Option Text → Option Text → Option Text
or_route none other = other
or_route (some url) other = some url

-- `urlsplit` and `urlunsplit`; `none` is a `RuntimeError`.
module _ (split : Text → Url) (unsplit : Url → Text) where
  -- `_normalize_base_url`
  unfoldable pub normalize_base_url : Text → Option Text
  normalize_base_url raw_url =
      let parsed = split raw_url in
      if is_absolute parsed then some (unsplit (directory_of parsed)) else none

  -- `_resolve_upstream_base_url`
  unfoldable pub resolve_upstream_base_url : Environment → Option Text
  unfolding setting normalize_base_url
  resolve_upstream_base_url env =
      let first = setting env "PROXY_UPSTREAM_BASE_URL" in
      let second = setting env "COMPACT_BENCH_LLM_BASE_URL" in
      if not (is_empty first)
      then normalize_base_url first
      else if not (is_empty second)
      then normalize_base_url second
      else none

  -- `_resolve_compression_base_url`
  unfoldable pub resolve_compression_base_url : Environment → Option Text
  unfolding normalize_base_url
  resolve_compression_base_url env = normalize_base_url (
      or_text (strip (getenv env "PROXY_COMPRESSION_BASE_URL" default_compression_base_url))
        default_compression_base_url)

  -- An entry of the map; one without a key or a string is left out.
  unfoldable pub add_route : Text → Value → List (Text × Text) → Option (List (Text × Text))
  unfolding normalize_base_url set_header
  add_route [] v routes = some routes
  add_route (c ∷ run_id) (str s) routes =
      if is_empty (strip (codes s))
      then some routes
      else normalize_base_url (strip (codes s)) >>= λ url. some (set_header (c ∷ run_id) url routes)
  add_route (c ∷ run_id) _ routes = some routes

  unfoldable pub add_routes : Fields → List (Text × Text) → Option (List (Text × Text))
  unfolding add_route
  add_routes end routes = some routes
  add_routes (field key value parsed) routes =
      add_route (strip (codes key)) value routes >>= add_routes parsed

  -- What `json.loads` made of the setting; `none` is a `JSONDecodeError`.
  unfoldable pub routes_in : Option Value → Option (List (Text × Text))
  unfolding add_routes
  routes_in (some (obj parsed)) = add_routes parsed []
  routes_in _ = none

  -- The URL of a run that is not in the map.
  unfoldable pub route_by_template : Environment → Text → Option Text
  unfolding setting replace normalize_base_url resolve_compression_base_url
  route_by_template env run_id =
      let template = setting env "PROXY_COMPRESSION_BASE_URL_TEMPLATE" in
      if not (is_empty run_id) && not (is_empty template)
      then normalize_base_url (replace (codes "{run_id}") run_id template)
      else resolve_compression_base_url env

  -- `json.loads`
  module _ (loads : Text → Option Value) where
    -- `_resolve_compression_route_map`
    unfoldable pub resolve_compression_route_map : Environment → Option (List (Text × Text))
    unfolding setting routes_in
    resolve_compression_route_map env =
        let raw = setting env "PROXY_COMPRESSION_ROUTE_MAP" in
        if is_empty raw then some [] else routes_in (loads raw)

    -- `_resolve_compression_base_url_for_run`
    unfoldable pub resolve_compression_base_url_for_run : Environment → Text → Option Text
    unfolding resolve_compression_route_map route_of route_by_template
    resolve_compression_base_url_for_run env run_id =
        resolve_compression_route_map env >>= λ routes.
        or_route (if is_empty run_id then none else route_of run_id routes)
          (route_by_template env run_id)
