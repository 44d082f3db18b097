-- ===== src/Proxy/Routing/Tests.antt =====
-- Runs that are routed, settings that are read, and an instance of the theorem on their URLs.
use soma_benchmark.Base.{
  String, ◌≡◌, refl, true, false, Option, none, some, [], ◌∷◌, str_eq, inr, if◌then◌else◌,
}
use soma_benchmark.Base.Text.{Text, codes}
use soma_benchmark.Base.Json.{ℤ, Value, str, int, obj, Fields, end, field}
use soma_benchmark.Proxy.Upstream.{Url}
use soma_benchmark.Proxy.Routing.{
  Environment, setting, coerce_bool, resolve_run_id_for_routing, replace, split_commas,
  resolve_compressor_services_offer, resolve_compression_base_url_for_run,
}
use soma_benchmark.Proxy.Routing.Normalized.{
  IsNormalized, resolve_compression_base_url_for_run-IsNormalized,
}

-- URLs that are the paths of one host.
abbrev split : Text → Url
split t = record { scheme = codes "http"; netloc = codes "h"; path = t; query = [] }

abbrev unsplit : Url → Text
unsplit u = u.path

abbrev routes : Fields
routes = field " r1 " (str "one ") (field "r2" (int (ℤ.pos 2)) (field " " (str "three") end))

abbrev loads : Text → Option Value
loads t = some (obj routes)

abbrev env : Environment
env name =
    if str_eq name "PROXY_COMPRESSION_ROUTE_MAP"
    then some "{}"
    else if str_eq name "PROXY_COMPRESSION_BASE_URL_TEMPLATE"
    then some " run-{run_id}/x "
    else none

abbrev route : String → Option Text
route run_id = resolve_compression_base_url_for_run split unsplit loads env (codes run_id)

route_in_map : route "r1" ≡ some (codes "one/")
unfolding resolve_compression_base_url_for_run
route_in_map = refl

route_in_template : route "r2" ≡ some (codes "run-r2/x/")
unfolding resolve_compression_base_url_for_run
route_in_template = refl

route_by_default : route "" ≡ some (codes "http://compression-service:8000/")
unfolding resolve_compression_base_url_for_run
route_by_default = refl

replace_twice : replace (codes "{}") (codes "ab") (codes "{}{{}") ≡ codes "ab{ab"
unfolding replace
replace_twice = refl

coerce_bool_no : coerce_bool (some (str " Off ")) true ≡ false
unfolding coerce_bool
coerce_bool_no = refl

coerce_bool_other : coerce_bool (some (str "maybe")) true ≡ true
unfolding coerce_bool
coerce_bool_other = refl

run_id_of_request :
    resolve_run_id_for_routing ((codes "Authorization", codes "BEARER  r1 ") ∷ []) (codes "key")
    ≡ codes "r1"
unfolding resolve_run_id_for_routing
run_id_of_request = refl

run_id_of_key :
    resolve_run_id_for_routing ((codes "authorization", codes " ") ∷ []) (codes "key") ≡ codes "key"
unfolding resolve_run_id_for_routing
run_id_of_key = refl

split_commas_empty : split_commas (codes ",a,") ≡ [] ∷ codes "a" ∷ [] ∷ []
unfolding split_commas
split_commas_empty = refl

no_service_offered : resolve_compressor_services_offer end (λ _. some "other, jevs") ≡ none
unfolding resolve_compressor_services_offer
no_service_offered = refl

jev_offered :
    resolve_compressor_services_offer end (λ _. some "other, JEV ")
    ≡ some (
        field "protocol"
          (str "soma-compressor-services/1")
          (field "offer" (obj (field "jev" (obj end) end)) end))
unfolding resolve_compressor_services_offer
jev_offered = refl

resolve_compression_base_url_for_run-IsNormalized_example :
    (url : Text) × (resolve_compression_base_url_for_run split unsplit loads env (codes "r1")
      ≡ some url)
    × IsNormalized split unsplit url
unfolding setting
resolve_compression_base_url_for_run-IsNormalized_example =
    resolve_compression_base_url_for_run-IsNormalized split unsplit (λ _ _. refl) loads env
      (codes "r1") (inr (routes, refl, (inr refl, (tt, (inr refl, tt))))) (inr refl) refl
