-- ===== src/Proxy/Reports.antt =====
-- What the proxy tells of itself: `health` and `_emit_message_event` of
-- src/compression_service/app/proxy.py.
use soma_benchmark.Base.{String, Bool, not, Option, none, some, ◌>>=◌}
use soma_benchmark.Base.Text.{Text, is_empty}
use soma_benchmark.Base.Json.{Value, arr, Items, Fields, get}
use soma_benchmark.Proxy.Upstream.{Url}
use soma_benchmark.Proxy.Routing.{
  Environment, resolve_compression_base_url, resolve_compression_enabled,
  resolve_provider_api_key_override, resolve_run_id_header_value,
}

-- The payload of `health`; the upstream was resolved when the module was loaded.
pub record Health : Type 0 where
  pub status : String
  pub upstream : Text
  pub compression_base_url : Text
  pub compression_enabled : Bool
  pub api_key_override_enabled : Bool
  pub run_id_header_enabled : Bool

module _ (split : Text → Url) (unsplit : Url → Text) where
  unfoldable pub health : Text → Environment → Option Health
  unfolding resolve_compression_base_url resolve_compression_enabled
      resolve_provider_api_key_override resolve_run_id_header_value
  health upstream_base_url env = resolve_compression_base_url split unsplit env >>= λ url.
      some (record {
        status = "ok";
        upstream = upstream_base_url;
        compression_base_url = url;
        compression_enabled = resolve_compression_enabled env;
        api_key_override_enabled = not (is_empty (resolve_provider_api_key_override env));
        run_id_header_enabled = not (is_empty (resolve_run_id_header_value env));
      })

-- A line of the log, whose `stage` is a part of its marker.
pub record MessageEvent : Type 0 where
  pub stage : String
  pub request_id : String
  pub run_id : Text
  pub path : Text
  pub query : Text
  pub model : Option Value
  pub messages : Items

-- `_emit_message_event`: the line, if there is one.
unfoldable pub emit_message_event :
    String → String → Text → Text → Text → Fields → Option MessageEvent
emit_message_event stage request_id path query run_id payload = elim (get "messages" payload) [
  | some (arr messages) ↦ some (record {
    stage = stage;
    request_id = request_id;
    run_id = run_id;
    path = path;
    query = query;
    model = get "model" payload;
    messages = messages;
  })
  | _ ↦ none
]
