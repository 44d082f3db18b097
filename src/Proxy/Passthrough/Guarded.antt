-- ===== src/Proxy/Passthrough/Guarded.antt =====
-- What the proxy sends upstream.
use soma_benchmark.Base.{
  ℕ, String, Bool, true, false, not, ◌&&◌, ◌≡◌, refl, Option, none, some, [], ◌∷◌, inl, inr,
  Bool-cases,
}
use mathlib.Core.Option.{some-injective}
use soma_benchmark.Base.Text.{Text, codes, text_eq, text_eq_iff, is_empty}
use soma_benchmark.Base.Json.{ℤ, Value, obj, Fields}
use soma_benchmark.Proxy.Dispatch.{is_anthropic_messages_request}
use soma_benchmark.Proxy.Body
use soma_benchmark.Proxy.Upstream.{
  Url, Headers, build_upstream_url, is_hop_by_hop, set_header, copy_headers, forwardable_headers,
  upstream_headers, set_unless_empty, bearer,
}
use soma_benchmark.Proxy.Passthrough.{
  Request, Settings, Loaded, loaded, not_json, raised, Forward, forward, refused, crashed, Sent,
  Upstream, is_upstream, forward_body, compress, compress_translated, forward_dict, forward_loaded,
  forward_of, sends_json, send, proxy_passthrough,
}

-- No header of the list is one that ends at the proxy.
abbrev pub AreForwardable : Headers → Type 0
AreForwardable [] = Unit
AreForwardable ((k, v) ∷ hs) = (is_hop_by_hop k ≡ false) × AreForwardable hs

set_header-AreForwardable :
    (k v : Text) (hs : Headers)
    → is_hop_by_hop k ≡ false
    → AreForwardable hs
    → AreForwardable (set_header k v hs)
unfolding set_header
set_header-AreForwardable k v [] h a = (h, tt)
set_header-AreForwardable k v ((j, w) ∷ hs) h a = elim (Bool-cases (text_eq j k)) [
  | inl e ↦ rw e (h, a.1)
  | inr e ↦ rw e (a.0, set_header-AreForwardable k v hs h a.1)
]

copy_headers-AreForwardable :
    (hs out : Headers) → AreForwardable out → AreForwardable (copy_headers hs out)
unfolding copy_headers
copy_headers-AreForwardable [] out a = a
copy_headers-AreForwardable ((k, v) ∷ hs) out a = elim (Bool-cases (is_hop_by_hop k)) [
  | inl e ↦ rw e (copy_headers-AreForwardable hs out a)
  | inr e ↦
      rw e (
        copy_headers-AreForwardable hs (set_header k v out) (set_header-AreForwardable k v out e a))
]

set_unless_empty-AreForwardable :
    (k : String) (v : Text) (hs : Headers)
    → is_hop_by_hop (codes k) ≡ false
    → AreForwardable hs
    → AreForwardable (set_unless_empty k v hs)
set_unless_empty-AreForwardable k [] hs h a = a
set_unless_empty-AreForwardable k (c ∷ v) hs h a =
    set_header-AreForwardable (codes k) (c ∷ v) hs h a

upstream_headers-AreForwardable :
    (hs : Headers) (key run_id : Text) → AreForwardable (upstream_headers hs key run_id)
unfolding upstream_headers forwardable_headers is_hop_by_hop
upstream_headers-AreForwardable hs key run_id =
    let a =
      set_unless_empty-AreForwardable "X-Run-Id" run_id (forwardable_headers hs) refl
        (copy_headers-AreForwardable hs [] tt) in
    elim (Bool-cases (is_empty key)) [
      | inl e ↦ rw e a
      | inr e ↦ rw e (set_header-AreForwardable (codes "Authorization") (bearer key) _ refl a)
    ]

-- What may go upstream: to the configured host and to no other, without the headers that end at
-- the proxy.
abbrev pub IsAllowed : (Text → Url) → Text → Sent → Type 0
IsAllowed split base_url sent =
    ((split sent.url).netloc ≡ (split base_url).netloc) × AreForwardable sent.headers

module _ (split : Text → Url) (unsplit : Url → Text) (loads : Text → Loaded) (dumps : Value → Text)
    (dumps_string : Value → String) (s : Settings)
    (transform : Fields → Fields → Option Fields) where
  -- The URL of a forward has passed the guard.
  abbrev Guarded : Forward → Type 0
  Guarded (forward body url translated) = is_upstream split s.base_url url ≡ true
  Guarded _ = Unit

  forward_body-Guarded :
      (url : Text) (t : Bool) (o : Option Fields)
      → is_upstream split s.base_url url ≡ true
      → Guarded (forward_body split unsplit loads dumps dumps_string s transform url t o)
  forward_body-Guarded url t none h = tt
  forward_body-Guarded url t (some d) h = h

  compress_translated-Guarded :
      (o : Option Fields)
      → Guarded (compress_translated split unsplit loads dumps dumps_string s transform o)
  unfolding compress_translated compress
  compress_translated-Guarded none = tt
  compress_translated-Guarded (some payload) =
      let url = build_upstream_url split unsplit s.base_url (codes "v1/chat/completions") [] in
      elim (Bool-cases (is_upstream split s.base_url url)) [
        | inl e ↦ rw e (forward_body-Guarded url true _ e)
        | inr e ↦ rw e tt
      ]

  forward_dict-Guarded :
      (path url body : Text) (payload : Fields)
      → is_upstream split s.base_url url ≡ true
      → Guarded
          (forward_dict split unsplit loads dumps dumps_string s transform path url body payload)
  unfolding forward_dict compress
  forward_dict-Guarded path url body payload h = elim (Bool-cases (not s.compression_enabled)) [
    | inl e ↦ rw e h
    | inr e ↦
        elim (Bool-cases
          (s.translation_enabled && is_anthropic_messages_request path (obj payload))) [
            | inl f ↦
                rw (e, f)
                  (compress_translated-Guarded
                    (Body.anthropic_request_to_openai dumps_string s.body payload))
            | inr f ↦ rw (e, f) (forward_body-Guarded url false _ h)
          ]
  ]

  forward_loaded-Guarded :
      (path url body : Text) (l : Loaded)
      → is_upstream split s.base_url url ≡ true
      → Guarded (forward_loaded split unsplit loads dumps dumps_string s transform path url body l)
  forward_loaded-Guarded path url body (loaded (obj payload)) h =
      forward_dict-Guarded path url body payload h
  forward_loaded-Guarded path url body (loaded _) h = h
  forward_loaded-Guarded path url body raised h = tt
  forward_loaded-Guarded path url body not_json h = h

  forward_of-Guarded :
      (url : Text) (r : Request)
      → is_upstream split s.base_url url ≡ true
      → Guarded (forward_of split unsplit loads dumps dumps_string s transform url r)
  unfolding forward_of
  forward_of-Guarded url r h = elim (Bool-cases (sends_json r)) [
    | inl e ↦ rw e (forward_loaded-Guarded r.path url r.body (loads r.body) h)
    | inr e ↦ rw e h
  ]

  module _ (loads_string : String → Option Value) (fresh : ℕ → String) (int_of : String → Option ℤ)
      (show : Value → String) (fresh_id : String) (decompress : Text → Text → Text) where
    send-IsAllowed :
        (r : Request) (urlopen : Sent → Upstream) (f : Forward) (sent : Sent)
        → Guarded f
        → (send split unsplit loads dumps dumps_string s transform loads_string fresh int_of show
            fresh_id decompress r urlopen f).0
          ≡ some sent
        → IsAllowed split s.base_url sent
    unfolding send
    send-IsAllowed r urlopen refused sent g h = cc
    send-IsAllowed r urlopen crashed sent g h = cc
    send-IsAllowed r urlopen (forward body url t) sent g h =
        let same_netloc = (text_eq_iff (split url).netloc (split s.base_url).netloc).0 g in
        let a = upstream_headers-AreForwardable r.headers s.override_api_key s.run_id in
        rw (← some-injective _ _ h) (same_netloc, a)

    -- A request goes upstream only to the host that is configured, whatever its path, its query and its
    -- body are and whether it is translated or not, and without the headers that end at the proxy. The
    -- compression service cannot change that.
    pub proxy_passthrough-IsAllowed :
        (r : Request) (urlopen : Sent → Upstream) (sent : Sent)
        → (proxy_passthrough split unsplit loads dumps dumps_string s transform loads_string fresh
            int_of show fresh_id decompress r urlopen).0
          ≡ some sent
        → IsAllowed split s.base_url sent
    unfolding proxy_passthrough
    proxy_passthrough-IsAllowed r urlopen sent h =
        let url = build_upstream_url split unsplit s.base_url r.path r.query in
        elim (Bool-cases (is_upstream split s.base_url url)) [
          | inl e ↦
              send-IsAllowed r urlopen
                (forward_of split unsplit loads dumps dumps_string s transform url r) sent
                (forward_of-Guarded url r e) (rw e at h)
          | inr e ↦ absurd (let k : ◌≡◌ {A = Option Sent} none (some sent) = rw e at h in cc)
        ]
