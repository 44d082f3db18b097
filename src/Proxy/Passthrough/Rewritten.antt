-- ===== src/Proxy/Passthrough/Rewritten.antt =====
-- The body of a JSON request, as it goes upstream.
use soma_benchmark.Base.{
  ℕ, String, Bool, true, false, ◌&&◌, ◌≡◌, ◌⊎◌, refl, Option, none, some, [], inl, inr, Bool-cases,
  if◌then◌else◌,
}
use mathlib.Core.Option.{some-injective}
use soma_benchmark.Base.Text.{Text, codes}
use soma_benchmark.Base.Json.{ℤ, Value, obj, Fields}
use soma_benchmark.Proxy.Prompts.{rewrite_body}
use soma_benchmark.Proxy.Dispatch.{is_anthropic_messages_request}
use soma_benchmark.Proxy.Body
use soma_benchmark.Proxy.Upstream.{Url, build_upstream_url}
use soma_benchmark.Proxy.TaskContext.{context_of}
use soma_benchmark.Proxy.Passthrough.{
  Request, Settings, Loaded, loaded, Forward, forward, refused, crashed, Sent, Upstream,
  is_upstream, forward_body, compress, compress_translated, forward_dict, forward_of, sends_json,
  send, proxy_passthrough, has_body,
}

-- `P` holds for the body, if one goes upstream.
abbrev Carries : (Text → Type 0) → Forward → Type 0
Carries P (forward body url translated) = P body
Carries P _ = Unit

weaken :
    (P Q : Text → Type 0) (f : Forward)
    → ((body : Text) → P body → Q body)
    → Carries P f
    → Carries Q f
weaken P Q (forward body url translated) k h = k body h
weaken P Q refused k h = tt
weaken P Q crashed k h = tt

-- The body that is sent with a method that has one.
abbrev pub BodyOf : (Text → Type 0) → Option Text → Type 0
BodyOf P none = Unit
BodyOf P (some body) = P body

some_body-BodyOf :
    (P : Text → Type 0) (b : Bool) (body : Text) → P body → BodyOf P (if b then some body else none)
some_body-BodyOf P true body h = h
some_body-BodyOf P false body h = tt

module _ (split : Text → Url) (unsplit : Url → Text) (loads : Text → Loaded) (dumps : Value → Text)
    (dumps_string : Value → String) (s : Settings)
    (transform : Fields → Fields → Option Fields) where
  -- The text is that of the payload after the compression, from which its prompts were held back and to
  -- which they were restored.
  abbrev pub IsRewritten : Fields → Text → Type 0
  IsRewritten payload body =
      (d : Fields) × (rewrite_body (transform (context_of payload)) payload ≡ some d)
      × (body ≡ dumps (obj d))

  -- The payload itself, or its translation, is rewritten.
  abbrev pub Rewrites : Fields → Text → Type 0
  Rewrites payload body =
      IsRewritten payload body
      ⊎ ((translated : Fields) × (Body.anthropic_request_to_openai dumps_string s.body payload
            ≡ some translated)
          × IsRewritten translated body)

  forward_body-IsRewritten :
      (url : Text) (t : Bool) (payload : Fields) (o : Option Fields)
      → rewrite_body (transform (context_of payload)) payload ≡ o
      → Carries
          (IsRewritten payload)
          (forward_body split unsplit loads dumps dumps_string s transform url t o)
  forward_body-IsRewritten url t payload none h = tt
  forward_body-IsRewritten url t payload (some d) h = (d, h, refl)

  compress_translated-Rewrites :
      (payload : Fields) (o : Option Fields)
      → Body.anthropic_request_to_openai dumps_string s.body payload ≡ o
      → Carries
          (Rewrites payload)
          (compress_translated split unsplit loads dumps dumps_string s transform o)
  unfolding compress_translated compress
  compress_translated-Rewrites payload none h = tt
  compress_translated-Rewrites payload (some translated) h =
      let url = build_upstream_url split unsplit s.base_url (codes "v1/chat/completions") [] in
      elim (Bool-cases (is_upstream split s.base_url url)) [
        | inl e ↦ rw e (
            weaken (IsRewritten translated) (Rewrites payload) _ (λ body k. inr (translated, h, k))
              (forward_body-IsRewritten url true translated _ refl))
        | inr e ↦ rw e tt
      ]

  forward_dict-Rewrites :
      (path url body : Text) (payload : Fields)
      → s.compression_enabled ≡ true
      → Carries
          (Rewrites payload)
          (forward_dict split unsplit loads dumps dumps_string s transform path url body payload)
  unfolding forward_dict compress
  forward_dict-Rewrites path url body payload on =
      elim (Bool-cases
        (s.translation_enabled && is_anthropic_messages_request path (obj payload))) [
          | inl f ↦ rw (on, f) (compress_translated-Rewrites payload _ refl)
          | inr f ↦
              rw (on, f)
                (weaken (IsRewritten payload) (Rewrites payload) _ (λ body k. inl k)
                  (forward_body-IsRewritten url false payload _ refl))
        ]

  forward_of-Rewrites :
      (url : Text) (r : Request) (payload : Fields)
      → s.compression_enabled ≡ true
      → sends_json r ≡ true
      → loads r.body ≡ loaded (obj payload)
      → Carries
          (Rewrites payload)
          (forward_of split unsplit loads dumps dumps_string s transform url r)
  unfolding forward_of
  forward_of-Rewrites url r payload on j l =
      rw (j, l) (forward_dict-Rewrites r.path url r.body payload on)

  module _ (loads_string : String → Option Value) (fresh : ℕ → String) (int_of : String → Option ℤ)
      (show : Value → String) (fresh_id : String) (decompress : Text → Text → Text) where
    send-BodyOf :
        (P : Text → Type 0) (r : Request) (urlopen : Sent → Upstream) (f : Forward) (sent : Sent)
        → Carries P f
        → (send split unsplit loads dumps dumps_string s transform loads_string fresh int_of show
            fresh_id decompress r urlopen f).0
          ≡ some sent
        → BodyOf P sent.body
    unfolding send
    send-BodyOf P r urlopen refused sent c h = cc
    send-BodyOf P r urlopen crashed sent c h = cc
    send-BodyOf P r urlopen (forward body url t) sent c h =
        rw (← some-injective _ _ h) (some_body-BodyOf P (has_body r.method) body c)

    -- With compression on, the body of a JSON request goes upstream only as what the compression made
    -- of it between the holding back and the restoring of its prompts, or as that of its translation:
    -- no such body goes around the compression or leaves without its prompts.
    pub proxy_passthrough-Rewrites :
        (r : Request) (urlopen : Sent → Upstream) (sent : Sent) (payload : Fields)
        → s.compression_enabled ≡ true
        → sends_json r ≡ true
        → loads r.body ≡ loaded (obj payload)
        → (proxy_passthrough split unsplit loads dumps dumps_string s transform loads_string fresh
            int_of show fresh_id decompress r urlopen).0
          ≡ some sent
        → BodyOf (Rewrites payload) sent.body
    unfolding proxy_passthrough
    proxy_passthrough-Rewrites r urlopen sent payload on j l h =
        let url = build_upstream_url split unsplit s.base_url r.path r.query in
        elim (Bool-cases (is_upstream split s.base_url url)) [
          | inl e ↦
              send-BodyOf (Rewrites payload) r urlopen
                (forward_of split unsplit loads dumps dumps_string s transform url r) sent
                (forward_of-Rewrites url r payload on j l) (rw e at h)
          | inr e ↦ absurd (let k : ◌≡◌ {A = Option Sent} none (some sent) = rw e at h in cc)
        ]
