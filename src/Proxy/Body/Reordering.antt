-- ===== src/Proxy/Body/Reordering.antt =====
-- The body that goes upstream and the order in which the agent lists its tools.
use soma_benchmark.Base.{
  String, true, false, str_eq, ◌≡◌, refl, ap, Option, none, some, List, ◌∷◌, ◌>>=◌, bind-eq-some,
}
use mathlib.Core.Option.{some-injective}
use soma_benchmark.Base.Json.{Value, arr, Fields, get, of_list, to_list-of_list}
use soma_benchmark.Base.Values.{as_dict}
use soma_benchmark.Proxy.Request.{Message}
use soma_benchmark.Proxy.Response.{items_of}
use soma_benchmark.Proxy.Tools.{Tool, tool_in, cons_tool, named_tools, openai_tools}
use soma_benchmark.Proxy.Body.{Settings, body_with, request_with, anthropic_request_to_openai}
use soma_benchmark.Proxy.Tools.Order.{
  Reordered, same, skip, swap, after, AreDistinct, sort_tools-Reordered,
}

-- The tools of a reordered list, which are read as well.
abbrev Follows : List Tool → Option (List Tool) → Type 0
Follows ts o = (us : List Tool) × (o ≡ some us) × Reordered ts us

cons_tool-Reordered :
    (o : Option Tool) {ts us : List Tool}
    → Reordered ts us
    → Reordered (cons_tool o ts) (cons_tool o us)
cons_tool-Reordered none r = r
cons_tool-Reordered (some t) r = skip t r

cons_tool-swap :
    (o p : Option Tool) (ts : List Tool)
    → Reordered (cons_tool o (cons_tool p ts)) (cons_tool p (cons_tool o ts))
cons_tool-swap none p ts = same _
cons_tool-swap (some t) none ts = same _
cons_tool-swap (some t) (some u) ts = swap t u ts

named_tools-cons :
    (v : Value) (vs : List Value) (ts : List Tool)
    → named_tools (v ∷ vs) ≡ some ts
    → (o : Option Tool) × (tool_in (as_dict v) ≡ some o)
      × ((us : List Tool) × (named_tools vs ≡ some us) × (cons_tool o us ≡ ts))
unfolding named_tools
named_tools-cons v vs ts h =
    let (o, e, f) =
      bind-eq-some (tool_in (as_dict v)) (λ t. named_tools vs >>= (λ ts. some (cons_tool t ts))) ts
        h in
    let (us, g, k) = bind-eq-some (named_tools vs) (λ ts. some (cons_tool o ts)) ts f in
    (o, e, (us, g, some-injective _ _ k))

named_tools-Reordered :
    {vs ws : List Value} (ts : List Tool)
    → Reordered vs ws
    → named_tools vs ≡ some ts
    → Follows ts (named_tools ws)
unfolding named_tools
named_tools-Reordered ts (same _) h = (ts, h, same ts)
named_tools-Reordered ts (skip v {xs = vs} {ys = ws} r) h =
    let (o, e, (us, g, k)) = named_tools-cons v vs ts h in
    let (us', g', q) = named_tools-Reordered us r g in
    (cons_tool o us', rw (e, g') refl, rw (← k) (cons_tool-Reordered o q))
named_tools-Reordered ts (swap v w vs) h =
    let (o, e, (us, g, k)) = named_tools-cons v (w ∷ vs) ts h in
    let (p, e', (us', g', k')) = named_tools-cons w vs us g in
    (cons_tool p (cons_tool o us'), rw (e', e, g') refl, rw (← k, ← k') (cons_tool-swap o p us'))
named_tools-Reordered ts (after r q) h =
    let (us, e, x) = named_tools-Reordered ts r h in
    let (us', e', y) = named_tools-Reordered us q e in (us', e', after x y)

openai_tools-Reordered :
    {vs ws : List Value} (ts : List Tool)
    → Reordered vs ws
    → named_tools vs ≡ some ts
    → AreDistinct ts
    → openai_tools true (some (arr (of_list vs))) ≡ openai_tools true (some (arr (of_list ws)))
unfolding openai_tools
openai_tools-Reordered {vs = vs} {ws = ws} ts r h d =
    let (us, e, q) = named_tools-Reordered ts r h in
    rw (to_list-of_list vs, to_list-of_list ws, h, e) (ap some (sort_tools-Reordered q d))

-- The two payloads differ in their tools only.
abbrev pub SameButTools : Fields → Fields → Type 0
SameButTools p q = (k : String) → str_eq k "tools" ≡ false → get k p ≡ get k q

body_with-SameButTools :
    (s : Settings) (p q : Fields) (messages : List Message) (tools : List Tool)
    (choice : Option Value)
    → SameButTools p q
    → body_with s p messages tools choice ≡ body_with s q messages tools choice
unfolding body_with
body_with-SameButTools s p q messages tools choice h =
    rw
      (
        h "model" refl,
        h "max_tokens" refl,
        h "temperature" refl,
        h "top_p" refl,
        h "stream" refl,
        h "stop_sequences" refl,
      )
      refl

-- The body that goes upstream does not depend on the order in which the agent lists its tools, so that
-- the cached prefix of a prompt stays the same from turn to turn. The tools are to be sorted and to
-- have different names.
pub anthropic_request_to_openai-Reordered :
    (dumps : Value → String) (s : Settings) (p q : Fields) {vs ws : List Value} (ts : List Tool)
    → s.sort ≡ true
    → get "tools" p ≡ some (arr (of_list vs))
    → get "tools" q ≡ some (arr (of_list ws))
    → SameButTools p q
    → Reordered vs ws
    → named_tools vs ≡ some ts
    → AreDistinct ts
    → anthropic_request_to_openai dumps s p ≡ anthropic_request_to_openai dumps s q
unfolding anthropic_request_to_openai
anthropic_request_to_openai-Reordered dumps s p q {vs} {ws} ts on a b h r n d =
    let tools = openai_tools-Reordered ts r n d in
    let body : body_with s p ≡ body_with s q =
      λ i messages ts choice. body_with-SameButTools s p q messages ts choice h i in
    rw (h "messages" refl, h "system" refl, h "tool_choice" refl, a, b, on, tools)
      (ap
        (request_with dumps s.carry (items_of (get "messages" q)) (get "system" q)
          (openai_tools true (some (arr (of_list ws)))) (get "tool_choice" q))
        body)
