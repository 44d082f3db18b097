-- ===== src/Proxy/Emit/Delivery.antt =====
-- What a client reads of a translated response.
use Prim.Native.String.append
use soma_benchmark.Base.{
  ℕ, ◌+◌, String, true, ◌≡◌, refl, Option, some, List, [], ◌∷◌, ◌++◌, ◌==◌, arith,
}
use mathlib.Core.List.{append_assoc, append-nil}
use soma_benchmark.Base.Lists.{length, length-append}
use soma_benchmark.Base.Json.{Value, obj, Fields}
use soma_benchmark.Base.Values.{as_dict}
use soma_benchmark.Proxy.Reply.{Reply}
use soma_benchmark.Proxy.Response
use soma_benchmark.Proxy.Emit.{
  Event, message_start, message_delta, message_stop, events_of_kind, thinking_events, text_events,
  tool_use_events, events_of_dict, block_events, anthropic_sse_events,
}
use soma_benchmark.Proxy.Emit.Client.{Client, closed, new_client, run_client, read_events}

module _ (loads : String → Option Value) (dumps : Value → String) where
  -- A block as the translation makes them, whose input survives its JSON text.
  pub data IsBlock : Value → Type 0 where
    of_thinking : (t u : String) → IsBlock (Response.thinking t u)
    of_text : (t : String) → IsBlock (Response.text_block t)
    of_tool_use :
        (id name : Value) (d : Fields)
        → loads (dumps (obj d)) ≡ some (obj d)
        → IsBlock (Response.tool_use id name d)

  abbrev pub AreBlocks : List Value → Type 0
  AreBlocks [] = Unit
  AreBlocks (b ∷ bs) = IsBlock b × AreBlocks bs

  abbrev with_block : Client → Value → Client
  with_block c b = record c { blocks = c.blocks ++ b ∷ []; block = closed }

  run-block :
      (i : ℕ) (b : Value) (c : Client) (rest : List Event)
      → IsBlock b
      → c.block ≡ closed
      → i ≡ length c.blocks
      → (es : List Event) × (events_of_dict dumps i (as_dict b) ≡ some es)
        × (run_client loads (es ++ rest) c ≡ run_client loads rest (with_block c b))
  unfolding events_of_kind thinking_events text_events tool_use_events
  run-block i _ c rest (of_thinking t u) h e =
      let k : (i == length c.blocks) ≡ true = ground arith in
      let m : (i == i) ≡ true = ground arith in
      (_, refl, rw (h, k, m, m, m, append.nil t, append.nil u) refl)
  run-block i _ c rest (of_text t) h e =
      let k : (i == length c.blocks) ≡ true = ground arith in
      let m : (i == i) ≡ true = ground arith in (_, refl, rw (h, k, m, m, append.nil t) refl)
  run-block i _ c rest (of_tool_use id name d j) h e =
      let k : (i == length c.blocks) ≡ true = ground arith in
      let m : (i == i) ≡ true = ground arith in
      (_, refl, rw (h, k, m, m, append.nil (dumps (obj d)), j) refl)

  abbrev with_blocks : Client → List Value → Client
  with_blocks c bs = record c { blocks = c.blocks ++ bs; block = closed }

  run-blocks :
      (bs : List Value) (i : ℕ) (c : Client) (rest : List Event)
      → AreBlocks bs
      → c.block ≡ closed
      → i ≡ length c.blocks
      → (es : List Event) × (block_events dumps i bs ≡ some es)
        × (run_client loads (es ++ rest) c ≡ run_client loads rest (with_blocks c bs))
  unfolding block_events
  run-blocks [] i c rest a h e = ([], refl, rw (append-nil c.blocks, h) refl)
  run-blocks (b ∷ bs) i c rest (a, as') h e =
      let c' = with_block c b in
      let e' : i + 1 ≡ length c'.blocks = omega (arith, length-append c.blocks (b ∷ [])) in
      let (es', f', r') = run-blocks bs (i + 1) c' rest as' refl e' in
      let (es, f, r) = run-block i b c (es' ++ rest) a h e in
      (
        es ++ es',
        rw (f, f') refl,
        rw (append_assoc es es' rest, r, r', append_assoc c.blocks (b ∷ []) bs) refl,
      )

  -- The events of a response can be made, and a client that follows the protocol reads the response
  -- from them: where its blocks are as the translation makes them.
  pub read_events-anthropic_sse_events :
      (r : Reply)
      → AreBlocks r.content
      → (es : List Event) × (anthropic_sse_events dumps r ≡ some es)
        × (read_events loads es ≡ some r)
  unfolding anthropic_sse_events read_events
  read_events-anthropic_sse_events r a =
      let c =
        new_client loads r.id r.model r.usage.input r.usage.cache_read r.usage.cache_creation in
      let last = message_delta r.stop_reason r.usage.output ∷ message_stop ∷ [] in
      let (es, f, e) = run-blocks r.content 0 c last a refl refl in
      (
        message_start r.id r.model r.usage.input r.usage.cache_read r.usage.cache_creation
            ∷ (es ++ last),
        rw f refl,
        rw e refl,
      )
