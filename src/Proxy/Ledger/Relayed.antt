-- ===== src/Proxy/Ledger/Relayed.antt =====
-- The totals of a relayed stream in the token totals.
use soma_benchmark.Base.{ℕ, zero, suc, String, ◌≡◌, refl, some}
use soma_benchmark.Base.Integers.{◌+ℤ◌}
use soma_benchmark.Base.Json.{pos, int, Fields, end, field}
use soma_benchmark.Base.Values.{truthy}
use soma_benchmark.Proxy.Usage.{Totals}
use soma_benchmark.Proxy.Ledger.{Ledger, accumulate_token_usage}

-- The dict `totals`: a key for each positive count.
abbrev pub with_key : String → ℕ → Fields → Fields
with_key k zero d = d
with_key k (suc n) d = field k (int (pos (suc n))) d

abbrev pub dict_of : Totals → Fields
dict_of t = with_key "input_tokens" t.input (
    with_key "output_tokens" t.output (
      with_key "cache_read_input_tokens" t.cache_read
        (with_key "cache_creation_input_tokens" t.cache_creation end)))

abbrev pub added : Ledger → ℕ → ℕ → ℕ → ℕ → Ledger
added g i o r c = record {
  input = g.input +ℤ pos i;
  output = g.output +ℤ pos o;
  cache_read = g.cache_read +ℤ pos r;
  cache_creation = g.cache_creation +ℤ pos c;
}

-- What is added where there was uncached input, and where there was none.
abbrev pub recorded : ℕ → ℕ → ℕ → ℕ → Ledger → Ledger
recorded zero o r c g = added g 0 o 0 0
recorded (suc i) o r c g = added g (suc i) o r c

relayed :
    (i o r c : ℕ) (g : Ledger)
    → accumulate_token_usage
        (dict_of (record { input = i; output = o; cache_read = r; cache_creation = c }))
        g
      ≡ some (recorded i o r c g)
unfolding accumulate_token_usage truthy
relayed zero zero zero zero g = refl
relayed zero zero zero (suc c) g = refl
relayed zero zero (suc r) zero g = refl
relayed zero zero (suc r) (suc c) g = refl
relayed zero (suc o) zero zero g = refl
relayed zero (suc o) zero (suc c) g = refl
relayed zero (suc o) (suc r) zero g = refl
relayed zero (suc o) (suc r) (suc c) g = refl
relayed (suc i) zero zero zero g = refl
relayed (suc i) zero zero (suc c) g = refl
relayed (suc i) zero (suc r) zero g = refl
relayed (suc i) zero (suc r) (suc c) g = refl
relayed (suc i) (suc o) zero zero g = refl
relayed (suc i) (suc o) zero (suc c) g = refl
relayed (suc i) (suc o) (suc r) zero g = refl
relayed (suc i) (suc o) (suc r) (suc c) g = refl

-- The totals of a relayed stream are added count by count where the stream reported uncached input. Where
-- it did not, as for a prompt that was wholly cached, only the output is added: the cache reads and the
-- cache writes are lost.
pub accumulate_token_usage-relayed :
    (t : Totals) (g : Ledger)
    → accumulate_token_usage (dict_of t) g
      ≡ some (recorded t.input t.output t.cache_read t.cache_creation g)
accumulate_token_usage-relayed t g = relayed t.input t.output t.cache_read t.cache_creation g
