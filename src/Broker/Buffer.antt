-- ===== src/Broker/Buffer.antt =====
-- `_CappedBuffer` of swe_exec_broker.py: the head and the tail of a stream, without its middle.
pub mod Window
use Prim.Native.Char.{code}
use Prim.Native.String
use soma_benchmark.Base.{
  ℕ, zero, suc, ◌+◌, ◌-◌, ◌/◌, ◌%◌, String, List, [], ◌∷◌, ◌++◌, ltb, ◌==◌, if◌then◌else◌,
}
use soma_benchmark.Base.Lists.{length, take, drop}

abbrev pub Bytes : Type 0
Bytes = List ℕ

-- The bytes of an ASCII text.
abbrev pub ascii : String → Bytes
ascii String.[] = []
ascii (String.◌∷◌ c s) = code c ∷ ascii s

pub record CappedBuffer : Type 0 where
  pub head : Bytes
  pub tail : Bytes
  pub head_cap : ℕ
  pub tail_cap : ℕ
  pub dropped : ℕ

unfoldable pub new : ℕ → ℕ → CappedBuffer
new head_bytes tail_bytes = record {
  head = [];
  tail = [];
  head_cap = head_bytes;
  tail_cap = tail_bytes;
  dropped = 0;
}

-- The end of `append`, for a chunk that is past the head.
append_tail : CappedBuffer → Bytes → CappedBuffer
append_tail b chunk =
    let tail = b.tail ++ chunk in
    let excess = length tail - b.tail_cap in
    if ltb b.tail_cap (length tail)
    then record b { tail = drop excess tail; dropped = b.dropped + excess }
    else record b { tail = tail }

append_rest : CappedBuffer → Bytes → CappedBuffer
append_rest b [] = b
append_rest b (x ∷ chunk) = append_tail b (x ∷ chunk)

unfoldable pub append : CappedBuffer → Bytes → CappedBuffer
unfolding append_tail append_rest
append b [] = b
append b (x ∷ chunk) =
    let n = b.head_cap - length b.head in
    if ltb (length b.head) b.head_cap
    then append_rest (record b { head = b.head ++ take n (x ∷ chunk) }) (drop n (x ∷ chunk))
    else append_tail b (x ∷ chunk)

-- `str(n)`: a number below 10 ^ fuel has at most `fuel` digits.
decimal_from : ℕ → ℕ → Bytes → Bytes
decimal_from zero n acc = acc
decimal_from (suc f) n acc =
    let digits = (b'0' + n % 10) ∷ acc in
    let rest = decimal_from f (n / 10) digits in if ltb n 10 then digits else rest

unfoldable pub decimal : ℕ → Bytes
unfolding decimal_from
decimal n = decimal_from (n + 1) n []

marker : ℕ → Bytes
unfolding decimal
marker n =
    (10 ∷ 10 ∷ ascii "[swe-exec: ")
    ++ decimal n
    ++ ascii " bytes of output omitted here; the head and tail of the stream are shown]"
    ++ 10 ∷ 10 ∷ []

unfoldable pub value : CappedBuffer → Bytes
unfolding marker
value b = if b.dropped == 0 then b.head ++ b.tail else (b.head ++ marker b.dropped) ++ b.tail

-- The loop of calls on one buffer.
unfoldable pub append_all : CappedBuffer → List Bytes → CappedBuffer
unfolding append
append_all b [] = b
append_all b (chunk ∷ chunks) = append_all (append b chunk) chunks
