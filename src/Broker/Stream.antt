-- ===== src/Broker/Stream.antt =====
-- `_read_exec_output` of swe_exec_broker.py: Docker's multiplexed exec stream, read to its end.
pub mod Chunks
pub mod Reading
pub mod Frames
use soma_benchmark.Base.{
  ℕ, zero, suc, ◌+◌, ◌-◌, ◌*◌, ◌/◌, ◌^◌, Bool, true, false, ◌&&◌, ◌||◌, Option, none, some, List,
  [], ◌∷◌, ◌++◌, ltb, ◌==◌, if◌then◌else◌,
}
use soma_benchmark.Base.Lists.{length, take, drop}
use soma_benchmark.Broker.Buffer.{Bytes, CappedBuffer, new, append, value}

abbrev pub max_output_bytes : ℕ
max_output_bytes = 16 * 1024 * 1024

abbrev pub output_head_bytes : ℕ
output_head_bytes = max_output_bytes / 2

abbrev pub output_tail_bytes : ℕ
output_tail_bytes = max_output_bytes - output_head_bytes

pub record Sinks : Type 0 where
  pub stdout : CappedBuffer
  pub stderr : CappedBuffer

-- The first frame of the buffer, if it is there in full: its stream id, its payload and what follows.
unfoldable pub next_frame : Bytes → Option (ℕ × Bytes × Bytes)
next_frame (i ∷ _ ∷ _ ∷ _ ∷ a ∷ b ∷ c ∷ d ∷ body) =
    let size = a * 2 ^ 24 + b * 2 ^ 16 + c * 2 ^ 8 + d in
    if ltb (length body) size then none else some (i, take size body, drop size body)
next_frame _ = none

abbrev pub route : ℕ → Bytes → Sinks → Sinks
route id payload s =
    if id == 2
    then record s { stderr = append s.stderr payload }
    else record s { stdout = append s.stdout payload }

-- The inner loop: every frame takes at least eight bytes, so the length of the buffer is fuel enough.
unfoldable pub drain : ℕ → Sinks → Bytes → Sinks × Bytes
unfolding next_frame
drain zero s buffer = (s, buffer)
drain (suc fuel) s buffer = elim (next_frame buffer) [
  | none ↦ (s, buffer)
  | some (id, payload, rest) ↦ drain fuel (route id payload s) rest
]

-- The local variables of the function.
pub record Reader : Type 0 where
  pub sinks : Sinks
  pub buffer : Bytes
  pub framed : Option Bool

-- `buffer[0] in (0, 1, 2) and buffer[1:4] == b"\x00\x00\x00"`
unfoldable pub is_framed : Bytes → Bool
is_framed (i ∷ x ∷ y ∷ z ∷ _) = (i == 0 || i == 1 || i == 2) && (x == 0 && y == 0 && z == 0)
is_framed _ = false

abbrev drained : Sinks → Bytes → Reader
drained s buffer =
    let (s', rest) = drain (length buffer) s buffer in
    record { sinks = s'; buffer = rest; framed = some true }

abbrev pass_through : Reader → Bytes → Reader
pass_through r chunk = record r { sinks = record r.sinks { stdout = append r.sinks.stdout chunk } }

abbrev decide_framing : Reader → Bytes → Reader
decide_framing r buffer =
    if ltb (length buffer) 8
    then record r { buffer = buffer }
    else if is_framed buffer
    then drained r.sinks buffer
    else record {
      sinks = record r.sinks { stdout = append r.sinks.stdout buffer };
      buffer = [];
      framed = some false;
    }

-- One round of the loop, for a chunk that is not empty.
unfoldable pub step : Reader → Bytes → Reader
unfolding drain is_framed append
step r chunk = elim r.framed [
  | none ↦ decide_framing r (r.buffer ++ chunk)
  | some true ↦ drained r.sinks (r.buffer ++ chunk)
  | some false ↦ pass_through r chunk
]

-- The reads: whether the deadline has passed before it, and the chunk. `none` is `TimeoutError`.
unfoldable pub read_loop : List (Bool × Bytes) → Reader → Option Reader
unfolding step
read_loop [] r = some r
read_loop ((true, chunk) ∷ reads) r = none
read_loop ((false, []) ∷ reads) r = some r
read_loop ((false, x ∷ chunk) ∷ reads) r = read_loop reads (step r (x ∷ chunk))

abbrev is_true : Option Bool → Bool
is_true (some true) = true
is_true _ = false

abbrev last_frame : Reader → Bytes → Sinks
last_frame r [] = r.sinks
last_frame r (x ∷ buffer) = record r.sinks {
  stdout = append r.sinks.stdout (if is_true r.framed then drop 8 (x ∷ buffer) else x ∷ buffer);
}

-- A trailing partial frame keeps the payload that has arrived.
unfoldable pub finish : Reader → Sinks
unfolding append
finish r = last_frame r r.buffer

abbrev pub empty_sinks : Sinks
empty_sinks = record {
  stdout = new output_head_bytes output_tail_bytes;
  stderr = new output_head_bytes output_tail_bytes;
}

pub record Output : Type 0 where
  pub stdout : Bytes
  pub stderr : Bytes
  pub dropped : ℕ

abbrev pub output_of : Sinks → Output
output_of s = record {
  stdout = value s.stdout;
  stderr = value s.stderr;
  dropped = s.stdout.dropped + s.stderr.dropped;
}

abbrev pub start : Reader
start = record { sinks = empty_sinks; buffer = []; framed = none }

abbrev pub conclude : Option Reader → Option Output
conclude none = none
conclude (some r) = some (output_of (finish r))

unfoldable pub read_exec_output : List (Bool × Bytes) → Option Output
unfolding read_loop finish
read_exec_output reads = conclude (read_loop reads start)
