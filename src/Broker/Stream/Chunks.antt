-- ===== src/Broker/Stream/Chunks.antt =====
-- `_read_exec_output` on what Docker encodes, and on reads that are late.
use mathlib.Core.List.{append-nil}
use soma_benchmark.Base.{
  ℕ, ◌+◌, ◌≤◌, ◌≡◌, ◌≢◌, ap, sym, ◌∙◌, Bool, true, false, none, some, List, [], ◌∷◌, ◌++◌, arith,
  ltb,
}
use soma_benchmark.Base.Lists.{All, length, concat}
use soma_benchmark.Broker.Buffer.{Bytes}
use soma_benchmark.Broker.Buffer.Window.{value-window}
use soma_benchmark.Broker.Stream.{
  is_framed, read_loop, output_of, read_exec_output, start, conclude, max_output_bytes,
  output_head_bytes, output_tail_bytes,
}
use soma_benchmark.Broker.Stream.Frames.{frames-encode_all, outs, errs, encode_all}
use soma_benchmark.Broker.Stream.Reading.{
  timely, exec_streams, sinks_of, finish-at_stream, read_start,
}

-- However the reads cut the stream, and whatever its bytes, the outputs are those of its full
-- frames in order, the payload of a partial last frame included; a stream with no frame header at
-- its start is passed through. No read is to be empty or late.
pub read_exec_output-chunks :
    (chunks : List Bytes)
    → All (λ c. c ≢ []) chunks
    → let (o, e) = exec_streams (concat chunks) in
      read_exec_output (timely chunks)
      ≡ some (output_of (sinks_of output_head_bytes output_tail_bytes o e))
unfolding read_exec_output
read_exec_output-chunks chunks a =
    let s = concat chunks in
    ap (λ reads. conclude (read_loop reads start)) (sym (append-nil (timely chunks)))
    ∙ ap conclude (read_start chunks [] a)
    ∙ unfold read_loop in
      ap (λ x. some (output_of x)) (finish-at_stream output_head_bytes output_tail_bytes s)

-- A read past the deadline ends the call by `TimeoutError`, whatever was read before.
pub read_exec_output-late :
    (chunks : List Bytes) (late : Bytes) (reads : List (Bool × Bytes))
    → All (λ c. c ≢ []) chunks
    → read_exec_output (timely chunks ++ ((true, late) ∷ reads)) ≡ none
unfolding read_exec_output read_loop
read_exec_output-late chunks late reads a = ap conclude (read_start chunks ((true, late) ∷ reads) a)

output-window :
    (hc tc : ℕ) (o e : Bytes)
    → length o ≤ hc + tc
    → length e ≤ hc + tc
    → output_of (sinks_of hc tc o e) ≡ record { stdout = o; stderr = e; dropped = 0 }
output-window hc tc o e ho he =
    let (vo, dr) = value-window hc tc o ho in
    let (ve, de) = value-window hc tc e he in
    λ i. record { stdout = vo i; stderr = ve i; dropped = dr i + de i }

exec_streams-encode_all :
    (id : ℕ) (payload : Bytes) (fs : List (ℕ × Bytes))
    → let all = (id, payload) ∷ fs in id ≤ 2 → exec_streams (encode_all all) ≡ (outs all, errs all)
exec_streams-encode_all id payload fs h =
    let all = (id, payload) ∷ fs in
    let s = encode_all all in
    let f : is_framed s ≡ true = unfold is_framed in ground arith in
    let l : ltb (length s) 8 ≡ false = ground arith in
    rw (l, f) (rw (frames-encode_all (length s) all (omega arith), append-nil (outs all)))

-- What Docker encodes comes back as it was written, however the reads cut it: each output is the
-- payloads of its frames in order, and nothing is dropped. The first frame's id is 0, 1 or 2, each
-- output fits the cap, and no read is empty or late.
pub read_exec_output-encode_all :
    (id : ℕ) (payload : Bytes) (fs : List (ℕ × Bytes)) (chunks : List Bytes)
    → let all = (id, payload) ∷ fs in
      id ≤ 2
      → All (λ c. c ≢ []) chunks
      → concat chunks ≡ encode_all all
      → length (outs all) ≤ max_output_bytes
      → length (errs all) ≤ max_output_bytes
      → read_exec_output (timely chunks)
        ≡ some (record { stdout = outs all; stderr = errs all; dropped = 0 })
read_exec_output-encode_all id payload fs chunks hi a e ho he =
    let all = (id, payload) ∷ fs in
    let hc = output_head_bytes in
    let tc = output_tail_bytes in
    read_exec_output-chunks chunks a
    ∙ ap (λ s. some (output_of (sinks_of hc tc (exec_streams s).0 (exec_streams s).1))) e
    ∙ ap (λ (p : Bytes × Bytes). some (output_of (sinks_of hc tc p.0 p.1)))
        (exec_streams-encode_all id payload fs hi)
    ∙ ap some (output-window hc tc (outs all) (errs all) (omega arith) (omega arith))
