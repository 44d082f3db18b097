-- ===== src/Broker/Stream/Reading.antt =====
-- The loop of `_read_exec_output` next to a decoder of the whole stream.
use mathlib.Core.Path.{ap₂}
use mathlib.Core.List.{append-nil, append_assoc}
use soma_benchmark.Base.{
  ℕ, zero, suc, ◌≤◌, ◌≡◌, ◌≢◌, refl, ap, sym, ◌∙◌, inl, inr, Bool, true, false, not, ◌&&◌, none,
  some, List, [], ◌∷◌, ◌++◌, arith, ltb, ◌==◌, if◌then◌else◌, Bool-cases, Option-cases,
}
use soma_benchmark.Base.Lists.{All, length, drop, concat, length-append}
use soma_benchmark.Broker.Buffer.{Bytes, append}
use soma_benchmark.Broker.Buffer.Window.{window, append-window, window_nil}
use soma_benchmark.Broker.Stream.{
  next_frame, Sinks, route, drain, Reader, decide_framing, last_frame, is_true, is_framed, step,
  read_loop, finish, start, output_head_bytes, output_tail_bytes,
}
use soma_benchmark.Broker.Stream.Frames.{
  frames, frames_done, frames_next, frames-append, outs, errs, outs-append, errs-append,
}

-- Reads that all come before the deadline.
abbrev pub timely : List Bytes → List (Bool × Bytes)
timely [] = []
timely (c ∷ chunks) = (false, c) ∷ timely chunks

-- The two outputs that a whole stream stands for.
abbrev pub exec_streams : Bytes → Bytes × Bytes
exec_streams s =
    let (fs, rest) = frames (length s) s in
    if not (ltb (length s) 8) && is_framed s then (outs fs ++ drop 8 rest, errs fs) else (s, [])

module _ (hc tc : ℕ) where
  -- The sinks after the streams `o` and `e`.
  abbrev pub sinks_of : Bytes → Bytes → Sinks
  sinks_of o e = record { stdout = window hc tc o; stderr = window hc tc e }

  route-sinks_of :
      (id : ℕ) (payload o e : Bytes)
      → route id payload (sinks_of o e)
        ≡ sinks_of (o ++ outs ((id, payload) ∷ [])) (e ++ errs ((id, payload) ∷ []))
  route-sinks_of id payload o e = elim (Bool-cases (id == 2)) [
    | inl h ↦ rw h (rw (append-window hc tc e payload, append-nil o, append-nil payload))
    | inr h ↦ rw h (rw (append-window hc tc o payload, append-nil e, append-nil payload))
  ]

  drain-sinks_of :
      (f : ℕ) (s o e : Bytes)
      → let (fs, rest) = frames f s in
        drain f (sinks_of o e) s ≡ (sinks_of (o ++ outs fs) (e ++ errs fs), rest)
  unfolding drain
  drain-sinks_of zero s o e = unfold frames in rw (append-nil o, append-nil e)
  drain-sinks_of (suc f) s o e = elim (Option-cases (next_frame s)) [
    | inl n ↦ rw (frames_done (suc f) s n) (rw (n, drain) (rw (append-nil o, append-nil e)))
    | inr ((id, payload, rest), n) ↦
        let fs = (frames f rest).0 in
        let one = (id, payload) ∷ [] in
        rw (frames_next f s id payload rest n) (
          rw (n, drain)
            (rw (route-sinks_of id payload o e) (
              drain-sinks_of f rest (o ++ outs one) (e ++ errs one)
              ∙ ap₂ (λ a b. (sinks_of a b, (frames f rest).1))
                  (append_assoc o (outs one) (outs fs)
                    ∙ ap (λ r. o ++ r) (sym (outs-append one fs)))
                  (append_assoc e (errs one) (errs fs)
                    ∙ ap (λ r. e ++ r) (sym (errs-append one fs))))))
  ]

  -- The reader after the stream `p`: nothing is decided before eight bytes, then its first header
  -- decides between frames and bytes that are passed through.
  pub at_stream : Bytes → Reader
  at_stream p =
      let (fs, rest) = frames (length p) p in
      if ltb (length p) 8
      then record { sinks = sinks_of [] []; buffer = p; framed = none }
      else if is_framed p
      then record { sinks = sinks_of (outs fs) (errs fs); buffer = rest; framed = some true }
      else record { sinks = sinks_of p []; buffer = []; framed = some false }

  is_framed-append : (p c : Bytes) → 8 ≤ length p → is_framed (p ++ c) ≡ is_framed p
  unfolding is_framed
  is_framed-append [] c h = absurd (omega arith)
  is_framed-append (x ∷ []) c h = absurd (omega arith)
  is_framed-append (x ∷ y ∷ []) c h = absurd (omega arith)
  is_framed-append (x ∷ y ∷ z ∷ []) c h = absurd (omega arith)
  is_framed-append (x ∷ y ∷ z ∷ w ∷ p) c h = refl

  long_enough : (p c : Bytes) → ltb (length p) 8 ≡ false → ltb (length (p ++ c)) 8 ≡ false
  long_enough p c h = ground (arith, length-append p c)

  decide_framing-at_stream :
      (q b : Bytes)
      → decide_framing (record { sinks = sinks_of [] []; buffer = b; framed = none }) q
        ≡ at_stream q
  unfolding at_stream
  decide_framing-at_stream q b = elim (Bool-cases (ltb (length q) 8)) [
    | inl h ↦ rw h
    | inr h ↦ elim (Bool-cases (is_framed q)) [
      | inl f ↦ rw (h, f, drain-sinks_of (length q) q [] [])
      | inr f ↦ rw (h, f, append-window hc tc [] q)
    ]
  ]

  step-short : (p c : Bytes) → ltb (length p) 8 ≡ true → step (at_stream p) c ≡ at_stream (p ++ c)
  unfolding step at_stream
  step-short p c h = rw h (decide_framing-at_stream (p ++ c) p)

  step-framed :
      (p c : Bytes)
      → ltb (length p) 8 ≡ false
      → is_framed p ≡ true
      → step (at_stream p) c ≡ at_stream (p ++ c)
  unfolding step at_stream
  step-framed p c h f =
      let (fs, rest) = frames (length p) p in
      let q = rest ++ c in
      let (gs, last) = frames (length q) q in
      let e =
        frames-append (length p) (length (p ++ c)) (length q) p c (omega arith) (omega arith)
          (omega arith) in
      rw (h, f)
        (rw (long_enough p c h, is_framed-append p c (ground arith) ∙ f, e)
          (rw (drain-sinks_of (length q) q (outs fs) (errs fs))
            (rw (outs-append fs gs, errs-append fs gs))))

  step-raw :
      (p c : Bytes)
      → ltb (length p) 8 ≡ false
      → is_framed p ≡ false
      → step (at_stream p) c ≡ at_stream (p ++ c)
  unfolding step at_stream
  step-raw p c h f =
      rw (h, f)
        (rw (long_enough p c h, is_framed-append p c (ground arith) ∙ f)
          (rw (append-window hc tc p c)))

  step-at_stream : (p c : Bytes) → step (at_stream p) c ≡ at_stream (p ++ c)
  step-at_stream p c = elim (Bool-cases (ltb (length p) 8)) [
    | inl h ↦ step-short p c h
    | inr h ↦ elim (Bool-cases (is_framed p)) [
      | inl f ↦ step-framed p c h f
      | inr f ↦ step-raw p c h f
    ]
  ]

  read_loop-at_stream :
      (p : Bytes) (chunks : List Bytes) (more : List (Bool × Bytes))
      → All (λ c. c ≢ []) chunks
      → read_loop (timely chunks ++ more) (at_stream p)
        ≡ read_loop more (at_stream (p ++ concat chunks))
  unfolding read_loop
  read_loop-at_stream p [] more a = rw (append-nil p)
  read_loop-at_stream p ([] ∷ chunks) more a = absurd (a.0 refl)
  read_loop-at_stream p ((x ∷ c) ∷ chunks) more a =
      ap (read_loop (timely chunks ++ more)) (step-at_stream p (x ∷ c))
      ∙ read_loop-at_stream (p ++ (x ∷ c)) chunks more a.1
      ∙ ap (λ s. read_loop more (at_stream s)) (append_assoc p (x ∷ c) (concat chunks))

  last_frame-append :
      (r : Reader) (b : Bytes)
      → last_frame r b ≡ record r.sinks {
        stdout = append r.sinks.stdout (if is_true r.framed then drop 8 b else b);
      }
  unfolding append
  last_frame-append r [] = elim (Bool-cases (is_true r.framed)) [ inl h ↦ rw h | inr h ↦ rw h ]
  last_frame-append r (x ∷ b) = refl

  pub finish-at_stream :
      (s : Bytes) → finish (at_stream s) ≡ sinks_of (exec_streams s).0 (exec_streams s).1
  unfolding finish at_stream
  finish-at_stream s = elim (Bool-cases (ltb (length s) 8)) [
    | inl h ↦ rw h (
        last_frame-append (record { sinks = sinks_of [] []; buffer = s; framed = none }) s
        ∙ rw (append-window hc tc [] s))
    | inr h ↦ elim (Bool-cases (is_framed s)) [
      | inl f ↦
          let (fs, rest) = frames (length s) s in
          rw (h, f)
            (last_frame-append
                (record { sinks = sinks_of (outs fs) (errs fs); buffer = rest; framed = some true })
                rest
              ∙ rw (append-window hc tc (outs fs) (drop 8 rest)))
      | inr f ↦ rw (h, f)
    ]
  ]

start-at_stream : start ≡ at_stream output_head_bytes output_tail_bytes []
unfolding at_stream
start-at_stream =
    let w = window_nil output_head_bytes output_tail_bytes in
    λ i. record { sinks = record { stdout = w i; stderr = w i }; buffer = []; framed = none }

pub read_start :
    (chunks : List Bytes) (more : List (Bool × Bytes))
    → All (λ c. c ≢ []) chunks
    → read_loop (timely chunks ++ more) start
      ≡ read_loop more (at_stream output_head_bytes output_tail_bytes (concat chunks))
read_start chunks more a =
    ap (read_loop (timely chunks ++ more)) start-at_stream
    ∙ read_loop-at_stream output_head_bytes output_tail_bytes [] chunks more a
