-- ===== src/Broker/Buffer/Window.antt =====
-- `_CappedBuffer` next to a window on the whole stream.
use mathlib.Core.List.{append-nil, append_assoc}
use soma_benchmark.Base.{
  ℕ, ◌+◌, ◌-◌, ◌≤◌, ◌<◌, ◌≡◌, ap, sym, ◌∙◌, inl, inr, List, [], ◌∷◌, ◌++◌, arith, ltb, Bool-cases,
}
use soma_benchmark.Base.Lists.{
  length, take, drop, concat, length-append, length-drop, length-take, take-append, drop-append,
  drop-drop, drop_all, take_all, drop-append_le, take-append_le, take-append-drop,
}
use soma_benchmark.Broker.Buffer.{
  Bytes, CappedBuffer, new, append_tail, append_rest, append, append_all, value,
}

module _ (hc tc : ℕ) where
  -- The buffer after the stream `s`: its first `hc` bytes, the last `tc` of the others, and the
  -- number of those between.
  abbrev pub window : Bytes → CappedBuffer
  window s =
      let rest = drop hc s in
      record {
        head = take hc s;
        tail = drop (length rest - tc) rest;
        head_cap = hc;
        tail_cap = tc;
        dropped = length rest - tc;
      }

  abbrev windowed : Bytes → Bytes → CappedBuffer
  windowed h rest = record {
    head = h;
    tail = drop (length rest - tc) rest;
    head_cap = hc;
    tail_cap = tc;
    dropped = length rest - tc;
  }

  abbrev built : Bytes → Bytes → ℕ → CappedBuffer
  built h t n = record { head = h; tail = t; head_cap = hc; tail_cap = tc; dropped = n }

  -- One more chunk moves the tail's window over the longer rest.
  drop_window :
      (rest c : Bytes)
      → drop (length (drop (length rest - tc) rest ++ c) - tc) (drop (length rest - tc) rest ++ c)
        ≡ drop (length (rest ++ c) - tc) (rest ++ c)
  drop_window rest c =
      let a = length rest - tc in
      rw (← drop-append_le a rest c (omega arith)) (
        drop-drop (length (drop a (rest ++ c)) - tc) a (rest ++ c)
        ∙ ap (λ n. drop n (rest ++ c))
            (omega (arith, length-drop a (rest ++ c), length-append rest c)))

  tail_length :
      (rest c : Bytes)
      → length (drop (length rest - tc) rest ++ c) ≡ length rest - (length rest - tc) + length c
  tail_length rest c =
      omega
        (arith, length-append (drop (length rest - tc) rest) c, length-drop (length rest - tc) rest)

  append_tail-windowed :
      (h rest c : Bytes) → append_tail (windowed h rest) c ≡ windowed h (rest ++ c)
  unfolding append_tail
  append_tail-windowed h rest c =
      let t = drop (length rest - tc) rest ++ c in
      let n = tail_length rest c in
      let m = length-append rest c in
      elim (Bool-cases (ltb tc (length t))) [
        | inl over ↦
            let q : length rest - tc + (length t - tc) ≡ length (rest ++ c) - tc = ground arith in
            rw over (λ i. built h (drop_window rest c i) (q i))
        | inr fits ↦
            let q : length rest - tc ≡ length (rest ++ c) - tc = ground arith in
            let z : length t - tc ≡ 0 = ground arith in
            rw fits (λ i. built h ((ap (λ k. drop k t) (sym z) ∙ drop_window rest c) i) (q i))
      ]

  append_rest-windowed :
      (h rest c : Bytes) → append_rest (windowed h rest) c ≡ windowed h (rest ++ c)
  unfolding append_rest
  append_rest-windowed h rest [] = ap (windowed h) (sym (append-nil rest))
  append_rest-windowed h rest (x ∷ c) = append_tail-windowed h rest (x ∷ c)

  pub append-window : (s c : Bytes) → append (window s) c ≡ window (s ++ c)
  unfolding append
  append-window s [] = ap window (sym (append-nil s))
  append-window s (x ∷ c) =
      let l = length-take hc s in
      let d = drop-append hc s (x ∷ c) in
      let t = take-append hc s (x ∷ c) in
      elim (Bool-cases (ltb (length (take hc s)) hc)) [
        | inl room ↦
            let n : length s ≤ hc = ground arith in
            let e : hc - length (take hc s) ≡ hc - length s = ground arith in
            rw (room, e, d, t, drop_all hc s n)
              (append_rest-windowed (take hc s ++ take (hc - length s) (x ∷ c)) []
                (drop (hc - length s) (x ∷ c)))
        | inr full ↦
            let n : hc ≤ length s = ground arith in
            rw (full, drop-append_le hc s (x ∷ c) n, take-append_le hc s (x ∷ c) n)
              (append_tail-windowed (take hc s) (drop hc s) (x ∷ c))
      ]

  append_all-window :
      (s : Bytes) (chunks : List Bytes) → append_all (window s) chunks ≡ window (s ++ concat chunks)
  unfolding append_all
  append_all-window s [] = ap window (sym (append-nil s))
  append_all-window s (c ∷ chunks) =
      rw (append-window s c)
        (append_all-window (s ++ c) chunks ∙ ap window (append_assoc s c (concat chunks)))

  take_nil : (n : ℕ) → take n (let e : Bytes = [] in e) ≡ []
  take_nil n = take_all n [] (omega arith)

  drop_nil : (n : ℕ) → drop n (let e : Bytes = [] in e) ≡ []
  drop_nil n = drop_all n [] (omega arith)

  zero_sub : (n : ℕ) → 0 - n ≡ 0
  zero_sub n = omega arith

  pub window_nil : new hc tc ≡ window []
  unfolding new
  window_nil = simp (take_nil hc, drop_nil hc, zero_sub tc)

  -- However a stream is cut into chunks, the buffer ends with its first `hc` bytes, with the last
  -- `tc` of the others, and with the count of the bytes between.
  pub append_all-new :
      (chunks : List Bytes) → append_all (new hc tc) chunks ≡ window (concat chunks)
  unfolding new
  append_all-new chunks = rw window_nil (append_all-window [] chunks)

  dropped_none : (s : Bytes) → length s ≤ hc + tc → length (drop hc s) - tc ≡ 0
  dropped_none s h = omega (arith, length-drop hc s)

  -- A buffer that has dropped nothing gives the stream back.
  pub value-window :
      (s : Bytes) → length s ≤ hc + tc → (value (window s) ≡ s) × ((window s).dropped ≡ 0)
  unfolding value
  value-window s h = let z = dropped_none s h in (rw z (take-append-drop hc s), z)

  -- A stream of at most `hc + tc` bytes comes back whole; of a longer one the buffer keeps `hc + tc`
  -- bytes and reports the number of the others.
  pub value-append_all :
      (chunks : List Bytes)
      → let b = append_all (new hc tc) chunks in
        let s = concat chunks in
        (length s ≤ hc + tc → value b ≡ s)
        × (hc + tc < length s
            → (length b.head + length b.tail ≡ hc + tc) × (b.dropped + (hc + tc) ≡ length s))
  value-append_all chunks = rw (append_all-new chunks) (
      let s = concat chunks in
      let l = length-drop hc s in
      let m = length-drop (length (drop hc s) - tc) (drop hc s) in
      let n = length-take hc s in
      (λ h. (value-window s h).0, λ h. (omega (arith, l, m, n), omega (arith, l))))
