-- ===== src/Broker/Stream/Frames.antt =====
-- The frames of a byte stream, cut off one after another.
use mathlib.Core.List.{append_assoc}
use soma_benchmark.Base.{
  ℕ, zero, suc, ◌+◌, ◌*◌, ◌/◌, ◌%◌, ◌^◌, ◌≤◌, ◌≡◌, refl, ap, sym, ◌∙◌, inl, inr, none, some, List,
  [], ◌∷◌, ◌++◌, arith, ◌==◌, if◌then◌else◌, Option-cases,
}
use soma_benchmark.Base.Lists.{
  length, length-append, length-drop, drop-append_le, take-append_le, drop_all, take_all,
}
use soma_benchmark.Broker.Buffer.{Bytes}
use soma_benchmark.Broker.Stream.{next_frame}

-- The frames, each a stream id and a payload, and the bytes behind the last full one.
abbrev pub Cut : Type 0
Cut = List (ℕ × Bytes) × Bytes

abbrev pub add_frame : ℕ → Bytes → Cut → Cut
add_frame id payload (fs, rest) = ((id, payload) ∷ fs, rest)

unfoldable pub frames : ℕ → Bytes → Cut
frames zero s = ([], s)
frames (suc fuel) s = elim (next_frame s) [
  | none ↦ ([], s)
  | some (id, payload, rest) ↦ add_frame id payload (frames fuel rest)
]

pub frames_done : (f : ℕ) (s : Bytes) → next_frame s ≡ none → frames f s ≡ ([], s)
unfolding frames
frames_done zero s e = refl
frames_done (suc f) s e = rw (e, frames)

pub frames_next :
    (f : ℕ) (s : Bytes) (id : ℕ) (payload rest : Bytes)
    → next_frame s ≡ some (id, payload, rest)
    → frames (suc f) s ≡ add_frame id payload (frames f rest)
unfolding frames
frames_next f s id payload rest e = rw (e, frames)

-- A frame takes eight bytes and its payload.
next_frame-length :
    (s : Bytes) (id : ℕ) (payload rest : Bytes)
    → next_frame s ≡ some (id, payload, rest)
    → length rest + 8 ≤ length s
unfolding next_frame
next_frame-length (i ∷ x ∷ y ∷ z ∷ a ∷ b ∷ c ∷ d ∷ body) id payload rest h =
    ground (arith, length-drop (a * 2 ^ 24 + b * 2 ^ 16 + c * 2 ^ 8 + d) body)
next_frame-length _ id payload rest h = cc

-- More bytes behind a full frame do not change it.
next_frame-append :
    (s t : Bytes) (id : ℕ) (payload rest : Bytes)
    → next_frame s ≡ some (id, payload, rest)
    → next_frame (s ++ t) ≡ some (id, payload, rest ++ t)
unfolding next_frame
next_frame-append (i ∷ x ∷ y ∷ z ∷ a ∷ b ∷ c ∷ d ∷ body) t id payload rest h =
    let n = a * 2 ^ 24 + b * 2 ^ 16 + c * 2 ^ 8 + d in
    ground (arith, length-append body t, drop-append_le n body t, take-append_le n body t)
next_frame-append _ t id payload rest h = cc

frames-fuel : (f g : ℕ) (s : Bytes) → length s ≤ f → length s ≤ g → frames f s ≡ frames g s
unfolding frames next_frame
frames-fuel zero zero s hf hg = refl
frames-fuel zero (suc g) [] hf hg = refl
frames-fuel (suc f) zero [] hf hg = refl
frames-fuel zero (suc g) (x ∷ s) hf hg = absurd (omega arith)
frames-fuel (suc f) zero (x ∷ s) hf hg = absurd (omega arith)
frames-fuel (suc f) (suc g) s hf hg = elim (Option-cases (next_frame s)) [
  | inl e ↦ frames_done (suc f) s e ∙ sym (frames_done (suc g) s e)
  | inr ((id, payload, rest), e) ↦
      let l = next_frame-length s id payload rest e in
      frames_next f s id payload rest e
      ∙ ap (add_frame id payload) (frames-fuel f g rest (omega arith) (omega arith))
      ∙ sym (frames_next g s id payload rest e)
]

abbrev pub behind : List (ℕ × Bytes) → Cut → Cut
behind fs (gs, rest) = (fs ++ gs, rest)

-- Cutting a longer stream goes on where cutting the shorter one stopped.
pub frames-append :
    (f g h : ℕ) (s t : Bytes)
    → length s ≤ f
    → length (s ++ t) ≤ g
    → length ((frames f s).1 ++ t) ≤ h
    → frames g (s ++ t) ≡ behind (frames f s).0 (frames h ((frames f s).1 ++ t))
unfolding frames
frames-append zero g h s t hf hg hh = frames-fuel g h (s ++ t) hg hh
frames-append (suc f) zero h [] [] hf hg hh =
    let d = frames_done (suc f) [] (unfold next_frame in refl) in
    rw d (frames-fuel zero h [] hg (rw d at hh))
frames-append (suc f) zero h [] (y ∷ t) hf hg hh = absurd (omega arith)
frames-append (suc f) zero h (x ∷ s) t hf hg hh = absurd (omega arith)
frames-append (suc f) (suc g) h s t hf hg hh = elim (Option-cases (next_frame s)) [
  | inl e ↦ let d = frames_done (suc f) s e in rw d (frames-fuel (suc g) h (s ++ t) hg (rw d at hh))
  | inr ((id, payload, rest), e) ↦
      let l = next_frame-length s id payload rest e in
      let d = frames_next f s id payload rest e in
      rw
        (d, frames_next g (s ++ t) id payload (rest ++ t) (next_frame-append s t id payload rest e))
        (ap (add_frame id payload) (
          frames-append f g h rest t (omega arith)
            (omega (arith, length-append s t, length-append rest t)) (rw d at hh)))
]

-- The bytes that go to each of the two outputs.
abbrev pub outs : List (ℕ × Bytes) → Bytes
outs [] = []
outs ((id, payload) ∷ fs) = if id == 2 then outs fs else payload ++ outs fs

abbrev pub errs : List (ℕ × Bytes) → Bytes
errs [] = []
errs ((id, payload) ∷ fs) = if id == 2 then payload ++ errs fs else errs fs

pub outs-append : (fs gs : List (ℕ × Bytes)) → outs (fs ++ gs) ≡ outs fs ++ outs gs
outs-append [] gs = refl
outs-append ((id, p) ∷ fs) gs =
    ground (arith, outs-append fs gs, append_assoc p (outs fs) (outs gs))

pub errs-append : (fs gs : List (ℕ × Bytes)) → errs (fs ++ gs) ≡ errs fs ++ errs gs
errs-append [] gs = refl
errs-append ((id, p) ∷ fs) gs =
    ground (arith, errs-append fs gs, append_assoc p (errs fs) (errs gs))

-- Docker's frame: the id, three zero bytes, the payload's length in four bytes, the payload.
abbrev pub encode : ℕ × Bytes → Bytes
encode (id, payload) =
    let n = length payload in
    id ∷ 0 ∷ 0 ∷ 0 ∷ (n / 2 ^ 24) ∷ (n / 2 ^ 16 % 256) ∷ (n / 2 ^ 8 % 256) ∷ (n % 256) ∷ payload

abbrev pub encode_all : List (ℕ × Bytes) → Bytes
encode_all [] = []
encode_all (f ∷ fs) = encode f ++ encode_all fs

next_frame-encode :
    (id : ℕ) (payload rest : Bytes)
    → next_frame (encode (id, payload) ++ rest) ≡ some (id, payload, rest)
unfolding next_frame
next_frame-encode id payload rest =
    let n = length payload in
    let e : n / 2 ^ 24 * 2 ^ 24 + n / 2 ^ 16 % 256 * 2 ^ 16 + n / 2 ^ 8 % 256 * 2 ^ 8 + n % 256
        ≡ n =
      omega arith in
    rw e (
      ground (
        arith,
        length-append payload rest,
        drop-append_le n payload rest,
        take-append_le n payload rest,
        take_all n payload,
        drop_all n payload,
      ))

-- Cutting what Docker encodes gives the frames back.
pub frames-encode_all :
    (f : ℕ) (fs : List (ℕ × Bytes))
    → length (encode_all fs) ≤ f
    → frames f (encode_all fs) ≡ (fs, [])
unfolding frames
frames-encode_all zero [] h = refl
frames-encode_all zero (x ∷ fs) h = absurd (omega arith)
frames-encode_all (suc f) [] h = unfold next_frame in refl
frames-encode_all (suc f) ((id, p) ∷ fs) h =
    rw
      (frames_next f (encode_all ((id, p) ∷ fs)) id p (encode_all fs)
        (next_frame-encode id p (encode_all fs)))
      (ap (add_frame id p)
        (frames-encode_all f fs (omega (arith, length-append p (encode_all fs)))))
