-- ===== src/Compressor/Store/Lookup.antt =====
-- What a lookup finds after each operation of the store.
use soma_benchmark.Base.{
  ℕ, String, ◌≡◌, refl, false, Option, none, some, List, [], ◌∷◌, arith, str_eq, eq_iff,
  if◌then◌else◌, inl, inr, Bool-cases,
}
use soma_benchmark.Compressor.Store.{is_expired, get, drop, purge, insert, add}

module _ {ℓ} {S : Type ℓ} (created : S → ℕ) where
  -- No id is listed twice, as in a dict.
  abbrev pub IsDict : List (String × S) → Type ℓ
  IsDict [] = Unit
  IsDict ((j, s) ∷ d) = (get j d ≡ none) × IsDict d

  abbrev pub live : ℕ → Option S → Option S
  live now none = none
  live now (some s) = if is_expired created now s then none else some s

  pub get-insert :
      (sid j : String) (s : S) (d : List (String × S))
      → get j (insert sid s d) ≡ (if str_eq sid j then some s else get j d)
  unfolding get insert
  get-insert sid j s [] = refl
  get-insert sid j s ((i, t) ∷ d) =
      ground (arith, get-insert sid j s d, eq_iff i sid, eq_iff i j, eq_iff sid j)

  get-purge :
      (now : ℕ) (j : String) (d : List (String × S))
      → IsDict d
      → get j (purge created now d) ≡ live now (get j d)
  unfolding get purge
  get-purge now j [] h = refl
  get-purge now j ((i, t) ∷ d) h = ground (arith, get-purge now j d h.1, eq_iff i j)

  -- After `add` the new session is found under its id. Under any other id the store finds the session
  -- that it found before, unless that has expired.
  pub get-add :
      (now : ℕ) (sid j : String) (s : S) (d : List (String × S))
      → IsDict d
      → get j (add created now sid s d) ≡ (if str_eq sid j then some s else live now (get j d))
  unfolding add
  get-add now sid j s d h = rw (get-insert sid j s (purge created now d), get-purge now j d h)

  -- A dropped session is not found, and every other one is as before.
  pub get-drop :
      (sid j : String) (d : List (String × S))
      → get j (drop sid d) ≡ (if str_eq sid j then none else get j d)
  unfolding get drop
  get-drop sid j [] = ground arith
  get-drop sid j ((i, t) ∷ d) =
      ground (arith, get-drop sid j d, eq_iff i sid, eq_iff i j, eq_iff sid j)

  get-purge-none :
      (now : ℕ) (j : String) (d : List (String × S))
      → get j d ≡ none
      → get j (purge created now d) ≡ none
  unfolding get purge
  get-purge-none now j [] h = refl
  get-purge-none now j ((i, t) ∷ d) h = ground (arith, get-purge-none now j d)

  pub purge-IsDict : (now : ℕ) (d : List (String × S)) → IsDict d → IsDict (purge created now d)
  unfolding purge
  purge-IsDict now [] h = tt
  purge-IsDict now ((i, t) ∷ d) h = elim (Bool-cases (is_expired created now t)) [
    | inl e ↦ rw e (purge-IsDict now d h.1)
    | inr e ↦ rw e (get-purge-none now i d h.0, purge-IsDict now d h.1)
  ]

  get-insert-none :
      (sid j : String) (s : S) (d : List (String × S))
      → str_eq sid j ≡ false
      → get j d ≡ none
      → get j (insert sid s d) ≡ none
  get-insert-none sid j s d n h = rw (get-insert sid j s d, n, h)

  pub insert-IsDict :
      (sid : String) (s : S) (d : List (String × S)) → IsDict d → IsDict (insert sid s d)
  unfolding insert get
  insert-IsDict sid s [] h = (refl, tt)
  insert-IsDict sid s ((j, t) ∷ d) h = elim (Bool-cases (str_eq j sid)) [
    | inl e ↦ let i : j ≡ sid = ground (arith, eq_iff j sid) in rw e (rw i at h)
    | inr e ↦
        let e' : str_eq sid j ≡ false = ground (arith, eq_iff j sid, eq_iff sid j) in
        rw e (get-insert-none sid j s d e' h.0, insert-IsDict sid s d h.1)
  ]

  pub add-IsDict :
      (now : ℕ) (sid : String) (s : S) (d : List (String × S))
      → IsDict d
      → IsDict (add created now sid s d)
  unfolding add
  add-IsDict now sid s d h = insert-IsDict sid s (purge created now d) (purge-IsDict now d h)

  pub drop-IsDict : (sid : String) (d : List (String × S)) → IsDict d → IsDict (drop sid d)
  unfolding drop
  drop-IsDict sid [] h = tt
  drop-IsDict sid ((j, t) ∷ d) h = elim (Bool-cases (str_eq j sid)) [
    | inl e ↦ rw e (drop-IsDict sid d h.1)
    | inr e ↦
        let e' : str_eq sid j ≡ false = ground (arith, eq_iff j sid, eq_iff sid j) in
        let i : get j (drop sid d) ≡ none = rw (get-drop sid j d, e') h.0 in
        rw e (i, drop-IsDict sid d h.1)
  ]
