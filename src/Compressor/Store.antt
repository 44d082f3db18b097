-- ===== src/Compressor/Store.antt =====
-- `SessionStore` of src/compression_service/app/services.py: a dict under a lock, so each method is one
-- step. Time is in milliseconds.
pub mod Lookup
use soma_benchmark.Base.{
  ℕ, ◌-◌, ◌*◌, String, Bool, Option, none, some, List, [], ◌∷◌, ltb, str_eq, if◌then◌else◌,
}

abbrev pub session_ttl_ms : ℕ
session_ttl_ms = 300 * 1000

-- A dict from session ids to sessions.
module _ {ℓ} {S : Type ℓ} where
  unfoldable pub get : String → List (String × S) → Option S
  get sid [] = none
  get sid ((j, s) ∷ d) = if str_eq j sid then some s else get sid d

  unfoldable pub drop : String → List (String × S) → List (String × S)
  drop sid [] = []
  drop sid ((j, s) ∷ d) = let rest = drop sid d in if str_eq j sid then rest else (j, s) ∷ rest

  unfoldable pub insert : String → S → List (String × S) → List (String × S)
  insert sid s [] = (sid, s) ∷ []
  insert sid s ((j, t) ∷ d) = if str_eq j sid then (sid, s) ∷ d else (j, t) ∷ insert sid s d

-- `created` is the field of a session that holds the time at which it was made.
module _ {ℓ} {S : Type ℓ} (created : S → ℕ) where
  abbrev pub is_expired : ℕ → S → Bool
  is_expired now s = ltb session_ttl_ms (now - created s)

  unfoldable pub purge : ℕ → List (String × S) → List (String × S)
  purge now [] = []
  purge now ((j, s) ∷ d) =
      let rest = purge now d in if is_expired now s then rest else (j, s) ∷ rest

  unfoldable pub add : ℕ → String → S → List (String × S) → List (String × S)
  unfolding purge insert
  add now sid s d = insert sid s (purge now d)
