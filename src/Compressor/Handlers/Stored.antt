-- ===== src/Compressor/Handlers/Stored.antt =====
-- What the store holds after a turn of a miner.
use soma_benchmark.Base.{
  ℕ, ◌+◌, String, ◌≡◌, refl, ap, ◌∙◌, false, Option, none, some, List, [], inl, inr, Bool-cases,
  str_eq, if◌then◌else◌,
}
use mathlib.Core.Option
use soma_benchmark.Base.Json.{Value}
use soma_benchmark.Compressor.Sessions.{Session, outside, begin_round, finish, next_event}
use soma_benchmark.Compressor.Store
use soma_benchmark.Compressor.Store.Lookup.{
  IsDict, get-insert, get-add, get-drop, insert-IsDict, add-IsDict, drop-IsDict,
}
use soma_benchmark.Compressor.Handlers.{
  Turn, asks, returns, raises, Entry, Sessions, is_asking, work, session_answer,
}
use soma_benchmark.Compressor.Handlers.View.{
  Parked, View, lookup, under, parked, reply_of, entry_of, is_some, Holds, Shows,
}

-- A miner that runs, in the given round.
abbrev pub running : ℕ → Session
running round = record {
  miner = outside;
  round = round;
  pending_ids = [];
  events = [];
  results = [];
}

abbrev pub running_entry : Turn → ℕ → (List (List Value) → Turn) → List (List Value) → ℕ → Entry
running_entry turn round turns history created = record {
  session = work turn (running round);
  turns = turns;
  history = history;
  created = created;
}

abbrev pub stored : String → Option Parked → Sessions → Sessions
stored sid none d = Store.drop sid d
stored sid (some p) d = Store.insert sid (entry_of p) d

pub session_answer-running :
    (sid : String) (turn : Turn) (round : ℕ) (turns : List (List Value) → Turn)
    (history : List (List Value)) (created : ℕ) (d : Sessions)
    → session_answer sid (running_entry turn round turns history created) d ≡ (
      reply_of sid (round + 1) turn,
      stored sid (parked turn (round + 1) turns history created) d,
    )
unfolding session_answer work begin_round finish next_event
session_answer-running sid (asks ids) round turns history created d = refl
session_answer-running sid (returns value) round turns history created d = refl
session_answer-running sid (raises failure) round turns history created d = refl

-- A function with another value at one id.
abbrev update : (String → Option Parked) → String → Option Parked → String → Option Parked
update f sid o j = if str_eq sid j then o else f j

-- The same, whatever the store holds under one id.
abbrev pub HoldsBut : String → Sessions → (String → Option Parked) → Type 0
HoldsBut sid d f =
    IsDict (λ e. e.created) d
    × ((j : String) → str_eq sid j ≡ false → Store.get j d ≡ Option.map entry_of (f j))

stored-Holds :
    (sid : String) (o : Option Parked) (d : Sessions) (f : String → Option Parked)
    → HoldsBut sid d f
    → Holds (stored sid o d) (update f sid o)
stored-Holds sid none d f h = (
  drop-IsDict (λ e. e.created) sid d h.0,
  λ j. elim (Bool-cases (str_eq sid j)) [
    | inl e ↦ rw (get-drop (λ e. e.created) sid j d, e) refl
    | inr e ↦ rw (get-drop (λ e. e.created) sid j d, e) (h.1 j e)
  ],
)
stored-Holds sid (some p) d f h = (
  insert-IsDict (λ e. e.created) sid (entry_of p) d h.0,
  λ j. elim (Bool-cases (str_eq sid j)) [
    | inl e ↦ rw (get-insert (λ e. e.created) sid j (entry_of p) d, e) refl
    | inr e ↦ rw (get-insert (λ e. e.created) sid j (entry_of p) d, e) (h.1 j e)
  ],
)

Holds-pointwise :
    (d : Sessions) (f g : String → Option Parked)
    → ((j : String) → f j ≡ g j)
    → Holds d f
    → Holds d g
Holds-pointwise d f g e h = (h.0, λ j. h.1 j ∙ ap (Option.map entry_of) (e j))

-- A store that holds nothing, or the session `sid` alone, holds what is put under `sid`.
update-lookup :
    (sid j : String) (v : View) (o : Option Parked)
    → ((k : String) → str_eq sid k ≡ false → lookup v k ≡ none)
    → update (lookup v) sid o j ≡ lookup (under sid o) j
update-lookup sid j v none h = elim (Bool-cases (str_eq sid j)) [
  | inl e ↦ rw e refl
  | inr e ↦ rw e (h j e)
]
update-lookup sid j v (some p) h = elim (Bool-cases (str_eq sid j)) [
  | inl e ↦ rw e refl
  | inr e ↦ rw e (h j e)
]

parked-locked :
    (sid : String) (turn : Turn) (round : ℕ) (turns : List (List Value) → Turn)
    (history : List (List Value)) (created : ℕ)
    → is_asking turn ≡ is_some (under sid (parked turn round turns history created))
parked-locked sid (asks _) round turns history created = refl
parked-locked sid (returns _) round turns history created = refl
parked-locked sid (raises _) round turns history created = refl

-- What a turn leaves in the service.
pub turn-Shows :
    (sid : String) (turn : Turn) (round : ℕ) (turns : List (List Value) → Turn)
    (history : List (List Value)) (created : ℕ) (d : Sessions) (v : View)
    → HoldsBut sid d (lookup v)
    → ((k : String) → str_eq sid k ≡ false → lookup v k ≡ none)
    → let o = parked turn round turns history created in
      Shows (record { locked = is_asking turn; sessions = stored sid o d }) (under sid o)
turn-Shows sid turn round turns history created d v h n =
    let o = parked turn round turns history created in
    (
      parked-locked sid turn round turns history created,
      Holds-pointwise (stored sid o d) (update (lookup v) sid o) (lookup (under sid o))
          (λ j. update-lookup sid j v o n) (stored-Holds sid o d (lookup v) h),
    )

pub add-HoldsBut :
    (now : ℕ) (sid : String) (e : Entry) (d : Sessions)
    → Holds d (lookup none)
    → HoldsBut sid (Store.add (λ e. e.created) now sid e d) (lookup none)
add-HoldsBut now sid e d h = (
  add-IsDict (λ e. e.created) now sid e d h.0,
  λ j n. rw (get-add (λ e. e.created) now sid j e d h.0, n, h.1 j) refl,
)
