-- ===== src/Proxy/Assembly/Fragments.antt =====
-- A stream read as a whole: its texts, and the fragments of each call by the call's index.
use soma_benchmark.Base.{
  String, ◌≡◌, Bool, true, not, ◌&&◌, Option, none, some, List, [], ◌∷◌, ◌++◌, if◌then◌else◌, ◌>>=◌,
}
use soma_benchmark.Base.Strings.{join}
use soma_benchmark.Base.Integers.{same_integer, at_most}
use soma_benchmark.Base.Json.{ℤ, Value, str, arr, obj, cons, Fields, get}
use soma_benchmark.Base.Values.{as_dict, string_field, non_falsy, or_value, dict_at}
use soma_benchmark.Proxy.Response.{items_of, or_default}
use soma_benchmark.Proxy.Assembly.{Slot, Slots, index_of, one_or_none, reasoning_text}

-- What a stream brings, in the order of its chunks.
pub record Turn : Type 0 where
  pub texts : List String
  pub reasonings : List String
  pub fragments : List (ℤ × Fields)

abbrev pub nothing : Turn
nothing = record { texts = []; reasonings = []; fragments = [] }

abbrev pub followed_by : Turn → Turn → Turn
followed_by t u = record {
  texts = t.texts ++ u.texts;
  reasonings = t.reasonings ++ u.reasonings;
  fragments = t.fragments ++ u.fragments;
}

abbrev pub at_index : Option Value → Fields → List (ℤ × Fields) → Option (List (ℤ × Fields))
at_index none call rest = none
at_index (some v) call rest = index_of v >>= (λ i. some ((i, call) ∷ rest))

abbrev pub dict_at_index : Option Fields → List (ℤ × Fields) → Option (List (ℤ × Fields))
dict_at_index none rest = some rest
dict_at_index (some call) rest = at_index (get "index" call) call rest

-- The calls of a chunk, each with its index.
abbrev pub indexed : List Value → Option (List (ℤ × Fields))
indexed [] = some []
indexed (call ∷ calls) = indexed calls >>= dict_at_index (as_dict call)

abbrev pub turn_of_delta : Option Fields → Option Turn
turn_of_delta none = some nothing
turn_of_delta (some d) = (items_of (get "tool_calls" d) >>= indexed) >>= (λ fs. some (record {
  texts = one_or_none (string_field "content" d);
  reasonings = one_or_none (reasoning_text d);
  fragments = fs;
}))

abbrev pub turn_of_choice : Option Fields → Option Turn
turn_of_choice none = none
turn_of_choice (some choice) = turn_of_delta (dict_at "delta" choice)

abbrev pub turn_of_choices : Option Value → Option Turn
turn_of_choices (some (arr (cons choice _))) = turn_of_choice (as_dict choice)
turn_of_choices _ = some nothing

-- What a chunk brings, if it is one: its first choice is a dict, and each of its calls has an index.
abbrev pub turn_of : Value → Option Turn
turn_of (obj chunk) = turn_of_choices (get "choices" chunk)
turn_of _ = none

abbrev pub turns_of : List Value → Option Turn
turns_of [] = some nothing
turns_of (chunk ∷ chunks) =
    turn_of chunk >>= (λ t. turns_of chunks >>= (λ u. some (followed_by t u)))

-- The fragments of the call with the index `i`.
abbrev pub pick : ℤ → List (ℤ × Fields) → List Fields
pick i [] = []
pick i ((j, f) ∷ fs) = let rest = pick i fs in if same_integer j i then f ∷ rest else rest

abbrev pub last_of : (Fields → Option Value) → List Fields → Option Value
last_of g [] = none
last_of g (f ∷ fs) = or_value (last_of g fs) (g f)

abbrev pub id_in : Fields → Option Value
id_in f = non_falsy (get "id" f)

abbrev pub name_in_function : Option Fields → Option Value
name_in_function none = none
name_in_function (some f) = non_falsy (get "name" f)

abbrev pub name_in : Fields → Option Value
name_in f = name_in_function (dict_at "function" f)

abbrev pub arguments_in_function : Option Fields → Option String
arguments_in_function none = none
arguments_in_function (some f) = string_field "arguments" f

abbrev pub arguments_in : List Fields → List String
arguments_in [] = []
arguments_in (f ∷ fs) =
    one_or_none (arguments_in_function (dict_at "function" f)) ++ arguments_in fs

-- The call that some fragments make up: the last id, the last name, and the arguments joined.
abbrev pub merged : List Fields → Option Slot
merged [] = none
merged (f ∷ fs) = some (record {
  id = or_default (str "") (last_of id_in (f ∷ fs));
  name = or_default (str "") (last_of name_in (f ∷ fs));
  arguments = join (arguments_in (f ∷ fs));
})

-- The first slot under a key.
abbrev pub find : ℤ → Slots → Option Slot
find i [] = none
find i ((j, s) ∷ slots) = let rest = find i slots in if same_integer j i then some s else rest

abbrev pub is_first : ℤ → Slots → Bool
is_first i [] = true
is_first i ((j, _) ∷ _) = at_most i j && not (same_integer i j)

-- The keys ascend, so that no two are the same.
abbrev pub IsSorted : Slots → Type 0
IsSorted [] = Unit
IsSorted ((i, _) ∷ slots) = (is_first i slots ≡ true) × IsSorted slots
