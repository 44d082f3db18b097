-- ===== src/Proxy/TaskContext.antt =====
-- What the compression service may know of the prompts that it does not get: `_task_context` of
-- src/compression_service/app/proxy.py.
use soma_benchmark.Base.{
  ℕ, String, Bool, true, Option, none, some, List, [], ◌∷◌, str_eq, if◌then◌else◌,
}
use soma_benchmark.Base.Strings.{join_lines}
use soma_benchmark.Base.Json.{Value, str, arr, obj, to_list, Fields, end, field, get}
use soma_benchmark.Base.Values.{string_field}
use soma_benchmark.Proxy.Prompts.{Protected, is_user, strip_protected_prompts}

-- The text of a prompt's content, where it has one.
abbrev prompt_texts : List Value → List String
prompt_texts [] = []
prompt_texts (obj part ∷ parts) = elim (string_field "text" part) [
  | none ↦ prompt_texts parts
  | some s ↦ s ∷ prompt_texts parts
]
prompt_texts (_ ∷ parts) = prompt_texts parts

abbrev non_blank : String → Option String
non_blank s = if str_eq s "" then none else some s

abbrev prompt_text : Option Value → Option String
unfolding join_lines
prompt_text (some (str s)) = non_blank s
prompt_text (some (arr parts)) = non_blank (join_lines (prompt_texts (to_list parts)))
prompt_text _ = none

abbrev content_of : Value → Option Value
content_of (obj m) = get "content" m
content_of _ = none

abbrev task_or : Option String → Bool → Fields → Fields
task_or (some s) true rest = field "task" (str s) end
task_or _ _ rest = rest

abbrev task_in : List (ℕ × Value) → Fields
task_in [] = end
task_in ((_, m) ∷ held) = task_or (prompt_text (content_of m)) (is_user m) (task_in held)

-- `_task_context`
unfoldable pub task_context : Protected → Fields
unfolding is_user prompt_text
task_context p = task_in p.messages

-- What the compression service may know of the prompts.
unfoldable pub context_of : Fields → Fields
unfolding strip_protected_prompts task_context
context_of payload = elim (strip_protected_prompts payload) [
  | none ↦ end
  | some (_, p) ↦ task_context p
]
