-- ===== src/Broker/Exec.antt =====
-- `DindClient._wait_for_exit_code` and `DindClient.exec_command` of swe_exec_broker.py. What the
-- Docker daemon answers is a parameter.
pub mod ExitCode
use soma_benchmark.Base.{
  ℕ, zero, suc, ◌+◌, Bool, true, false, not, ◌&&◌, ◌||◌, Option, none, some, List, [], ◌∷◌, ◌++◌,
  leb, ◌==◌, if◌then◌else◌,
}
use soma_benchmark.Base.Json.{ℤ, pos}
use soma_benchmark.Broker.Buffer.{Bytes, ascii}
use soma_benchmark.Broker.Stream.{Output, read_exec_output}

-- How a call ends: by a value, by `TimeoutError`, by another `OSError`, or by another exception.
pub data Outcome (A : Type 0) : Type 0 where
  ok : A → Outcome A
  timed_out : Outcome A
  os_error : Outcome A
  fault : Outcome A

infixl 5 ◌>>=◌
abbrev pub ◌>>=◌ : {A B : Type 0} → Outcome A → (A → Outcome B) → Outcome B
ok a >>= f = f a
timed_out >>= f = timed_out
os_error >>= f = os_error
fault >>= f = fault

-- The answer to `GET /exec/{id}/json`: its status, its `Running`, and its `ExitCode` if it is an int.
pub record ExecState : Type 0 where
  pub status : ℕ
  pub running : Bool
  pub exit_code : Option ℤ

abbrev pub unknown_exit_code : ℤ
unknown_exit_code = pos 125

abbrev pub exit_state_poll_attempts : ℕ
exit_state_poll_attempts = 40

abbrev exited : Bool → Option ℤ → Option ℤ
exited true code = none
exited false code = code

abbrev after_poll : ExecState → Outcome ℤ → Outcome ℤ
after_poll s rest =
    if not (s.status == 200)
    then fault
    else elim (exited s.running s.exit_code) [ some code ↦ ok code | none ↦ rest ]

-- The loop over the attempts that are left, from the attempt `i` on.
unfoldable pub poll_from : ℕ → ℕ → (ℕ → Outcome ExecState) → Outcome ℤ
poll_from zero i inspect = ok unknown_exit_code
poll_from (suc n) i inspect =
    let rest = poll_from n (i + 1) inspect in inspect i >>= λ s. after_poll s rest

unfoldable pub wait_for_exit_code : (ℕ → Outcome ExecState) → Outcome ℤ
unfolding poll_from
wait_for_exit_code inspect = poll_from exit_state_poll_attempts 0 inspect

-- The daemon's side of one exec. `create` has the answer's status and its exec id, stripped; `start`
-- the status of the second answer; `reads` what the stream yields.
pub record Daemon : Type 0 where
  pub create : Bytes → Outcome (ℕ × Bytes)
  pub start : Bytes → Outcome ℕ
  pub reads : Bytes → List (Bool × Bytes)
  pub inspect : Bytes → ℕ → Outcome ExecState

-- `shlex.quote`: safe texts stay, others go between single quotes.
abbrev is_safe : ℕ → Bool
is_safe c =
    (leb b'a' c && leb c b'z')
    || (leb b'A' c && leb c b'Z')
    || (leb b'0' c && leb c b'9')
    || c == b'@'
    || c == b'%'
    || c == b'_'
    || c == b'+'
    || c == b'='
    || c == b':'
    || c == b','
    || c == b'.'
    || c == b'/'
    || c == b'-'

abbrev all_safe : Bytes → Bool
all_safe [] = true
all_safe (c ∷ s) = is_safe c && all_safe s

abbrev escape_quotes : Bytes → Bytes
escape_quotes [] = []
escape_quotes (c ∷ s) =
    let rest = escape_quotes s in if c == 39 then 39 ∷ 34 ∷ 39 ∷ 34 ∷ 39 ∷ rest else c ∷ rest

unfoldable pub quote : Bytes → Bytes
quote [] = 39 ∷ 39 ∷ []
quote (c ∷ s) = if all_safe (c ∷ s) then c ∷ s else (39 ∷ escape_quotes (c ∷ s)) ++ 39 ∷ []

abbrev is_empty : Bytes → Bool
is_empty [] = true
is_empty (_ ∷ _) = false

unfoldable pub effective_command : Bytes → Bytes → Bytes
unfolding quote
effective_command env_bin_dir command =
    if is_empty env_bin_dir
    then command
    else ascii "export PATH=" ++ quote env_bin_dir ++ ascii "\":$PATH\"; " ++ command

pub record ExecResult : Type 0 where
  pub output : Output
  pub exit_code : ℤ

abbrev or_timed_out : Option Output → Outcome Output
or_timed_out none = timed_out
or_timed_out (some o) = ok o

unfoldable pub exec_command : Bytes → Daemon → Bytes → Outcome ExecResult
unfolding effective_command wait_for_exit_code
exec_command env_bin_dir daemon command = do
  (created, exec_id) ← daemon.create (effective_command env_bin_dir command)
  if not (created == 201) || is_empty exec_id then fault else do
    started ← daemon.start exec_id
    if not (started == 200) then fault else do
      output ← or_timed_out (read_exec_output (daemon.reads exec_id))
      exit_code ← wait_for_exit_code (daemon.inspect exec_id)
      ok (record { output = output; exit_code = exit_code })
