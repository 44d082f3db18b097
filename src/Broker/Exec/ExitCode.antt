-- ===== src/Broker/Exec/ExitCode.antt =====
-- Where an exit code comes from.
use soma_benchmark.Base.{
  ℕ, zero, suc, ◌+◌, ◌<◌, ◌≡◌, ◌⊎◌, inl, inr, refl, ap, ◌∙◌, ◌||◌, if◌then◌else◌, Bool, true, false,
  Option, some, arith, Option-cases, ◌==◌, not,
}
use soma_benchmark.Base.Json.{ℤ}
use soma_benchmark.Broker.Buffer.{Bytes}
use soma_benchmark.Broker.Stream.{read_exec_output}
use soma_benchmark.Broker.Exec.{
  Outcome, ok, timed_out, os_error, fault, ExecState, poll_from, wait_for_exit_code,
  unknown_exit_code, exit_state_poll_attempts, exited, after_poll, ◌>>=◌, ExecResult, Daemon,
  exec_command, effective_command, is_empty, or_timed_out,
}

-- The daemon reported that the process has exited with `code`, at the attempt `i`.
abbrev pub Reported : (ℕ → Outcome ExecState) → ℕ → ℤ → Type 0
Reported inspect i code =
    (s : ExecState) × (inspect i ≡ ok s)
    × (s.status ≡ 200)
    × (s.running ≡ false)
    × (s.exit_code ≡ some code)

exited-eq-some :
    (r : Bool) (o : Option ℤ) (code : ℤ) → exited r o ≡ some code → (r ≡ false) × (o ≡ some code)
exited-eq-some true o code h = cc
exited-eq-some false o code h = (refl, h)

Outcome-cases :
    {A : Type 0} (o : Outcome A)
    → ((a : A) × (o ≡ ok a)) ⊎ ((o ≡ timed_out) ⊎ ((o ≡ os_error) ⊎ (o ≡ fault)))
Outcome-cases (ok a) = inl (a, refl)
Outcome-cases timed_out = inr (inl refl)
Outcome-cases os_error = inr (inr (inl refl))
Outcome-cases fault = inr (inr (inr refl))

after_poll-eq-ok :
    (s : ExecState) (rest : Outcome ℤ) (code : ℤ)
    → after_poll s rest ≡ ok code
    → (s.status ≡ 200) × (((s.running ≡ false) × (s.exit_code ≡ some code)) ⊎ (rest ≡ ok code))
after_poll-eq-ok s rest code h = elim (Option-cases (exited s.running s.exit_code)) [
  | inl e ↦ (ground arith, inr (ground arith))
  | inr (c, e) ↦
      let (r, x) = exited-eq-some s.running s.exit_code c e in
      (ground arith, inl (r, x ∙ ground arith))
]

-- A code other than "unknown" was reported by the daemon, of a process that had exited.
poll_from-Reported :
    (n i : ℕ) (inspect : ℕ → Outcome ExecState) (code : ℤ)
    → poll_from n i inspect ≡ ok code
    → (code ≡ unknown_exit_code) ⊎ ((j : ℕ) × (j < i + n) × Reported inspect j code)
unfolding poll_from
poll_from-Reported zero i inspect code h = inl (ground arith)
poll_from-Reported (suc n) i inspect code h =
    go (inspect i) refl h (poll_from-Reported n (i + 1) inspect code)
  where
    Goal : Type 0
    Goal = (code ≡ unknown_exit_code) ⊎ ((j : ℕ) × (j < i + suc n) × Reported inspect j code)

    widen :
        (code ≡ unknown_exit_code) ⊎ ((j : ℕ) × (j < i + 1 + n) × Reported inspect j code) → Goal
    widen (inl e) = inl e
    widen (inr (j, l, r)) = inr (j, omega arith, r)

    polled :
        (s : ExecState)
        → inspect i ≡ ok s
        → (s.status ≡ 200)
        → ((s.running ≡ false) × (s.exit_code ≡ some code))
          ⊎ (poll_from n (i + 1) inspect ≡ ok code)
        → (poll_from n (i + 1) inspect ≡ ok code
            → (code ≡ unknown_exit_code) ⊎ ((j : ℕ) × (j < i + 1 + n) × Reported inspect j code))
        → Goal
    polled s e st (inl (r, x)) ih = inr (i, omega arith, (s, e, st, r, x))
    polled s e st (inr q) ih = widen (ih q)

    go :
        (o : Outcome ExecState)
        → inspect i ≡ o
        → (o >>= λ s. after_poll s (poll_from n (i + 1) inspect)) ≡ ok code
        → (poll_from n (i + 1) inspect ≡ ok code
            → (code ≡ unknown_exit_code) ⊎ ((j : ℕ) × (j < i + 1 + n) × Reported inspect j code))
        → Goal
    go (ok s) e q ih =
        let (st, c) = after_poll-eq-ok s (poll_from n (i + 1) inspect) code q in polled s e st c ih
    go timed_out e q ih = cc
    go os_error e q ih = cc
    go fault e q ih = cc

-- A result of `_wait_for_exit_code` is "unknown", or what one of the first forty answers of the
-- daemon reported as the code of a process that had exited. So it is 0 only if the daemon said 0.
pub wait_for_exit_code-Reported :
    (inspect : ℕ → Outcome ExecState) (code : ℤ)
    → wait_for_exit_code inspect ≡ ok code
    → (code ≡ unknown_exit_code)
      ⊎ ((i : ℕ) × (i < exit_state_poll_attempts) × Reported inspect i code)
unfolding wait_for_exit_code
wait_for_exit_code-Reported inspect code h =
    poll_from-Reported exit_state_poll_attempts 0 inspect code h

bind-eq-ok :
    {A B : Type 0} (m : Outcome A) (f : A → Outcome B) {b : B}
    → (m >>= f) ≡ ok b
    → (x : A) × (m ≡ ok x) × (f x ≡ ok b)
bind-eq-ok timed_out f e = cc
bind-eq-ok os_error f e = cc
bind-eq-ok fault f e = cc
bind-eq-ok (ok x) f e = (x, refl, e)

guard-eq-ok :
    {A : Type 0} (b : Bool) (m : Outcome A) {a : A} → (if b then fault else m) ≡ ok a → m ≡ ok a
guard-eq-ok true m h = cc
guard-eq-ok false m h = h

-- A command that returned has its exit code from the daemon, for the exec that was created, or has
-- the unknown code.
pub exec_command-Reported :
    (env_bin_dir : Bytes) (daemon : Daemon) (command : Bytes) (r : ExecResult)
    → exec_command env_bin_dir daemon command ≡ ok r
    → (id : Bytes) × ((r.exit_code ≡ unknown_exit_code)
        ⊎ ((i : ℕ) × (i < exit_state_poll_attempts) × Reported (daemon.inspect id) i r.exit_code))
unfolding exec_command
exec_command-Reported env_bin_dir daemon command r h =
    let ((created, id), e₁, h₁) =
      bind-eq-ok (daemon.create (effective_command env_bin_dir command)) _ h in
    let h₁' = guard-eq-ok (not (created == 201) || is_empty id) _ h₁ in
    let (started, e₂, h₂) = bind-eq-ok (daemon.start id) _ h₁' in
    let h₂' = guard-eq-ok (not (started == 200)) _ h₂ in
    let (output, e₃, h₃) = bind-eq-ok (or_timed_out (read_exec_output (daemon.reads id))) _ h₂' in
    let (code, e₄, h₄) = bind-eq-ok (wait_for_exit_code (daemon.inspect id)) _ h₃ in
    let e : code ≡ r.exit_code = ground arith in
    (id, wait_for_exit_code-Reported (daemon.inspect id) r.exit_code (e₄ ∙ ap (λ c. ok c) e))
