-- ===== src/Broker/Handler/Access.antt =====
-- Who may run a command, and what an exit code in a reply means.
use soma_benchmark.Base.{
  ℕ, ◌≤◌, ◌<◌, ◌≡◌, ◌⊎◌, inl, inr, refl, ◌∙◌, true, some, arith, Option-cases,
}
use soma_benchmark.Base.Lists.{take}
use soma_benchmark.Base.Json.{ℤ}
use soma_benchmark.Broker.Buffer.{Bytes, ascii}
use soma_benchmark.Broker.Exec.{
  Outcome, ok, timed_out, os_error, fault, ExecResult, Daemon, exec_command, unknown_exit_code,
  exit_state_poll_attempts,
}
use soma_benchmark.Broker.Exec.ExitCode.{Reported, exec_command-Reported}
use soma_benchmark.Broker.Handler.{
  Config, Request, Reply, Exec, authorized, do_post, reply_of, bytes_eq, max_command_bytes,
  timeout_exit_code, size_of, effective_timeout,
}

-- A POST whose reply carries an exit code is one for `/exec` that is authorized and whose command is
-- neither empty nor too large; its reply is that of the command's outcome.
pub do_post-exec :
    (config : Config) (daemon : ℕ → Daemon) (message : Bytes) (r : Request) (reply : Reply)
    (e : Exec)
    → do_post config daemon message r ≡ some reply
    → reply.exec ≡ some e
    → (bytes_eq r.path (ascii "/exec") ≡ true)
      × (authorized config r ≡ some true)
      × ((n : ℤ) × (r.content_length ≡ some n)
          × (0 < size_of n)
          × (size_of n ≤ max_command_bytes)
          × (some reply
              ≡ reply_of message (
                  exec_command config.env_bin_dir
                    (daemon (effective_timeout config r))
                    (take (size_of n) r.content))))
unfolding do_post
do_post-exec config daemon message r reply e h x = elim (Option-cases r.content_length) [
  | inl l ↦ absurd (ground arith)
  | inr (n, l) ↦ (ground arith, ground arith, (n, l, ground arith, ground arith, ground arith))
]

reply_of-exit_code :
    (message : Bytes) (o : Outcome ExecResult) (reply : Reply) (e : Exec)
    → some reply ≡ reply_of message o
    → reply.exec ≡ some e
    → (e.exit_code ≡ timeout_exit_code)
      ⊎ ((e.exit_code ≡ unknown_exit_code)
          ⊎ ((x : ExecResult) × (o ≡ ok x) × (e.exit_code ≡ x.exit_code)))
unfolding reply_of
reply_of-exit_code message (ok r) reply e h x = inr (inr (r, refl, ground arith))
reply_of-exit_code message timed_out reply e h x = inl (ground arith)
reply_of-exit_code message os_error reply e h x = inr (inl (ground arith))
reply_of-exit_code message fault reply e h x = inr (inl (ground arith))

-- The exit code that a POST's reply carries is 124, for a timeout, 125, for an unknown state or a
-- failed exec, or a code that the daemon reported of a process that had exited. So a caller reads 0
-- only if the daemon said 0.
pub do_post-exit_code :
    (config : Config) (daemon : ℕ → Daemon) (message : Bytes) (r : Request) (reply : Reply)
    (e : Exec)
    → do_post config daemon message r ≡ some reply
    → reply.exec ≡ some e
    → (e.exit_code ≡ timeout_exit_code)
      ⊎ ((e.exit_code ≡ unknown_exit_code)
          ⊎ ((id : Bytes) × (i : ℕ) × (i < exit_state_poll_attempts)
              × Reported ((daemon (effective_timeout config r)).inspect id) i e.exit_code))
do_post-exit_code config daemon message r reply e h x =
    let (p, a, (n, l, n0, n1, q)) = do_post-exec config daemon message r reply e h x in
    let d = daemon (effective_timeout config r) in
    let command = take (size_of n) r.content in
    elim (reply_of-exit_code message (exec_command config.env_bin_dir d command) reply e q x) [
      | inl t ↦ inl t
      | inr u ↦ elim u [
        | inl k ↦ inr (inl k)
        | inr o ↦
            let (y, ey, ec) = o in
            let (id, source) = exec_command-Reported config.env_bin_dir d command y ey in
            elim source [
              | inl k ↦ inr (inl (ec ∙ k))
              | inr w ↦ let (i, lt, reported) = w in inr (inr (id, i, lt, rw ec reported))
            ]
      ]
    ]
