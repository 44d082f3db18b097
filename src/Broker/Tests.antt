-- ===== src/Broker/Tests.antt =====
-- Runs of the broker on concrete inputs, and instances of its theorems.
use soma_benchmark.Base.{
  ℕ, zero, suc, ◌+◌, ◌≤◌, ◌<◌, ◌≡◌, ◌≢◌, ◌⊎◌, refl, true, false, none, some, List, [], ◌∷◌, ◌++◌,
  arith,
}
use soma_benchmark.Base.Lists.{All, length, take, concat}
use soma_benchmark.Base.Json.{ℤ, pos}
use soma_benchmark.Broker.Buffer.{Bytes, ascii, new, append_all, value, decimal}
use soma_benchmark.Broker.Buffer.Window.{window, append_all-new, value-append_all}
use soma_benchmark.Broker.Stream.{output_of, read_exec_output, output_head_bytes, output_tail_bytes}
use soma_benchmark.Broker.Stream.Reading.{timely, exec_streams, sinks_of}
use soma_benchmark.Broker.Stream.Chunks.{
  read_exec_output-chunks, read_exec_output-late, read_exec_output-encode_all,
}
use soma_benchmark.Broker.Exec.{
  Outcome, ok, ExecState, wait_for_exit_code, Daemon, unknown_exit_code, exit_state_poll_attempts,
  effective_command, exec_command,
}
use soma_benchmark.Broker.Exec.ExitCode.{Reported, wait_for_exit_code-Reported}
use soma_benchmark.Broker.Handler.{
  Config, Request, Reply, Exec, authorized, do_post, do_get, bytes_eq, size_of, max_command_bytes,
  reply_of, effective_timeout, timeout_exit_code,
}
use soma_benchmark.Broker.Handler.Access.{do_post-exec, do_post-exit_code}

-- "ab" to stdout and "c" to stderr, cut within a header.
abbrev frames : List (ℕ × Bytes)
frames = (1, ascii "ab") ∷ (2, ascii "c") ∷ []

abbrev chunks : List Bytes
chunks =
    (1 ∷ 0 ∷ 0 ∷ [])
    ∷ (0 ∷ 0 ∷ 0 ∷ 0 ∷ 2 ∷ 97 ∷ [])
    ∷ (98 ∷ 2 ∷ 0 ∷ 0 ∷ 0 ∷ 0 ∷ 0 ∷ 0 ∷ 1 ∷ 99 ∷ [])
    ∷ []

capped :
    value (append_all (new 2 2) (ascii "abc" ∷ ascii "defg" ∷ []))
    ≡ ascii "ab"
      ++ (10
          ∷ 10
          ∷ ascii
              "[swe-exec: 3 bytes of output omitted here; the head and tail of the stream are shown]")
      ++ (10 ∷ 10 ∷ ascii "fg")
unfolding value append_all new
capped = refl

decimal_runs : decimal 1203 ≡ ascii "1203"
unfolding decimal
decimal_runs = refl

quoted :
    effective_command (ascii "/a b/it's") (ascii "ls")
    ≡ ascii "export PATH='/a b/it'\"'\"'s'\":$PATH\"; ls"
unfolding effective_command
quoted = refl

value-append_all_example :
    let b = append_all (new 2 2) (ascii "abc" ∷ ascii "defg" ∷ []) in
    (length (ascii "abcdefg") ≤ 4 → value b ≡ ascii "abcdefg")
    × (4 < length (ascii "abcdefg")
        → (length b.head + length b.tail ≡ 4) × (b.dropped + 4 ≡ length (ascii "abcdefg")))
value-append_all_example = value-append_all 2 2 (ascii "abc" ∷ ascii "defg" ∷ [])

append_all-new_example :
    append_all (new 2 2) (ascii "abc" ∷ ascii "defg" ∷ []) ≡ window 2 2 (ascii "abcdefg")
append_all-new_example = append_all-new 2 2 (ascii "abc" ∷ ascii "defg" ∷ [])

cons-ne-nil : (x : ℕ) (s : Bytes) → x ∷ s ≢ []
cons-ne-nil x s = cc

abbrev nonempty : All (λ c. c ≢ []) chunks
nonempty = (cons-ne-nil _ _, (cons-ne-nil _ _, (cons-ne-nil _ _, tt)))

read_exec_output-chunks_example :
    read_exec_output (timely chunks)
    ≡ some (
        output_of (
          sinks_of output_head_bytes output_tail_bytes
            (exec_streams (concat chunks)).0
            (exec_streams (concat chunks)).1))
read_exec_output-chunks_example = read_exec_output-chunks chunks nonempty

read_exec_output-late_example : read_exec_output (timely chunks ++ ((true, []) ∷ [])) ≡ none
read_exec_output-late_example = read_exec_output-late chunks [] [] nonempty

read_exec_output-encode_all_example :
    read_exec_output (timely chunks)
    ≡ some (record { stdout = ascii "ab"; stderr = ascii "c"; dropped = 0 })
read_exec_output-encode_all_example =
    read_exec_output-encode_all 1 (ascii "ab") ((2, ascii "c") ∷ []) chunks (omega arith) nonempty
      refl (omega arith) (omega arith)

-- The process is still running at the first answer and has exited with 3 at the second.
abbrev inspect : ℕ → Outcome ExecState
inspect zero = ok (record { status = 200; running = true; exit_code = none })
inspect (suc _) = ok (record { status = 200; running = false; exit_code = some (pos 3) })

waited : wait_for_exit_code inspect ≡ ok (pos 3)
unfolding wait_for_exit_code
waited = refl

wait_for_exit_code-Reported_example :
    (pos 3 ≡ unknown_exit_code)
    ⊎ ((i : ℕ) × (i < exit_state_poll_attempts) × Reported inspect i (pos 3))
wait_for_exit_code-Reported_example = wait_for_exit_code-Reported inspect (pos 3) waited

abbrev daemon : ℕ → Daemon
daemon t = record {
  create = λ c. ok (201, ascii "id");
  start = λ id. ok 200;
  reads = λ id. timely chunks;
  inspect = λ id. inspect;
}

abbrev config : Config
config = record { token = ascii "secret"; env_bin_dir = []; timeout_ms = 900000 }

abbrev request : Request
request = record {
  path = ascii "/exec";
  authorization = ascii "Bearer secret";
  content_length = some (pos 2);
  timeout_ms = some 1000;
  content = ascii "ls";
}

abbrev exec : Exec
exec = record { exit_code = pos 3; timed_out = false; truncated = some false }

abbrev reply : Reply
reply = record { status = 200; body = ascii "abc"; exec = some exec }

execed :
    exec_command [] (daemon 1000) (ascii "ls")
    ≡ ok (record {
      output = record { stdout = ascii "ab"; stderr = ascii "c"; dropped = 0 };
      exit_code = pos 3;
    })
unfolding exec_command
execed = rw read_exec_output-encode_all_example

posted : do_post config daemon [] request ≡ some reply
unfolding do_post authorized reply_of effective_timeout
posted = rw execed

refused :
    do_post config daemon [] (record request { authorization = ascii "Bearer guess" })
    ≡ some (record { status = 401; body = ascii "unauthorized" ++ 10 ∷ []; exec = none })
unfolding do_post authorized
refused = refl

healthy : do_get (ascii "/healthz") ≡ record { status = 200; body = ascii "ok"; exec = none }
unfolding do_get
healthy = refl

do_post-exec_example :
    (bytes_eq request.path (ascii "/exec") ≡ true)
    × (authorized config request ≡ some true)
    × ((n : ℤ) × (request.content_length ≡ some n)
        × (0 < size_of n)
        × (size_of n ≤ max_command_bytes)
        × (some reply
            ≡ reply_of [] (
                exec_command config.env_bin_dir
                  (daemon (effective_timeout config request))
                  (take (size_of n) request.content))))
do_post-exec_example = do_post-exec config daemon [] request reply exec posted refl

do_post-exit_code_example :
    (pos 3 ≡ timeout_exit_code)
    ⊎ ((pos 3 ≡ unknown_exit_code)
        ⊎ ((id : Bytes) × (i : ℕ) × (i < exit_state_poll_attempts)
            × Reported ((daemon (effective_timeout config request)).inspect id) i (pos 3)))
do_post-exit_code_example = do_post-exit_code config daemon [] request reply exec posted refl
