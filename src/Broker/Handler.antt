-- ===== src/Broker/Handler.antt =====
-- `BrokerHandler` of swe_exec_broker.py: the two HTTP methods, their guards and their replies.
pub mod Access
use Prim.Native.Nat.{min}
use soma_benchmark.Base.{
  ℕ, suc, ◌+◌, ◌*◌, Bool, true, false, not, ◌&&◌, Option, none, some, [], ◌∷◌, ◌++◌, ltb, ◌==◌,
  if◌then◌else◌,
}
use soma_benchmark.Base.Lists.{length, take, drop}
use soma_benchmark.Base.Json.{ℤ, pos, negsuc}
use soma_benchmark.Broker.Buffer.{Bytes, ascii}
use soma_benchmark.Broker.Exec.{
  Outcome, ok, timed_out, os_error, fault, ExecResult, Daemon, exec_command, unknown_exit_code,
}

abbrev pub max_command_bytes : ℕ
max_command_bytes = 128 * 1024

abbrev pub timeout_exit_code : ℤ
timeout_exit_code = pos 124

-- The extra headers of an exec's reply; an absent `truncated` is a header that is not sent.
pub record Exec : Type 0 where
  pub exit_code : ℤ
  pub timed_out : Bool
  pub truncated : Option Bool

pub record Reply : Type 0 where
  pub status : ℕ
  pub body : Bytes
  pub exec : Option Exec

pub record Config : Type 0 where
  pub token : Bytes
  pub env_bin_dir : Bytes
  pub timeout_ms : ℕ

-- A request: `authorization` is empty where the header is missing, `content_length` is `none` where
-- `int` refuses it, `timeout_ms` is `none` where there is no such header or `float` refuses it.
pub record Request : Type 0 where
  pub path : Bytes
  pub authorization : Bytes
  pub content_length : Option ℤ
  pub timeout_ms : Option ℕ
  pub content : Bytes

abbrev pub bytes_eq : Bytes → Bytes → Bool
bytes_eq [] [] = true
bytes_eq [] (_ ∷ _) = false
bytes_eq (_ ∷ _) [] = false
bytes_eq (a ∷ s) (b ∷ t) = a == b && bytes_eq s t

abbrev pub is_ascii : Bytes → Bool
is_ascii [] = true
is_ascii (c ∷ s) = ltb c 128 && is_ascii s

abbrev prefix : Bytes
prefix = ascii "Bearer "

-- `hmac.compare_digest` of two texts raises `TypeError` unless both are ASCII: `none`.
unfoldable pub authorized : Config → Request → Option Bool
authorized config r =
    let credential = drop 7 r.authorization in
    if not (bytes_eq (take 7 r.authorization) prefix)
    then some false
    else if is_ascii credential && is_ascii config.token
    then some (bytes_eq credential config.token)
    else none

abbrev plain : ℕ → Bytes → Option Reply
plain status body = some (record { status = status; body = body; exec = none })

abbrev pub exec_reply : ℕ → Bytes → ℤ → Bool → Option Bool → Option Reply
exec_reply status body code late truncated = some (record {
  status = status;
  body = body;
  exec = some (record { exit_code = code; timed_out = late; truncated = truncated });
})

abbrev pub is_unknown : ℤ → Bool
is_unknown (pos n) = n == 125
is_unknown (negsuc _) = false

abbrev warning : Bytes
warning =
    10 ∷ ascii "swe-exec: the command's exit status could not be determined "
    ++ ascii "(it may still be running in the sandbox) - do not read this as success"
    ++ 10 ∷ []

-- The reply to what `exec_command` returned or raised; `message` is the text of the exception.
unfoldable pub reply_of : Bytes → Outcome ExecResult → Option Reply
reply_of message (ok r) =
    let body = r.output.stdout ++ r.output.stderr in
    exec_reply 200 (if is_unknown r.exit_code then body ++ warning else body) r.exit_code false
      (some (not (r.output.dropped == 0)))
reply_of message timed_out =
    exec_reply 200
      (ascii "swe-exec: command timed out (it may still be running in the sandbox)" ++ 10 ∷ [])
      timeout_exit_code true (some true)
reply_of message os_error =
    exec_reply 200 (ascii "swe-exec: sandbox exec failed: " ++ message ++ 10 ∷ []) unknown_exit_code
      false (some false)
reply_of message fault =
    exec_reply 500 (ascii "swe-exec: broker error: " ++ message ++ 10 ∷ []) unknown_exit_code false
      none

-- The body's length as a number of bytes to read: negative and zero lengths are refused.
abbrev pub size_of : ℤ → ℕ
size_of (pos n) = n
size_of (negsuc _) = 0

unfoldable pub effective_timeout : Config → Request → ℕ
effective_timeout config r = elim r.timeout_ms [
  | none ↦ config.timeout_ms
  | some t ↦ min t config.timeout_ms
]

-- `do_POST`. The daemon answers within the timeout that it is given; `message` is the text of an
-- exception. `none` is an exception that leaves the handler, so that no reply is sent.
unfoldable pub do_post : Config → (ℕ → Daemon) → Bytes → Request → Option Reply
do_post config daemon message r =
    if not (bytes_eq r.path (ascii "/exec"))
    then plain 404 (ascii "not found" ++ 10 ∷ [])
    else elim (authorized config r) [
      | none ↦ none
      | some false ↦ plain 401 (ascii "unauthorized" ++ 10 ∷ [])
      | some true ↦ elim r.content_length [
        | none ↦ plain 400 (ascii "invalid Content-Length" ++ 10 ∷ [])
        | some n ↦
            if size_of n == 0
            then plain 400 (ascii "empty command" ++ 10 ∷ [])
            else if ltb max_command_bytes (size_of n)
            then plain 413 (ascii "command too large" ++ 10 ∷ [])
            else reply_of message (
                exec_command config.env_bin_dir (daemon (effective_timeout config r))
                  (take (size_of n) r.content))
      ]
    ]

-- `do_GET`
unfoldable pub do_get : Bytes → Reply
do_get path =
    if bytes_eq path (ascii "/healthz")
    then record { status = 200; body = ascii "ok"; exec = none }
    else record { status = 404; body = ascii "not found" ++ 10 ∷ []; exec = none }
