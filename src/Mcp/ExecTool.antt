-- ===== src/Mcp/ExecTool.antt =====
-- internal/mcp/exec_tool.go: the handler of the tool execute_command.
pub mod Accounting
pub mod Steps
use raxd.Prelude.{
  ℕ, ◌+◌, ◌/◌, Bool, true, false, not, ◌&&◌, ◌||◌, Option, none, some, List, [], ◌∷◌, ◌++◌, Bytes,
  String, if◌then◌else◌, length,
}
use raxd.Prelude.Exec.{Exec, Result, ok, err, pure, raise, when, ◌>>=◌, ◌>>◌}
use raxd.Prelude.Int.{ℤ, pos, ltb_ℤ, eqb_ℤ, to_int64, scale}
use raxd.CmdExec.{Config, Input, Output, RunError, not_allowed, bad_cwd, not_found}
use raxd.CmdExec.Run.{Host, Spawn, run, or_default}
use raxd.Server.Audit.{
  AuditRecord, Message, Piece, text, number, Verdict, success, fail, deny, warn, execute_command,
  no_record,
}
use raxd.Mcp.Caller.{Caller, Trace, Handler, audit}

pub record ExecInput : Type 0 where
  pub command : Bytes
  pub args : List Bytes
  pub timeout_ms : ℤ
  pub cwd : Bytes

-- `summary` is the text block of the tool result.
pub record ExecOutput : Type 0 where
  pub stdout : Bytes
  pub stderr : Bytes
  pub exit_code : ℤ
  pub duration_ms : ℕ
  pub timed_out : Bool
  pub stdout_truncated : Bool
  pub stderr_truncated : Bool
  pub summary : Message

abbrev pub exec_record : Caller → ExecInput → Verdict → Message → AuditRecord
exec_record caller input result reason = record no_record {
  fingerprint = caller.fingerprint;
  remote_addr = caller.remote_addr;
  result = result;
  reason = reason;
  tool = execute_command;
  command = input.command;
  args = input.args;
}

-- A deny record, then the error with the same text.
abbrev pub deny_with : {A : Type 0} → Caller → ExecInput → Message → Message → Handler A
deny_with caller input reason e = do audit (exec_record caller input deny reason); raise e

abbrev pub warn_root : Caller → ExecInput → Handler (Unit {0})
warn_root caller input = audit (
    exec_record caller input warn (
      text
        "running-as-root: raxd executing commands as root (euid==0); ensure raxd runs as non-root"
      ∷ []))

abbrev pub deny_root : Caller → ExecInput → Handler (Unit {0})
deny_root caller input =
    deny_with caller input (text "execution as root is forbidden by policy (deny_root=true)" ∷ [])
      (text "execution as root is forbidden by policy" ∷ [])

abbrev pub root_check : Host → Config → Caller → ExecInput → Handler (Unit {0})
root_check host cfg caller input =
    when host.is_root do warn_root caller input; when cfg.deny_root (deny_root caller input)

-- The first argument that is too long.
unfoldable pub too_long : ℤ → List Bytes → Option ℕ
too_long limit [] = none
too_long limit (arg ∷ args) =
    if ltb_ℤ limit (pos (length arg)) then some (length arg) else too_long limit args

abbrev pub too_many_message : ExecInput → Config → Message
too_many_message input cfg =
    text "too many arguments: "
    ∷ number (pos (length input.args))
    ∷ text " > "
    ∷ number cfg.max_args
    ∷ []

abbrev pub too_long_message : ℕ → Config → Message
too_long_message n cfg =
    text "argument too long: " ∷ number (pos n) ∷ text " > " ∷ number cfg.max_arg_len ∷ []

abbrev pub timeout_message : ℤ → Config → Message
timeout_message effective cfg =
    text "timeout_ms " ∷ number effective ∷ text " exceeds max " ∷ number cfg.max_timeout_ms ∷ []

abbrev pub check_lengths : Config → Caller → ExecInput → Option ℕ → Handler (Unit {0})
check_lengths cfg caller input none = pure tt
check_lengths cfg caller input (some n) =
    deny_with caller input (too_long_message n cfg) (too_long_message n cfg)

unfoldable pub effective_timeout : Config → ExecInput → ℤ
effective_timeout cfg input =
    if eqb_ℤ input.timeout_ms (pos 0) then cfg.default_timeout_ms else input.timeout_ms

-- `limit < n`; shut in the proofs about the order of the checks.
unfoldable pub over : ℤ → ℤ → Bool
over limit n = ltb_ℤ limit n

abbrev pub check_count : Config → Caller → ExecInput → Handler (Unit {0})
check_count cfg caller input =
    when (over cfg.max_args (pos (length input.args)))
      (deny_with caller input (too_many_message input cfg) (too_many_message input cfg))

abbrev pub check_timeout : Config → Caller → ExecInput → Handler (Unit {0})
check_timeout cfg caller input = when (over cfg.max_timeout_ms (effective_timeout cfg input)) (
    deny_with caller input (timeout_message (effective_timeout cfg input) cfg)
      (timeout_message (effective_timeout cfg input) cfg))

abbrev pub limit_checks : Config → Caller → ExecInput → Handler (Unit {0})
limit_checks cfg caller input = do
  check_count cfg caller input
  check_lengths cfg caller input (too_long cfg.max_arg_len input.args)
  check_timeout cfg caller input

-- How an error of Run is audited.
abbrev pub verdict_of : RunError → Verdict
verdict_of not_allowed = deny
verdict_of bad_cwd = fail
verdict_of not_found = fail

abbrev pub reason_of : RunError → Message
reason_of not_allowed = text "not-allowed" ∷ []
reason_of bad_cwd = text "bad-cwd" ∷ []
reason_of not_found = text "not-found" ∷ []

abbrev pub reply_of : RunError → Message
reply_of not_allowed = text "command not allowed" ∷ []
reply_of bad_cwd = text "command not found" ∷ []
reply_of not_found = text "command not found" ∷ []

abbrev flag : Bool → Piece
flag true = text "true"
flag false = text "false"

abbrev truncation : Output → Message
truncation o = if o.stdout_truncated || o.stderr_truncated then text " truncated" ∷ [] else []

unfoldable pub exec_output : Output → ExecOutput
exec_output o = record {
  stdout = o.stdout;
  stderr = o.stderr;
  exit_code = o.exit_code;
  duration_ms = o.duration / 1_000_000;
  timed_out = o.timed_out;
  stdout_truncated = o.stdout_truncated;
  stderr_truncated = o.stderr_truncated;
  summary =
      text "exit="
      ∷ number o.exit_code
      ∷ text " duration="
      ∷ number (pos (o.duration / 1_000_000))
      ∷ text "ms timed_out="
      ∷ flag o.timed_out
      ∷ text " stdout="
      ∷ number (pos (length o.stdout))
      ∷ text "B stderr="
      ∷ number (pos (length o.stderr))
      ∷ text "B"
      ∷ truncation o;
}

abbrev pub report : Caller → ExecInput → Result RunError Output → Handler ExecOutput
report caller input (err e) = do
  audit (exec_record caller input (verdict_of e) (reason_of e))
  raise (reply_of e)
report caller input (ok o) = do
  audit (record (exec_record caller input success []) {
    exit_code = some o.exit_code;
    duration = o.duration;
    timed_out = o.timed_out;
  })
  pure (exec_output o)

-- cmdexec.Run under the timeout of the call.
abbrev pub run_input : Config → ExecInput → Input
run_input cfg input = record {
  command = input.command;
  args = input.args;
  cwd = or_default input.cwd cfg.default_cwd;
}

unfoldable pub run_timeout : Config → ExecInput → ℤ
run_timeout cfg input = to_int64 (scale (effective_timeout cfg input) 1_000_000)

abbrev pub run_command : Host → Config → ExecInput → Trace → Result RunError Output × Trace
run_command host cfg input t =
    let (r, spawned) = run host (run_timeout cfg input) cfg (run_input cfg input) t.spawned in
    (r, record t { spawned = spawned })

unfoldable pub exec_handler : Host → Config → Caller → ExecInput → Handler ExecOutput
exec_handler host cfg caller input = do
  root_check host cfg caller input
  limit_checks cfg caller input
  λ t. let (r, t') = run_command host cfg input t in report caller input r t'
