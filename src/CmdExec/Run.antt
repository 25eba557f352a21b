-- ===== src/CmdExec/Run.antt =====
-- internal/cmdexec/exec.go: Run, with the host it runs on as an argument and the processes that
-- were started as the state.
pub mod Spawning
use raxd.Prelude.{
  ℕ, ◌+◌, Bool, true, false, not, ◌&&◌, ◌||◌, Option, none, some, List, [], ◌∷◌, ◌++◌, Bytes,
  bytes_eq, if◌then◌else◌, ◌==◌,
}
use raxd.Prelude.Exec.{Exec, Result, ok, err, pure, raise, lift, when, ◌>>=◌, ◌>>◌}
use raxd.Prelude.Int.{ℤ, pos, negsuc, ltb_ℤ}
use raxd.CmdExec.{Config, Input, Output, RunError, not_allowed, bad_cwd, not_found}
use raxd.CmdExec.CappedWriter.{new_capped_writer, write_all}

-- One `exec.Cmd` as it is started; `timeout` is that of its context, in nanoseconds.
pub record Spawn : Type 0 where
  pub bin : Bytes
  pub args : List Bytes
  pub env : List Bytes
  pub working_dir : Bytes
  pub timeout : ℤ

-- The error of `cmd.Wait`.
pub data WaitError : Type 0 where
  no_error other_error : WaitError
  exit_error : ℤ → WaitError

-- A process that was started: what it wrote, how it ended, and whether its context was done then.
pub record Ending : Type 0 where
  pub out_writes : List Bytes
  pub err_writes : List Bytes
  pub wait_error : WaitError
  pub context_done : Bool
  pub duration : ℕ

-- `stat_is_dir` is `none` where os.Stat fails; `look_path` is `none` where exec.LookPath fails;
-- `start` is `none` where cmd.Start fails.
pub record Host : Type 0 where
  pub is_root : Bool
  pub stat_is_dir : Bytes → Option Bool
  pub look_path : Bytes → Option Bytes
  pub getenv : Bytes → Bytes
  pub start : Spawn → Option Ending

unfoldable pub contains : List Bytes → Bytes → Bool
contains [] command = false
contains (entry ∷ entries) command = bytes_eq entry command || contains entries command

abbrev pub is_nil : {A : Type 0} → List A → Bool
is_nil [] = true
is_nil (x ∷ xs) = false

-- An empty allowlist allows every command.
abbrev pub is_allowed : List Bytes → Bytes → Bool
is_allowed allowlist command = is_nil allowlist || contains allowlist command

abbrev pub or_default : Bytes → Bytes → Bytes
or_default [] d = d
or_default (c ∷ cs) d = c ∷ cs

abbrev check_dir : Option Bool → Result RunError (Unit {0})
check_dir none = err bad_cwd
check_dir (some false) = err bad_cwd
check_dir (some true) = ok tt

unfoldable pub validate_cwd : Host → Bytes → Result RunError (Unit {0})
validate_cwd host path = check_dir (host.stat_is_dir path)

abbrev pub is_absolute : Bytes → Bool
is_absolute [] = false
is_absolute (c ∷ cs) = c == 47

abbrev pub check_stat : Bytes → Option Bool → Result RunError Bytes
check_stat command none = err not_found
check_stat command (some b) = ok command

abbrev check_found : Option Bytes → Result RunError Bytes
check_found none = err not_found
check_found (some bin) = if is_absolute bin then ok bin else err not_found

unfoldable pub lookup_binary : Host → Bytes → Result RunError Bytes
lookup_binary host command =
    if is_absolute command
    then check_stat command (host.stat_is_dir command)
    else check_found (host.look_path command)

abbrev pub with_value : Bytes → Bytes → List Bytes → List Bytes
with_value key [] env = env
with_value key (c ∷ cs) env = (key ++ 61 ∷ c ∷ cs) ∷ env

unfoldable pub build_env : Host → List Bytes → List Bytes
build_env host [] = []
build_env host (key ∷ keys) = with_value key (host.getenv key) (build_env host keys)

abbrev pub exit_code_of : WaitError → Bool → ℤ
exit_code_of no_error done = pos 0
exit_code_of other_error done = if done then negsuc 0 else pos 0
exit_code_of (exit_error code) done = if done then negsuc 0 else code

abbrev pub timed_out_of : WaitError → Bool → Bool
timed_out_of no_error done = false
timed_out_of other_error done = done
timed_out_of (exit_error code) done = done

unfoldable pub output_of : Config → Ending → Output
output_of cfg e =
    let out = write_all (new_capped_writer cfg.max_output_bytes) e.out_writes in
    let errs = write_all (new_capped_writer cfg.max_output_bytes) e.err_writes in
    record {
      stdout = out.buf;
      stderr = errs.buf;
      exit_code = exit_code_of e.wait_error e.context_done;
      duration = e.duration;
      timed_out = timed_out_of e.wait_error e.context_done;
      stdout_truncated = out.truncated;
      stderr_truncated = errs.truncated;
    }

-- `cmd.Start` fails too where the context is done already, as with a timeout of 0 or less.
abbrev pub started : Host → Spawn → Option Ending
started host s = if ltb_ℤ (pos 0) s.timeout then host.start s else none

abbrev finish : Config → Spawn → Option Ending → Exec RunError (List Spawn) Output
finish cfg s none spawned = (err not_found, spawned)
finish cfg s (some e) spawned = (ok (output_of cfg e), spawned ++ s ∷ [])

abbrev pub run_spawn : Host → Config → Spawn → Exec RunError (List Spawn) Output
run_spawn host cfg s = finish cfg s (started host s)

unfoldable pub run : Host → ℤ → Config → Input → Exec RunError (List Spawn) Output
run host timeout cfg input = do
  when (not (is_allowed cfg.allowlist input.command)) (raise not_allowed)
  lift (validate_cwd host (or_default input.cwd cfg.default_cwd))
  bin ← lift (lookup_binary host input.command)
  run_spawn host cfg (record {
    bin = bin;
    args = input.args;
    env = build_env host cfg.env_whitelist;
    working_dir = or_default input.cwd cfg.default_cwd;
    timeout = timeout;
  })
