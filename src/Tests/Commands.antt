-- ===== src/Tests/Commands.antt =====
-- Processes and the tool execute_command on concrete commands.
use raxd.Prelude.{◌≡◌, ◌⊎◌, refl, true, false, some, [], ◌∷◌, Bytes, bytes_eq, codes, length}
use raxd.Prelude.Int.{pos, to_int64}
use raxd.CmdExec.{Config, Input, Output}
use raxd.CmdExec.CappedWriter.{CappedWriter, new_capped_writer, write, write_all, write_all_lem}
use raxd.CmdExec.Run.{
  Host, Spawn, no_error, contains, validate_cwd, lookup_binary, build_env, output_of, run,
}
use raxd.CmdExec.Run.Spawning.{IsPermitted, run-ok}
use raxd.Server.Audit.{fail, deny, text}
use raxd.Mcp.Caller.{Caller, no_trace, finals}
use raxd.Mcp.ExecTool.{
  ExecInput, too_long, effective_timeout, over, exec_output, run_timeout, exec_handler,
}
use raxd.Mcp.ExecTool.Accounting.{exec_handler-error}

abbrev pub limits : Config
limits = record {
  allowlist = codes "ls" ∷ [];
  default_timeout_ms = pos 30;
  max_timeout_ms = pos 60;
  default_cwd = codes "/";
  env_whitelist = codes "PATH" ∷ [];
  max_args = pos 2;
  max_arg_len = pos 5;
  max_output_bytes = 3;
  deny_root = false;
}

abbrev pub host : Host
host = record {
  is_root = true;
  stat_is_dir = λ path. some true;
  look_path = λ name. some (47 ∷ name);
  getenv = λ name. codes "/bin";
  start = λ s. some (record {
    out_writes = codes "ab" ∷ codes "cd" ∷ [];
    err_writes = [];
    wait_error = no_error;
    context_done = false;
    duration = 2_000_000;
  });
}

abbrev ls : Input
ls = record { command = codes "ls"; args = codes "-l" ∷ []; cwd = codes "/" }

abbrev rm : Input
rm = record ls { command = codes "rm" }

abbrev output : Output
output = record {
  stdout = codes "abc";
  stderr = [];
  exit_code = pos 0;
  duration = 2_000_000;
  timed_out = false;
  stdout_truncated = true;
  stderr_truncated = false;
}

abbrev caller : Caller
caller = record { fingerprint = codes "fa"; remote_addr = codes "::1" }

abbrev pub call : ExecInput
call = record { command = codes "ls"; args = codes "-l" ∷ []; timeout_ms = pos 0; cwd = [] }

write_all_lem_example :
    ((write_all (new_capped_writer 3) (codes "ab" ∷ codes "cd" ∷ [])).buf ≡ codes "abc")
    × ((write_all (new_capped_writer 3) (codes "ab" ∷ codes "cd" ∷ [])).truncated ≡ true)
    × ((cw : CappedWriter) (p : Bytes) → (write cw p).1 ≡ length p)
unfolding new_capped_writer write write_all contains validate_cwd lookup_binary build_env output_of
    run too_long effective_timeout over exec_output run_timeout exec_handler bytes_eq to_int64
write_all_lem_example = write_all_lem 3 (codes "ab" ∷ codes "cd" ∷ [])

run-ok_example :
    (s : Spawn) × IsPermitted host (pos 30) limits ls s
    × ((run host (pos 30) limits ls []).1 ≡ s ∷ [])
unfolding new_capped_writer write write_all contains validate_cwd lookup_binary build_env output_of
    run too_long effective_timeout over exec_output run_timeout exec_handler bytes_eq to_int64
run-ok_example = run-ok host (pos 30) limits ls [] {o = output} refl

exec_handler-error_example :
    (finals
        (exec_handler host limits caller (record call { command = codes "rm" }) no_trace).1.audits
      ≡ deny ∷ [])
    ⊎ (finals
          (exec_handler host limits caller (record call { command = codes "rm" }) no_trace).1.audits
        ≡ fail ∷ [])
unfolding new_capped_writer write write_all contains validate_cwd lookup_binary build_env output_of
    run too_long effective_timeout over exec_output run_timeout exec_handler bytes_eq to_int64
exec_handler-error_example =
    exec_handler-error host limits caller (record call { command = codes "rm" })
      {e = text "command not allowed" ∷ []} refl
