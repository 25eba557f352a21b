-- ===== src/Daemon/Serve.antt =====
-- internal/cli/serve.go: how the command serve builds the handler of internal/mcp.
pub mod Quota
use raxd.Prelude.{
  ℕ, Bool, ◌++◌, if◌then◌else◌, ◌≡◌, ◌≤◌, ◌<◌, refl, sym, ◌∙◌, false, Option, none, some, List, [],
  ◌∷◌, Bytes, arith, inl, inr,
}
use raxd.Prelude.Exec.{Exec, Result, ok, err, ◌>>=◌, ◌>>◌, Result-cases}
use raxd.Prelude.Int.{pos_part}
use raxd.CmdExec.{Config as RunConfig}
use raxd.FileUpload.{Config as UploadRunConfig}
use raxd.FileUpload.Mode.{parse_mode}
use raxd.FileUpload.Root.{total}
use raxd.Config.{ExecConfig, Config, ConfigError}
use raxd.Config.Paths.{PathSet, PathsError, paths, ensure_dirs, make_dir}
use raxd.Keystore.{StoreError}
use raxd.Keystore.Store.{open_store, list}
use raxd.Server.Limiters.{Buckets}
use raxd.Server.Pipeline.{McpHandler}
use raxd.Server.Lifecycle.{Server, ServerError, Step, run, new_server}
use raxd.Mcp.Server.{Sdk, Machine, Daemon, new_handler}
use raxd.Cli.{Line}
use raxd.Cli.Serve.{
  ServeError, Host, Start, Action, root_or_default, upload_run_config, run_serve, serve_with,
  run_to_end, get_paths, on_dirs, get_config, check_store, get_mode, ended, no_keys, started,
  start_lines, make_server, make_upload_root, tls_dir_error, upload_root_error,
}
use raxd.Daemon.{Setting, mcp_of}
use raxd.Daemon.Quota.{run-within_quota}

-- make of a negative capacity panics in NewCappedWriter; here it counts as 0.
abbrev pub exec_run_config : ExecConfig → RunConfig
exec_run_config e = record {
  allowlist = e.allowlist;
  default_timeout_ms = e.default_timeout_ms;
  max_timeout_ms = e.max_timeout_ms;
  default_cwd = e.default_cwd;
  env_whitelist = e.env_whitelist;
  max_args = e.max_args;
  max_arg_len = e.max_arg_len;
  max_output_bytes = pos_part e.max_output_bytes;
  deny_root = e.deny_root;
}

module _ (sdk : Sdk) (meets : ℕ → Machine) (ver : Bytes) where
  abbrev pub mcp_handler : ExecConfig → UploadRunConfig → Option (McpHandler Daemon)
  mcp_handler exec upload = some (new_handler meets ver (exec_run_config exec) upload sdk)

module _ {L : Type 0} (b : Buckets L) (sdk : Sdk) (meets : ℕ → Machine) (ver : Bytes) where
  abbrev pub setting : Server → ExecConfig → UploadRunConfig → Setting L
  setting srv exec upload = record {
    buckets = b;
    server = srv;
    sdk = sdk;
    meets = meets;
    version = ver;
    exec_cfg = exec_run_config exec;
    upl_cfg = upload;
  }
