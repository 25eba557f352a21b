-- ===== src/CmdExec.antt =====
-- internal/cmdexec: the configuration of config.go, the input, the result and the errors of exec.go.
pub mod CappedWriter
pub mod Run
pub mod Group
use raxd.Prelude.{ℕ, Bool, List, Bytes}
use raxd.Prelude.Int.{ℤ}

pub record Config : Type 0 where
  pub allowlist : List Bytes
  pub default_timeout_ms : ℤ
  pub max_timeout_ms : ℤ
  pub default_cwd : Bytes
  pub env_whitelist : List Bytes
  pub max_args : ℤ
  pub max_arg_len : ℤ
  pub max_output_bytes : ℕ
  pub deny_root : Bool

pub record Input : Type 0 where
  pub command : Bytes
  pub args : List Bytes
  pub cwd : Bytes

pub record Output : Type 0 where
  pub stdout : Bytes
  pub stderr : Bytes
  pub exit_code : ℤ
  pub duration : ℕ
  pub timed_out : Bool
  pub stdout_truncated : Bool
  pub stderr_truncated : Bool

-- `not_found` is any error that wraps neither sentinel.
pub data RunError : Type 0 where
  not_allowed bad_cwd not_found : RunError
