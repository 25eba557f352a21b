-- ===== src/Service.antt =====
-- internal/service: the configuration, the errors and the machine of service.go.
pub mod Exec
pub mod Paths
pub mod Passwd
pub mod Templates
pub mod Systemd
pub mod Purge
pub mod Launchd
pub mod Manager
use raxd.Prelude.{Bool, List, [], Bytes, bytes_eq, codes, if◌then◌else◌}
use raxd.Prelude.Int.{ℤ, pos}
use raxd.Server.Audit.{Message}

pub record Config : Type 0 where
  pub exec_path : Bytes
  pub port : ℤ
  pub user : Bytes
  pub group : Bytes
  pub label : Bytes
  pub state_dir : Bytes
  pub config_dir : Bytes
  pub log_path : Bytes

-- The sentinels; `no_sentinel` is an error that wraps none of them.
pub data Sentinel : Type 0 where
  already_installed not_installed manager_unavailable permission unsupported : Sentinel
  user_mismatch suspicious_path purge_not_confirmed no_sentinel : Sentinel

pub record ServiceError : Type 0 where
  pub sentinel : Sentinel
  pub detail : Message

abbrev pub wrap_err : Sentinel → Message → ServiceError
wrap_err sentinel detail = record { sentinel = sentinel; detail = detail }

pub record Status : Type 0 where
  pub installed : Bool
  pub active : Bool
  pub pid : ℤ
  pub euid : ℤ
  pub state : Bytes

pub record PurgeOptions : Type 0 where
  pub confirmed : Bool
  -- Whether there is a writer for the audit record.
  pub audit_out : Bool

-- The audit record that Purge writes before it removes anything.
pub record PurgeIntent : Type 0 where
  pub platform : Bytes
  pub user_present : Bool
  pub dirs_present : List Bytes

pub record PurgeReport : Type 0 where
  pub platform : Bytes
  pub stopped : Bool
  pub uninstalled : Bool
  pub user_removed : Bool
  pub user_absent : Bool
  pub dirs_removed : List Bytes
  pub dirs_absent : List Bytes

abbrev pub base_config : Bytes → Bytes → Bytes → Config
base_config config_dir state_dir log_path = record {
  exec_path = [];
  port = pos 7822;
  user = codes "raxd";
  group = codes "raxd";
  label = codes "tech.oem.raxd";
  state_dir = state_dir;
  config_dir = config_dir;
  log_path = log_path;
}

unfoldable pub default_config_for_goos : Bytes → Config
default_config_for_goos goos =
    if bytes_eq goos (codes "darwin")
    then base_config (codes "/usr/local/etc/raxd") (codes "/usr/local/var/raxd")
        (codes "/usr/local/var/log/raxd")
    else base_config (codes "/etc/raxd") (codes "/var/lib/raxd") (codes "/var/log/raxd")
