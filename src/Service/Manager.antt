-- ===== src/Service/Manager.antt =====
-- internal/service/service.go: the interface ServiceManager, its two implementations, and New.
pub mod Laws
use raxd.Prelude.{
  ℕ, Bool, true, false, Option, none, some, List, [], ◌∷◌, Bytes, bytes_eq, codes, if◌then◌else◌,
}
use raxd.Prelude.Exec.{Result, ok, err}
use raxd.Prelude.Int.{ℤ, pos, eqb_ℤ}
use raxd.Server.Audit.{text, bytes}
use raxd.Service.{
  Config, ServiceError, wrap_err, unsupported, no_sentinel, Status, PurgeOptions, PurgeReport,
  default_config_for_goos,
}
use raxd.Service.Systemd.{Machine, System}
use raxd.Service.Systemd as Systemd
use raxd.Service.Systemd.Report as Report
use raxd.Service.Purge as LinuxPurge
use raxd.Service.Launchd.{Mac, Darwin}
use raxd.Service.Launchd as Launchd
use raxd.Service.Launchd.Purge as DarwinPurge

-- The operations, over a state of the host.
pub record Manager (S : Type 0) : Type 0 where
  pub install : S → Result ServiceError (Unit {0}) × S
  pub uninstall : S → Result ServiceError (Unit {0}) × S
  pub start : S → Result ServiceError (Unit {0}) × S
  pub stop : S → Result ServiceError (Unit {0}) × S
  pub status : S → Result ServiceError Status
  pub purge : PurgeOptions → S → Result ServiceError PurgeReport × S

abbrev pub systemd_manager :
    {M : Type 0} → System M → LinuxPurge.Removal M → Config → Manager (Machine M)
systemd_manager sys rm cfg = record {
  install = Systemd.install sys cfg;
  uninstall = Systemd.uninstall sys;
  start = Systemd.start_service sys;
  stop = Systemd.stop_service sys;
  status = λ m. ok (Report.status sys m);
  purge = LinuxPurge.purge sys rm cfg;
}

abbrev pub launchd_manager :
    {M : Type 0} → Darwin M → DarwinPurge.Removal M → Config → Manager (Mac M)
launchd_manager sys rm cfg = record {
  install = Launchd.install sys cfg;
  uninstall = Launchd.uninstall sys;
  start = Launchd.start_service sys;
  stop = Launchd.stop_service sys;
  status = λ m. ok (Launchd.status sys m);
  purge = DarwinPurge.purge sys rm cfg;
}

-- Which manager New returns, with the configuration that it is given.
pub data Built : Type 0 where
  systemd launchd : Config → Built

abbrev pub or_default : Bytes → Bytes → Bytes
or_default [] default = default
or_default (c ∷ cs) default = c ∷ cs

unfoldable pub with_defaults : Bytes → Config → Config
unfolding default_config_for_goos
with_defaults goos cfg =
    let d = default_config_for_goos goos in
    record cfg {
      user = or_default cfg.user d.user;
      group = or_default cfg.group d.group;
      label = or_default cfg.label d.label;
      state_dir = or_default cfg.state_dir d.state_dir;
      config_dir = or_default cfg.config_dir d.config_dir;
      log_path = or_default cfg.log_path d.log_path;
      port = (if eqb_ℤ cfg.port (pos 0) then d.port else cfg.port);
    }

-- The executable of the process, `none` where os.Executable fails.
abbrev pub with_executable : Option Bytes → Config → Bytes → Result ServiceError Config
with_executable exe cfg (c ∷ cs) = ok cfg
with_executable none cfg [] =
    err (wrap_err no_sentinel (text "cannot determine executable path" ∷ []))
with_executable (some exe) cfg [] = ok (record cfg { exec_path = exe })

abbrev pub for_platform : Bytes → Config → Result ServiceError Built
for_platform goos cfg =
    if bytes_eq goos (codes "linux")
    then ok (systemd cfg)
    else if bytes_eq goos (codes "darwin")
    then ok (launchd cfg)
    else err (wrap_err unsupported (text "GOOS=" ∷ bytes goos ∷ []))

abbrev pub built : Bytes → Result ServiceError Config → Result ServiceError Built
built goos (err e) = err e
built goos (ok cfg) = for_platform goos (with_defaults goos cfg)

unfoldable pub new_manager : Bytes → Option Bytes → Config → Result ServiceError Built
unfolding with_defaults
new_manager goos exe cfg = built goos (with_executable exe cfg cfg.exec_path)
