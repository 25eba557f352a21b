-- ===== src/Cli/Service.antt =====
-- internal/cli/service.go: the commands of the group service, over a manager.
pub mod Messages
pub mod Commands
use raxd.Prelude.{
  ℕ, ◌-◌, Bool, true, false, not, ◌&&◌, Option, none, some, List, [], ◌∷◌, ◌++◌, Bytes, codes,
  length, String, if◌then◌else◌,
}
use raxd.Prelude.Exec.{Exec, Result, ok, err, pure, raise, when, ◌>>=◌, ◌>>◌}
use raxd.Prelude.Int.{ℤ, pos, ltb_ℤ}
use raxd.Server.Audit.{Message, text, bytes, number}
use raxd.Service.{
  Config as ServiceConfig, Sentinel, ServiceError, wrap_err, already_installed, not_installed,
  manager_unavailable, permission, unsupported, user_mismatch, suspicious_path, purge_not_confirmed,
  no_sentinel, Status, PurgeOptions, PurgeReport, default_config_for_goos,
}
use raxd.Service.Manager.{Manager, Built, new_manager}
use raxd.Config.Paths.{PathsError, PathSet}
use raxd.Config.{Config, ConfigError}
use raxd.Cli.{Line, stdout, stderr, info}
use raxd.Cli.Service.Messages.{
  print_svc_error, map_manager_error, map_purge_error, print_purge_barrier, print_purge_report,
  print_status_human, print_status_json, field, unit_display_path_for_os,
}

pub data CommandError : Type 0 where
  of_service : ServiceError → CommandError
  needs_yes : CommandError

-- What the manager works on, and what was printed, the oldest line first.
pub record Session (S : Type 0) : Type 0 where
  pub host : S
  pub console : List Line

abbrev pub Command : Type 0 → Type 0 → Type 0
Command S A = Exec CommandError (Session S) A

-- The port of the configuration is put into that of the service, as is os.Executable.
abbrev pub service_config : Bytes → Option Bytes → ℤ → ServiceConfig
service_config goos exe port = record (default_config_for_goos goos) {
  port = port;
  exec_path = elim exe [ none ↦ [] | some path ↦ path ];
}

abbrev pub with_port : ℤ → Result ServiceError Built → Result ServiceError (Built × ℤ)
with_port port (ok b) = ok (b, port)
with_port port (err e) = err e

-- resolveManagerWithPort without a manager that is handed in: the paths, what Load gives at them,
-- the system's name, and the executable.
unfoldable pub resolve_manager_with_port :
    Result PathsError PathSet
    → (PathSet → Result ConfigError Config)
    → Bytes
    → Option Bytes
    → Result ServiceError (Built × ℤ)
unfolding new_manager default_config_for_goos
resolve_manager_with_port (err e) load goos exe =
    let cfg = service_config goos exe (default_config_for_goos goos).port in
    with_port cfg.port (new_manager goos exe cfg)
resolve_manager_with_port (ok p) load goos exe = elim (load p) [
  | err e ↦ err (wrap_err no_sentinel (text "cannot load configuration" ∷ []))
  | ok c ↦ with_port c.port (new_manager goos exe (service_config goos exe c.port))
]

-- The manager of resolveManagerWithPort, with the port; an error of it ends the command.
abbrev pub Resolved : Type 0 → Type 0
Resolved S = Result ServiceError (Manager S × ℤ)

abbrev pub installed_lines : Bytes → Bool → ℤ → List Line
installed_lines goos linux port =
    let unit = unit_display_path_for_os goos in
    field "installed" (text "raxd service" ∷ [])
    ∷ field "unit" (bytes unit ∷ [])
    ∷ ((if linux
          then field "drop-in" (text "/etc/systemd/journald.conf.d/raxd.conf" ∷ []) ∷ []
          else [])
        ++ field "user" (text "raxd  [not root]" ∷ [])
          ∷ ((if ltb_ℤ (pos 0) port then field "port" (number port ∷ []) ∷ [] else [])
              ++ field "autostart" (text "enabled" ∷ [])
                ∷ field "hint:" (text "start the service now with \"raxd service start\"" ∷ [])
                ∷ info "service installed" (
                    ("action", text "install" ∷ [])
                    ∷ ("platform", bytes goos ∷ [])
                    ∷ ("unit", bytes unit ∷ [])
                    ∷ ("user", text "raxd" ∷ [])
                    ∷ ("port", number port ∷ [])
                    ∷ [])
                ∷ []))

abbrev pub uninstalled_lines : Bytes → Bool → List Line
uninstalled_lines goos linux =
    field "uninstalled" (text "raxd service" ∷ [])
    ∷ ((if linux
          then field "removed" (text "unit file and autostart registration" ∷ [])
            ∷ field "removed" (text "journal size limit drop-in" ∷ [])
            ∷ field "kept" (text "system user \"raxd\" (no shell, no home, not running)" ∷ [])
            ∷ stderr (text "  hint: to also remove the user: sudo userdel raxd" ∷ [])
            ∷ []
          else field "removed" (text "plist file and autostart registration" ∷ [])
            ∷ field "kept" (text "system user \"raxd\" (no shell, no home, not running)" ∷ [])
            ∷ stderr (text "  hint: to also remove the user: sudo dscl . -delete /Users/raxd" ∷ [])
            ∷ [])
        ++ stderr (
            text "  hint: data in "
            ∷ bytes (default_config_for_goos goos).state_dir
            ∷ text " is preserved — remove manually if no longer needed"
            ∷ [])
          ∷ info "service uninstalled"
              (("action", text "uninstall" ∷ []) ∷ ("platform", bytes goos ∷ []) ∷ [])
          ∷ [])

abbrev pub pid_of : Result ServiceError Status → ℤ
pid_of (ok st) = st.pid
pid_of (err e) = pos 0

abbrev pub started_lines : ℤ → List Line
started_lines pid =
    field "started" (text "raxd service" ∷ [])
    ∷ ((if ltb_ℤ (pos 0) pid then field "pid" (number pid ∷ []) ∷ [] else [])
        ++ stderr (text "  hint: check status with \"raxd service status\"" ∷ [])
          ∷ info "service started" (("action", text "start" ∷ []) ∷ ("pid", number pid ∷ []) ∷ [])
          ∷ [])

module _ {S : Type 0} where
  abbrev pub print : List Line → Command S (Unit {0})
  print lines s = (ok tt, record s { console = s.console ++ lines })

  -- A method of the manager.
  abbrev pub on_host :
      {A : Type 0} → (S → Result ServiceError A × S) → Session S → Result ServiceError A × Session S
  on_host m s = let (r, h) = m s.host in (r, record s { host = h })

  abbrev pub fails : {A : Type 0} → ServiceError → Command S A
  fails e = do print (print_svc_error (map_manager_error e)); raise (of_service e)

  abbrev pub resolved : Resolved S → Command S (Manager S × ℤ)
  resolved (ok m) = pure m
  resolved (err e) = fails e

  abbrev pub install_error : Sentinel → ServiceError → Command S (Unit {0})
  install_error already_installed e = print (
      stderr (text "  already installed   raxd service" ∷ [])
      ∷ stderr (text "  hint: use \"raxd service status\" to check the current state" ∷ [])
      ∷ [])
  install_error _ e = fails e

  abbrev pub install_end : List Line → Result ServiceError (Unit {0}) → Command S (Unit {0})
  install_end lines (ok u) = print lines
  install_end lines (err e) = install_error e.sentinel e

  unfoldable pub run_install : Bytes → Bool → Resolved S → Command S (Unit {0})
  unfolding print_svc_error map_manager_error
  run_install goos linux r = do
    m ← resolved r
    λ s. let (x, t) = on_host m.0.install s in install_end (installed_lines goos linux m.1) x t

  abbrev pub uninstall_error : Sentinel → ServiceError → Command S (Unit {0})
  uninstall_error not_installed e = print (
      stderr (text "  not installed   raxd service" ∷ [])
      ∷ stderr (text "  hint: use \"raxd service install\" to set up the service" ∷ [])
      ∷ [])
  uninstall_error _ e = fails e

  abbrev pub uninstall_end : List Line → Result ServiceError (Unit {0}) → Command S (Unit {0})
  uninstall_end lines (ok u) = print lines
  uninstall_end lines (err e) = uninstall_error e.sentinel e

  abbrev pub purge_end : Bool → Result ServiceError PurgeReport → Command S (Unit {0})
  purge_end linux (ok report) = print (print_purge_report linux report)
  purge_end linux (err e) = do print (print_svc_error (map_purge_error e)); raise (of_service e)

  abbrev pub run_purge_cmd : Bool → Manager S → Command S (Unit {0})
  run_purge_cmd linux m s =
      let (x, t) = on_host (m.purge (record { confirmed = true; audit_out = true })) s in
      purge_end linux x t

  abbrev pub remove : Bytes → Bool → Bool → Manager S → Command S (Unit {0})
  remove goos linux true m s = run_purge_cmd linux m s
  remove goos linux false m s =
      let (x, t) = on_host m.uninstall s in uninstall_end (uninstalled_lines goos linux) x t

  -- The flags --purge and --yes.
  unfoldable pub run_uninstall : Bytes → Bool → Bool → Bool → Resolved S → Command S (Unit {0})
  unfolding print_svc_error map_manager_error map_purge_error print_purge_barrier print_purge_report
      default_config_for_goos
  run_uninstall goos linux do_purge do_yes r = do
    when (do_purge && not do_yes) (do print (print_purge_barrier goos); raise needs_yes)
    m ← resolved r
    remove goos linux (do_purge && do_yes) m.0

  abbrev pub not_installed_or : Sentinel → ServiceError → Command S (Unit {0})
  not_installed_or not_installed e = do
    print (
        stderr (text "error: raxd service is not installed" ∷ [])
        ∷ stderr (text "  hint: install it first with \"raxd service install\"" ∷ [])
        ∷ [])
    raise (of_service e)
  not_installed_or _ e = fails e

  abbrev pub start_end : Manager S → Result ServiceError (Unit {0}) → Command S (Unit {0})
  start_end m (ok u) s = print (started_lines (pid_of (m.status s.host))) s
  start_end m (err e) s = not_installed_or e.sentinel e s

  unfoldable pub run_start : Resolved S → Command S (Unit {0})
  unfolding print_svc_error map_manager_error
  run_start r = do m ← resolved r; λ s. let (x, t) = on_host m.0.start s in start_end m.0 x t

  abbrev pub stop_end : Result ServiceError (Unit {0}) → Command S (Unit {0})
  stop_end (ok u) = print (
      field "stopped" (text "raxd service" ∷ [])
      ∷ stderr (text "  hint: start again with \"raxd service start\"" ∷ [])
      ∷ info "service stopped" (("action", text "stop" ∷ []) ∷ [])
      ∷ [])
  stop_end (err e) = not_installed_or e.sentinel e

  unfoldable pub run_stop : Resolved S → Command S (Unit {0})
  unfolding print_svc_error map_manager_error
  run_stop r = do m ← resolved r; λ s. let (x, t) = on_host m.0.stop s in stop_end x t

  abbrev pub status_end : Bytes → Bool → ℤ → Result ServiceError Status → Command S (Unit {0})
  status_end goos true port (ok st) = print (print_status_json goos st port)
  status_end goos false port (ok st) = print (print_status_human goos st port)
  status_end goos json port (err e) = fails e

  -- The flag --json; writing the lines does not fail.
  unfoldable pub run_status : Bytes → Bool → Resolved S → Command S (Unit {0})
  unfolding print_svc_error map_manager_error print_status_json print_status_human
  run_status goos json r = do m ← resolved r; λ s. status_end goos json m.1 (m.0.status s.host) s
