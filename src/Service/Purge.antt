-- ===== src/Service/Purge.antt =====
-- internal/service/systemd.go: Purge with emitPurgeAuditRecord and deleteUserLinux.
pub mod Order
pub mod Unknown
use raxd.Prelude.{
  ℕ, Bool, true, false, not, ◌&&◌, ◌||◌, Option, none, some, List, [], ◌∷◌, ◌++◌, Bytes, bytes_eq,
  codes, if◌then◌else◌,
}
use raxd.Prelude.Exec.{Exec, Result, ok, err, pure, raise, lift, when, ◌>>=◌, ◌>>◌}
use raxd.Server.Audit.{text, bytes}
use raxd.Service.{
  Config, Sentinel, ServiceError, wrap_err, already_installed, not_installed, manager_unavailable,
  permission, user_mismatch, suspicious_path, purge_not_confirmed, no_sentinel, Status,
  PurgeOptions, PurgeReport, PurgeIntent,
}
use raxd.Service.Paths.{Links, one_of, validate_purge_path}
use raxd.Service.Passwd.{Exit, verify_target_user_linux, userdel_result}
use raxd.Service.Systemd.{Machine, System, Action, must_be_root, failed, stop_service, uninstall}
use raxd.Service.Systemd.Report.{status}

-- What Purge meets besides: the links of the file system, getent and userdel, and the directories
-- that os.RemoveAll cannot remove.
pub record Removal (M : Type 0) : Type 0 where
  pub links : Links
  pub getent : M → Bytes → Exit × Bytes
  pub userdel : Bytes → M → Exit × M
  pub remove_all_fails : Bytes → Bool

abbrev pub intent_of : Bool → List Bytes → PurgeIntent
intent_of user dirs = record { platform = codes "linux"; user_present = user; dirs_present = dirs }

unfoldable pub without_dir : Bytes → List Bytes → List Bytes
without_dir d [] = []
without_dir d (x ∷ xs) = let rest = without_dir d xs in if bytes_eq d x then rest else x ∷ rest

module _ {M : Type 0} (sys : System M) (rm : Removal M) (cfg : Config) where
  abbrev pub did_stop : Result ServiceError (Unit {0}) → Result ServiceError (Unit {0})
  did_stop (ok u) = ok u
  did_stop (err e) = err (failed sys "service did not stop")

  -- Stop, where Status says that the service is active.
  abbrev pub stop_if : Bool → Action M (Unit {0})
  stop_if false m = (ok tt, m)
  stop_if true m = let (r, m') = stop_service sys m in (did_stop r, m')

  abbrev pub accept_missing : Sentinel → ServiceError → Result ServiceError Bool
  accept_missing not_installed e = ok false
  accept_missing _ e = err e

  -- Whether something was uninstalled; ErrNotInstalled is accepted.
  abbrev pub uninstalled_of : Result ServiceError (Unit {0}) → Result ServiceError Bool
  uninstalled_of (ok u) = ok true
  uninstalled_of (err e) = accept_missing e.sentinel e

  abbrev pub uninstall_if : Action M Bool
  uninstall_if m = let (r, m') = uninstall sys m in (uninstalled_of r, m')

  abbrev pub roots : List Bytes
  roots = cfg.state_dir ∷ cfg.config_dir ∷ []

  unfoldable pub present : List Bytes → List Bytes → List Bytes
  present dirs [] = []
  present dirs (d ∷ ds) = let rest = present dirs ds in if one_of d dirs then d ∷ rest else rest

  abbrev pub emit_purge_audit_record : Bool → Bool → List Bytes → Action M (Unit {0})
  emit_purge_audit_record false user dirs m = (ok tt, m)
  emit_purge_audit_record true user dirs m =
      (ok tt, record m { intents = m.intents ++ intent_of user dirs ∷ [] })

  abbrev pub delete_user : Bool → Action M (Unit {0})
  delete_user false m = (ok tt, m)
  delete_user true m =
      let (e, s) = rm.userdel cfg.user m.manager in (userdel_result e, record m { manager = s })

  abbrev pub remove_dir : Bytes → Action M (Unit {0})
  remove_dir d m =
      if rm.remove_all_fails d
      then (err (wrap_err manager_unavailable (text "cannot remove " ∷ bytes d ∷ [])), m)
      else (ok tt, record m { dirs = without_dir d m.dirs })

  unfoldable pub absent : List Bytes → List Bytes → List Bytes
  absent dirs [] = []
  absent dirs (d ∷ ds) = let rest = absent dirs ds in if one_of d dirs then rest else d ∷ rest

  -- From the audit record on.
  unfoldable pub destroy : PurgeOptions → Bool → Bool → Bool → Action M PurgeReport
  destroy opts stopped uninstalled user = do
    dirs ← λ m. (ok (present m.dirs roots), m)
    emit_purge_audit_record opts.audit_out user dirs
    delete_user user
    remove_dir cfg.state_dir
    remove_dir cfg.config_dir
    pure (record {
      platform = codes "linux";
      stopped = stopped;
      uninstalled = uninstalled;
      user_removed = user;
      user_absent = not user;
      dirs_removed = dirs;
      dirs_absent = absent dirs roots;
    })

  -- From the validation of the paths on.
  abbrev pub checks : PurgeOptions → Bool → Bool → Action M PurgeReport
  checks opts stopped uninstalled = do
    lift (validate_purge_path rm.links cfg.state_dir roots)
    lift (validate_purge_path rm.links cfg.config_dir roots)
    user ← λ m. (verify_target_user_linux (rm.getent m.manager) cfg.user, m)
    destroy opts stopped uninstalled user

  unfoldable pub purge : PurgeOptions → Action M PurgeReport
  purge opts = do
    when (not sys.is_root) (raise must_be_root)
    when (not opts.confirmed) (raise (wrap_err purge_not_confirmed []))
    stopped ← λ m. (ok (status sys m).active, m)
    stop_if stopped
    uninstalled ← uninstall_if
    checks opts stopped uninstalled
