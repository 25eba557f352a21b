-- ===== src/Service/Launchd/Purge.antt =====
-- internal/service/launchd.go: Purge with deleteUserDarwin.
use raxd.Prelude.{
  Bool, true, false, not, Option, none, some, List, [], ◌∷◌, ◌++◌, Bytes, codes, if◌then◌else◌,
}
use raxd.Prelude.Exec.{Result, ok, err, raise, lift, when, pure, ◌>>=◌, ◌>>◌}
use raxd.Server.Audit.{text, bytes}
use raxd.Service.{
  Config, Sentinel, ServiceError, wrap_err, not_installed, manager_unavailable, purge_not_confirmed,
  PurgeOptions, PurgeReport, PurgeIntent,
}
use raxd.Service.Paths.{Links, one_of, validate_purge_path}
use raxd.Service.Passwd.{Exit}
use raxd.Service.Systemd.{must_be_root}
use raxd.Service.Purge.{without_dir}
use raxd.Service.Launchd.{
  Darwin, Action, failed, verify_target_user_darwin, map_dscl_delete_error, stop_service, uninstall,
  status,
}

-- What Purge meets besides; dscl gives its error output, `none` where it ends without an error.
pub record Removal (M : Type 0) : Type 0 where
  pub links : Links
  pub dscl_read : M → Bytes → Exit × Bytes
  pub dscl_delete : Bytes → M → Option Bytes × M
  pub remove_all_fails : Bytes → Bool

-- The directories among those that are there, or not there.
unfoldable pub partition : Bool → List Bytes → List Bytes → List Bytes
partition wanted there [] = []
partition wanted there (d ∷ ds) =
    let rest = partition wanted there ds in
    if one_of d there
    then (if wanted then d ∷ rest else rest)
    else (if wanted then rest else d ∷ rest)

abbrev pub deleted : Option Bytes → Result ServiceError (Unit {0})
deleted none = ok tt
deleted (some stderr) = map_dscl_delete_error stderr

module _ {M : Type 0} (sys : Darwin M) (rm : Removal M) (cfg : Config) where
  abbrev pub did_stop : Result ServiceError (Unit {0}) → Result ServiceError (Unit {0})
  did_stop (ok u) = ok u
  did_stop (err e) = err (failed "service did not stop")

  abbrev pub stop_if : Bool → Action M (Unit {0})
  stop_if false m = (ok tt, m)
  stop_if true m = let (r, m') = stop_service sys m in (did_stop r, m')

  abbrev pub accept_missing : Sentinel → ServiceError → Result ServiceError Bool
  accept_missing not_installed e = ok false
  accept_missing _ e = err e

  abbrev pub uninstalled_of : Result ServiceError (Unit {0}) → Result ServiceError Bool
  uninstalled_of (ok u) = ok true
  uninstalled_of (err e) = accept_missing e.sentinel e

  abbrev pub uninstall_if : Action M Bool
  uninstall_if m = let (r, m') = uninstall sys m in (uninstalled_of r, m')

  abbrev pub roots : List Bytes
  roots = cfg.state_dir ∷ cfg.config_dir ∷ cfg.log_path ∷ []

  abbrev pub darwin_intent : Bool → List Bytes → PurgeIntent
  darwin_intent user dirs = record {
    platform = codes "darwin";
    user_present = user;
    dirs_present = dirs;
  }

  -- emitPurgeAuditRecord
  abbrev pub record_intent : Bool → Bool → List Bytes → Action M (Unit {0})
  record_intent false user dirs m = (ok tt, m)
  record_intent true user dirs m =
      (ok tt, record m { intents = m.intents ++ darwin_intent user dirs ∷ [] })

  abbrev pub delete_user_darwin : Bool → Action M (Unit {0})
  delete_user_darwin false m = (ok tt, m)
  delete_user_darwin true m =
      let (e, s) = rm.dscl_delete cfg.user m.manager in (deleted e, record m { manager = s })

  abbrev pub remove_dir : Bytes → Action M (Unit {0})
  remove_dir d m =
      if rm.remove_all_fails d
      then (err (wrap_err manager_unavailable (text "cannot remove " ∷ bytes d ∷ [])), m)
      else (ok tt, record m { dirs = without_dir d m.dirs; owned = without_dir d m.owned })

  -- From the audit record on.
  unfoldable pub destroy : PurgeOptions → Bool → Bool → Bool → Action M PurgeReport
  destroy opts stopped uninstalled user = do
    dirs ← λ m. (ok (partition true m.dirs roots), m)
    record_intent opts.audit_out user dirs
    delete_user_darwin user
    remove_dir cfg.state_dir
    remove_dir cfg.config_dir
    remove_dir cfg.log_path
    pure (record {
      platform = codes "darwin";
      stopped = stopped;
      uninstalled = uninstalled;
      user_removed = user;
      user_absent = not user;
      dirs_removed = dirs;
      dirs_absent = partition false dirs roots;
    })

  -- From the validation of the paths on.
  abbrev pub checks : PurgeOptions → Bool → Bool → Action M PurgeReport
  checks opts stopped uninstalled = do
    lift (validate_purge_path rm.links cfg.state_dir roots)
    lift (validate_purge_path rm.links cfg.config_dir roots)
    lift (validate_purge_path rm.links cfg.log_path roots)
    user ← λ m. (verify_target_user_darwin (rm.dscl_read m.manager) cfg.user, m)
    destroy opts stopped uninstalled user

  unfoldable pub purge : PurgeOptions → Action M PurgeReport
  purge opts = do
    when (not sys.is_root) (raise must_be_root)
    when (not opts.confirmed) (raise (wrap_err purge_not_confirmed []))
    stopped ← λ m. (ok (status sys m).active, m)
    stop_if stopped
    uninstalled ← uninstall_if
    checks opts stopped uninstalled
