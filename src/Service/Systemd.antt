-- ===== src/Service/Systemd.antt =====
-- internal/service/systemd.go: Install, Uninstall, Start, Stop and Status, and RunManager of
-- exec.go, over the files and the state of the service manager.
pub mod Rollback
pub mod Report
use raxd.Prelude.{
  ℕ, ◌+◌, ◌*◌, ◌-◌, Bool, true, false, not, ◌&&◌, ◌||◌, Option, none, some, List, [], ◌∷◌, ◌++◌,
  Bytes, bytes_eq, codes, if◌then◌else◌, ◌==◌, String, take,
}
use raxd.Prelude.Exec.{Exec, Result, ok, err, pure, raise, lift, when, ◌>>=◌, ◌>>◌}
use raxd.Prelude.Int.{ℤ, pos, ltb_ℤ}
use raxd.Server.Audit.{Message, text}
use raxd.Service.{
  Config, Sentinel, ServiceError, wrap_err, already_installed, not_installed, manager_unavailable,
  permission, no_sentinel, Status, PurgeIntent,
}
use raxd.Service.Passwd.{Exit, ran_well, is_exit_code, split, trim_space, atoi}
use raxd.Service.Templates.{template_data_from_config}
use raxd.Service.Templates.Unit.{render_unit, journald_drop_in}

-- The arguments that systemctl is given, besides the unit.
pub data Verb : Type 0 where
  daemon_reload enable start stop disable : Verb

-- How os.WriteFile or the making of its directory ends: done, failed before anything was written,
-- or failed with the first bytes in the file, which stays.
pub data WriteEnd : Type 0 where
  done nothing : WriteEnd
  partly : ℕ → WriteEnd

-- The unit file, the drop-in, the directories that exist, the state of the service manager and of
-- the accounts, and the audit records of Purge.
pub record Machine (M : Type 0) : Type 0 where
  pub unit : Option Bytes
  pub drop_in : Option Bytes
  pub dirs : List Bytes
  pub manager : M
  pub intents : List PurgeIntent

-- The programs that are called, and which system calls of one operation fail. `show` is the output
-- of systemctl show, `proc_status` the file /proc/<pid>/status.
pub record System (M : Type 0) : Type 0 where
  pub is_root : Bool
  pub stat_fails : Bool
  pub unit_write : WriteEnd
  pub drop_in_dir_fails : Bool
  pub drop_in_write : WriteEnd
  pub unit_remove_fails : Bool
  pub drop_in_remove_fails : Bool
  pub systemctl : Verb → M → Exit × M
  pub show : M → Exit × Bytes
  pub proc_status : ℤ → Option Bytes
  pub useradd : Bytes → M → Exit × M

abbrev pub Action : Type 0 → Type 0 → Type 0
Action M A = Exec ServiceError (Machine M) A

abbrev pub must_be_root : ServiceError
must_be_root = wrap_err permission (text "must be run as root or with sudo" ∷ [])

abbrev pub wrapped : String → ServiceError → ServiceError
wrapped prefix e = record e { detail = text prefix ∷ e.detail }

abbrev pub exists : Option Bytes → Bool
exists none = false
exists (some contents) = true

module _ {M : Type 0} (sys : System M) where
  abbrev pub check_root : Action M (Unit {0})
  check_root = when (not sys.is_root) (raise must_be_root)

  -- os.Stat without an error.
  abbrev pub unit_found : Machine M → Bool
  unit_found m = exists m.unit && not sys.stat_fails

  -- os.Stat with the error that there is no file.
  abbrev pub unit_missing : Machine M → Bool
  unit_missing m = not (exists m.unit) && not sys.stat_fails

  abbrev pub check_installed : Action M (Unit {0})
  check_installed m = (if unit_missing m then err (wrap_err not_installed []) else ok tt, m)

  -- RunManager; the callers ask only whether it failed.
  abbrev pub run_manager : Verb → Machine M → Bool × Machine M
  run_manager verb m =
      let (e, s) = sys.systemctl verb m.manager in (ran_well e, record m { manager = s })

  -- A call whose error is ignored.
  abbrev pub try_manager : Verb → Action M (Unit {0})
  try_manager verb m = (ok tt, (run_manager verb m).1)

  abbrev pub unless_ok : Bool → Action M (Unit {0}) → Action M (Unit {0})
  unless_ok true cleanup m = (ok tt, m)
  unless_ok false cleanup m = cleanup m

  -- On a failure the clean-up runs, and then the error is returned.
  abbrev pub need_manager : Verb → Action M (Unit {0}) → ServiceError → Action M (Unit {0})
  need_manager verb cleanup e m =
      let (well, m') = run_manager verb m in unless_ok well (cleanup >> raise e) m'

  abbrev pub user_result : Exit → Result ServiceError (Unit {0})
  user_result e =
      if ran_well e || is_exit_code e 9
      then ok tt
      else err (wrap_err permission (text "useradd failed" ∷ []))

  abbrev pub create_user : Config → Action M (Unit {0})
  create_user cfg m =
      let (e, s) = sys.useradd cfg.user m.manager in (user_result e, record m { manager = s })

  abbrev pub unit_text : Config → Result String Bytes → Result ServiceError Bytes
  unit_text cfg (ok s) = ok s
  unit_text cfg (err field) =
      err (wrap_err no_sentinel (text "service install: render unit: " ∷ text field ∷ []))

  -- What is in the file after a write of this text.
  abbrev pub written : WriteEnd → Bytes → Option Bytes → Option Bytes
  written done contents before = some contents
  written nothing contents before = before
  written (partly n) contents before = some (take n contents)

  abbrev pub is_done : WriteEnd → Bool
  is_done done = true
  is_done nothing = false
  is_done (partly n) = false

  abbrev pub write_unit : Bytes → Action M (Unit {0})
  write_unit contents m = (
    if is_done sys.unit_write
        then ok tt
        else err (wrap_err no_sentinel (text "service install: write unit" ∷ [])),
    record m { unit = written sys.unit_write contents m.unit },
  )

  abbrev pub removed : Bool → Bool → Option Bytes → Option Bytes
  removed wanted fails before = if wanted && not fails then none else before

  -- Errors of os.Remove are ignored.
  abbrev pub rollback : Bool → Bool → Action M (Unit {0})
  rollback unit drop_in m = (
    ok tt,
    record m {
      unit = removed unit sys.unit_remove_fails m.unit;
      drop_in = removed drop_in sys.drop_in_remove_fails m.drop_in;
    },
  )

  abbrev pub write_drop_in : Action M (Unit {0})
  write_drop_in m =
      unless_ok (is_done sys.drop_in_write)
        (rollback true false
          >> raise (wrap_err no_sentinel (text "service install: write drop-in" ∷ [])))
        (record m { drop_in = written sys.drop_in_write journald_drop_in m.drop_in })

  abbrev pub failed : String → ServiceError
  failed detail = wrap_err manager_unavailable (text detail ∷ [])

  abbrev pub in_install :
      Result ServiceError (Unit {0}) × Machine M → Result ServiceError (Unit {0}) × Machine M
  in_install (ok u, m) = (ok u, m)
  in_install (err e, m) = (err (wrapped "service install: create user: " e), m)

  -- The calls of systemctl, each with the clean-up of both files.
  unfoldable pub register : Action M (Unit {0})
  register = do
    need_manager daemon_reload (rollback true true) (failed "systemctl daemon-reload failed")
    need_manager enable (rollback true true) (failed "systemctl enable failed")

  -- Install from the write of the unit on.
  unfoldable pub put_files : Bytes → Action M (Unit {0})
  put_files contents = do
    write_unit contents
    when sys.drop_in_dir_fails (
        rollback true false
        >> raise (wrap_err no_sentinel (text "service install: create drop-in dir" ∷ [])))
    write_drop_in
    register

  unfoldable pub install : Config → Action M (Unit {0})
  install cfg = do
    check_root
    λ m. (if unit_found m then err (wrap_err already_installed []) else ok tt, m)
    λ m. in_install (create_user cfg m)
    contents ← lift (unit_text cfg (render_unit (template_data_from_config cfg)))
    put_files contents

  -- A file that is not there is no error.
  abbrev pub remove_unit : Action M (Unit {0})
  remove_unit m =
      if exists m.unit && sys.unit_remove_fails
      then (err (failed "cannot remove unit"), m)
      else (ok tt, record m { unit = none })

  abbrev pub remove_drop_in : Action M (Unit {0})
  remove_drop_in m =
      if exists m.drop_in && sys.drop_in_remove_fails
      then (err (failed "cannot remove drop-in"), m)
      else (ok tt, record m { drop_in = none })

  unfoldable pub uninstall : Action M (Unit {0})
  uninstall = do
    check_root
    check_installed
    try_manager stop
    try_manager disable
    try_manager daemon_reload
    remove_unit
    remove_drop_in
    try_manager daemon_reload

  unfoldable pub start_service : Action M (Unit {0})
  start_service = do
    check_root
    check_installed
    need_manager start (pure tt) (failed "systemctl start failed")

  unfoldable pub stop_service : Action M (Unit {0})
  stop_service = do
    check_root
    check_installed
    need_manager stop (pure tt) (failed "systemctl stop failed")
