-- ===== src/Service/Launchd.antt =====
-- internal/service/launchd.go: the manager for macOS, over the plist, the directories and the state
-- of launchd and of the accounts.
pub mod Purge
use raxd.Prelude.{
  ℕ, Bool, true, false, not, ◌&&◌, ◌||◌, Option, none, some, List, [], ◌∷◌, ◌++◌, Bytes, bytes_eq,
  codes, if◌then◌else◌, String, take,
}
use raxd.Prelude.Exec.{Exec, Result, ok, err, raise, lift, when, pure, ◌>>=◌, ◌>>◌}
use raxd.Prelude.Int.{ℤ, pos}
use raxd.Server.Audit.{Message, text, bytes}
use raxd.Server.Request.{strip_prefix}
use raxd.Service.{
  Config, Sentinel, ServiceError, wrap_err, already_installed, not_installed, manager_unavailable,
  permission, user_mismatch, no_sentinel, Status, PurgeIntent,
}
use raxd.Service.Paths.{has_prefix, one_of}
use raxd.Service.Passwd.{Exit, exited, not_run, ran_well, split, trim_space, is_no_login_shell}
use raxd.Service.Templates.{template_data_from_config}
use raxd.Service.Templates.Plist.{render_plist}
use raxd.Service.Systemd.{WriteEnd, done, nothing, partly, must_be_root}
use raxd.Service.Systemd.Report.{idle}

-- The subcommands of launchctl that change something.
pub data Verb : Type 0 where
  bootstrap enable bootout disable kickstart kill_sigterm : Verb

-- `owned` are the directories that chown -R has given to the account, and `intents` the audit records
-- of Purge.
pub record Mac (M : Type 0) : Type 0 where
  pub plist : Option Bytes
  pub dirs : List Bytes
  pub owned : List Bytes
  pub manager : M
  pub intents : List PurgeIntent

-- The programs that are called, which system calls of one operation fail, and what fmt.Sscanf reads
-- from a line `pid = ...`. `chown` is whether chown -R to the given user and group, joined by a colon,
-- succeeds on a directory.
pub record Darwin (M : Type 0) : Type 0 where
  pub is_root : Bool
  pub stat_fails : Bool
  pub mkdir_fails : Bytes → Bool
  pub plist_write : WriteEnd
  pub plist_remove_fails : Bool
  pub launchctl : Verb → M → Exit × M
  pub chown : Bytes → Bytes → M → Bool
  pub print : M → Exit × Bytes
  pub scan_pid : Bytes → Option ℤ

abbrev pub Action : Type 0 → Type 0 → Type 0
Action M A = Exec ServiceError (Mac M) A

abbrev pub failed : String → ServiceError
failed detail = wrap_err manager_unavailable (text detail ∷ [])

abbrev pub exists : Option Bytes → Bool
exists none = false
exists (some contents) = true

-- strings.Contains
unfoldable pub has_infix : Bytes → Bytes → Bool
unfolding has_prefix
has_infix p [] = has_prefix p []
has_infix p (c ∷ cs) = has_prefix p (c ∷ cs) || has_infix p cs

-- os.MkdirAll
abbrev pub with_dir : Bytes → List Bytes → List Bytes
with_dir d dirs = if one_of d dirs then dirs else d ∷ dirs

abbrev pub written : WriteEnd → Bytes → Option Bytes → Option Bytes
written done contents before = some contents
written nothing contents before = before
written (partly n) contents before = some (take n contents)

abbrev pub is_done : WriteEnd → Bool
is_done done = true
is_done nothing = false
is_done (partly n) = false

abbrev pub plist_text : Result String Bytes → Result ServiceError Bytes
plist_text (ok s) = ok s
plist_text (err field) =
    err (wrap_err no_sentinel (text "service install: render plist: " ∷ text field ∷ []))

-- The pid of the last line that has one.
unfoldable pub pid_of : (Bytes → Option ℤ) → ℤ → List Bytes → ℤ
unfolding has_prefix trim_space
pid_of scan pid [] = pid
pid_of scan pid (line ∷ lines) =
    let stripped = trim_space line in
    let found : ℤ = elim (scan stripped) [ none ↦ pid | some n ↦ n ] in
    pid_of scan (if has_prefix (codes "pid = ") stripped then found else pid) lines

abbrev pub printed : (Bytes → Option ℤ) → Exit → Bytes → Status
printed scan e out =
    if ran_well e
    then (let active = has_infix (codes "state = running") out in
        record {
          installed = true;
          active = active;
          pid = pid_of scan (pos 0) (split 10 out);
          euid = pos 0;
          state = (if active then codes "running" else codes "inactive");
        })
    else idle true (codes "unknown")

abbrev pub shell_result : Option Bytes → Option (Result ServiceError Bool)
shell_result none = none
shell_result (some shell) =
    if is_no_login_shell (trim_space shell)
    then some (ok true)
    else some (
        err
          (wrap_err user_mismatch (text "user has a login shell — not a raxd system account" ∷ [])))

abbrev pub first_of :
    Option (Result ServiceError Bool) → Result ServiceError Bool → Result ServiceError Bool
first_of none r = r
first_of (some r) rest = r

abbrev pub shell_of_lines : List Bytes → Result ServiceError Bool
shell_of_lines [] = err (failed "dscl: unexpected output format")
shell_of_lines (line ∷ lines) =
    first_of (shell_result (strip_prefix (codes "UserShell:") (trim_space line)))
      (shell_of_lines lines)

unfoldable pub parse_dscl_shell_output : Bytes → Result ServiceError Bool
unfolding strip_prefix trim_space is_no_login_shell split
parse_dscl_shell_output output = shell_of_lines (split 10 output)

-- A dscl that fails or cannot be run counts as an absent user.
unfoldable pub verify_target_user_darwin : (Bytes → Exit × Bytes) → Bytes → Result ServiceError Bool
unfolding parse_dscl_shell_output
verify_target_user_darwin dscl_read name =
    let (e, output) = dscl_read name in
    if ran_well e then parse_dscl_shell_output output else ok false

unfoldable pub map_dscl_delete_error : Bytes → Result ServiceError (Unit {0})
unfolding has_infix
map_dscl_delete_error stderr =
    if has_infix (codes "eDSRecordNotFound") stderr
      || has_infix (codes "Unknown node") stderr
      || has_infix (codes "No such record") stderr
    then ok tt
    else if has_infix (codes "Permission denied") stderr
        || has_infix (codes "Operation not permitted") stderr
        || has_infix (codes "eDSPermissionError") stderr
    then err (wrap_err permission (text "dscl delete: insufficient privileges" ∷ []))
    else err (failed "dscl delete failed")

module _ {M : Type 0} (sys : Darwin M) where
  abbrev pub check_root : Action M (Unit {0})
  check_root = when (not sys.is_root) (raise must_be_root)

  abbrev pub plist_missing : Mac M → Bool
  plist_missing m = not (exists m.plist) && not sys.stat_fails

  abbrev pub check_installed : Action M (Unit {0})
  check_installed m = (if plist_missing m then err (wrap_err not_installed []) else ok tt, m)

  abbrev pub run_launchctl : Verb → Mac M → Bool × Mac M
  run_launchctl verb m =
      let (e, s) = sys.launchctl verb m.manager in (ran_well e, record m { manager = s })

  abbrev pub try_launchctl : Verb → Action M (Unit {0})
  try_launchctl verb m = (ok tt, (run_launchctl verb m).1)

  abbrev pub unless_ok : Bool → Action M (Unit {0}) → Action M (Unit {0})
  unless_ok true cleanup m = (ok tt, m)
  unless_ok false cleanup m = cleanup m

  abbrev pub need_launchctl : Verb → Action M (Unit {0}) → String → Action M (Unit {0})
  need_launchctl verb cleanup detail m =
      let (well, m') = run_launchctl verb m in unless_ok well (cleanup >> raise (failed detail)) m'

  -- A chown that fails is ignored.
  abbrev pub chown_dir : Config → Bytes → List Bytes → M → List Bytes
  chown_dir cfg d owned s =
      if sys.chown (cfg.user ++ 58 ∷ cfg.group) d s then with_dir d owned else owned

  abbrev pub create_dir : Config → Bytes → Action M (Unit {0})
  create_dir cfg d m =
      if sys.mkdir_fails d
      then (
        err (
            wrap_err no_sentinel
              (text "service install: create dirs: cannot create " ∷ bytes d ∷ [])),
        m,
      )
      else (ok tt, record m { dirs = with_dir d m.dirs; owned = chown_dir cfg d m.owned m.manager })

  abbrev pub create_dirs : Config → Action M (Unit {0})
  create_dirs cfg =
      create_dir cfg cfg.state_dir >> create_dir cfg cfg.log_path >> create_dir cfg cfg.config_dir

  abbrev pub write_plist : Bytes → Action M (Unit {0})
  write_plist contents m = (
    if is_done sys.plist_write
        then ok tt
        else err (wrap_err no_sentinel (text "service install: write plist" ∷ [])),
    record m { plist = written sys.plist_write contents m.plist },
  )

  -- An error of os.Remove is ignored.
  abbrev pub rollback : Action M (Unit {0})
  rollback m = (ok tt, record m { plist = (if sys.plist_remove_fails then m.plist else none) })

  unfoldable pub install : Config → Action M (Unit {0})
  install cfg = do
    check_root
    λ m. (
      if exists m.plist && not sys.stat_fails then err (wrap_err already_installed []) else ok tt,
      m,
    )
    contents ← lift (plist_text (render_plist (template_data_from_config cfg)))
    create_dirs cfg
    write_plist contents
    need_launchctl bootstrap rollback "launchctl bootstrap failed"
    try_launchctl enable

  abbrev pub remove_plist : Action M (Unit {0})
  remove_plist m =
      if exists m.plist && sys.plist_remove_fails
      then (err (failed "cannot remove plist"), m)
      else (ok tt, record m { plist = none })

  unfoldable pub uninstall : Action M (Unit {0})
  uninstall = do
    check_root
    check_installed
    try_launchctl bootout
    try_launchctl disable
    remove_plist

  unfoldable pub start_service : Action M (Unit {0})
  start_service = do
    check_root
    check_installed
    need_launchctl kickstart (pure tt) "launchctl kickstart failed"

  unfoldable pub stop_service : Action M (Unit {0})
  stop_service = do
    check_root
    check_installed
    need_launchctl kill_sigterm (pure tt) "launchctl kill SIGTERM failed"

  unfoldable pub status : Mac M → Status
  unfolding has_infix pid_of split
  status m =
      if plist_missing m
      then idle false (codes "not installed")
      else (let (e, out) = sys.print m.manager in printed sys.scan_pid e out)
