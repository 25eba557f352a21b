-- ===== src/Cli/Service/Messages.antt =====
-- internal/cli/service.go: the texts that the commands print.
use raxd.Prelude.{
  ℕ, zero, suc, ◌-◌, Bool, true, false, not, ◌||◌, List, [], ◌∷◌, ◌++◌, Bytes, bytes_eq, codes,
  length, String, if◌then◌else◌,
}
use raxd.Prelude.Int.{ℤ, pos, ltb_ℤ}
use raxd.Server.Audit.{Message, text, bytes, number}
use raxd.Service.{
  Sentinel, ServiceError, already_installed, not_installed, manager_unavailable, permission,
  unsupported, user_mismatch, suspicious_path, Status, PurgeReport, default_config_for_goos,
}
use raxd.Cli.{Line, stdout, stderr, info, blank}

pub record ServiceErrorMsg : Type 0 where
  pub err : Message
  pub hints : List String

abbrev pub hint_lines : List String → List Line
hint_lines [] = []
hint_lines (h ∷ hs) = stderr (text "  hint: " ∷ text h ∷ []) ∷ hint_lines hs

unfoldable pub print_svc_error : ServiceErrorMsg → List Line
print_svc_error msg = stderr (text "error: " ∷ msg.err) ∷ hint_lines msg.hints

abbrev pub says : String → List String → ServiceErrorMsg
says err hints = record { err = text err ∷ []; hints = hints }

-- By the sentinel that errors.Is finds; the text of another error is its detail.
abbrev pub manager_message : Message → Sentinel → ServiceErrorMsg
manager_message detail permission = says "insufficient privileges to install the service" (
    "run as root or with sudo: sudo raxd service install"
    ∷ "installation requires root to write system service files" ∷ [])
manager_message detail manager_unavailable =
    says "service manager is not available"
      ("ensure systemd (Linux) or launchd (macOS) is running" ∷ [])
manager_message detail unsupported =
    says "this platform is not supported"
      ("raxd service management is available on Linux and macOS only" ∷ [])
manager_message detail not_installed =
    says "raxd service is not installed" ("install it first with \"raxd service install\"" ∷ [])
manager_message detail already_installed =
    says "raxd service is already installed"
      ("use \"raxd service status\" to check the current state" ∷ [])
manager_message detail _ = record {
  err = text "service operation failed: " ∷ detail;
  hints = "run \"raxd service status\" to check current state" ∷ [];
}

unfoldable pub map_manager_error : ServiceError → ServiceErrorMsg
map_manager_error e = manager_message e.detail e.sentinel

abbrev pub purge_message : Sentinel → ServiceErrorMsg
purge_message permission =
    says "insufficient privileges to run purge"
      ("run as root or with sudo:" ∷ "        sudo raxd service uninstall --purge --yes" ∷ [])
purge_message user_mismatch =
    says "system user \"raxd\" does not match the expected raxd service account" (
      "the account may have been modified; inspect it before removing:" ∷ "        id raxd"
      ∷ "        getent passwd raxd" ∷ [])
purge_message suspicious_path =
    says "resolved path for state/config directory is outside the expected layout" (
      "inspect the raxd configuration for unexpected symlinks or path overrides:"
      ∷ "        raxd service status" ∷ [])
purge_message unsupported =
    says "this platform is not supported"
      ("raxd service management is available on Linux and macOS only" ∷ [])
purge_message manager_unavailable = says "raxd service did not stop within the timeout" (
    "check service status and stop it manually before purging:" ∷ "        sudo raxd service stop"
    ∷ "        sudo raxd service uninstall --purge --yes" ∷ [])
purge_message _ =
    says "purge operation failed" ("run \"raxd service status\" to check current state" ∷ [])

unfoldable pub map_purge_error : ServiceError → ServiceErrorMsg
map_purge_error e = purge_message e.sentinel

-- A text filled with blanks up to a width, as by `%-14s`.
unfoldable pub blanks : ℕ → Bytes
blanks zero = []
blanks (suc n) = 32 ∷ blanks n

abbrev pub pad : ℕ → String → Bytes
pad width name = codes name ++ blanks (width - length (codes name))

abbrev pub column : ℕ → String → Message → Message
column width name value = text "  " ∷ bytes (pad width name) ∷ text " " ∷ value

abbrev pub field : String → Message → Line
field name value = stderr (column 14 name value)

unfoldable pub print_purge_barrier : Bytes → List Line
unfolding default_config_for_goos
print_purge_barrier goos =
    let cfg = default_config_for_goos goos in
    stderr (text "warning: this operation is irreversible" ∷ [])
    ∷ stderr blank
    ∷ stderr (text "  The following will be permanently destroyed:" ∷ [])
    ∷ stderr blank
    ∷ stderr (text "  " ∷ column 8 "user" (text "raxd  (system account, no login shell)" ∷ []))
    ∷ stderr (text "  " ∷ column 8 "state" (bytes cfg.state_dir ∷ []))
    ∷ stderr (text "  " ∷ column 8 "config" (bytes cfg.config_dir ∷ []))
    ∷ stderr (
        text "  "
        ∷ column 8 "keys.db" (text "all API keys and audit log — cannot be recovered" ∷ []))
    ∷ stderr blank
    ∷ stderr (text "  hint: to confirm, re-run with --yes:" ∷ [])
    ∷ stderr (text "          sudo raxd service uninstall --purge --yes" ∷ [])
    ∷ []

abbrev pub dir_fields : String → List Bytes → List Line
dir_fields name [] = []
dir_fields name (d ∷ ds) = field name (bytes d ∷ []) ∷ dir_fields name ds

abbrev pub dirs_of : List Bytes → Message
dirs_of [] = []
dirs_of (d ∷ ds) = bytes d ∷ dirs_of ds

abbrev pub flag : Bool → Message
flag true = text "true" ∷ []
flag false = text "false" ∷ []

abbrev pub is_some : List Bytes → Bool
is_some [] = false
is_some (d ∷ ds) = true

abbrev pub unregistered_lines : Bool → Bool → List Line
unregistered_lines true linux =
    field "uninstalled" (text "raxd service" ∷ [])
    ∷ (if linux
        then field "removed" (text "unit file and autostart registration" ∷ [])
          ∷ field "removed" (text "journal size limit drop-in" ∷ [])
          ∷ []
        else field "removed" (text "plist file and autostart registration" ∷ []) ∷ [])
unregistered_lines false linux =
    field "not installed" (text "raxd service  [already unregistered]" ∷ []) ∷ []

abbrev pub user_lines : Bool → Bool → List Line
user_lines true absent = field "removed" (text "user raxd" ∷ []) ∷ []
user_lines false true = field "absent" (text "user raxd  [already removed]" ∷ []) ∷ []
user_lines false false = []

unfoldable pub print_purge_report : Bool → PurgeReport → List Line
print_purge_report linux r =
    info "purge complete" (
      ("action", text "purge" ∷ [])
      ∷ ("platform", bytes r.platform ∷ [])
      ∷ ("user_removed", flag r.user_removed)
      ∷ ("user_absent", flag r.user_absent)
      ∷ ("dirs_removed", dirs_of r.dirs_removed)
      ∷ ("dirs_absent", dirs_of r.dirs_absent)
      ∷ ("stopped", flag r.stopped)
      ∷ [])
    ∷ (if r.stopped
        then field "stopped" (text "raxd service" ∷ [])
        else field "not running" (text "raxd service" ∷ []))
    ∷ stderr blank
    ∷ (unregistered_lines r.uninstalled linux
        ++ stderr blank
          ∷ (user_lines r.user_removed r.user_absent
              ++ (dir_fields "removed" r.dirs_removed
                  ++ (dir_fields "absent" r.dirs_absent
                      ++ stderr blank
                        ∷ (if r.user_removed || is_some r.dirs_removed
                            then stderr (
                                text "  purge complete   raxd has been fully removed from this host"
                                ∷ [])
                            else stderr (
                                text "  purge complete   nothing to remove — host is already clean"
                                ∷ []))
                        ∷ []))))

unfoldable pub unit_display_path_for_os : Bytes → Bytes
unit_display_path_for_os goos =
    if bytes_eq goos (codes "darwin")
    then codes "/Library/LaunchDaemons/tech.oem.raxd.plist"
    else codes "/etc/systemd/system/raxd.service"

unfoldable pub manager_name_for_os : Bytes → Bytes
manager_name_for_os goos =
    if bytes_eq goos (codes "darwin") then codes "launchd" else codes "systemd"

abbrev pub out_field : String → Message → Line
out_field name value = stdout (column 12 name value)

unfoldable pub print_status_human : Bytes → Status → ℤ → List Line
unfolding unit_display_path_for_os manager_name_for_os
print_status_human goos st port =
    if not st.installed
    then out_field "installed" (text "no" ∷ [])
      ∷ stdout (text "  hint: install with \"raxd service install\"" ∷ [])
      ∷ []
    else out_field "installed" (text "yes" ∷ [])
      ∷ out_field "running" (text (if st.active then "yes" else "no") ∷ [])
      ∷ out_field "pid" (if ltb_ℤ (pos 0) st.pid then number st.pid ∷ [] else text "-" ∷ [])
      ∷ ((if ltb_ℤ (pos 0) st.euid then out_field "euid" (number st.euid ∷ []) ∷ [] else [])
          ++ out_field "user" (text "raxd  [not root]" ∷ [])
            ∷ ((if ltb_ℤ (pos 0) port then out_field "port" (number port ∷ []) ∷ [] else [])
                ++ out_field "autostart" (text "enabled" ∷ [])
                  ∷ out_field "unit" (bytes (unit_display_path_for_os goos) ∷ [])
                  ∷ out_field "manager" (bytes (manager_name_for_os goos) ∷ [])
                  ∷ out_field "state" (bytes st.state ∷ [])
                  ∷ (if st.active
                      then []
                      else stdout (text "  hint: start with \"raxd service start\"" ∷ []) ∷ [])))

abbrev pub quoted : String → Message → Line
quoted name value = stdout (text "  \"" ∷ text name ∷ text "\": \"" ∷ (value ++ text "\"," ∷ []))

abbrev pub plain : String → Message → Line
plain name value = stdout (text "  \"" ∷ text name ∷ text "\": " ∷ (value ++ text "," ∷ []))

-- The encoder's lines, with an indent of two; the texts here need no escapes but the state, which
-- is given as it is.
unfoldable pub print_status_json : Bytes → Status → ℤ → List Line
unfolding unit_display_path_for_os manager_name_for_os
print_status_json goos st port =
    stdout (text "{" ∷ [])
    ∷ plain "installed" (flag st.installed)
    ∷ plain "active" (flag st.active)
    ∷ plain "pid" (number st.pid ∷ [])
    ∷ plain "euid" (number st.euid ∷ [])
    ∷ quoted "user" (text (if st.installed then "raxd" else "") ∷ [])
    ∷ plain "port" (number port ∷ [])
    ∷ quoted "autostart" (text (if st.installed then "enabled" else "disabled") ∷ [])
    ∷ quoted "unit_path" (bytes (unit_display_path_for_os goos) ∷ [])
    ∷ quoted "state" (bytes st.state ∷ [])
    ∷ stdout (text "  \"manager\": \"" ∷ bytes (manager_name_for_os goos) ∷ text "\"" ∷ [])
    ∷ stdout (text "}" ∷ [])
    ∷ []
