-- ===== src/Tests/Services.antt =====
-- Install, Uninstall and Purge on a concrete machine.
use raxd.Prelude.{
  ℕ, ◌≡◌, ◌≢◌, ◌⊎◌, refl, true, false, some, none, [], ◌∷◌, ◌++◌, Bytes, bytes_eq, codes, take,
}
use raxd.Prelude.Exec.{ok, err}
use raxd.Prelude.Int.{pos}
use raxd.Service.{
  Config, PurgeOptions, PurgeReport, wrap_err, already_installed, manager_unavailable,
}
use raxd.Server.Audit.{text}
use raxd.Service.Paths.{
  leads_to, clean, is_abs, slash, one_of, blocked_system_roots, validate_purge_path,
  is_equal_or_ancestor, has_prefix, is_inside,
}
use raxd.Service.Paths.Safety.{Below, validate_purge_path-ok}
use raxd.Service.Passwd.{exited, split, verify_target_user_linux}
use raxd.Service.Templates.{
  template_data_from_config, validate_template_data, is_posix_name, is_label, has_control_char,
  unlines,
}
use raxd.Service.Templates.Unit.{unit_lines, render_unit}
use raxd.Service.Templates.Injection.{render_unit-lines}
use raxd.Service.Systemd.{Machine, System, done, put_files, register, partly, install, uninstall}
use raxd.Service.Systemd.Rollback.{install-err, partial_unit_stays}
use raxd.Service.Purge.{Removal, purge, without_dir}
use raxd.Service.Purge.Order.{Checked, purge_order}
use raxd.Service.Purge.Unknown.{purge_unknown}

abbrev pub raxd_service : Config
raxd_service = record {
  exec_path = codes "/usr/local/bin/raxd";
  port = pos 8443;
  user = codes "raxd";
  group = codes "raxd";
  label = codes "com.oemtech.raxd";
  state_dir = codes "/var/lib/raxd";
  config_dir = codes "/etc/raxd";
  log_path = codes "/var/log/raxd";
}

abbrev pub quiet_system : System ℕ
quiet_system = record {
  is_root = true;
  stat_fails = false;
  unit_write = done;
  drop_in_dir_fails = false;
  drop_in_write = done;
  unit_remove_fails = false;
  drop_in_remove_fails = false;
  systemctl = λ verb n. (exited 0, n);
  show = λ n. (exited 1, []);
  proc_status = λ pid. none;
  useradd = λ user n. (exited 0, n);
}

abbrev no_manager : System ℕ
no_manager = record quiet_system { systemctl = λ verb n. (exited 1, n) }

abbrev full_disk : System ℕ
full_disk = record quiet_system { unit_write = partly 3 }

abbrev pub clean_machine : Machine ℕ
clean_machine = record {
  unit = none;
  drop_in = none;
  dirs = codes "/var/lib/raxd" ∷ codes "/etc/raxd" ∷ [];
  manager = 0;
  intents = [];
}

abbrev pub installed : Machine ℕ
installed = record clean_machine { unit = some (codes "[Unit]") }

abbrev pub removal : Removal ℕ
removal = record {
  links = record { home = some (codes "/root"); eval_symlinks = leads_to };
  getent = λ n user. (exited 2, []);
  userdel = λ user n. (exited 0, n);
  remove_all_fails = λ d. false;
}

abbrev confirmed : PurgeOptions
confirmed = record { confirmed = true; audit_out = true }

abbrev unit_of_raxd : Bytes
unit_of_raxd = unlines (unit_lines (template_data_from_config raxd_service))

purge_order_example :
    ((purge quiet_system removal raxd_service confirmed installed).1.dirs ≡ installed.dirs)
    ⊎ Checked quiet_system removal raxd_service confirmed installed
purge_order_example = purge_order quiet_system removal raxd_service confirmed installed

purge_unknown_example :
    (report : PurgeReport) × ((purge quiet_system removal raxd_service confirmed installed).0
      ≡ ok report)
    × (report.stopped ≡ false)
    × ((purge quiet_system removal raxd_service confirmed installed).1.dirs
        ≡ without_dir (codes "/etc/raxd") (without_dir (codes "/var/lib/raxd") installed.dirs))
unfolding validate_purge_path clean verify_target_user_linux uninstall bytes_eq is_equal_or_ancestor
    has_prefix one_of blocked_system_roots is_inside
purge_unknown_example =
    purge_unknown quiet_system removal raxd_service confirmed installed (codes "[Unit]") refl refl
      refl refl refl refl refl refl refl refl refl

validate_purge_path-ok_example :
    (clean (codes "/etc/raxd") ≡ codes "/etc/raxd")
    × (is_abs (codes "/etc/raxd") ≡ true)
    × (codes "/etc/raxd" ≢ 47 ∷ [])
    × (one_of (codes "/etc/raxd") blocked_system_roots ≡ false)
    × (codes "/root" ≢ codes "/etc/raxd")
    × ((rest : Bytes) → codes "/root" ≢ slash (codes "/etc/raxd") ++ rest)
    × Below (codes "/etc/raxd") (codes "/etc/raxd" ∷ [])
unfolding validate_purge_path clean bytes_eq is_equal_or_ancestor has_prefix one_of
    blocked_system_roots is_inside
validate_purge_path-ok_example =
    validate_purge_path-ok removal.links (codes "/etc/raxd") (codes "/etc/raxd") (codes "/root")
      (codes "/etc/raxd" ∷ []) refl refl refl

install-err_example :
    ((install no_manager raxd_service clean_machine).1.unit ≡ none)
    × ((install no_manager raxd_service clean_machine).1.drop_in ≡ none)
unfolding install put_files register render_unit validate_template_data is_posix_name
    template_data_from_config is_label has_control_char bytes_eq
install-err_example =
    install-err no_manager raxd_service clean_machine
      {e = wrap_err manager_unavailable (text "systemctl daemon-reload failed" ∷ [])} refl refl refl
      refl refl refl refl

partial_unit_stays_example :
    ((install full_disk raxd_service clean_machine).0 ≢ ok tt)
    × ((install full_disk raxd_service clean_machine).1.unit ≡ some (take 3 unit_of_raxd))
    × (install quiet_system raxd_service (install full_disk raxd_service clean_machine).1
        ≡ (err (wrap_err already_installed []), (install full_disk raxd_service clean_machine).1))
unfolding render_unit validate_template_data is_posix_name template_data_from_config is_label
    has_control_char bytes_eq
partial_unit_stays_example =
    partial_unit_stays full_disk raxd_service clean_machine quiet_system 3 {s = unit_of_raxd} refl
      refl refl refl refl refl refl

render_unit-lines_example :
    split 10 unit_of_raxd ≡ unit_lines (template_data_from_config raxd_service) ++ [] ∷ []
unfolding render_unit validate_template_data is_posix_name template_data_from_config is_label
    has_control_char bytes_eq
render_unit-lines_example =
    render_unit-lines (template_data_from_config raxd_service) {s = unit_of_raxd} refl
