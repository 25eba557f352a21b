-- ===== src/Tests/Managers.antt =====
-- The managers and the service commands on concrete machines.
use raxd.Prelude.{ℕ, ◌≡◌, ◌≢◌, refl, true, false, not, some, none, [], codes}
use raxd.Prelude.Exec.{ok}
use raxd.Prelude.Int.{pos}
use raxd.Service.Systemd.{Machine, System, done, exists, uninstall}
use raxd.Service.Launchd.{Mac, Darwin}
use raxd.Service.Launchd as Launchd
use raxd.Service.Launchd.Purge.{Removal}
use raxd.Service.Paths.{leads_to}
use raxd.Service.Passwd.{exited}
use raxd.Service.Manager.{systemd_manager, launchd_manager}
use raxd.Service.Manager.Laws.{Laws, systemd-Laws, launchd-Laws}
use raxd.Cli.Service.{Session, run_install, run_uninstall}
use raxd.Cli.Service.Commands.{run_uninstall_twice, unprivileged_harmless}
use raxd.Tests.Services.{raxd_service, quiet_system, removal, installed}

abbrev quiet_mac : Darwin ℕ
quiet_mac = record {
  is_root = true;
  stat_fails = false;
  mkdir_fails = λ d. false;
  plist_write = done;
  plist_remove_fails = false;
  launchctl = λ verb n. (exited 0, n);
  chown = λ account d n. true;
  print = λ n. (exited 1, []);
  scan_pid = λ line. none;
}

abbrev mac_removal : Removal ℕ
mac_removal = record {
  links = record { home = some (codes "/root"); eval_symlinks = leads_to };
  dscl_read = λ n user. (exited 1, []);
  dscl_delete = λ user n. (none, n);
  remove_all_fails = λ d. false;
}

abbrev not_root : System ℕ
not_root = record quiet_system { is_root = false }

abbrev session : Session (Machine ℕ)
session = record { host = installed; console = [] }

systemd-Laws_example :
    Laws (systemd_manager quiet_system removal raxd_service) true (not false) (λ m. exists m.unit)
systemd-Laws_example = systemd-Laws quiet_system removal raxd_service

launchd-Laws_example :
    Laws
      (launchd_manager quiet_mac mac_removal raxd_service)
      true
      (not false)
      (λ m. Launchd.exists m.plist)
launchd-Laws_example = launchd-Laws quiet_mac mac_removal raxd_service

run_uninstall_twice_example :
    ((run_uninstall
        (codes "linux")
        true
        false
        false
        (ok (systemd_manager quiet_system removal raxd_service, pos 0))
        (run_uninstall
          (codes "linux")
          true
          false
          false
          (ok (systemd_manager quiet_system removal raxd_service, pos 0))
          session).1).0
      ≡ ok tt)
    × ((run_uninstall
          (codes "linux")
          true
          false
          false
          (ok (systemd_manager quiet_system removal raxd_service, pos 0))
          (run_uninstall
            (codes "linux")
            true
            false
            false
            (ok (systemd_manager quiet_system removal raxd_service, pos 0))
            session).1).1.host
        ≡ (run_uninstall
            (codes "linux")
            true
            false
            false
            (ok (systemd_manager quiet_system removal raxd_service, pos 0))
            session).1.host)
unfolding run_uninstall uninstall
run_uninstall_twice_example =
    run_uninstall_twice (systemd_manager quiet_system removal raxd_service) (pos 0) (codes "linux")
      true true true (λ m. exists m.unit) (systemd-Laws quiet_system removal raxd_service) session
      refl refl refl

unprivileged_harmless_example :
    ((run_install
        (codes "linux")
        true
        (ok (systemd_manager not_root removal raxd_service, pos 0))
        session).0
      ≢ ok tt)
    × ((run_install
          (codes "linux")
          true
          (ok (systemd_manager not_root removal raxd_service, pos 0))
          session).1.host
        ≡ installed)
    × ((run_uninstall
          (codes "linux")
          true
          true
          true
          (ok (systemd_manager not_root removal raxd_service, pos 0))
          session).0
        ≢ ok tt)
    × ((run_uninstall
          (codes "linux")
          true
          true
          true
          (ok (systemd_manager not_root removal raxd_service, pos 0))
          session).1.host
        ≡ installed)
unprivileged_harmless_example =
    unprivileged_harmless (systemd_manager not_root removal raxd_service) (pos 0) (codes "linux")
      true false true (λ m. exists m.unit) (systemd-Laws not_root removal raxd_service) true true
      session refl
