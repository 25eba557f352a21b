-- ===== src/Service/Purge/Unknown.antt =====
-- Purge of a service whose state systemctl does not tell.
use raxd.Prelude.{◌≡◌, refl, Bool, true, false, some, List, Bytes, codes, arith, ap, ◌∙◌}
use raxd.Prelude.Exec.{ok}
use raxd.Service.{Config, PurgeOptions, PurgeReport}
use raxd.Service.Paths.{validate_purge_path}
use raxd.Service.Passwd.{ran_well, verify_target_user_linux}
use raxd.Service.Systemd.{Machine, System, uninstall}
use raxd.Service.Systemd.Report.{status}
use raxd.Service.Systemd.Rollback.{uninstall_lem}
use raxd.Service.Purge.{Removal, without_dir, roots, present, absent, destroy, checks, purge}
use raxd.Service.Purge.Order.{uninstall-Same}

module _ {M : Type 0} (sys : System M) (rm : Removal M) (cfg : Config) (opts : PurgeOptions) where
  status_unknown :
      (m : Machine M) (s : Bytes)
      → m.unit ≡ some s
      → ran_well (sys.show m.manager).0 ≡ false
      → (status sys m).active ≡ false
  unfolding status
  status_unknown m s u f = ground arith

  -- The report where no account is there.
  abbrev report : Bool → Machine M → PurgeReport
  report uninstalled m =
      let dirs = present sys rm cfg m.dirs (roots sys rm cfg) in
      record {
        platform = codes "linux";
        stopped = false;
        uninstalled = uninstalled;
        user_removed = false;
        user_absent = true;
        dirs_removed = dirs;
        dirs_absent = absent sys rm cfg dirs (roots sys rm cfg);
      }

  abbrev cleared : Machine M → List Bytes
  cleared m = without_dir cfg.config_dir (without_dir cfg.state_dir m.dirs)

  destroys :
      (b : Bool) (m : Machine M)
      → rm.remove_all_fails cfg.state_dir ≡ false
      → rm.remove_all_fails cfg.config_dir ≡ false
      → ((destroy sys rm cfg opts false b false m).0 ≡ ok (report b m))
        × ((destroy sys rm cfg opts false b false m).1.dirs ≡ cleared m)
  unfolding destroy
  destroys b m s c = ground arith

  checks-destroy :
      (b : Bool) (m : Machine M)
      → validate_purge_path rm.links cfg.state_dir (roots sys rm cfg) ≡ ok tt
      → validate_purge_path rm.links cfg.config_dir (roots sys rm cfg) ≡ ok tt
      → verify_target_user_linux (rm.getent m.manager) cfg.user ≡ ok false
      → checks sys rm cfg opts false b m ≡ destroy sys rm cfg opts false b false m
  checks-destroy b m v w g = rw (v, w, g) refl

  purge-checks :
      (m : Machine M) (s : Bytes)
      → sys.is_root ≡ true
      → opts.confirmed ≡ true
      → m.unit ≡ some s
      → ran_well (sys.show m.manager).0 ≡ false
      → sys.unit_remove_fails ≡ false
      → sys.drop_in_remove_fails ≡ false
      → purge sys rm cfg opts m ≡ checks sys rm cfg opts false true (uninstall sys m).1
  unfolding purge
  purge-checks m s r c u f a b =
      ground (arith, status_unknown m s u f, uninstall_lem sys m s r u a b)

  -- Let the unit be there and systemctl show fail, so that it is not known whether the service
  -- runs. Let both paths be valid, getent find no account, and the unit, the drop-in and both
  -- directories be removable. Then a confirmed Purge as root removes both directories and reports
  -- success without a stop, however systemctl stop ends.
  pub purge_unknown :
      (m : Machine M) (s : Bytes)
      → sys.is_root ≡ true
      → opts.confirmed ≡ true
      → m.unit ≡ some s
      → ran_well (sys.show m.manager).0 ≡ false
      → sys.unit_remove_fails ≡ false
      → sys.drop_in_remove_fails ≡ false
      → validate_purge_path rm.links cfg.state_dir (roots sys rm cfg) ≡ ok tt
      → validate_purge_path rm.links cfg.config_dir (roots sys rm cfg) ≡ ok tt
      → verify_target_user_linux (rm.getent (uninstall sys m).1.manager) cfg.user ≡ ok false
      → rm.remove_all_fails cfg.state_dir ≡ false
      → rm.remove_all_fails cfg.config_dir ≡ false
      → (report : PurgeReport) × ((purge sys rm cfg opts m).0 ≡ ok report)
        × (report.stopped ≡ false)
        × ((purge sys rm cfg opts m).1.dirs
            ≡ without_dir cfg.config_dir (without_dir cfg.state_dir m.dirs))
  purge_unknown m s r c u f a b v w g x y =
      let n = (uninstall sys m).1 in
      let (replied, dirs) = destroys true n x y in
      let same = (uninstall-Same sys rm cfg m).0 in
      let all = purge-checks m s r c u f a b in
      (
        report true n,
        rw (all, checks-destroy true n v w g) replied,
        refl,
        rw (all, checks-destroy true n v w g)
            (dirs
              ∙ ap (λ (l : List Bytes). without_dir cfg.config_dir (without_dir cfg.state_dir l))
                  same),
      )
